-- ===== src/Claims/Precedence/Order.antt =====
-- The verdicts of `compare` in claims/precedence.py, as an order on scopes.
use data_hub_backend.Base.{◌<◌, ◌≡◌, ◌↔◌, ◌⊎◌, true, false, arith}
use data_hub_backend.Base.Sets.{subset_trans, card_strict_subset}
use data_hub_backend.Claims.Precedence.{
  Precedence, left_wins, right_wins, ResolvedScope, can_publish, identities, specificity, contains,
  same_identities, compare, Identity_eq,
}

-- The verdict as seen from the other side.
abbrev pub mirror : Precedence → Precedence
mirror left_wins = right_wins
mirror right_wins = left_wins
mirror v = v

-- Swapping the two scopes swaps the winner, and changes no other verdict.
pub compare-mirror : (l r : ResolvedScope) → compare r l ≡ mirror (compare l r)
unfolding compare
compare-mirror l r = ground arith

-- `s` governs over `t`: `t` admits strictly more applicants, or the two admit the same ones and a
-- human resolved `s` alone.
abbrev pub Governs : ResolvedScope → ResolvedScope → Type 0
Governs s t =
    (can_publish s.state ≡ true)
    × (can_publish t.state ≡ true)
    × (((contains t s ≡ true) × (contains s t ≡ false))
        ⊎ ((contains t s ≡ true)
            × (contains s t ≡ true)
            × (s.human_resolved ≡ true)
            × (t.human_resolved ≡ false)))

-- The left scope wins exactly where it governs over the right one: both sides publish, and it is
-- strictly narrower, or it has the same criteria and alone is human-resolved.
pub compare-left_wins_iff : (l r : ResolvedScope) → (compare l r ≡ left_wins) ↔ Governs l r
unfolding compare
compare-left_wins_iff l r = (λ h. ground arith, λ h. ground arith)

-- U1 over U2: where the criteria differ, the winner has strictly more criteria, whoever resolved
-- the two scopes.
pub compare-more_specific :
    (l r : ResolvedScope)
    → compare l r ≡ left_wins
    → same_identities l r ≡ false
    → specificity r < specificity l
unfolding compare
compare-more_specific l r h d =
    card_strict_subset (identities r) (identities l) (ground arith) (ground arith)

-- Winning is transitive.
pub compare-left_wins_trans :
    (a b c : ResolvedScope)
    → compare a b ≡ left_wins
    → compare b c ≡ left_wins
    → compare a c ≡ left_wins
compare-left_wins_trans a b c h k =
    let g = (compare-left_wins_iff a b).0 h in
    let g' = (compare-left_wins_iff b c).0 k in
    let ia = identities a in
    let ib = identities b in
    let ic = identities c in
    (compare-left_wins_iff a c).1 (
      ground (
        arith,
        subset_trans ia ic ib,
        subset_trans ib ia ic,
        subset_trans ic ib ia,
        subset_trans ia ib ic,
      ))
