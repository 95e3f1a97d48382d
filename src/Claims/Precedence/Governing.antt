-- ===== src/Claims/Precedence/Governing.antt =====
-- `governing` of claims/precedence.py.
use mathlib.Core.List.{Memᴰ}
use data_hub_backend.Base.{
  ◌≡◌, refl, ◌⊎◌, inl, inr, true, false, none, some, List, [], ◌∷◌, arith, All, nat_eq_iff,
}
use data_hub_backend.Claims.Precedence.{
  left_wins, right_wins, incomparable, can_publish, compare, Ref, any_unscoped, survivor, beats_all,
  governing,
}
use data_hub_backend.Claims.Precedence.Order.{
  compare-mirror, compare-left_wins_trans, compare-left_wins_iff,
}

-- `w` is this very object, or it beats it.
abbrev pub Rules : Ref → Ref → Type 0
Rules w s = (s.address ≡ w.address) ⊎ (compare w.scope s.scope ≡ left_wins)

abbrev pub Publishes : Ref → Type 0
Publishes s = can_publish s.scope.state ≡ true

Rules-of_beats_all :
    (w : Ref) (scopes : List Ref) → beats_all w scopes ≡ true → All (Rules w) scopes
unfolding beats_all
Rules-of_beats_all w [] h = tt
Rules-of_beats_all w (s ∷ rest) h =
    (ground (arith, nat_eq_iff s.address w.address), Rules-of_beats_all w rest (ground arith))

beats_all_of_Rules :
    (w : Ref) (scopes : List Ref) → All (Rules w) scopes → beats_all w scopes ≡ true
unfolding beats_all
beats_all_of_Rules w [] h = refl
beats_all_of_Rules w (s ∷ rest) h =
    ground (arith, nat_eq_iff s.address w.address, beats_all_of_Rules w rest h.1, h.0)

Publishes-of_none : (scopes : List Ref) → any_unscoped scopes ≡ false → All Publishes scopes
unfolding any_unscoped
Publishes-of_none [] h = tt
Publishes-of_none (s ∷ rest) h = (ground arith, Publishes-of_none rest (ground arith))

none_of_Publishes : (scopes : List Ref) → All Publishes scopes → any_unscoped scopes ≡ false
unfolding any_unscoped
none_of_Publishes [] h = refl
none_of_Publishes (s ∷ rest) h = ground (arith, none_of_Publishes rest h.1, h.0)

survivor_step :
    (s c : Ref) (rest : List Ref) {w : Ref}
    → survivor s (c ∷ rest) ≡ some w
    → ((compare s.scope c.scope ≡ right_wins) × (survivor c rest ≡ some w))
      ⊎ ((compare s.scope c.scope ≡ left_wins) × (survivor s rest ≡ some w))
unfolding survivor
survivor_step s c rest h = ground arith

mem-survivor : (s : Ref) (rest : List Ref) {w : Ref} → survivor s rest ≡ some w → Memᴰ w (s ∷ rest)
unfolding survivor
mem-survivor s [] h = Memᴰ.head (ground arith)
mem-survivor s (c ∷ rest) h = elim (survivor_step s c rest h) [
  | inl (_, k) ↦ Memᴰ.tail (mem-survivor c rest k)
  | inr (_, k) ↦ skip (mem-survivor s rest k)
]
  where
    skip : {w : Ref} → Memᴰ w (s ∷ rest) → Memᴰ w (s ∷ c ∷ rest)
    skip (Memᴰ.head e) = Memᴰ.head e
    skip (Memᴰ.tail m) = Memᴰ.tail (Memᴰ.tail m)

governing_parts :
    (s : Ref) (rest : List Ref) {w : Ref}
    → governing (s ∷ rest) ≡ some w
    → (any_unscoped (s ∷ rest) ≡ false)
      × (survivor s rest ≡ some w)
      × (beats_all w (s ∷ rest) ≡ true)
unfolding governing
governing_parts s rest h = ground arith

-- The scope that `governing` returns is one of those given, every scope given can be published,
-- and it beats each of them that is another object.
pub governing-Rules :
    (scopes : List Ref) (w : Ref)
    → governing scopes ≡ some w
    → Memᴰ w scopes × All Publishes scopes × All (Rules w) scopes
unfolding governing
governing-Rules [] w h = absurd (ground arith)
governing-Rules (s ∷ rest) w h =
    let (p, f, b) = governing_parts s rest h in
    (mem-survivor s rest f, Publishes-of_none (s ∷ rest) p, Rules-of_beats_all w (s ∷ rest) b)

-- One of the two scopes wins.
abbrev pub Decides : Ref → Ref → Type 0
Decides a b = (compare a.scope b.scope ≡ left_wins) ⊎ (compare a.scope b.scope ≡ right_wins)

-- Each pair is decided.
abbrev pub Decided : List Ref → Type 0
Decided [] = Unit
Decided (s ∷ rest) = All (Decides s) rest × Decided rest

-- `w` is `s` or beats it.
abbrev Above : Ref → Ref → Type 0
Above w s = (w ≡ s) ⊎ (compare w.scope s.scope ≡ left_wins)

Above-trans : (w s c : Ref) → Above w s → compare s.scope c.scope ≡ left_wins → Above w c
Above-trans w s c (inl e) h = inr (rw e h)
Above-trans w s c (inr k) h = inr (compare-left_wins_trans w.scope s.scope c.scope k h)

Rules-of_Above : (w s : Ref) → Above w s → Rules w s
Rules-of_Above w s h = ground arith

survivor_total :
    (s : Ref) (rest : List Ref)
    → Decided (s ∷ rest)
    → (w : Ref) × (survivor s rest ≡ some w) × Above w s × All (Rules w) rest
unfolding survivor
survivor_total s [] d = (s, refl, inl refl, tt)
survivor_total s (c ∷ rest) d = elim d.0.0 [
  | inl wins ↦
      let (w, f, a, r) = survivor_total s rest (d.0.1, d.1.1) in
      (w, ground arith, a, (Rules-of_Above w c (Above-trans w s c a wins), r))
  | inr loses ↦
      let (w, f, a, r) = survivor_total c rest d.1 in
      let turned : compare c.scope s.scope ≡ left_wins =
        ground (arith, compare-mirror s.scope c.scope) in
      (w, ground arith, Above-trans w c s a turned, (Rules-of_Above w c a, r))
]

-- Where every scope can be published and every pair is decided, `governing` returns a scope.
pub governing_total :
    (s : Ref) (rest : List Ref)
    → All Publishes (s ∷ rest)
    → Decided (s ∷ rest)
    → (w : Ref) × (governing (s ∷ rest) ≡ some w)
unfolding governing
governing_total s rest p d =
    let (w, f, a, r) = survivor_total s rest d in
    let b = beats_all_of_Rules w (s ∷ rest) (Rules-of_Above w s a, r) in
    (w, ground (arith, none_of_Publishes (s ∷ rest) p))

-- The answer depends on the order of the list: where `c` beats both `a` and `b`, and neither of
-- those two contains the other, `c` governs if it stands first, and nothing does if it stands last.
pub governing_order :
    (a b c : Ref)
    → compare a.scope b.scope ≡ incomparable
    → compare c.scope a.scope ≡ left_wins
    → compare c.scope b.scope ≡ left_wins
    → (governing (c ∷ a ∷ b ∷ []) ≡ some c) × (governing (a ∷ b ∷ c ∷ []) ≡ none)
unfolding governing
governing_order a b c h k l = ground (
  arith,
  (compare-left_wins_iff c.scope a.scope).0 k,
  (compare-left_wins_iff c.scope b.scope).0 l,
)
