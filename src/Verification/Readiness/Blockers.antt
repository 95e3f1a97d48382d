-- ===== src/Verification/Readiness/Blockers.antt =====
-- What `blockers_for` of verification/readiness.py reports: each blocker exactly where its own
-- condition stands.
use data_hub_backend.Base.{
  ℕ, ◌+◌, ◌≡◌, refl, sym, ap, ◌∙◌, arith, String_eq, Bool, true, false, not, ◌&&◌, ◌||◌, ◌↔◌,
  Option, none, some, List, [], ◌∷◌, ◌++◌, ◌==◌, ℕ_eq, Option_eq, is_none, count, nat_eq_refl,
  if◌then◌else◌,
}
use data_hub_backend.Base.Sets.{beq_refl}
use data_hub_backend.Verification.Policy.{is_compatible}
use data_hub_backend.Verification.Readiness.{
  Blocker, not_current, not_accepted, source_not_eligible, domain_not_verified,
  responsibility_not_verified, responsibility_incompatible, mapping_not_promoted, source_superseded,
  scope_unresolved, conflict_present, locator_invalid, Row, no_blockers, ready, assessed,
  is_verified, is_active, append_if, append_mapping, blockers_for, Blocker_eq,
}

-- The mapping's claim is verified and in force.
abbrev pub mapping_stands : Row → Bool
mapping_stands row = is_verified row.mapping_status && is_active row.mapping_active

-- When each blocker is to be reported.
abbrev pub stands : Row → Blocker → Bool
stands row not_current = row.is_superseded
stands row not_accepted = not (row.decision_state == some "ACCEPTED")
stands row domain_not_verified = not (is_verified row.domain_status && is_active row.domain_active)
stands row responsibility_not_verified = not (mapping_stands row)
stands row mapping_not_promoted =
    mapping_stands row && not (row.promoted_source_id == some row.source_id)
stands row responsibility_incompatible = not (is_compatible row.field_kind row.responsibility)
stands row source_not_eligible = row.eligibility == "NOT_ELIGIBLE"
stands row source_superseded = not (is_none row.superseded_by_source_id)
stands row scope_unresolved = row.scope_unresolved
stands row conflict_present = false
stands row locator_invalid = false

abbrev pub occurrences : Blocker → List Blocker → ℕ
occurrences b found = count (λ x. b == x) found

abbrev pub one_if : Bool → ℕ
one_if true = 1
one_if false = 0

count-appended :
    (b x : Blocker) (found : List Blocker)
    → occurrences b (found ++ x ∷ []) ≡ occurrences b found + one_if (b == x)
count-appended b x [] = ground arith
count-appended b x (y ∷ found) = ground (arith, count-appended b x found)

one_if_both : (a b : Bool) → one_if (b && a) ≡ (if a then one_if b else 0)
one_if_both true true = refl
one_if_both true false = refl
one_if_both false true = refl
one_if_both false false = refl

count-append_if :
    (b : Blocker) (test : Bool) (x : Blocker) (found : List Blocker)
    → occurrences b (append_if test x found) ≡ occurrences b found + one_if ((b == x) && test)
count-append_if b true x found = ground (arith, count-appended b x found, one_if_both true (b == x))
count-append_if b false x found = ground (arith, one_if_both false (b == x))

count-append_mapping :
    (b : Blocker) (verified active promoted : Bool) (found : List Blocker)
    → occurrences b (append_mapping verified active promoted found)
      ≡ occurrences b found
        + one_if ((b == responsibility_not_verified) && not (verified && active))
        + one_if ((b == mapping_not_promoted) && (verified && active && not promoted))
count-append_mapping b true true promoted found = omega (
  arith,
  count-append_if b (not promoted) mapping_not_promoted found,
  one_if_both false (b == responsibility_not_verified),
)
count-append_mapping b true false promoted found = omega (
  arith,
  count-appended b responsibility_not_verified found,
  one_if_both true (b == responsibility_not_verified),
  one_if_both false (b == mapping_not_promoted),
)
count-append_mapping b false active promoted found = omega (
  arith,
  count-appended b responsibility_not_verified found,
  one_if_both true (b == responsibility_not_verified),
  one_if_both false (b == mapping_not_promoted),
)

either_fails : (a b : Bool) → (not a || not b) ≡ not (a && b)
either_fails true b = refl
either_fails false b = refl

-- All of the list, by its blockers.
count-blockers_for :
    (b : Blocker) (row : Row)
    → occurrences b (blockers_for row)
      ≡ one_if ((b == not_current) && stands row not_current)
        + one_if ((b == not_accepted) && stands row not_accepted)
        + one_if ((b == domain_not_verified) && stands row domain_not_verified)
        + one_if ((b == responsibility_not_verified) && stands row responsibility_not_verified)
        + one_if ((b == mapping_not_promoted) && stands row mapping_not_promoted)
        + one_if ((b == responsibility_incompatible) && stands row responsibility_incompatible)
        + one_if ((b == source_not_eligible) && stands row source_not_eligible)
        + one_if ((b == source_superseded) && stands row source_superseded)
        + one_if ((b == scope_unresolved) && stands row scope_unresolved)
unfolding blockers_for
count-blockers_for b row =
    rw (either_fails (is_verified row.domain_status) (is_active row.domain_active)) (
      omega (
        arith,
        count-append_if b row.is_superseded not_current [],
        count-append_if b (stands row not_accepted) not_accepted f1,
        count-append_if b (stands row domain_not_verified) domain_not_verified f2,
        count-append_mapping b (is_verified row.mapping_status) (is_active row.mapping_active)
            (row.promoted_source_id == some row.source_id) f3,
        count-append_if b (stands row responsibility_incompatible) responsibility_incompatible f4,
        count-append_if b (stands row source_not_eligible) source_not_eligible f5,
        count-append_if b (stands row source_superseded) source_superseded f6,
        count-append_if b row.scope_unresolved scope_unresolved f7,
      ))
  where
    f1 : List Blocker
    f1 = append_if row.is_superseded not_current []

    f2 : List Blocker
    f2 = append_if (stands row not_accepted) not_accepted f1

    f3 : List Blocker
    f3 = append_if (stands row domain_not_verified) domain_not_verified f2

    f4 : List Blocker
    f4 =
        append_mapping (is_verified row.mapping_status) (is_active row.mapping_active)
          (row.promoted_source_id == some row.source_id) f3

    f5 : List Blocker
    f5 = append_if (stands row responsibility_incompatible) responsibility_incompatible f4

    f6 : List Blocker
    f6 = append_if (stands row source_not_eligible) source_not_eligible f5

    f7 : List Blocker
    f7 = append_if (stands row source_superseded) source_superseded f6

-- Each blocker is reported exactly once where the code's own condition for it stands, and not at all
-- elsewhere, whatever else holds the candidate up. RESPONSIBILITY_INCOMPATIBLE is reported of a
-- mapping that is not verified too, although it is documented for verified ones; a conflict and a
-- broken locator are never reported.
pub blockers_for-stands :
    (row : Row) (b : Blocker) → occurrences b (blockers_for row) ≡ one_if (stands row b)
blockers_for-stands row not_current = omega (arith, count-blockers_for not_current row)
blockers_for-stands row b = omega (arith, count-blockers_for b row)

-- What the code asks of a promotable candidate.
pub record IsPromotable (row : Row) : Type 0 where
  pub current : row.is_superseded ≡ false
  pub accepted : row.decision_state ≡ some "ACCEPTED"
  pub host_verified : (is_verified row.domain_status && is_active row.domain_active) ≡ true
  pub page_verified : mapping_stands row ≡ true
  pub promoted_here : row.promoted_source_id ≡ some row.source_id
  pub compatible : is_compatible row.field_kind row.responsibility ≡ true
  pub eligible : (row.eligibility == "NOT_ELIGIBLE") ≡ false
  pub not_replaced : row.superseded_by_source_id ≡ none
  pub scoped : row.scope_unresolved ≡ false

none_of_empty :
    (found : List Blocker) → no_blockers found ≡ true → (b : Blocker) → occurrences b found ≡ 0
none_of_empty [] h b = refl
none_of_empty (x ∷ found) h b = absurd cc

empty_of_none :
    (found : List Blocker) → ((b : Blocker) → occurrences b found ≡ 0) → no_blockers found ≡ true
empty_of_none [] h = refl
empty_of_none (x ∷ found) h = absurd (ground (arith, h x, beq_refl x))

no_one : (b : Bool) → one_if b ≡ 0 → b ≡ false
no_one true h = absurd (omega (arith, h))
no_one false h = refl

not-false : (b : Bool) → not b ≡ false → b ≡ true
not-false true h = refl
not-false false h = absurd cc

missing : {A : Type 0} (o : Option A) → not (is_none o) ≡ false → o ≡ none
missing none h = refl
missing (some a) h = absurd cc

second_false : (a b : Bool) → a ≡ true → (a && b) ≡ false → b ≡ false
second_false true b h k = k
second_false false b h k = absurd cc

clear_of : (row : Row) → IsPromotable row → (b : Blocker) → stands row b ≡ false
clear_of row h not_current = h.current
clear_of row h not_accepted = rw h.accepted refl
clear_of row h source_not_eligible = h.eligible
clear_of row h domain_not_verified = rw h.host_verified refl
clear_of row h responsibility_not_verified = rw h.page_verified refl
clear_of row h responsibility_incompatible = rw h.compatible refl
clear_of row h mapping_not_promoted =
    rw h.page_verified (rw h.promoted_here (rw (nat_eq_refl row.source_id) refl))
clear_of row h source_superseded = rw h.not_replaced refl
clear_of row h scope_unresolved = h.scoped
clear_of row h conflict_present = refl
clear_of row h locator_invalid = refl

-- A candidate is ready exactly if it is current and accepted, its host and its page's claim to the
-- responsibility are verified and in force, the mapping is promoted onto this very source, the
-- responsibility authorises the field, the source's eligibility is not NOT_ELIGIBLE and it is not
-- replaced, and the scope is resolved. An eligibility of TARGET_SCOPE_ONLY does not hold it up,
-- although such a source may never support a published fact.
pub ready-IsPromotable : (row : Row) → (ready (assessed row) ≡ true) ↔ IsPromotable row
ready-IsPromotable row = (
  λ h.
      let clear : (b : Blocker) → stands row b ≡ false = λ b.
        no_one (stands row b)
          (sym (blockers_for-stands row b) ∙ none_of_empty (blockers_for row) h b) in
      let page = not-false (mapping_stands row) (clear responsibility_not_verified) in
      record {
        current = clear not_current;
        accepted =
            (Option_eq.beq_iff row.decision_state (some "ACCEPTED")).0
              (not-false (row.decision_state == some "ACCEPTED") (clear not_accepted));
        host_verified = not-false _ (clear domain_not_verified);
        page_verified = page;
        promoted_here =
            (Option_eq.beq_iff row.promoted_source_id (some row.source_id)).0
              (not-false _ (second_false (mapping_stands row) _ page (clear mapping_not_promoted)));
        compatible = not-false _ (clear responsibility_incompatible);
        eligible = clear source_not_eligible;
        not_replaced = missing row.superseded_by_source_id (clear source_superseded);
        scoped = clear scope_unresolved;
      },
  λ h.
      empty_of_none (blockers_for row)
        (λ b. blockers_for-stands row b ∙ ap one_if (clear_of row h b)),
)
