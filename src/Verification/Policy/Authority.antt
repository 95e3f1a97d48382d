-- ===== src/Verification/Policy/Authority.antt =====
-- The subset invariant of verification/policy.py: nothing is published from a page that no
-- extractor was allowed to read it from.
use data_hub_backend.Base.{
  ◌≡◌, refl, subst, arith, String, String_eq, Bool, true, false, ◌&&◌, some, List, [], ◌∷◌, ◌==◌,
  Bool-cases, inl, inr,
}
use data_hub_backend.Base.Sets.{member, subset, member-subset}
use data_hub_backend.Verification.Policy.{
  get, field_authority, responsibilities_for, is_compatible, extraction_authority,
}

-- Every entry of the table is read by an extractor of its kind.
abbrev are_routed : List (String × List String) → Bool
are_routed [] = true
are_routed ((kind, categories) ∷ rest) =
    subset categories (extraction_authority kind) && are_routed rest

both_true : (a b : Bool) → (a && b) ≡ true → (a ≡ true) × (b ≡ true)
both_true true b h = (refl, h)
both_true false b h = absurd cc

get-routed :
    (table : List (String × List String)) (kind responsibility : String)
    → are_routed table ≡ true
    → member responsibility (get table kind []) ≡ true
    → member responsibility (extraction_authority kind) ≡ true
get-routed [] kind responsibility routed m = absurd cc
get-routed ((k, categories) ∷ rest) kind responsibility routed m =
    let (here, later) =
      both_true (subset categories (extraction_authority k)) (are_routed rest) routed in
    elim (Bool-cases (k == kind)) [
      | inl e ↦
          member-subset categories (extraction_authority kind) responsibility
            (subst (λ x. subset categories (extraction_authority x) ≡ true)
              ((String_eq.beq_iff k kind).0 e) here)
            (rw e at m)
      | inr e ↦ get-routed rest kind responsibility later (rw e at m)
    ]

field_authority_routed : are_routed field_authority ≡ true
unfolding extraction_authority
field_authority_routed = refl

-- Where a page of a responsibility may publish a field kind, the extractor that produces this kind
-- may read pages of that responsibility, whatever the kind and the responsibility.
pub is_compatible-routed :
    (kind responsibility : String)
    → is_compatible kind (some responsibility) ≡ true
    → member responsibility (extraction_authority kind) ≡ true
unfolding is_compatible responsibilities_for
is_compatible-routed kind responsibility h =
    get-routed field_authority kind responsibility field_authority_routed (ground arith)
