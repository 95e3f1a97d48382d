-- ===== src/Verification/Readiness.antt =====
-- verification/readiness.py: what holds a candidate up. The rows of `READINESS_SQL` are an argument.
pub mod Blockers
pub mod Summary
use data_hub_backend.Base.{
  ℕ, suc, ◌+◌, String, Bool, true, false, not, ◌&&◌, ◌||◌, ◌↔◌, ◌≡◌, refl, sym, ap, ◌∙◌, Option,
  none, some, List, [], ◌∷◌, ◌++◌, ◌==◌, Eq, String_eq, ℕ_eq, Option_eq, is_none, leb, nat_eq,
  nat_eq_iff, if◌then◌else◌,
}
use data_hub_backend.Verification.Policy.{is_compatible}

-- `Blocker` of verification/policy.py.
pub data Blocker : Type 0 where
  not_current : Blocker
  not_accepted : Blocker
  source_not_eligible : Blocker
  domain_not_verified : Blocker
  responsibility_not_verified : Blocker
  responsibility_incompatible : Blocker
  mapping_not_promoted : Blocker
  source_superseded : Blocker
  scope_unresolved : Blocker
  conflict_present : Blocker
  locator_invalid : Blocker

-- The columns that are read; an outer join leaves those of the domain and of the mapping empty.
pub record Row : Type 0 where
  pub candidate_id : ℕ
  pub field_kind : String
  pub responsibility : Option String
  pub decision_state : Option String
  pub is_superseded : Bool
  pub scope_unresolved : Bool
  pub source_id : ℕ
  pub eligibility : String
  pub superseded_by_source_id : Option ℕ
  pub domain_status : Option String
  pub domain_active : Option Bool
  pub mapping_status : Option String
  pub mapping_active : Option Bool
  pub promoted_source_id : Option ℕ

pub record Readiness : Type 0 where
  pub candidate_id : ℕ
  pub field_kind : String
  pub responsibility : Option String
  pub blockers : List Blocker

abbrev pub no_blockers : List Blocker → Bool
no_blockers [] = true
no_blockers (b ∷ rest) = false

-- `Readiness.ready`
abbrev pub ready : Readiness → Bool
ready r = no_blockers r.blockers

abbrev pub is_verified : Option String → Bool
is_verified none = false
is_verified (some status) = status == "VERIFIED_OFFICIAL" || status == "AUTHORIZED_EXTERNAL"

abbrev pub is_active : Option Bool → Bool
is_active none = false
is_active (some active) = active

-- `if test: found.append(blocker)`
abbrev pub append_if : Bool → Blocker → List Blocker → List Blocker
append_if true blocker found = found ++ blocker ∷ []
append_if false blocker found = found

-- The branch on the mapping: verified, active, and promoted onto this source.
abbrev pub append_mapping : Bool → Bool → Bool → List Blocker → List Blocker
append_mapping verified active promoted found =
    if not verified || not active
    then found ++ responsibility_not_verified ∷ []
    else append_if (not promoted) mapping_not_promoted found

unfoldable pub blockers_for : Row → List Blocker
unfolding is_compatible
blockers_for row =
    let host_fails = not (is_verified row.domain_status) || not (is_active row.domain_active) in
    let found1 = append_if row.is_superseded not_current [] in
    let found2 = append_if (not (row.decision_state == some "ACCEPTED")) not_accepted found1 in
    let found3 = append_if host_fails domain_not_verified found2 in
    let found4 =
      append_mapping (is_verified row.mapping_status) (is_active row.mapping_active)
        (row.promoted_source_id == some row.source_id) found3 in
    let found5 =
      append_if (not (is_compatible row.field_kind row.responsibility)) responsibility_incompatible
        found4 in
    let found6 = append_if (row.eligibility == "NOT_ELIGIBLE") source_not_eligible found5 in
    let found7 = append_if (not (is_none row.superseded_by_source_id)) source_superseded found6 in
    append_if row.scope_unresolved Blocker.scope_unresolved found7

abbrev pub assessed : Row → Readiness
assessed row = record {
  candidate_id = row.candidate_id;
  field_kind = row.field_kind;
  responsibility = row.responsibility;
  blockers = blockers_for row;
}

unfoldable pub assess : Bool → List Row → List Readiness
unfolding blockers_for
assess accepted_only [] = []
assess accepted_only (row ∷ rest) =
    let later = assess accepted_only rest in
    if accepted_only && not (row.decision_state == some "ACCEPTED")
    then later
    else assessed row ∷ later

-- The members of the enumeration, by their place in it.
abbrev pub place : Blocker → ℕ
place not_current = 0
place not_accepted = 1
place source_not_eligible = 2
place domain_not_verified = 3
place responsibility_not_verified = 4
place responsibility_incompatible = 5
place mapping_not_promoted = 6
place source_superseded = 7
place scope_unresolved = 8
place conflict_present = 9
place locator_invalid = 10

abbrev pub at_place : ℕ → Blocker
at_place n =
    if nat_eq n 0
    then not_current
    else if nat_eq n 1
    then not_accepted
    else if nat_eq n 2
    then source_not_eligible
    else if nat_eq n 3
    then domain_not_verified
    else if nat_eq n 4
    then responsibility_not_verified
    else if nat_eq n 5
    then responsibility_incompatible
    else if nat_eq n 6
    then mapping_not_promoted
    else if nat_eq n 7
    then source_superseded
    else if nat_eq n 8
    then scope_unresolved
    else if nat_eq n 9
    then conflict_present
    else locator_invalid

pub at_place-place : (b : Blocker) → at_place (place b) ≡ b
at_place-place not_current = refl
at_place-place _ = refl

pub place_iff : (a b : Blocker) → (nat_eq (place a) (place b) ≡ true) ↔ (a ≡ b)
place_iff a b = (
  λ h.
      sym (at_place-place a)
      ∙ ap at_place ((nat_eq_iff (place a) (place b)).0 h)
      ∙ at_place-place b,
  λ h. (nat_eq_iff (place a) (place b)).1 (ap place h),
)

instance abbrev pub Blocker_eq : Eq Blocker
Blocker_eq = record { beq = λ a b. nat_eq (place a) (place b); beq_iff = place_iff }

-- `counts[key] = counts.get(key, 0) + 1` on a dict, in the order in which its keys came.
abbrev pub add_one {ℓ} : {K : Type ℓ} ⦃e : Eq K⦄ → K → List (K × ℕ) → List (K × ℕ)
add_one key [] = (key, 1) ∷ []
add_one key ((k, n) ∷ rest) =
    let later = add_one key rest in if k == key then (k, n + 1) ∷ rest else (k, n) ∷ later

abbrev pub Counts : Type 0
Counts = List (Blocker × ℕ)

abbrev pub add_all : List Blocker → Counts → Counts
add_all [] counts = counts
add_all (b ∷ rest) counts = add_all rest (add_one b counts)

abbrev pub count_all : List Readiness → Counts → Counts
count_all [] counts = counts
count_all (r ∷ rest) counts = count_all rest (add_all r.blockers counts)

-- `sorted(..., key=lambda kv: -kv[1])` keeps the order of equals.
unfoldable pub insert_by_count : Blocker × ℕ → Counts → Counts
insert_by_count (b, n) [] = (b, n) ∷ []
insert_by_count (b, n) ((k, m) ∷ rest) =
    let later = insert_by_count (b, n) rest in
    if leb m n then (b, n) ∷ (k, m) ∷ rest else (k, m) ∷ later

unfoldable pub by_count : Counts → Counts
unfolding insert_by_count
by_count [] = []
by_count (entry ∷ rest) = insert_by_count entry (by_count rest)

unfoldable pub summarise : List Readiness → Counts
unfolding by_count
summarise results = by_count (count_all results [])
