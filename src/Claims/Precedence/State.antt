-- ===== src/Claims/Precedence/State.antt =====
-- The criteria and `state_for` of claims/precedence.py.
use data_hub_backend.Base.{
  String, String_eq, ◌≡◌, refl, ◌≢◌, ◌↔◌, ◌⊎◌, true, Option, List, [], ◌∷◌, arith, All,
}
use data_hub_backend.Base.Result.{ok}
use data_hub_backend.Base.Sets.{member}
use data_hub_backend.Claims.Precedence.{
  Criterion, new_criterion, state_for, dimensions, meets, all_dimensions, jurisdiction_dimensions,
  qualification_dimensions, applicant_jurisdiction, qualification_system,
  jurisdiction_and_qualification, universal_explicit, not_applicable, unscoped,
}

-- The state of a set of criteria says which kinds of dimension it has: a jurisdiction dimension, a
-- qualification dimension, both, or neither (then it is UNSCOPED, never UNIVERSAL_EXPLICIT).
pub state_for_kinds :
    (criteria : List Criterion)
    → let state = state_for criteria in
      let on_jurisdiction = meets (dimensions criteria) jurisdiction_dimensions in
      let on_qualification = meets (dimensions criteria) qualification_dimensions in
      (((state ≡ applicant_jurisdiction) ⊎ (state ≡ jurisdiction_and_qualification))
        ↔ (on_jurisdiction ≡ true))
      × (((state ≡ qualification_system) ⊎ (state ≡ jurisdiction_and_qualification))
          ↔ (on_qualification ≡ true))
      × (state ≢ universal_explicit)
      × (state ≢ not_applicable)
unfolding state_for
state_for_kinds criteria = (
  (λ h. ground arith, λ h. ground arith),
  (λ h. ground arith, λ h. ground arith),
  λ h. ground arith,
  λ h. ground arith,
)

-- Built by the constructor.
pub data Built : Criterion → Type 0 where
  built :
      {c : Criterion} (d o : String) (v r : Option String) → new_criterion d o v r ≡ ok c → Built c

known_dimension : {c : Criterion} → Built c → member c.dimension_code all_dimensions ≡ true
unfolding new_criterion
known_dimension (built d o v r h) = ground arith

-- Of criteria that the constructor accepts, only the empty set is UNSCOPED.
pub state_for-unscoped_iff :
    (criteria : List Criterion)
    → All Built criteria
    → (state_for criteria ≡ unscoped) ↔ (criteria ≡ [])
unfolding state_for
state_for-unscoped_iff [] b = (λ h. refl, λ h. refl)
state_for-unscoped_iff (c ∷ rest) b =
    let known = known_dimension b.0 in (λ h. absurd (ground arith), λ h. absurd (ground arith))
