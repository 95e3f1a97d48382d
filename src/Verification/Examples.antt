-- ===== src/Verification/Examples.antt =====
-- Candidates to assess: one that is ready and one that is held up.
use data_hub_backend.Base.{◌≡◌, refl, ◌↔◌, String_eq, true, false, none, some, List, [], ◌∷◌, count}
use data_hub_backend.Base.Sets.{member}
use data_hub_backend.Verification.Policy.{is_compatible, responsibilities_for, extraction_authority}
use data_hub_backend.Verification.Policy.Authority.{is_compatible-routed}
use data_hub_backend.Verification.Readiness.{
  responsibility_not_verified, responsibility_incompatible, Blocker_eq, not_accepted,
  mapping_not_promoted, scope_unresolved, Row, ready, assessed, assess, blockers_for, summarise,
  by_count, insert_by_count,
}
use data_hub_backend.Verification.Readiness.Blockers.{
  stands, occurrences, one_if, blockers_for-stands, IsPromotable, ready-IsPromotable,
}
use data_hub_backend.Verification.Readiness.Summary.{amount, Descending, held_up, summarise-assess}

abbrev fee : Row
fee = record {
  candidate_id = 1;
  field_kind = "TUITION";
  responsibility = some "TUITION_FEES";
  decision_state = some "ACCEPTED";
  is_superseded = false;
  scope_unresolved = false;
  source_id = 7;
  eligibility = "OFFICIAL_VERIFIED";
  superseded_by_source_id = none;
  domain_status = some "VERIFIED_OFFICIAL";
  domain_active = some true;
  mapping_status = some "AUTHORIZED_EXTERNAL";
  mapping_active = some true;
  promoted_source_id = some 7;
}

-- Promoted onto another source, and its scope is open.
abbrev held_up_fee : Row
held_up_fee = record fee { candidate_id = 2; promoted_source_id = some 8; scope_unresolved = true }

abbrev rows : List Row
rows = fee ∷ held_up_fee ∷ record held_up_fee { decision_state = none } ∷ []

two_blockers : blockers_for held_up_fee ≡ mapping_not_promoted ∷ scope_unresolved ∷ []
unfolding blockers_for is_compatible responsibilities_for
two_blockers = refl

-- A source that may only set the project's scope does not hold a candidate up.
target_scope_is_ready : ready (assessed (record fee { eligibility = "TARGET_SCOPE_ONLY" })) ≡ true
unfolding blockers_for is_compatible responsibilities_for
target_scope_is_ready = refl

-- A mapping that is not verified is reported as incompatible too.
unverified_is_incompatible :
    blockers_for
      (record fee { responsibility = some "CAMPUS"; mapping_status = none; mapping_active = none })
    ≡ responsibility_not_verified ∷ responsibility_incompatible ∷ []
unfolding blockers_for is_compatible responsibilities_for
unverified_is_incompatible = refl

summary_of_three :
    summarise (assess false rows)
    ≡ (mapping_not_promoted, 2) ∷ (scope_unresolved, 2) ∷ (not_accepted, 1) ∷ []
unfolding summarise by_count insert_by_count assess blockers_for is_compatible responsibilities_for
summary_of_three = refl

is_compatible-routed_example : member "PROGRAM_PAGE" (extraction_authority "CAMPUS") ≡ true
unfolding is_compatible responsibilities_for
is_compatible-routed_example = is_compatible-routed "CAMPUS" "PROGRAM_PAGE" refl

blockers_for-stands_example :
    occurrences scope_unresolved (blockers_for held_up_fee)
    ≡ one_if (stands held_up_fee scope_unresolved)
blockers_for-stands_example = blockers_for-stands held_up_fee scope_unresolved

ready-IsPromotable_example : (ready (assessed fee) ≡ true) ↔ IsPromotable fee
ready-IsPromotable_example = ready-IsPromotable fee

summarise-assess_example :
    (amount mapping_not_promoted (summarise (assess true rows))
      ≡ count (held_up true mapping_not_promoted) rows)
    × Descending (summarise (assess true rows))
summarise-assess_example = summarise-assess true rows mapping_not_promoted
