-- ===== src/Claims/Precedence/Examples.antt =====
-- Scopes of claims/precedence.py: everyone, applicants from China, A-level holders, and both.
use mathlib.Core.List.{Memᴰ}
use data_hub_backend.Base.{ℕ, ◌≡◌, refl, ◌↔◌, inr, true, false, none, some, List, [], ◌∷◌, All}
use data_hub_backend.Base.Result.{ok}
use data_hub_backend.Claims.Precedence.{
  unscoped, applicant_jurisdiction, qualification_system, jurisdiction_and_qualification,
  universal_explicit, left_wins, incomparable, Criterion, new_criterion, ResolvedScope, compare,
  Ref, governing, state_for,
}
use data_hub_backend.Claims.Precedence.Governing.{
  Rules, Publishes, governing-Rules, Decided, governing_total, governing_order,
}
use data_hub_backend.Claims.Precedence.State.{built, state_for-unscoped_iff}

abbrev from_china : Criterion
from_china = record {
  dimension_code = "applicant_country";
  operator = "EQ";
  value = some "CN";
  value_ref = none;
}

abbrev a_level : Criterion
a_level = record {
  dimension_code = "qualification_type";
  operator = "EQ";
  value = some "A_LEVEL";
  value_ref = none;
}

abbrev everyone : ResolvedScope
everyone = record { state = universal_explicit; criteria = []; human_resolved = true }

abbrev china : ResolvedScope
china = record {
  state = applicant_jurisdiction;
  criteria = from_china ∷ [];
  human_resolved = false;
}

abbrev a_levels : ResolvedScope
a_levels = record { state = qualification_system; criteria = a_level ∷ []; human_resolved = false }

abbrev chinese_a_levels : ResolvedScope
chinese_a_levels = record {
  state = jurisdiction_and_qualification;
  criteria = from_china ∷ a_level ∷ [];
  human_resolved = false;
}

abbrev ref : ℕ → ResolvedScope → Ref
ref n s = record { address = n; scope = s }

china_wins : compare china everyone ≡ left_wins
unfolding compare
china_wins = refl

both_beats_china : compare chinese_a_levels china ≡ left_wins
unfolding compare
both_beats_china = refl

both_beats_a_levels : compare chinese_a_levels a_levels ≡ left_wins
unfolding compare
both_beats_a_levels = refl

china_or_a_levels : compare china a_levels ≡ incomparable
unfolding compare
china_or_a_levels = refl

abbrev nested : List Ref
nested = ref 1 everyone ∷ ref 2 china ∷ ref 3 chinese_a_levels ∷ []

both_governs : governing nested ≡ some (ref 3 chinese_a_levels)
unfolding governing compare
both_governs = refl

governing-Rules_example :
    Memᴰ (ref 3 chinese_a_levels) nested
    × All Publishes nested
    × All (Rules (ref 3 chinese_a_levels)) nested
governing-Rules_example = governing-Rules nested (ref 3 chinese_a_levels) both_governs

Decided-pair : Decided (ref 1 everyone ∷ ref 2 china ∷ [])
unfolding compare
Decided-pair = ((inr refl, tt), (tt, tt))

governing_total_example : (w : Ref) × (governing (ref 1 everyone ∷ ref 2 china ∷ []) ≡ some w)
governing_total_example =
    governing_total (ref 1 everyone) (ref 2 china ∷ []) (refl, (refl, tt)) Decided-pair

governing_order_example :
    (governing (ref 3 chinese_a_levels ∷ ref 1 china ∷ ref 2 a_levels ∷ [])
      ≡ some (ref 3 chinese_a_levels))
    × (governing (ref 1 china ∷ ref 2 a_levels ∷ ref 3 chinese_a_levels ∷ []) ≡ none)
governing_order_example =
    governing_order (ref 1 china) (ref 2 a_levels) (ref 3 chinese_a_levels) china_or_a_levels
      both_beats_china both_beats_a_levels

from_china_is_built : new_criterion "applicant_country" "EQ" (some "CN") none ≡ ok from_china
unfolding new_criterion
from_china_is_built = refl

state_for-unscoped_iff_example : (state_for (from_china ∷ []) ≡ unscoped) ↔ (from_china ∷ [] ≡ [])
state_for-unscoped_iff_example =
    state_for-unscoped_iff (from_china ∷ [])
      (built "applicant_country" "EQ" (some "CN") none from_china_is_built, tt)
