-- ===== src/Claims/Precedence.antt =====
-- claims/precedence.py: which of several applicant scopes governs a fact. A scope's criteria are a
-- `frozenset`, a list read through `member`, `subset` and `card`; a list of scopes holds objects,
-- so that `is` compares addresses.
pub mod Order
pub mod Governing
pub mod State
mod Examples
use data_hub_backend.Base.{
  ℕ, String, ◌≡◌, refl, ap, ◌↔◌, Bool, true, false, not, ◌&&◌, ◌||◌, Option, none, some, List, [],
  ◌∷◌, ◌++◌, map, arith, Eq, ◌==◌, String_eq, Option_eq, ℕ_eq, is_none, bool_eq, if◌then◌else◌,
}
use data_hub_backend.Base.Result.{Result, ok, err, ◌>>◌, guard}
use data_hub_backend.Base.Sets.{member, subset, card}

abbrev pub jurisdiction_dimensions : List String
jurisdiction_dimensions = "applicant_country" ∷ "residency_status" ∷ []

abbrev pub qualification_dimensions : List String
qualification_dimensions =
    "qualification_country" ∷ "qualification_type" ∷ "qualification_group" ∷ []

abbrev pub all_dimensions : List String
all_dimensions = jurisdiction_dimensions ++ qualification_dimensions

pub data ScopeState : Type 0 where
  unscoped applicant_jurisdiction qualification_system jurisdiction_and_qualification : ScopeState
  universal_explicit not_applicable : ScopeState

abbrev pub can_publish : ScopeState → Bool
can_publish unscoped = false
can_publish _ = true

pub data Precedence : Type 0 where
  left_wins right_wins equivalent incomparable not_publishable : Precedence

pub record Criterion : Type 0 where
  pub dimension_code : String
  pub operator : String
  pub value : Option String
  pub value_ref : Option String

pub data CriterionError : Type 0 where
  unknown_dimension not_exactly_one_value : CriterionError

-- The constructor with the checks of `__post_init__`.
unfoldable pub new_criterion :
    String → String → Option String → Option String → Result CriterionError Criterion
new_criterion dimension_code operator value value_ref = do
  guard (member dimension_code all_dimensions) unknown_dimension
  guard (not (bool_eq (is_none value) (is_none value_ref))) not_exactly_one_value
  ok (record {
    dimension_code = dimension_code;
    operator = operator;
    value = value;
    value_ref = value_ref;
  })

abbrev pub Identity : Type 0
Identity = String × String × Option String × Option String

abbrev pub identity : Criterion → Identity
identity c = (c.dimension_code, c.operator, c.value, c.value_ref)

abbrev pub identity_beq : Identity → Identity → Bool
identity_beq a b = a.0 == b.0 && (a.1 == b.1 && (a.2 == b.2 && a.3 == b.3))

pub identity_beq_iff : (a b : Identity) → (identity_beq a b ≡ true) ↔ (a ≡ b)
identity_beq_iff a b =
    let d = String_eq.beq_iff a.0 b.0 in
    let o = String_eq.beq_iff a.1 b.1 in
    let v = (Option_eq {K = String}).beq_iff a.2 b.2 in
    let r = (Option_eq {K = String}).beq_iff a.3 b.3 in
    (λ h. ground (arith, d, o, v, r), λ h. ground (arith, d, o, v, r))

instance abbrev pub Identity_eq : Eq Identity
Identity_eq = record { beq = identity_beq; beq_iff = identity_beq_iff }

pub record ResolvedScope : Type 0 where
  pub state : ScopeState
  pub criteria : List Criterion
  pub human_resolved : Bool

abbrev pub identities : ResolvedScope → List Identity
identities s = map identity s.criteria

-- `len(self.criteria)`: two criteria are equal where their four fields are.
abbrev pub specificity : ResolvedScope → ℕ
specificity s = card (identities s)

abbrev pub contains : ResolvedScope → ResolvedScope → Bool
contains s other = subset (identities s) (identities other)

-- `==` of the two frozensets of identities.
abbrev pub same_identities : ResolvedScope → ResolvedScope → Bool
same_identities s other = contains s other && contains other s

unfoldable pub compare : ResolvedScope → ResolvedScope → Precedence
compare left right =
    if not (can_publish left.state) || not (can_publish right.state)
    then not_publishable
    else if same_identities left right
    then (if bool_eq left.human_resolved right.human_resolved
        then equivalent
        else if left.human_resolved
        then left_wins
        else right_wins)
    else if not (contains left right) && not (contains right left)
    then incomparable
    else if contains left right
    then right_wins
    else left_wins

-- A scope object: `is` compares addresses.
pub record Ref : Type 0 where
  pub address : ℕ
  pub scope : ResolvedScope

abbrev pub is_left_wins : Precedence → Bool
is_left_wins left_wins = true
is_left_wins _ = false

-- `any(not scope.state.can_publish for scope in scopes)`
unfoldable pub any_unscoped : List Ref → Bool
any_unscoped [] = false
any_unscoped (s ∷ rest) = not (can_publish s.scope.state) || any_unscoped rest

-- The first loop: the winner so far against each challenger.
unfoldable pub survivor : Ref → List Ref → Option Ref
survivor winner [] = some winner
survivor winner (challenger ∷ rest) = elim (compare winner.scope challenger.scope) [
  | right_wins ↦ survivor challenger rest
  | left_wins ↦ survivor winner rest
  | _ ↦ none
]

-- The second loop: the survivor against everything but itself.
unfoldable pub beats_all : Ref → List Ref → Bool
beats_all winner [] = true
beats_all winner (challenger ∷ rest) =
    (challenger.address == winner.address || is_left_wins (compare winner.scope challenger.scope))
    && beats_all winner rest

abbrev pub checked : List Ref → Option Ref → Option Ref
checked scopes none = none
checked scopes (some winner) = if beats_all winner scopes then some winner else none

unfoldable pub governing : List Ref → Option Ref
unfolding any_unscoped survivor beats_all
governing [] = none
governing (first ∷ rest) =
    if any_unscoped (first ∷ rest) then none else checked (first ∷ rest) (survivor first rest)

abbrev pub dimensions : List Criterion → List String
dimensions criteria = map (λ c. c.dimension_code) criteria

-- `bool(dimensions & wanted)`
abbrev pub meets : List String → List String → Bool
meets [] wanted = false
meets (d ∷ ds) wanted = member d wanted || meets ds wanted

unfoldable pub state_for : List Criterion → ScopeState
state_for criteria =
    let has_jurisdiction = meets (dimensions criteria) jurisdiction_dimensions in
    let has_qualification = meets (dimensions criteria) qualification_dimensions in
    if has_jurisdiction && has_qualification
    then jurisdiction_and_qualification
    else if has_jurisdiction
    then applicant_jurisdiction
    else if has_qualification
    then qualification_system
    else unscoped
