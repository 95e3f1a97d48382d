-- ===== src/Verification/Policy.antt =====
-- verification/policy.py, with `ROUTING` of claims/model.py. A dict is a list of pairs with distinct
-- keys, a frozenset a list.
pub mod Authority
use data_hub_backend.Base.{
  ℕ, String, Bool, true, false, not, ◌&&◌, Option, none, some, List, [], ◌∷◌, ◌++◌, map, ◌==◌,
  String_eq, if◌then◌else◌, select,
}
use data_hub_backend.Base.Sets.{member}

-- `table.get(key, default)`
abbrev pub get {ℓ} : {A : Type ℓ} → List (String × A) → String → A → A
get [] key d = d
get ((k, a) ∷ rest) key d = if k == key then a else get rest key d

abbrev pub field_kind_extractor : List (String × String)
field_kind_extractor =
    ("TUITION", "tuition")
    ∷ ("LANGUAGE_TEST", "language")
    ∷ ("LANGUAGE_OVERALL_SCORE", "language")
    ∷ ("LANGUAGE_COMPONENT_SCORE", "language")
    ∷ ("APPLICATION_DEADLINE", "deadline")
    ∷ ("ACADEMIC_CALENDAR_EVENT", "calendar")
    ∷ ("ADMISSION_REQUIREMENT", "admission")
    ∷ ("PROGRAM_NAME", "program")
    ∷ ("DEGREE_LEVEL", "program")
    ∷ ("DISCIPLINE_HINT", "program")
    ∷ ("DURATION", "program")
    ∷ ("STUDY_MODE", "program")
    ∷ ("CAMPUS", "program")
    ∷ ("FACULTY_OR_SCHOOL", "program")
    ∷ []

abbrev pub admissions : List String
admissions =
    "ENTRY_REQUIREMENTS" ∷ "UNDERGRADUATE_ADMISSIONS" ∷ "POSTGRADUATE_ADMISSIONS" ∷ "PHD_ADMISSIONS"
    ∷ []

-- The set without one element.
abbrev pub admissions_with_deadlines : List String
admissions_with_deadlines = select (λ category. not (category == "ENTRY_REQUIREMENTS")) admissions

abbrev pub field_authority : List (String × List String)
field_authority =
    ("TUITION", "TUITION_FEES" ∷ [])
    ∷ ("LANGUAGE_TEST", admissions ++ "LANGUAGE_REQUIREMENTS" ∷ [])
    ∷ ("LANGUAGE_OVERALL_SCORE", admissions ++ "LANGUAGE_REQUIREMENTS" ∷ [])
    ∷ ("LANGUAGE_COMPONENT_SCORE", admissions ++ "LANGUAGE_REQUIREMENTS" ∷ [])
    ∷ ("APPLICATION_DEADLINE", admissions_with_deadlines ++ "APPLICATION_DEADLINES" ∷ [])
    ∷ ("ACADEMIC_CALENDAR_EVENT", "ACADEMIC_CALENDAR" ∷ [])
    ∷ ("ADMISSION_REQUIREMENT", admissions)
    ∷ ("PROGRAM_NAME", "PROGRAM_CATALOG" ∷ "PROGRAM_PAGE" ∷ [])
    ∷ ("DEGREE_LEVEL", "PROGRAM_CATALOG" ∷ "PROGRAM_PAGE" ∷ [])
    ∷ ("DISCIPLINE_HINT", "PROGRAM_CATALOG" ∷ "PROGRAM_PAGE" ∷ [])
    ∷ ("DURATION", "PROGRAM_CATALOG" ∷ "PROGRAM_PAGE" ∷ [])
    ∷ ("STUDY_MODE", "PROGRAM_CATALOG" ∷ "PROGRAM_PAGE" ∷ [])
    ∷ ("CAMPUS", "PROGRAM_CATALOG" ∷ "PROGRAM_PAGE" ∷ [])
    ∷ ("FACULTY_OR_SCHOOL", "PROGRAM_CATALOG" ∷ "PROGRAM_PAGE" ∷ [])
    ∷ []

-- `ROUTING`: the extractors that may read a page of each category.
abbrev pub routing : List (String × List String)
routing =
    ("TUITION_FEES", "tuition" ∷ [])
    ∷ ("LANGUAGE_REQUIREMENTS", "language" ∷ [])
    ∷ ("APPLICATION_DEADLINES", "deadline" ∷ [])
    ∷ ("PROGRAM_CATALOG", "program" ∷ [])
    ∷ ("PROGRAM_PAGE", "program" ∷ "admission" ∷ "language" ∷ [])
    ∷ ("ENTRY_REQUIREMENTS", "admission" ∷ "language" ∷ [])
    ∷ ("UNDERGRADUATE_ADMISSIONS", "admission" ∷ "language" ∷ "deadline" ∷ [])
    ∷ ("POSTGRADUATE_ADMISSIONS", "admission" ∷ "language" ∷ "deadline" ∷ [])
    ∷ ("PHD_ADMISSIONS", "admission" ∷ "language" ∷ "deadline" ∷ [])
    ∷ ("ACADEMIC_CALENDAR", "calendar" ∷ [])
    ∷ ("UNIVERSITY_HOME", [])
    ∷ ("FACULTY_OR_SCHOOL", [])
    ∷ ("OFFICIAL_PDF", [])
    ∷ ("GOVERNMENT", [])
    ∷ ("AUTHORIZED_RANKING", [])
    ∷ ("UNCLASSIFIED", [])
    ∷ []

unfoldable pub responsibilities_for : String → List String
responsibilities_for field_kind = get field_authority field_kind []

unfoldable pub is_compatible : String → Option String → Bool
unfolding responsibilities_for
is_compatible field_kind none = false
is_compatible field_kind (some responsibility) =
    not (responsibility == "") && member responsibility (responsibilities_for field_kind)

-- The categories whose extractors include this one.
abbrev pub readers : String → List (String × List String) → List String
readers extractor [] = []
readers extractor ((category, extractors) ∷ rest) =
    let others = readers extractor rest in
    if member extractor extractors then category ∷ others else others

abbrev pub authority_of : Option String → List String
authority_of none = []
authority_of (some extractor) = readers extractor routing

unfoldable pub extraction_authority : String → List String
extraction_authority field_kind =
    authority_of (get (map (λ (k, x). (k, some x)) field_kind_extractor) field_kind none)
