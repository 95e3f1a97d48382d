-- ===== src/Acquisition/Recovery/State.antt =====
-- The data of acquisition/recovery.py, the reason that it asks for and the state that it reads. Of
-- that state, the columns of the source and its schedule are kept; the counts and the last run of
-- the view are left out. The rules of Python for white space are an argument.
use data_hub_backend.Base.{
  ℕ, String, Bool, Option, none, some, List, [], ◌∷◌, ◌++◌, ltb, ℕ_eq, String_eq, if◌then◌else◌,
  length, take,
}
use data_hub_backend.Base.Result.{Result, ok, err}
use data_hub_backend.Acquisition.Schema.{
  FetchEligibility, SourceAccessState, PublicationEligibility, Reason, Source, Db, Urls,
}
use data_hub_backend.Acquisition.Health.{ScheduleState, schedule_state, cooldown_of}
use data_hub_backend.Acquisition.Lease.{source_of}

abbrev pub min_reason_length : ℕ
min_reason_length = 8

pub data RecoveryRefusedError : Type 0 where
  no_such_source short_reason source_inactive not_in_cooldown : RecoveryRefusedError

pub data ActorType : Type 0 where
  user system api_client : ActorType

pub data AcquisitionRecoveryAction : Type 0 where
  reenable_source disable_source needs_review clear_cooldown_of : AcquisitionRecoveryAction

pub record Actor : Type 0 where
  pub user_id : ℕ
  pub actor_type : ActorType

pub record SourceState : Type 0 where
  pub source_id : ℕ
  pub url : String
  pub is_active : Bool
  pub fetch_eligibility : FetchEligibility
  pub fetch_eligibility_reason : Option Reason
  pub publication_eligibility : PublicationEligibility
  pub access_state : SourceAccessState
  pub cooldown_until : Option ℕ
  pub cooldown_reason : Option Reason
  pub rate_limit_strikes : ℕ
  pub host : String
  pub host_cooldown_until : Option ℕ
  pub schedule_state : ScheduleState

-- `_snapshot`: what the audit row keeps of a state.
pub record Snapshot : Type 0 where
  pub fetch_eligibility : FetchEligibility
  pub schedule_state : ScheduleState
  pub cooldown_until : Option ℕ
  pub rate_limit_strikes : ℕ
  pub publication_eligibility : PublicationEligibility

pub record AuditRow : Type 0 where
  pub actor : Actor
  pub action : AcquisitionRecoveryAction
  pub object_id : ℕ
  pub before_state : Snapshot
  pub after_state : Snapshot
  pub reason : List ℕ
  pub host_pause_cleared : Bool  -- whether the reason ends in "(host pause cleared too)"

-- The tables, and the audit log with its last row first.
pub record Ledger : Type 0 where
  pub db : Db
  pub audit_log : List AuditRow

abbrev pub snapshot : SourceState → Snapshot
snapshot state = record {
  fetch_eligibility = state.fetch_eligibility;
  schedule_state = state.schedule_state;
  cooldown_until = state.cooldown_until;
  rate_limit_strikes = state.rate_limit_strikes;
  publication_eligibility = state.publication_eligibility;
}

abbrev pub push_word : List ℕ → List (List ℕ) → List (List ℕ)
push_word [] words = words
push_word (c ∷ word) words = (c ∷ word) ∷ words

-- The word that the text begins with, and the words after it.
unfoldable pub leading_word : (ℕ → Bool) → List ℕ → List ℕ × List (List ℕ)
leading_word is_space [] = ([], [])
leading_word is_space (c ∷ rest) =
    let (word, words) = leading_word is_space rest in
    if is_space c then ([], push_word word words) else (c ∷ word, words)

-- `" ".join(words)`
abbrev pub join : List (List ℕ) → List ℕ
join [] = []
join (word ∷ []) = word
join (word ∷ next ∷ words) = word ++ 32 ∷ join (next ∷ words)

-- `" ".join(reason.split())`
abbrev pub tidied : (ℕ → Bool) → List ℕ → List ℕ
tidied is_space text = let (word, words) = leading_word is_space text in join (push_word word words)

-- `_check_reason`
unfoldable pub check_reason : (ℕ → Bool) → List ℕ → Result RecoveryRefusedError (List ℕ)
unfolding leading_word
check_reason is_space reason =
    let cleaned = tidied is_space reason in
    if ltb (length cleaned) min_reason_length then err short_reason else ok (take 400 cleaned)

abbrev pub state_of : Urls → ℕ → Db → Source → SourceState
state_of urls now db s = record {
  source_id = s.id;
  url = s.url;
  is_active = s.is_active;
  fetch_eligibility = s.fetch_eligibility;
  fetch_eligibility_reason = s.fetch_eligibility_reason;
  publication_eligibility = s.publication_eligibility;
  access_state = s.access_state;
  cooldown_until = s.cooldown_until;
  cooldown_reason = s.cooldown_reason;
  rate_limit_strikes = s.rate_limit_strikes;
  host = urls.lower (urls.authority s.url);
  host_cooldown_until = cooldown_of db.host_cooldowns (urls.health_host s.url);
  schedule_state = schedule_state urls db now s;
}

abbrev pub state_or_refusal :
    Urls → ℕ → Db → Option Source → Result RecoveryRefusedError SourceState
state_or_refusal urls now db none = err no_such_source
state_or_refusal urls now db (some s) = ok (state_of urls now db s)

unfoldable pub source_state : Urls → ℕ → ℕ → Db → Result RecoveryRefusedError SourceState
source_state urls now source_id db = state_or_refusal urls now db (source_of db source_id)
