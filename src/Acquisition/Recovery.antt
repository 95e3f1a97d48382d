-- ===== src/Acquisition/Recovery.antt =====
-- acquisition/recovery.py: what an operator decides about one source, with its audit row.
pub mod State
pub mod Effects
pub mod Reopening
pub mod Clearing
use data_hub_backend.Base.{
  ℕ, String, Bool, true, false, Option, none, some, List, [], ◌∷◌, ◌++◌, ltb, ◌==◌, ℕ_eq, String_eq,
  if◌then◌else◌, length, take, select, not,
}
use data_hub_backend.Base.Result.{Result, ok, err, ◌>>=◌, ◌>>◌, guard}
use data_hub_backend.Acquisition.Schema
use data_hub_backend.Acquisition.Schema.{
  FetchEligibility, SourceAccessState, PublicationEligibility, Reason, Source, HostCooldown, Db,
  Urls,
}
use data_hub_backend.Acquisition.Health.{ScheduleState, is_cooldown, schedule_state, cooldown_of}
use data_hub_backend.Acquisition.Lease.{source_of}
use data_hub_backend.Acquisition.Runner.{at_source}
use data_hub_backend.Acquisition.Recovery.State.{
  min_reason_length, RecoveryRefusedError, ActorType, AcquisitionRecoveryAction, Actor, SourceState,
  Snapshot, AuditRow, Ledger, snapshot, push_word, leading_word, join, tidied, check_reason,
  state_of, state_or_refusal, source_state, short_reason, source_inactive, not_in_cooldown,
  no_such_source, reenable_source, disable_source, needs_review, clear_cooldown_of,
}

-- `_append_audit`
abbrev pub append_audit :
    Actor
    → AcquisitionRecoveryAction
    → ℕ
    → SourceState
    → SourceState
    → List ℕ
    → Bool
    → Ledger
    → Ledger
append_audit actor action source_id before after reason host_too ledger =
    let row : AuditRow = record {
      actor = actor;
      action = action;
      object_id = source_id;
      before_state = snapshot before;
      after_state = snapshot after;
      reason = reason;
      host_pause_cleared = host_too;
    } in
    record ledger { audit_log = row ∷ ledger.audit_log }

-- The SET clauses; the cut of a reason at 400 characters is left out.
abbrev pub reenabled : ℕ → List ℕ → Source → Source
reenabled now cleaned s = record s {
  fetch_eligibility = FetchEligibility.fetchable;
  fetch_eligibility_reason = some (Reason.reenabled_by_operator cleaned);
  fetch_eligibility_set_at = some now;
  access_state = SourceAccessState.ok;
  cooldown_until = none;
  cooldown_reason = none;
  cooldown_set_at = none;
  rate_limit_strikes = 0;
}

abbrev pub parked : ℕ → FetchEligibility → Reason → Source → Source
parked now state reason s = record s {
  fetch_eligibility = state;
  fetch_eligibility_reason = some reason;
  fetch_eligibility_set_at = some now;
}

abbrev pub unpaused : Source → Source
unpaused s = record s { cooldown_until = none; cooldown_reason = none; cooldown_set_at = none }

-- `DELETE FROM host_cooldown WHERE host = :host`
abbrev pub forget_host : String → Db → Db
forget_host host db = record db {
  host_cooldowns = select (λ hc. not (hc.host == host)) db.host_cooldowns;
}

-- The UPDATE, the state after it, and the audit row.
module _ (urls : Urls) (is_space : ℕ → Bool) (now : ℕ) (source_id : ℕ) (actor : Actor) where
  unfoldable pub reenable : List ℕ → Ledger → Result RecoveryRefusedError (SourceState × Ledger)
  unfolding check_reason source_state
  reenable reason ledger = do
    cleaned ← check_reason is_space reason
    before ← source_state urls now source_id ledger.db
    guard before.is_active source_inactive
    let db = at_source source_id (reenabled now cleaned) ledger.db
    after ← source_state urls now source_id db
    ok (
      after,
      append_audit actor reenable_source source_id before after cleaned false
          (record ledger { db = db }),
    )

  unfoldable pub disable : List ℕ → Ledger → Result RecoveryRefusedError (SourceState × Ledger)
  unfolding check_reason source_state
  disable reason ledger = do
    cleaned ← check_reason is_space reason
    before ← source_state urls now source_id ledger.db
    let db =
        at_source source_id
          (parked now FetchEligibility.disabled (Reason.disabled_by_operator cleaned)) ledger.db
    after ← source_state urls now source_id db
    ok (
      after,
      append_audit actor disable_source source_id before after cleaned false
          (record ledger { db = db }),
    )

  unfoldable pub mark_needs_review :
      List ℕ → Ledger → Result RecoveryRefusedError (SourceState × Ledger)
  unfolding check_reason source_state
  mark_needs_review reason ledger = do
    cleaned ← check_reason is_space reason
    before ← source_state urls now source_id ledger.db
    let db =
        at_source source_id
          (parked now FetchEligibility.needs_manual_review (Reason.flagged_by_operator cleaned))
          ledger.db
    after ← source_state urls now source_id db
    ok (
      after,
      append_audit actor needs_review source_id before after cleaned false
          (record ledger { db = db }),
    )

  unfoldable pub clear_cooldown :
      List ℕ → Bool → Ledger → Result RecoveryRefusedError (SourceState × Ledger)
  unfolding check_reason source_state
  clear_cooldown reason include_host ledger = do
    cleaned ← check_reason is_space reason
    before ← source_state urls now source_id ledger.db
    guard (is_cooldown before.schedule_state) not_in_cooldown
    let cleared = at_source source_id unpaused ledger.db
    let db = if include_host then forget_host before.host cleared else cleared
    after ← source_state urls now source_id db
    ok (
      after,
      append_audit actor clear_cooldown_of source_id before after cleaned include_host
          (record ledger { db = db }),
    )
