-- ===== src/Acquisition/Runner/React.antt =====
-- `_react` of acquisition/runner.py, one function for each branch. Log lines
-- are left out.
use data_hub_backend.Base.{
  ℕ, zero, suc, ◌+◌, max, Option, none, some, leb, ℕ_eq, is_none, if◌then◌else◌,
}
use data_hub_backend.Base.Result.{Result, ok, err, ◌>>=◌}
use data_hub_backend.Acquisition.Schema.{
  FetchStatus, FetchEligibility, SourceAccessState, Reason, Source, Db, Urls,
}
use data_hub_backend.Acquisition.Lease.{Lease, Moment, max_attempts_per_cycle, source_of}
use data_hub_backend.Acquisition.Sweep.{schedule_retry, backoff}
use data_hub_backend.Acquisition.Recorder.{FetchOutcome}
use data_hub_backend.Acquisition.Runner.{
  CycleReport, at_source, struck, set_cooldown, clear_cooldown, set_eligibility_if_unjudged,
  pause_host, is_permanent, default_rate_limit_cooldown, default_dns_cooldown,
  rate_limit_strike_limit,
}

-- `scalar_one()` found no row.
pub data ReactError : Type 0 where
  no_source_row : ReactError

-- `value or None`: Python takes zero for false.
abbrev pub non_zero : Option ℕ → Option ℕ
non_zero none = none
non_zero (some zero) = none
non_zero (some (suc n)) = some (suc n)

abbrev pub or_delay : Option ℕ → ℕ → ℕ
or_delay none d = d
or_delay (some n) d = n

-- `if schedule_retry(...): report.retries_scheduled += 1`
unfoldable pub retry : Moment → Lease → ℕ → CycleReport × Db → CycleReport × Db
unfolding schedule_retry
retry m lease delay (report, db) =
    let (queued, db') =
      schedule_retry m lease.source_id lease.cycle_key delay max_attempts_per_cycle db in
    (
      if is_none queued
          then report
          else record report { retries_scheduled = report.retries_scheduled + 1 },
      db',
    )

-- `if _set_eligibility_if_unjudged(..., NEEDS_MANUAL_REVIEW): report.escalated_to_review += 1`
unfoldable pub escalate : ℕ → ℕ → Reason → CycleReport × Db → CycleReport × Db
unfolding set_eligibility_if_unjudged
escalate now source_id reason (report, db) =
    let (moved, db') =
      set_eligibility_if_unjudged now source_id FetchEligibility.needs_manual_review reason none
        db in
    (
      if moved
          then record report { escalated_to_review = report.escalated_to_review + 1 }
          else report,
      db',
    )

abbrev pub strikes_of : Option Source → Result ReactError ℕ
strikes_of none = err no_source_row
strikes_of (some s) = ok s.rate_limit_strikes

-- The pauses of a 429: of the source, and of its host.
unfoldable pub cool_and_pause : Urls → Moment → Lease → FetchOutcome → ℕ → Db → Db
unfolding set_cooldown pause_host
cool_and_pause urls m lease outcome delay db =
    pause_host m.now (urls.hostname lease.url) delay (Reason.http_429_on lease.url) lease.source_id
      (set_cooldown m.now lease.source_id delay (Reason.http_429 (non_zero outcome.retry_after)) db)

-- At the strike limit a person is asked; below it a retry is queued.
unfoldable pub settle_429 : Moment → Lease → ℕ → ℕ → CycleReport × Db → CycleReport × Db
unfolding escalate retry
settle_429 m lease delay strikes acc =
    if leb rate_limit_strike_limit strikes
    then escalate m.now lease.source_id (Reason.rate_limited_times strikes) acc
    else retry m lease delay acc

-- The branch of a 429.
unfoldable pub react_rate_limited :
    Urls → Moment → Lease → FetchOutcome → CycleReport → Db → Result ReactError (CycleReport × Db)
unfolding cool_and_pause settle_429
react_rate_limited urls m lease outcome report db = do
  let delay = or_delay (non_zero outcome.retry_after) default_rate_limit_cooldown
  let counted = at_source lease.source_id struck db
  strikes ← strikes_of (source_of counted lease.source_id)
  let report' = record report {
    cooldowns_set = report.cooldowns_set + 1;
    hosts_paused = report.hosts_paused + 1;
  }
  ok (settle_429 m lease delay strikes (report', cool_and_pause urls m lease outcome delay counted))

-- The branch of a resolver that did not answer.
unfoldable pub react_dns_temporary :
    Moment → Lease → FetchOutcome → CycleReport → Db → CycleReport × Db
unfolding retry set_cooldown backoff
react_dns_temporary m lease outcome report db =
    let delay = max (backoff lease.attempt_no none) default_dns_cooldown in
    let cooling =
      set_cooldown m.now lease.source_id delay (Reason.temporary_dns_failure outcome.error_class)
        db in
    retry m lease delay (record report { cooldowns_set = report.cooldowns_set + 1 }, cooling)

-- The branch of a refusal: the source is BLOCKED, and so is its access.
unfoldable pub react_blocked : Moment → Lease → FetchOutcome → Db → Db
unfolding set_eligibility_if_unjudged
react_blocked m lease outcome db =
    (set_eligibility_if_unjudged m.now lease.source_id FetchEligibility.blocked
      (Reason.refused outcome.error_class outcome.error_detail) (some SourceAccessState.blocked)
      db).1

-- The branch of an HTTP error or a timeout.
unfoldable pub react_failed : Moment → Lease → FetchOutcome → CycleReport → Db → CycleReport × Db
unfolding retry backoff
react_failed m lease outcome report db =
    if is_permanent outcome.http_status
    then (report, db)
    else retry m lease (backoff lease.attempt_no outcome.retry_after) (report, db)

abbrev pub react_to :
    FetchStatus
    → Urls
    → Moment
    → Lease
    → FetchOutcome
    → CycleReport
    → Db
    → Result ReactError (CycleReport × Db)
react_to FetchStatus.ok urls m lease o report db = ok (report, clear_cooldown lease.source_id db)
react_to FetchStatus.unchanged urls m lease o report db =
    ok (report, clear_cooldown lease.source_id db)
react_to FetchStatus.rate_limited urls m lease o report db =
    react_rate_limited urls m lease o report db
react_to FetchStatus.dns_temporary urls m lease o report db =
    ok (react_dns_temporary m lease o report db)
react_to FetchStatus.name_not_resolved urls m lease o report db =
    ok (
      escalate m.now lease.source_id (Reason.hostname_does_not_resolve o.error_detail) (report, db))
react_to FetchStatus.blocked urls m lease o report db = ok (report, react_blocked m lease o db)
react_to FetchStatus.http_error urls m lease o report db = ok (react_failed m lease o report db)
react_to FetchStatus.timeout urls m lease o report db = ok (react_failed m lease o report db)
react_to FetchStatus.internal_error urls m lease o report db = ok (report, db)
react_to FetchStatus.parse_failed urls m lease o report db = ok (report, db)
react_to FetchStatus.abandoned urls m lease o report db = ok (report, db)

unfoldable pub react :
    Urls → Moment → Lease → FetchOutcome → CycleReport → Db → Result ReactError (CycleReport × Db)
unfolding clear_cooldown react_rate_limited react_dns_temporary react_blocked react_failed escalate
react urls m lease outcome report db = react_to outcome.status urls m lease outcome report db
