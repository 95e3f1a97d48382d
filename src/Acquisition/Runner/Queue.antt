-- ===== src/Acquisition/Runner/Queue.antt =====
-- What `_react` of acquisition/runner.py does to the queue and to the terminal records.
use data_hub_backend.Base.{
  ℕ, ◌+◌, ◌<◌, ◌≡◌, refl, inl, inr, none, List, ◌∷◌, arith, Bool-cases, leb, max,
}
use data_hub_backend.Base.Result.{ok, OnOk, OnOk-bind, OnOk_value}
use data_hub_backend.Acquisition.Schema.{FetchStatus, FetchAttempt, Db, Urls, Reason}
use data_hub_backend.Acquisition.Lease.{Lease, Moment, source_of, max_attempts_per_cycle}
use data_hub_backend.Acquisition.Sweep.{highest_attempt, new_attempt, backoff}
use data_hub_backend.Acquisition.Recorder.{FetchOutcome}
use data_hub_backend.Acquisition.Runner.{
  CycleReport, set_cooldown, clear_cooldown, at_source, struck, rate_limit_strike_limit,
  default_rate_limit_cooldown, default_dns_cooldown, is_permanent,
}
use data_hub_backend.Acquisition.Runner.React.{
  react, react_to, settle_429, cool_and_pause, react_rate_limited, react_dns_temporary,
  react_blocked, react_failed, retry, escalate, strikes_of, or_delay, non_zero,
}

-- Nothing is queued, or one attempt: the next one of the page in the lease's cycle, within the cap.
pub data Queues (m : Moment) (lease : Lease) (before after : List FetchAttempt) : Type 0 where
  same : after ≡ before → Queues m lease before after
  added :
      (delay : ℕ)
      → highest_attempt lease.source_id lease.cycle_key before < max_attempts_per_cycle
      → after
        ≡ new_attempt m.uuid lease.source_id
            (highest_attempt lease.source_id lease.cycle_key before + 1)
            lease.cycle_key
            (m.now + delay)
            m.now
          ∷ before
      → Queues m lease before after

-- Of the tables, a step keeps the terminal records, and it queues at most one attempt.
pub record OnlyQueues (m : Moment) (lease : Lease) (before after : Db) : Type 0 where
  pub attempts : Queues m lease before.attempts after.attempts
  pub runs : after.runs ≡ before.runs
  pub snapshots : after.snapshots ≡ before.snapshots
  pub blobs : after.blobs ≡ before.blobs

module _ (m : Moment) (lease : Lease) where
  retry-OnlyQueues :
      (delay : ℕ) (report : CycleReport) (db : Db)
      → OnlyQueues m lease db (retry m lease delay (report, db)).1
  unfolding retry
  retry-OnlyQueues delay report db = elim (Bool-cases (leb max_attempts_per_cycle highest)) [
    | inl full ↦ rw full kept
    | inr room ↦ rw room (record {
      attempts = added delay (ground arith) refl;
      runs = refl;
      snapshots = refl;
      blobs = refl;
    })
  ]
    where
      highest : ℕ
      highest = highest_attempt lease.source_id lease.cycle_key db.attempts

      kept : OnlyQueues m lease db db
      kept = record { attempts = same refl; runs = refl; snapshots = refl; blobs = refl }

  escalate-OnlyQueues :
      (reason : Reason) (report : CycleReport) (db : Db)
      → OnlyQueues m lease db (escalate m.now lease.source_id reason (report, db)).1
  unfolding escalate
  escalate-OnlyQueues reason report db = record {
    attempts = same refl;
    runs = refl;
    snapshots = refl;
    blobs = refl;
  }

  settle_429-OnlyQueues :
      (delay strikes : ℕ) (report : CycleReport) (db : Db)
      → OnlyQueues m lease db (settle_429 m lease delay strikes (report, db)).1
  unfolding settle_429
  settle_429-OnlyQueues delay strikes report db =
      elim (Bool-cases (leb rate_limit_strike_limit strikes)) [
        | inl e ↦ rw e (escalate-OnlyQueues (Reason.rate_limited_times strikes) report db)
        | inr e ↦ rw e (retry-OnlyQueues delay report db)
      ]

  abbrev Kept : Db → CycleReport × Db → Type 0
  Kept db (report, db') = OnlyQueues m lease db db'

  react_rate_limited-OnlyQueues :
      (urls : Urls) (o : FetchOutcome) (report : CycleReport) (db : Db)
      → OnOk (Kept db) (react_rate_limited urls m lease o report db)
  unfolding react_rate_limited
  react_rate_limited-OnlyQueues urls o report db =
      OnOk-bind (Kept db) (strikes_of (source_of counted lease.source_id)) _ λ strikes _.
        let q =
          settle_429-OnlyQueues delay strikes
            (record report {
              cooldowns_set = report.cooldowns_set + 1;
              hosts_paused = report.hosts_paused + 1;
            })
            (cool_and_pause urls m lease o delay counted) in
        record { attempts = q.attempts; runs = q.runs; snapshots = q.snapshots; blobs = q.blobs }
    where
      delay : ℕ
      delay = or_delay (non_zero o.retry_after) default_rate_limit_cooldown

      counted : Db
      counted = at_source lease.source_id struck db

  react_dns_temporary-OnlyQueues :
      (o : FetchOutcome) (report : CycleReport) (db : Db)
      → Kept db (react_dns_temporary m lease o report db)
  unfolding react_dns_temporary
  react_dns_temporary-OnlyQueues o report db =
      let delay = max (backoff lease.attempt_no none) default_dns_cooldown in
      let reason = Reason.temporary_dns_failure o.error_class in
      let q =
        retry-OnlyQueues delay (record report { cooldowns_set = report.cooldowns_set + 1 })
          (set_cooldown m.now lease.source_id delay reason db) in
      record { attempts = q.attempts; runs = q.runs; snapshots = q.snapshots; blobs = q.blobs }

  react_failed-OnlyQueues :
      (o : FetchOutcome) (report : CycleReport) (db : Db)
      → Kept db (react_failed m lease o report db)
  unfolding react_failed
  react_failed-OnlyQueues o report db = elim (Bool-cases (is_permanent o.http_status)) [
    | inl e ↦ rw e (record { attempts = same refl; runs = refl; snapshots = refl; blobs = refl })
    | inr e ↦ rw e (retry-OnlyQueues (backoff lease.attempt_no o.retry_after) report db)
  ]

  react_to-OnlyQueues :
      (status : FetchStatus) (urls : Urls) (o : FetchOutcome) (report : CycleReport) (db : Db)
      → OnOk (Kept db) (react_to status urls m lease o report db)
  unfolding clear_cooldown react_blocked
  react_to-OnlyQueues FetchStatus.rate_limited urls o report db =
      react_rate_limited-OnlyQueues urls o report db
  react_to-OnlyQueues FetchStatus.dns_temporary urls o report db =
      react_dns_temporary-OnlyQueues o report db
  react_to-OnlyQueues FetchStatus.name_not_resolved urls o report db =
      escalate-OnlyQueues (Reason.hostname_does_not_resolve o.error_detail) report db
  react_to-OnlyQueues FetchStatus.http_error urls o report db = react_failed-OnlyQueues o report db
  react_to-OnlyQueues FetchStatus.timeout urls o report db = react_failed-OnlyQueues o report db
  react_to-OnlyQueues _ urls o report db = record {
    attempts = same refl;
    runs = refl;
    snapshots = refl;
    blobs = refl;
  }

  -- Whatever the outcome, the reaction to it queues at most one attempt, of the same page and
  -- cycle, numbered one above the highest and only below the cap of three; it writes no terminal
  -- record, no snapshot and no blob.
  pub react-OnlyQueues :
      (urls : Urls) (o : FetchOutcome) (report : CycleReport) (db : Db) {report' : CycleReport}
      {db' : Db}
      → react urls m lease o report db ≡ ok (report', db')
      → OnlyQueues m lease db db'
  unfolding react
  react-OnlyQueues urls o report db h =
      OnOk_value (Kept db) (react_to o.status urls m lease o report db)
        (react_to-OnlyQueues o.status urls o report db) h
