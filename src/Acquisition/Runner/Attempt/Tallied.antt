-- ===== src/Acquisition/Runner/Attempt/Tallied.antt =====
-- The counters of a cycle report (acquisition/runner.py): each recorded outcome is counted once.
use data_hub_backend.Base.{
  ℕ, ◌+◌, max, ◌≤◌, ◌≡◌, refl, ◌∙◌, String, none, List, arith, is_none, leb, Bool-cases, inl, inr,
  ap,
}
use data_hub_backend.Base.Result.{Result, ok, err, OnOk, OnOk-bind, OnOk_value, >>=-eq-ok}
use data_hub_backend.Acquisition.Schema.{FetchStatus, Reason, Db, Urls}
use data_hub_backend.Acquisition.Lease.{Lease, Moment, max_attempts_per_cycle, source_of}
use data_hub_backend.Acquisition.Sweep.{schedule_retry, backoff}
use data_hub_backend.Acquisition.Recorder.{FetchOutcome, record_outcome}
use data_hub_backend.Acquisition.Runner.{
  CycleReport, tally, at_source, struck, set_cooldown, set_eligibility_if_unjudged, is_unjudged,
  is_permanent, default_rate_limit_cooldown, default_dns_cooldown, rate_limit_strike_limit,
}
use data_hub_backend.Acquisition.Runner.React.{
  react, react_to, react_rate_limited, react_dns_temporary, react_failed, settle_429,
  cool_and_pause, retry, escalate, strikes_of, or_delay, non_zero,
}
use data_hub_backend.Acquisition.Runner.Attempt.{not_recorded, no_reaction, raised, counted, settle}

-- The outcomes that a report counts, whatever their status.
abbrev pub outcomes : CycleReport → ℕ
outcomes r =
    r.ok + r.unchanged + r.http_error + r.blocked + r.timeout + r.rate_limited + r.dns_temporary
    + r.name_not_resolved + r.internal_error

-- The outcomes, the attempts, the pages that no outcome was recorded for, and our own failures.
abbrev pub totals : CycleReport → ℕ × ℕ × ℕ × ℕ
totals r = (outcomes r, r.attempted, r.lease_lost + r.unrecorded, r.internal_error)

pub outcomes-tally :
    (status : FetchStatus) (r : CycleReport) → outcomes (tally status r) ≡ outcomes r + 1
unfolding tally
outcomes-tally FetchStatus.ok r = omega arith
outcomes-tally FetchStatus.unchanged r = omega arith
outcomes-tally FetchStatus.blocked r = omega arith
outcomes-tally FetchStatus.timeout r = omega arith
outcomes-tally FetchStatus.rate_limited r = omega arith
outcomes-tally FetchStatus.dns_temporary r = omega arith
outcomes-tally FetchStatus.name_not_resolved r = omega arith
outcomes-tally FetchStatus.internal_error r = omega arith
outcomes-tally FetchStatus.http_error r = omega arith
outcomes-tally FetchStatus.parse_failed r = omega arith
outcomes-tally FetchStatus.abandoned r = omega arith

pub tally-others :
    (status : FetchStatus) (r : CycleReport)
    → ((tally status r).attempted ≡ r.attempted)
      × ((tally status r).lease_lost + (tally status r).unrecorded ≡ r.lease_lost + r.unrecorded)
      × (r.internal_error ≤ (tally status r).internal_error)
unfolding tally
tally-others FetchStatus.ok r = (refl, refl, omega arith)
tally-others _ r = (refl, refl, omega arith)

totals-retry :
    (m : Moment) (lease : Lease) (delay : ℕ) (r : CycleReport) (db : Db)
    → totals (retry m lease delay (r, db)).0 ≡ totals r
unfolding retry
totals-retry m lease delay r db =
    elim (Bool-cases (
      is_none
        (schedule_retry m lease.source_id lease.cycle_key delay max_attempts_per_cycle db).0)) [
          | inl e ↦ rw e refl
          | inr e ↦ rw e refl
        ]

totals-escalate :
    (now id : ℕ) (reason : Reason) (r : CycleReport) (db : Db)
    → totals (escalate now id reason (r, db)).0 ≡ totals r
unfolding escalate set_eligibility_if_unjudged
totals-escalate now id reason r db = elim (Bool-cases (is_unjudged id db.sources)) [
  | inl e ↦ rw e refl
  | inr e ↦ rw e refl
]

totals-settle_429 :
    (m : Moment) (lease : Lease) (delay strikes : ℕ) (r : CycleReport) (db : Db)
    → totals (settle_429 m lease delay strikes (r, db)).0 ≡ totals r
unfolding settle_429
totals-settle_429 m lease delay strikes r db =
    elim (Bool-cases (leb rate_limit_strike_limit strikes)) [
      | inl e ↦
          rw e (totals-escalate m.now lease.source_id (Reason.rate_limited_times strikes) r db)
      | inr e ↦ rw e (totals-retry m lease delay r db)
    ]

totals-react_failed :
    (m : Moment) (lease : Lease) (o : FetchOutcome) (r : CycleReport) (db : Db)
    → totals (react_failed m lease o r db).0 ≡ totals r
unfolding react_failed
totals-react_failed m lease o r db = elim (Bool-cases (is_permanent o.http_status)) [
  | inl e ↦ rw e refl
  | inr e ↦ rw e (totals-retry m lease (backoff lease.attempt_no o.retry_after) r db)
]

abbrev pub Counts : ℕ × ℕ × ℕ × ℕ → CycleReport × Db → Type 0
Counts n (r, db) = totals r ≡ n

pub react_to-Counts :
    (status : FetchStatus) (urls : Urls) (m : Moment) (lease : Lease) (o : FetchOutcome)
    (r : CycleReport) (db : Db)
    → OnOk (Counts (totals r)) (react_to status urls m lease o r db)
unfolding react_rate_limited react_dns_temporary
react_to-Counts FetchStatus.rate_limited urls m lease o r db =
    OnOk-bind (Counts (totals r))
      (strikes_of (source_of (at_source lease.source_id struck db) lease.source_id)) _
      (λ strikes _.
        let delay = or_delay (non_zero o.retry_after) default_rate_limit_cooldown in
        totals-settle_429 m lease delay strikes
          (record r { cooldowns_set = r.cooldowns_set + 1; hosts_paused = r.hosts_paused + 1 })
          (cool_and_pause urls m lease o delay (at_source lease.source_id struck db)))
react_to-Counts FetchStatus.dns_temporary urls m lease o r db =
    let delay = max (backoff lease.attempt_no none) default_dns_cooldown in
    totals-retry m lease delay (record r { cooldowns_set = r.cooldowns_set + 1 })
      (set_cooldown m.now lease.source_id delay (Reason.temporary_dns_failure o.error_class) db)
react_to-Counts FetchStatus.name_not_resolved urls m lease o r db =
    totals-escalate m.now lease.source_id (Reason.hostname_does_not_resolve o.error_detail) r db
react_to-Counts FetchStatus.http_error urls m lease o r db = totals-react_failed m lease o r db
react_to-Counts FetchStatus.timeout urls m lease o r db = totals-react_failed m lease o r db
react_to-Counts _ urls m lease o r db = refl

ok_of_raised {ℓ κ μ} :
    {E : Type ℓ} {F : Type κ} {A : Type μ} (f : E → F) (call : Result E A) {a : A}
    → raised f call ≡ ok a
    → call ≡ ok a
ok_of_raised f (ok b) h = cc
ok_of_raised f (err e) h = absurd cc

-- A terminal transaction that commits counts its outcome once, under one status, whatever the
-- reaction does.
pub outcomes-settle :
    (put : List ℕ → String) (urls : Urls) (m m' : Moment) (snapshot_id : ℕ) (fetcher : String)
    (lease : Lease) (o : FetchOutcome) (report : CycleReport) (db : Db) {report' : CycleReport}
    {db' : Db}
    → settle put urls m m' snapshot_id fetcher lease o report db ≡ ok (report', db')
    → outcomes report' ≡ outcomes report + 1
unfolding settle react
outcomes-settle put urls m m' snapshot_id fetcher lease o report db {report'} {db'} e =
    let ((recorded, db1), _, e1) =
      >>=-eq-ok (raised not_recorded (record_outcome put m snapshot_id fetcher lease o db)) _ e in
    let before = tally o.status (counted recorded report) in
    let same : totals report' ≡ totals before =
      OnOk_value (Counts (totals before)) (react_to o.status urls m' lease o before db1)
        (react_to-Counts o.status urls m' lease o before db1)
        (ok_of_raised no_reaction (react_to o.status urls m' lease o before db1) e1) in
    ap (λ (t : ℕ × ℕ × ℕ × ℕ). t.0) same ∙ outcomes-tally o.status (counted recorded report)
