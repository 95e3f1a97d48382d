-- ===== src/Acquisition/Runner/Cycle.antt =====
-- `run_cycle`, `_process_one`, `_contain_internal_error` and `_attempt_one` of
-- acquisition/runner.py. The host gate, the two lists of a report and the log lines are left out:
-- they delay a request and write no table.
pub mod Balance
pub mod Pages
pub mod Work
pub mod Ending
pub mod Refined
use data_hub_backend.Base.{
  ℕ, suc, zero, ◌+◌, ◌-◌, String, Bool, true, false, Option, none, some, List, ltb, if◌then◌else◌,
}
use data_hub_backend.Base.Result.{Result, ok, err}
use data_hub_backend.Acquisition.Schema.{FetchStatus, Db, Urls}
use data_hub_backend.Acquisition.Lease
use data_hub_backend.Acquisition.Lease.{Lease, LeaseLostError, Moment, claim_next}
use data_hub_backend.Acquisition.Recorder
use data_hub_backend.Acquisition.Recorder.{
  FetchOutcome, RecordedFetch, RecordError, not_stored, record_outcome, record_internal_error,
}
use data_hub_backend.Acquisition.Runner.{CycleReport, tally}
use data_hub_backend.Acquisition.Runner.React.{ReactError, no_source_row, react}
use data_hub_backend.Acquisition.Runner.Attempt.{counted}

-- What leaves `_attempt_one`: a lost lease, or another exception by its class name.
pub data Raised : Type 0 where
  lease_lost : Raised
  other : String → Raised

-- What surrounds the work on one page: the clocks and ids of its transactions, the rows that others
-- hold, what others commit while the page is fetched, and how the fetcher and the database answer.
pub record Turn : Type 0 where
  pub claimed : Moment
  pub locked : List ℕ
  pub meanwhile : Db → Db
  pub fetched : Lease → Result String FetchOutcome
  pub recorded : Moment
  pub retried : Moment
  pub snapshot_id : ℕ
  pub reaction_fails : Option String  -- what a statement of `_react` raises in the database
  pub contained : Moment
  pub database_down : Option String  -- what the transaction of the containment raises

-- The arguments of `run_cycle`; `put` is the store's.
pub record Worker : Type 0 where
  pub put : List ℕ → String
  pub urls : Urls
  pub cycle_key : String
  pub name : String
  pub fetcher : String
  pub lease_seconds : ℕ
  pub max_pages : Option ℕ

-- The report keeps what was counted when an exception passes; the tables do not.
abbrev pub reacted :
    CycleReport → Result ReactError (CycleReport × Db) → CycleReport × Result Raised Db
reacted tallied (ok (report, db)) = (report, ok db)
reacted tallied (err no_source_row) = (tallied, err (other "NoResultFound"))

-- A statement of `_react` may fail in the database, as one whose `now() + make_interval` is out of
-- range does: the transaction is rolled back, and the report keeps what was counted.
abbrev pub undone :
    CycleReport
    → Option String
    → Result ReactError (CycleReport × Db)
    → CycleReport × Result Raised Db
undone tallied none call = reacted tallied call
undone tallied (some failure) call = (tallied, err (other failure))

abbrev pub reaction :
    Worker
    → Turn
    → Lease
    → FetchOutcome
    → CycleReport
    → Result RecordError (RecordedFetch × Db)
    → CycleReport × Result Raised Db
reaction w turn lease outcome report (err RecordError.lease_lost) = (report, err lease_lost)
reaction w turn lease outcome report (err RecordError.hash_mismatch) =
    (report, err (other "RuntimeError"))
reaction w turn lease outcome report (err (not_stored name)) = (report, err (other name))
reaction w turn lease outcome report (ok (recorded, db)) =
    let tallied = tally outcome.status (counted recorded report) in
    undone tallied turn.reaction_fails (react w.urls turn.retried lease outcome tallied db)

abbrev pub finished :
    Worker
    → Turn
    → Lease
    → Result String FetchOutcome
    → CycleReport
    → Db
    → CycleReport × Result Raised Db
finished w turn lease (err error) report db = (report, err (other error))
finished w turn lease (ok outcome) report db =
    reaction w turn lease outcome report
      (record_outcome w.put turn.recorded turn.snapshot_id w.fetcher lease outcome db)

-- `_attempt_one`
unfoldable pub attempt_one :
    Worker → Turn → Lease → CycleReport → Db → CycleReport × Result Raised Db
unfolding record_outcome tally react
attempt_one w turn lease report db =
    finished w turn lease (turn.fetched lease) (record report { attempted = report.attempted + 1 })
      db

abbrev pub fenced_out : Result LeaseLostError (ℕ × Db) → Result Raised (ℕ × Db)
fenced_out (ok r) = ok r
fenced_out (err e) = err lease_lost

-- `engine.begin()` with `record_internal_error` in it.
abbrev pub internal_error_run :
    Option String → Moment → String → String → Lease → Db → Result Raised (ℕ × Db)
internal_error_run (some failure) m fetcher error lease db = err (other failure)
internal_error_run none m fetcher error lease db =
    fenced_out (record_internal_error m fetcher error lease db)

abbrev pub contained : CycleReport → Db → Result Raised (ℕ × Db) → CycleReport × Db
contained report db (ok (run_id, db')) = (report, db')
contained report db (err lease_lost) = (
  record report { internal_error = report.internal_error - 1; lease_lost = report.lease_lost + 1 },
  db,
)
contained report db (err (other failure)) = (
  record report { internal_error = report.internal_error - 1; unrecorded = report.unrecorded + 1 },
  db,
)

-- `_contain_internal_error`
unfoldable pub contain_internal_error :
    Worker → Turn → Lease → String → CycleReport → Db → CycleReport × Db
unfolding record_internal_error
contain_internal_error w turn lease error report db =
    contained (record report { internal_error = report.internal_error + 1 }) db
      (internal_error_run turn.database_down turn.contained w.fetcher error lease db)

abbrev pub concluded :
    Worker → Turn → Lease → Db → CycleReport × Result Raised Db → CycleReport × Db
concluded w turn lease db (report, ok db') = (report, db')
concluded w turn lease db (report, err lease_lost) =
    (record report { lease_lost = report.lease_lost + 1 }, db)
concluded w turn lease db (report, err (other error)) =
    contain_internal_error w turn lease error report db

-- `_process_one`
unfoldable pub process_one : Worker → Turn → Lease → CycleReport → Db → CycleReport × Db
unfolding attempt_one contain_internal_error
process_one w turn lease report db = concluded w turn lease db (attempt_one w turn lease report db)

-- `max_pages is None or processed < max_pages`
abbrev pub may_go_on : Option ℕ → ℕ → Bool
may_go_on none processed = true
may_go_on (some pages) processed = ltb processed pages

-- One round: no claim past the limit of pages.
abbrev pub next_lease : Worker → Turn → ℕ → Db → Option Lease × Db
next_lease w turn processed db =
    if may_go_on w.max_pages processed
    then claim_next w.urls turn.claimed turn.locked w.cycle_key w.name w.lease_seconds none db
    else (none, db)

-- `break`, or the page of the lease and then the rest of the loop.
abbrev pub rounded :
    Worker
    → Turn
    → (CycleReport → Db → Option (CycleReport × Db))
    → CycleReport
    → Option Lease × Db
    → Option (CycleReport × Db)
rounded w turn rest report (none, db) = some (report, db)
rounded w turn rest report (some lease, db) =
    let (report', db') = process_one w turn lease report (turn.meanwhile db) in rest report' db'

-- The loop of `run_cycle`, on fuel: `none` where it runs out before the loop ends.
unfoldable pub run_cycle :
    Worker → (ℕ → Turn) → ℕ → ℕ → CycleReport → Db → Option (CycleReport × Db)
unfolding claim_next process_one
run_cycle w turns zero processed report db = none
run_cycle w turns (suc fuel) processed report db =
    rounded w (turns processed) (run_cycle w turns fuel (processed + 1)) report
      (next_lease w (turns processed) processed db)
