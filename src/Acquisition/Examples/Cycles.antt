-- ===== src/Acquisition/Examples/Cycles.antt =====
-- A cycle of two pages run on the data of the examples, and a worker's gate.
use data_hub_backend.Base.{
  ℕ, ◌+◌, ◌≡◌, refl, Option, none, some, List, [], ◌∷◌, arith, nat_eq, if◌then◌else◌,
}
use data_hub_backend.Base.Result.{ok, err}
use data_hub_backend.Acquisition.Schema.{FetchStatus, Db}
use data_hub_backend.Acquisition.Runner.{CycleReport}
use data_hub_backend.Acquisition.Enqueue.{enqueue_cycle}
use data_hub_backend.Acquisition.Runner.Cycle.{Worker, Turn, run_cycle}
use data_hub_backend.Acquisition.Runner.Cycle.Ending.{run_cycle-returns}
use data_hub_backend.Acquisition.Runner.Cycle.Refined.{run_cycle-Leads, AreOthers, Drawn, Leads}
use data_hub_backend.Acquisition.World.{World, here}
use data_hub_backend.Acquisition.Runner.Gate.{
  IsPolite, use_all-IsPolite, visit, hold_off, GateUse, use_all, new_gate,
}
use data_hub_backend.Acquisition.Lease.{claim_next, first_in_line, take_ownership_for_finalisation}
use data_hub_backend.Acquisition.Enqueue.{enqueue_rows, row_verdict}
use data_hub_backend.Acquisition.Sweep.{schedule_retry, highest_attempt}
use data_hub_backend.Acquisition.Recorder.{
  record_internal_error, record_outcome, write_record, ensure_blob, error_text,
}
use data_hub_backend.Acquisition.Runner.{
  tally, pause_host, pause_rows, set_cooldown, set_eligibility_if_unjudged,
}
use data_hub_backend.Acquisition.Runner.React.{
  react, react_rate_limited, settle_429, cool_and_pause, retry, escalate,
}
use data_hub_backend.Acquisition.Runner.Cycle.{process_one, attempt_one, contain_internal_error}
use data_hub_backend.Acquisition.Examples.{
  two_sites, empty_queue, rows, at_time, outcome_of, no_counts,
}

abbrev open_queue : Db
open_queue = (enqueue_cycle (λ n. n + 7) 0 "2026-W40" none rows empty_queue).1

-- The second page's fetch raises.
abbrev turn : ℕ → Turn
turn n = record {
  claimed = at_time (n + 1) (n + 50);
  locked = [];
  meanwhile = λ db. db;
  fetched = λ lease.
      if nat_eq lease.source_id 1 then ok (outcome_of FetchStatus.rate_limited) else err "KeyError";
  recorded = at_time (n + 2) (n + 150);
  retried = at_time (n + 2) (n + 250);
  snapshot_id = n + 350;
  reaction_fails = none;
  contained = at_time (n + 3) (n + 450);
  database_down = none;
}

abbrev worker : Worker
worker = record {
  put = λ bytes. "";
  urls = two_sites;
  cycle_key = "2026-W40";
  name = "worker-1";
  fetcher = "STATIC";
  lease_seconds = 180;
  max_pages = none;
}

abbrev report_of : CycleReport → Option (CycleReport × Db) → CycleReport
report_of d none = d
report_of d (some (r, db)) = r

abbrev db_of : Db → Option (CycleReport × Db) → Db
db_of d none = d
db_of d (some (r, db)) = db

abbrev ran : Option (CycleReport × Db)
ran = run_cycle worker turn 10 0 no_counts open_queue

two_attempted : (report_of no_counts ran).attempted ≡ 2
unfolding run_cycle enqueue_cycle enqueue_rows row_verdict claim_next first_in_line process_one
    attempt_one contain_internal_error record_internal_error record_outcome
    take_ownership_for_finalisation write_record ensure_blob error_text tally react
    react_rate_limited settle_429 cool_and_pause retry escalate schedule_retry highest_attempt
    pause_host pause_rows set_cooldown set_eligibility_if_unjudged
two_attempted = refl

one_of_ours : (report_of no_counts ran).internal_error ≡ 1
unfolding run_cycle enqueue_cycle enqueue_rows row_verdict claim_next first_in_line process_one
    attempt_one contain_internal_error record_internal_error record_outcome
    take_ownership_for_finalisation write_record ensure_blob error_text tally react
    react_rate_limited settle_429 cool_and_pause retry escalate schedule_retry highest_attempt
    pause_host pause_rows set_cooldown set_eligibility_if_unjudged
one_of_ours = refl

-- The pause of the host is out of range: the page with the 429 is counted twice.
abbrev overflowing : Option (CycleReport × Db)
overflowing =
    run_cycle worker (λ n. record (turn n) { reaction_fails = some "DataError" }) 10 0 no_counts
      open_queue

counted_twice :
    ((report_of no_counts overflowing).attempted ≡ 2)
    × ((report_of no_counts overflowing).rate_limited ≡ 1)
    × ((report_of no_counts overflowing).internal_error ≡ 2)
unfolding run_cycle enqueue_cycle enqueue_rows row_verdict claim_next first_in_line process_one
    attempt_one contain_internal_error record_internal_error record_outcome
    take_ownership_for_finalisation write_record ensure_blob error_text tally react
    react_rate_limited settle_429 cool_and_pause retry escalate schedule_retry highest_attempt
    pause_host pause_rows set_cooldown set_eligibility_if_unjudged
counted_twice = (refl, refl, refl)

run_cycle-returns_example :
    (p : CycleReport × Db) × (run_cycle worker turn 10 0 no_counts open_queue ≡ some p)
unfolding enqueue_cycle enqueue_rows row_verdict highest_attempt
run_cycle-returns_example =
    run_cycle-returns worker turn (λ n id db k. k) (λ n db. omega arith) 10 0 no_counts open_queue
      (omega arith)

abbrev nobody_else : AreOthers worker turn (λ n u. u)
nobody_else = record { steps = λ n u. here; tables = λ n u. refl }

abbrev opened : World
opened = record { db = open_queue; minted = [] }

run_cycle-Leads_example : Leads worker opened (db_of open_queue ran)
unfolding Drawn run_cycle enqueue_cycle enqueue_rows row_verdict claim_next first_in_line
    process_one attempt_one contain_internal_error record_internal_error record_outcome
    take_ownership_for_finalisation write_record ensure_blob error_text tally react
    react_rate_limited settle_429 cool_and_pause retry escalate schedule_retry highest_attempt
    pause_host pause_rows set_cooldown set_eligibility_if_unjudged
run_cycle-Leads_example =
    run_cycle-Leads worker turn (λ n u. u) nobody_else 10 0 no_counts opened
      {r' = report_of no_counts ran} {db' = db_of open_queue ran}
      (refl, (refl, (refl, (refl, (refl, tt))))) refl

-- Two visits, with a pause of a minute between them.
abbrev uses : List GateUse
uses = visit "a.edu" 10 0 1 ∷ hold_off "a.edu" 11 60 ∷ visit "a.edu" 12 0 1 ∷ []

use_all-IsPolite_example : IsPolite 2 (use_all uses (new_gate 2, [])).1
use_all-IsPolite_example = use_all-IsPolite 2 uses
