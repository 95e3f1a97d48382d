-- ===== src/Acquisition/World/Account.antt =====
-- One terminal run for each attempt that ended, whatever the workers, the sweeper and the scheduler
-- do (acquisition/lease.py, recorder.py, runner.py).
use data_hub_backend.Base.{ℕ, ◌≡◌, refl, sym, ◌∙◌, subst, List, ◌∷◌, String}
use data_hub_backend.Base.Result.{ok}
use data_hub_backend.Acquisition.Schema.{Db, Urls, FetchAttempt}
use data_hub_backend.Acquisition.Lease.{Lease, Moment}
use data_hub_backend.Acquisition.Recorder.{
  FetchOutcome, RecordedFetch, record_outcome, record_internal_error, outcome_run, error_run,
}
use data_hub_backend.Acquisition.Recorder.Parts.{record_outcome_parts, record_internal_error_parts}
use data_hub_backend.Acquisition.Runner.{CycleReport}
use data_hub_backend.Acquisition.Runner.React.{react}
use data_hub_backend.Acquisition.Runner.Queue.{react-OnlyQueues}
use data_hub_backend.Acquisition.World.{
  World, IsFresh, Step, claim, beat, release, sweep, finish, fail, enqueue, Reach, here, next,
}
use data_hub_backend.Acquisition.World.Runs.{AreKept, Kept, take_ownership-Kept, sweep_expired-Kept}
use data_hub_backend.Acquisition.World.Books.{
  claim_next-Kept, heartbeat-Kept, release_lease-Kept, enqueue-Kept, take_ownership-IsFresh,
  AreKept-Queues,
}

finish-Kept :
    (urls : Urls) (put : List ℕ → String) (m m' : Moment) (snapshot_id : ℕ) (fetcher : String)
    (lease : Lease) (o : FetchOutcome) (report : CycleReport) (db : Db) {recorded : RecordedFetch}
    {report' : CycleReport} {db' db'' : Db}
    → record_outcome put m snapshot_id fetcher lease o db ≡ ok (recorded, db')
    → react urls m' lease o report db' ≡ ok (report', db'')
    → IsFresh m'.uuid db
    → Kept db
    → Kept db''
finish-Kept urls put m m' snapshot_id fetcher lease o report db {recorded} {report'} {db'} {db''} e
      h new k =
    let (closed, taken, w) = record_outcome_parts put m snapshot_id fetcher lease o db e in
    let q = react-OnlyQueues m' lease urls o report db' h in
    let booked = take_ownership-Kept m lease db (outcome_run m fetcher lease o) taken refl k in
    let runs : db''.runs ≡ outcome_run m fetcher lease o ∷ closed.runs = q.runs ∙ w.runs in
    subst (AreKept db''.attempts) (sym runs) (
      AreKept-Queues m' lease (outcome_run m fetcher lease o ∷ closed.runs) q.attempts
        (rw w.attempts (take_ownership-IsFresh m lease m'.uuid db taken new))
        (subst (λ (l : List FetchAttempt). AreKept l (outcome_run m fetcher lease o ∷ closed.runs))
          (sym w.attempts) booked))

fail-Kept :
    (m : Moment) (fetcher error : String) (lease : Lease) (db : Db) {run_id : ℕ} {db' : Db}
    → record_internal_error m fetcher error lease db ≡ ok (run_id, db')
    → Kept db
    → Kept db'
fail-Kept m fetcher error lease db e k =
    let (closed, taken, same) = record_internal_error_parts m fetcher error lease db e in
    subst Kept (sym same)
      (take_ownership-Kept m lease db (error_run m fetcher error lease) taken refl k)

module _ (urls : Urls) (put : List ℕ → String) where
  Kept-Step : {w v : World} → Step urls put w v → Kept w.db → Kept v.db
  Kept-Step (claim {w} m locked cycle_key worker secs host new) k =
      claim_next-Kept urls m locked cycle_key worker secs host w.db k
  Kept-Step (beat {w} m lease secs expires e) k = heartbeat-Kept m lease secs w.db e k
  Kept-Step (release {w} m lease) k = release_lease-Kept m lease w.db k
  Kept-Step (sweep {w} now moment uuids locked limit) k =
      sweep_expired-Kept now moment uuids locked limit w.db k
  Kept-Step (finish {w} report m m' snapshot_id fetcher lease o e h new) k =
      finish-Kept urls put m m' snapshot_id fetcher lease o report w.db e h new k
  Kept-Step (fail {w} m fetcher error lease e) k = fail-Kept m fetcher error lease w.db e k
  Kept-Step (enqueue {w} uuids now cycle_key limit rows fresh) k =
      enqueue-Kept uuids now cycle_key limit rows w.db fresh k

  -- If each attempt that ended has exactly one terminal run and no other attempt has one, and ids
  -- are unique, then this is still so after any claims, heartbeats, releases, sweeps, recorded
  -- outcomes with their reactions, internal errors and enqueues, in any order.
  pub Kept-Reach : {w v : World} → Reach urls put w v → Kept w.db → Kept v.db
  Kept-Reach here k = k
  Kept-Reach (next r s) k = Kept-Step s (Kept-Reach r k)
