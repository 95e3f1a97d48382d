-- ===== src/Acquisition/World/Stale.antt =====
-- What a worker that lost its lease can still do: nothing (acquisition/lease.py, recorder.py).
use data_hub_backend.Base.{ℕ, ◌≡◌, refl, ◌≢◌, false, some, List, [], ◌∷◌, arith, String, update}
use data_hub_backend.Base.Result.{ok, err}
use data_hub_backend.Acquisition.Schema.{FetchAttempt, finalized, Db, Urls}
use data_hub_backend.Acquisition.Lease.{
  Lease, Moment, heartbeat, release_lease, fenced, held, lease_lost,
  take_ownership_for_finalisation,
}
use data_hub_backend.Acquisition.Recorder.{
  FetchOutcome, RecordedFetch, record_outcome, record_internal_error,
}
use data_hub_backend.Acquisition.Recorder.Parts.{record_outcome_parts}
use data_hub_backend.Acquisition.World.{World, Reach}
use data_hub_backend.Acquisition.World.Fencing.{Lost, Lost-Reach}

update-no_row :
    (lease : Lease) (f : FetchAttempt → FetchAttempt) (rows : List FetchAttempt)
    → held lease rows ≡ false
    → update (fenced lease) f rows ≡ rows
update-no_row lease f [] h = refl
update-no_row lease f (a ∷ rest) h = ground (arith, update-no_row lease f rest)

-- No fenced operation under the lease has an effect.
pub record Refused (lease : Lease) (put : List ℕ → String) (db : Db) : Type 0 where
  pub no_heartbeat : (m : Moment) (secs : ℕ) → heartbeat m lease secs db ≡ err lease_lost
  pub no_release : (m : Moment) → release_lease m lease db ≡ db
  pub no_outcome :
      (m : Moment) (snapshot_id : ℕ) (fetcher : String) (o : FetchOutcome)
      (result : RecordedFetch × Db)
      → record_outcome put m snapshot_id fetcher lease o db ≢ ok result
  pub no_internal_error :
      (m : Moment) (fetcher error : String)
      → record_internal_error m fetcher error lease db ≡ err lease_lost

no_ownership :
    (lease : Lease) (db : Db) (m : Moment)
    → held lease db.attempts ≡ false
    → take_ownership_for_finalisation m lease db ≡ err lease_lost
unfolding take_ownership_for_finalisation
no_ownership lease db m h = ground arith

refused :
    (lease : Lease) (put : List ℕ → String) (db : Db)
    → held lease db.attempts ≡ false
    → Refused lease put db
unfolding heartbeat release_lease record_internal_error
refused lease put db h = record {
  no_heartbeat = λ m secs. ground arith;
  no_release = λ m. rw update-no_row refl;
  no_outcome = λ m snapshot_id fetcher o result e.
      let (closed, taken, _) = record_outcome_parts put m snapshot_id fetcher lease o db e in
      absurd (cc (taken, no_ownership lease db m h));
  no_internal_error = λ m fetcher error. rw (no_ownership lease db m h);
}

-- From the moment a lease is lost, whatever the workers, the sweeper and the scheduler do, no fenced
-- operation under it has an effect: heartbeats and terminal records are refused, and a release
-- changes nothing.
pub Lost-Refused :
    (lease : Lease) (urls : Urls) (put : List ℕ → String) {w v : World}
    → Lost lease w
    → Reach urls put w v
    → Refused lease put v.db
Lost-Refused lease urls put l r = refused lease put _ (Lost-Reach lease r l).0

-- The rows of the fence after the transition: FINALIZED, so no longer fenced.
held-finalized :
    (lease : Lease) (m : Moment) (rows : List FetchAttempt)
    → held lease (
        update (fenced lease) (λ a. record a { state = finalized; finalized_at = some m.now }) rows)
      ≡ false
held-finalized lease m [] = refl
held-finalized lease m (a ∷ rest) = ground (arith, held-finalized lease m rest)

-- A recorded outcome uses its lease up: right after it, heartbeats and terminal records under it are
-- refused, and a release changes nothing.
pub record_outcome-Refused :
    (put : List ℕ → String) (m : Moment) (snapshot_id : ℕ) (fetcher : String) (lease : Lease)
    (o : FetchOutcome) (db : Db) {recorded : RecordedFetch} {db' : Db}
    → record_outcome put m snapshot_id fetcher lease o db ≡ ok (recorded, db')
    → Refused lease put db'
unfolding take_ownership_for_finalisation
record_outcome-Refused put m snapshot_id fetcher lease o db {recorded} {db'} e =
    let (closed, taken, w) = record_outcome_parts put m snapshot_id fetcher lease o db e in
    refused lease put db' (rw w.attempts (ground (arith, held-finalized lease m db.attempts)))
