-- ===== src/Acquisition/World.antt =====
-- The workers, the sweeper and the scheduler as steps on the shared tables: every transaction of
-- acquisition that writes `fetch_attempt` or `fetch_run` (lease.py, recorder.py, runner.py). Each
-- claim's `uuid4` is a token that no claim had before, and a new attempt's id is one that no
-- attempt has.
pub mod Fencing
pub mod Stale
pub mod Runs
pub mod Books
pub mod Account
use data_hub_backend.Base.{
  ℕ, String, ◌≡◌, Bool, true, false, Option, List, [], ◌∷◌, ◌==◌, ℕ_eq, count,
}
use data_hub_backend.Base.Result.{ok}
use data_hub_backend.Base.Sets.{member}
use data_hub_backend.Acquisition.Schema.{FetchAttempt, Db, Urls}
use data_hub_backend.Acquisition.Lease.{Lease, Moment, claim_next, heartbeat, release_lease}
use data_hub_backend.Acquisition.Sweep.{sweep_expired}
use data_hub_backend.Acquisition.Enqueue.{TargetRow, enqueue_cycle}
use data_hub_backend.Acquisition.Recorder.{
  FetchOutcome, RecordedFetch, record_outcome, record_internal_error,
}
use data_hub_backend.Acquisition.Runner.{CycleReport}
use data_hub_backend.Acquisition.Runner.React.{react}

pub record World : Type 0 where
  pub db : Db
  pub minted : List ℕ  -- the tokens of the claims so far

abbrev pub has_id : ℕ → FetchAttempt → Bool
has_id id a = a.id == id

-- `uuid4` gave an id that no attempt has.
abbrev pub IsFresh : ℕ → Db → Type 0
IsFresh id db = count (has_id id) db.attempts ≡ 0

-- The ids that an enqueue draws are new, and each is another one.
pub record AreFresh (uuids : ℕ → ℕ) (db : Db) : Type 0 where
  pub fresh : (n : ℕ) → IsFresh (uuids n) db
  pub apart : (m n : ℕ) → uuids m ≡ uuids n → m ≡ n

pub data Step (urls : Urls) (put : List ℕ → String) : World → World → Type 0 where
  claim :
      {w : World} (m : Moment) (locked : List ℕ) (cycle_key worker : String) (lease_seconds : ℕ)
      (host : Option String)
      → member m.uuid w.minted ≡ false
      → Step urls put w (record {
        db = (claim_next urls m locked cycle_key worker lease_seconds host w.db).1;
        minted = m.uuid ∷ w.minted;
      })
  beat :
      {w : World} {db : Db} (m : Moment) (lease : Lease) (lease_seconds expires : ℕ)
      → heartbeat m lease lease_seconds w.db ≡ ok (expires, db)
      → Step urls put w (record { db = db; minted = w.minted })
  release :
      {w : World} (m : Moment) (lease : Lease)
      → Step urls put w (record { db = release_lease m lease w.db; minted = w.minted })
  sweep :
      {w : World} (now moment : ℕ) (uuids : ℕ → ℕ) (locked : List ℕ) (limit : ℕ)
      → Step urls put w
          (record { db = (sweep_expired now moment uuids locked limit w.db).0; minted = w.minted })
  -- The terminal transaction of `_attempt_one`: `m'` is the moment of the retry's INSERT.
  finish :
      {w : World} {db db' : Db} {recorded : RecordedFetch} (report : CycleReport)
      {report' : CycleReport} (m m' : Moment) (snapshot_id : ℕ) (fetcher : String) (lease : Lease)
      (outcome : FetchOutcome)
      → record_outcome put m snapshot_id fetcher lease outcome w.db ≡ ok (recorded, db)
      → react urls m' lease outcome report db ≡ ok (report', db')
      → IsFresh m'.uuid w.db
      → Step urls put w (record { db = db'; minted = w.minted })
  fail :
      {w : World} {db : Db} {run_id : ℕ} (m : Moment) (fetcher error : String) (lease : Lease)
      → record_internal_error m fetcher error lease w.db ≡ ok (run_id, db)
      → Step urls put w (record { db = db; minted = w.minted })
  enqueue :
      {w : World} (uuids : ℕ → ℕ) (now : ℕ) (cycle_key : String) (limit : Option ℕ)
      (rows : List TargetRow)
      → AreFresh uuids w.db
      → Step urls put w
          (record { db = (enqueue_cycle uuids now cycle_key limit rows w.db).1; minted = w.minted })

pub data Reach (urls : Urls) (put : List ℕ → String) (w : World) : World → Type 0 where
  here : Reach urls put w w
  next : {u v : World} → Reach urls put w u → Step urls put u v → Reach urls put w v
