-- ===== src/Acquisition/World/Fencing.antt =====
-- The fence of acquisition/lease.py: a lease that is lost stays lost.
use data_hub_backend.Base.{
  ℕ, ◌+◌, ◌≡◌, refl, ◌≢◌, Bool, true, false, Option, none, some, List, [], ◌∷◌, arith, String,
  update, nat_eq_iff, ◌==◌, ℕ_eq,
}
use data_hub_backend.Base.Result.{ok}
use data_hub_backend.Base.Sets.{member}
use data_hub_backend.Acquisition.Schema.{
  FetchAttempt, AttemptState, finalized, Db, Urls, Source, seconds,
}
use data_hub_backend.Acquisition.Lease.{
  Lease, Moment, claim_next, heartbeat, release_lease, fenced, held, taken, claim_row,
  take_ownership_for_finalisation,
}
use data_hub_backend.Acquisition.Sweep.{
  sweep_expired, rows_to_sweep, sweep_row, sweep_rows, schedule_retry, running_row,
}
use data_hub_backend.Acquisition.Enqueue.{
  TargetRow, Progress, RowVerdict, enqueue_row, enqueue_cycle, enqueue_rows_induction,
}
use data_hub_backend.Acquisition.Recorder.{
  FetchOutcome, RecordedFetch, record_outcome, record_internal_error,
}
use data_hub_backend.Acquisition.Recorder.Parts.{record_outcome_parts, record_internal_error_parts}
use data_hub_backend.Acquisition.Runner.Queue.{Queues, same, added, react-OnlyQueues}
use data_hub_backend.Acquisition.World.{
  World, Step, claim, beat, release, sweep, finish, fail, enqueue, Reach, here, next,
}

-- An update that gives no row to the lease gives it none of the table.
held-update :
    (lease : Lease) (p : FetchAttempt → Bool) (f : FetchAttempt → FetchAttempt)
    → ((a : FetchAttempt) → fenced lease (f a) ≡ true → fenced lease a ≡ true)
    → (rows : List FetchAttempt) → held lease rows ≡ false
    → held lease (update p f rows) ≡ false
held-update lease p f keeps [] h = refl
held-update lease p f keeps (a ∷ rest) h = ground (arith, keeps a, held-update lease p f keeps rest)

held-claim_row :
    (lease : Lease) (m : Moment) (worker : String) (secs : ℕ) (db : Db) (a : Option FetchAttempt)
    (s : Option Source)
    → lease.lease_token ≢ m.uuid
    → held lease db.attempts ≡ false
    → held lease (claim_row m worker secs db a s).1.attempts ≡ false
held-claim_row lease m worker secs db none s other h = h
held-claim_row lease m worker secs db (some a) none other h = h
held-claim_row lease m worker secs db (some a) (some s) other h =
    held-update lease (λ r. r.id == a.id) _
      (λ r k. absurd (other (ground (arith, nat_eq_iff m.uuid lease.lease_token)))) db.attempts h

held-claim_next :
    (lease : Lease) (urls : Urls) (m : Moment) (locked : List ℕ) (cycle_key worker : String)
    (secs : ℕ) (host : Option String) (db : Db)
    → lease.lease_token ≢ m.uuid
    → held lease db.attempts ≡ false
    → held lease (claim_next urls m locked cycle_key worker secs host db).1.attempts ≡ false
unfolding claim_next
held-claim_next lease urls m locked cycle_key worker secs host db other h =
    held-claim_row lease m worker secs db _ _ other h

held-heartbeat :
    (lease mine : Lease) (m : Moment) (secs : ℕ) (db : Db) {expires : ℕ} {db' : Db}
    → heartbeat m mine secs db ≡ ok (expires, db')
    → held lease db.attempts ≡ false
    → held lease db'.attempts ≡ false
unfolding heartbeat
held-heartbeat lease mine m secs db e h = ground (
  arith,
  held-update lease (fenced mine)
      (λ a. record a {
        heartbeat_at = some m.now;
        lease_expires_at = some (m.utcnow + seconds secs);
      })
      (λ a k. k) db.attempts h,
)

held-release_lease :
    (lease mine : Lease) (m : Moment) (db : Db)
    → held lease db.attempts ≡ false
    → held lease (release_lease m mine db).attempts ≡ false
unfolding release_lease
held-release_lease lease mine m db h =
    held-update lease (fenced mine) _ (λ a k. ground arith) db.attempts h

held-take_ownership :
    (lease mine : Lease) (m : Moment) (db : Db) {db' : Db}
    → take_ownership_for_finalisation m mine db ≡ ok db'
    → held lease db.attempts ≡ false
    → held lease db'.attempts ≡ false
unfolding take_ownership_for_finalisation
held-take_ownership lease mine m db e h = ground (
  arith,
  held-update lease (fenced mine) (λ a. record a { state = finalized; finalized_at = some m.now })
      (λ a k. ground arith) db.attempts h,
)

held-sweep_row :
    (lease : Lease) (now moment : ℕ) (uuids : ℕ → ℕ) (row : FetchAttempt) (acc : Db × List ℕ)
    → held lease acc.0.attempts ≡ false
    → held lease (sweep_row now moment uuids row acc).0.attempts ≡ false
unfolding sweep_row
held-sweep_row lease now moment uuids row (db, found) h = ground (
  arith,
  held-update lease (running_row row.id)
      (λ a. record a { state = AttemptState.abandoned; finalized_at = some now })
      (λ a k. ground arith) db.attempts h,
)

held-sweep_rows :
    (lease : Lease) (now moment : ℕ) (uuids : ℕ → ℕ) (rows : List FetchAttempt) (acc : Db × List ℕ)
    → held lease acc.0.attempts ≡ false
    → held lease (sweep_rows now moment uuids rows acc).0.attempts ≡ false
unfolding sweep_rows
held-sweep_rows lease now moment uuids [] acc h = h
held-sweep_rows lease now moment uuids (row ∷ rest) acc h =
    held-sweep_rows lease now moment uuids rest _ (held-sweep_row lease now moment uuids row acc h)

held-sweep_expired :
    (lease : Lease) (now moment : ℕ) (uuids : ℕ → ℕ) (locked : List ℕ) (limit : ℕ) (db : Db)
    → held lease db.attempts ≡ false
    → held lease (sweep_expired now moment uuids locked limit db).0.attempts ≡ false
unfolding sweep_expired
held-sweep_expired lease now moment uuids locked limit db h =
    held-sweep_rows lease now moment uuids (rows_to_sweep moment locked limit db) (db, []) h

held-schedule_retry :
    (lease : Lease) (m : Moment) (source_id : ℕ) (cycle_key : String) (delay cap : ℕ) (db : Db)
    → held lease db.attempts ≡ false
    → held lease (schedule_retry m source_id cycle_key delay cap db).1.attempts ≡ false
unfolding schedule_retry
held-schedule_retry lease m source_id cycle_key delay cap db h = ground arith

held_of_Queues :
    (lease mine : Lease) (m : Moment) (before after : List FetchAttempt)
    → Queues m mine before after
    → held lease before ≡ false
    → held lease after ≡ false
held_of_Queues lease mine m before after (same e) h = rw e h
held_of_Queues lease mine m before after (added delay room e) h = rw e (ground arith)

held-enqueue_row :
    (lease : Lease) (uuids : ℕ → ℕ) (now : ℕ) (row : TargetRow) (v : RowVerdict) (acc : Progress)
    → held lease acc.2.attempts ≡ false
    → held lease (enqueue_row uuids now row v acc).2.attempts ≡ false
held-enqueue_row lease uuids now row v acc h = ground arith

held-enqueue_cycle :
    (lease : Lease) (uuids : ℕ → ℕ) (now : ℕ) (cycle_key : String) (limit : Option ℕ)
    (rows : List TargetRow) (db : Db)
    → held lease db.attempts ≡ false
    → held lease (enqueue_cycle uuids now cycle_key limit rows db).1.attempts ≡ false
unfolding enqueue_cycle
held-enqueue_cycle lease uuids now cycle_key limit rows db h =
    enqueue_rows_induction (λ p. held lease p.2.attempts ≡ false) uuids now limit
      (λ row p k. held-enqueue_row lease uuids now row _ p k) rows _ h

held-record_outcome :
    (lease mine : Lease) (put : List ℕ → String) (m : Moment) (snapshot_id : ℕ) (fetcher : String)
    (o : FetchOutcome) (db : Db) {recorded : RecordedFetch} {db' : Db}
    → record_outcome put m snapshot_id fetcher mine o db ≡ ok (recorded, db')
    → held lease db.attempts ≡ false
    → held lease db'.attempts ≡ false
held-record_outcome lease mine put m snapshot_id fetcher o db e h =
    let (closed, taken, w) = record_outcome_parts put m snapshot_id fetcher mine o db e in
    rw w.attempts (held-take_ownership lease mine m db taken h)

held-record_internal_error :
    (lease mine : Lease) (m : Moment) (fetcher error : String) (db : Db) {run_id : ℕ} {db' : Db}
    → record_internal_error m fetcher error mine db ≡ ok (run_id, db')
    → held lease db.attempts ≡ false
    → held lease db'.attempts ≡ false
held-record_internal_error lease mine m fetcher error db e h =
    let (closed, taken, w) = record_internal_error_parts m fetcher error mine db e in
    rw w (held-take_ownership lease mine m db taken h)

-- A token that was minted is not minted again.
minted_apart :
    (t u : ℕ) (minted : List ℕ) → member t minted ≡ true → member u minted ≡ false → t ≢ u
minted_apart t u minted h k e = ground arith

-- A lease that a worker has lost, and its token is used up.
abbrev pub Lost : Lease → World → Type 0
Lost lease w = (held lease w.db.attempts ≡ false) × (member lease.lease_token w.minted ≡ true)

module _ (lease : Lease) {urls : Urls} {put : List ℕ → String} where
  Lost-Step : {w v : World} → Step urls put w v → Lost lease w → Lost lease v
  Lost-Step (claim {w} m locked cycle_key worker secs host new) (h, k) = (
    held-claim_next lease urls m locked cycle_key worker secs host w.db
        (minted_apart lease.lease_token m.uuid w.minted k new) h,
    ground arith,
  )
  Lost-Step (beat {w} m mine secs expires e) (h, k) = (held-heartbeat lease mine m secs w.db e h, k)
  Lost-Step (release {w} m mine) (h, k) = (held-release_lease lease mine m w.db h, k)
  Lost-Step (sweep {w} now moment uuids locked limit) (h, k) =
      (held-sweep_expired lease now moment uuids locked limit w.db h, k)
  Lost-Step (finish {w} {db} report m m' snapshot_id fetcher mine o e r fresh) (h, k) =
      let q = react-OnlyQueues m' mine urls o report db r in
      (
        held_of_Queues lease mine m' _ _ q.attempts
            (held-record_outcome lease mine put m snapshot_id fetcher o w.db e h),
        k,
      )
  Lost-Step (fail {w} m fetcher error mine e) (h, k) =
      (held-record_internal_error lease mine m fetcher error w.db e h, k)
  Lost-Step (enqueue {w} uuids now cycle_key limit rows fresh) (h, k) =
      (held-enqueue_cycle lease uuids now cycle_key limit rows w.db h, k)

  pub Lost-Reach : {w v : World} → Reach urls put w v → Lost lease w → Lost lease v
  Lost-Reach here l = l
  Lost-Reach (next r s) l = Lost-Step s (Lost-Reach r l)
