-- ===== src/Acquisition/World/Books.antt =====
-- Every step of the workers keeps the books: one run for each attempt that ended.
use data_hub_backend.Base.{
  ℕ, ◌+◌, ◌≤◌, ◌≡◌, refl, Bool, ◌&&◌, Option, none, some, List, arith, String, update, count,
  select, Bool-cases, inl, inr, nat_eq_iff, ◌==◌, ℕ_eq, subst,
}
use data_hub_backend.Base.Counts.{count-update, count-update_out, count_mono, count_disjoint}
use data_hub_backend.Base.Result.{ok, ok_injective}
use data_hub_backend.Acquisition.Schema.{
  is_queued, finalized, FetchAttempt, FetchRun, Db, Urls, seconds, Source,
}
use data_hub_backend.Acquisition.Lease.{
  Lease, Moment, claim_next, claim_row, heartbeat, release_lease, fenced, held, taken,
  take_ownership_for_finalisation, first_in_line, claimable,
}
use data_hub_backend.Acquisition.Lease.Choice.{
  first_in_line-meets, count-first_in_line, count-select,
}
use data_hub_backend.Acquisition.Sweep.{new_attempt}
use data_hub_backend.Acquisition.Enqueue.{
  TargetRow, Progress, RowVerdict, refused, cooling, limit_reached, present, inserted, enqueue_row,
  row_verdict, enqueue_cycle, opened, enqueue_rows_induction,
}
use data_hub_backend.Acquisition.Runner.Queue.{Queues, same, added}
use data_hub_backend.Acquisition.World.{has_id, IsFresh, AreFresh}
use data_hub_backend.Acquisition.World.Runs.{ended, AreKept, Kept, AreKept-update, AreKept-queued}

abbrev queued_at : ℕ → FetchAttempt → Bool
queued_at k a = a.id == k && is_queued a.state

AreKept-taken :
    (k now : ℕ) (worker : String) (expires token : ℕ) (attempts : List FetchAttempt)
    (runs : List FetchRun)
    → 1 ≤ count (queued_at k) attempts
    → AreKept attempts runs
    → AreKept (update (λ r. r.id == k) (taken now worker expires token) attempts) runs
AreKept-taken k now worker expires token attempts runs some_queued kept = record {
  unique = λ i.
      omega (arith, kept.unique i, count-update (has_id i) (has_id k) f (λ a _. refl) attempts);
  matched = λ i. omega (
    arith,
    kept.matched i,
    count-update_out (ended i) (has_id k) f (λ a _. ground arith) attempts,
    count_mono (ended k) (λ a. has_id k a && ended i a) (λ a h. ground arith) attempts,
    none_ended,
  );
}
  where
    f : FetchAttempt → FetchAttempt
    f = taken now worker expires token

    none_ended : count (ended k) attempts ≡ 0
    none_ended = omega (
      arith,
      kept.unique k,
      count_disjoint (ended k) (queued_at k) (has_id k) (λ a h. ground arith) (λ a h. ground arith)
          attempts,
    )

claim_row-Kept :
    (m : Moment) (worker : String) (secs : ℕ) (db : Db) (a : Option FetchAttempt)
    (s : Option Source)
    → ((r : FetchAttempt) → a ≡ some r → 1 ≤ count (queued_at r.id) db.attempts)
    → Kept db
    → Kept (claim_row m worker secs db a s).1
claim_row-Kept m worker secs db none s q k = k
claim_row-Kept m worker secs db (some a) none q k = k
claim_row-Kept m worker secs db (some a) (some s) q k =
    AreKept-taken a.id m.now worker (m.utcnow + seconds secs) m.uuid db.attempts db.runs (q a refl)
      k

pub claim_next-Kept :
    (urls : Urls) (m : Moment) (locked : List ℕ) (cycle_key worker : String) (secs : ℕ)
    (host : Option String) (db : Db)
    → Kept db
    → Kept (claim_next urls m locked cycle_key worker secs host db).1
unfolding claim_next
claim_next-Kept urls m locked cycle_key worker secs host db k =
    claim_row-Kept m worker secs db (first_in_line (select c db.attempts)) _
      (λ r e.
        let q = first_in_line-meets c db.attempts e in
        omega (
          arith,
          count-first_in_line (queued_at r.id) (select c db.attempts) e
              (ground (arith, nat_eq_iff r.id r.id)),
          count-select (queued_at r.id) c db.attempts,
        ))
      k
  where
    c : FetchAttempt → Bool
    c = claimable urls db m.now cycle_key host locked

pub heartbeat-Kept :
    (m : Moment) (lease : Lease) (secs : ℕ) (db : Db) {expires : ℕ} {db' : Db}
    → heartbeat m lease secs db ≡ ok (expires, db')
    → Kept db
    → Kept db'
unfolding heartbeat
heartbeat-Kept m lease secs db {expires} {db'} e k = elim (Bool-cases (held lease db.attempts)) [
  | inr lost ↦ absurd (ground arith)
  | inl owned ↦
      let same = ok_injective (rw owned at e) in
      subst (λ (p : ℕ × Db). Kept p.1) same
        (AreKept-update (fenced lease)
          (λ a. record a {
            heartbeat_at = some m.now;
            lease_expires_at = some (m.utcnow + seconds secs);
          })
          db.attempts db.runs (λ a. refl) (λ a h. refl) k)
]

pub release_lease-Kept :
    (m : Moment) (lease : Lease) (db : Db) → Kept db → Kept (release_lease m lease db)
unfolding release_lease
release_lease-Kept m lease db k =
    AreKept-update (fenced lease) _ db.attempts db.runs (λ a. refl) (λ a h. ground arith) k

-- The books are kept, and the ids from the next one on are still new.
Enqueuing : (ℕ → ℕ) → Progress → Type 0
Enqueuing uuids (created, report, db) = Kept db × ((n : ℕ) → created ≤ n → IsFresh (uuids n) db)

enqueue_row-Enqueuing :
    (uuids : ℕ → ℕ) (now : ℕ) (row : TargetRow) (v : RowVerdict) (p : Progress)
    → ((m n : ℕ) → uuids m ≡ uuids n → m ≡ n)
    → Enqueuing uuids p
    → Enqueuing uuids (enqueue_row uuids now row v p)
unfolding Enqueuing
enqueue_row-Enqueuing uuids now row refused (created, report, db) apart q = q
enqueue_row-Enqueuing uuids now row cooling (created, report, db) apart q = q
enqueue_row-Enqueuing uuids now row limit_reached (created, report, db) apart q = q
enqueue_row-Enqueuing uuids now row present (created, report, db) apart q = q
enqueue_row-Enqueuing uuids now row inserted (created, report, db) apart (k, new) = (
  AreKept-queued (new_attempt (uuids created) row.source_id 1 report.cycle_key now now) db.attempts
      db.runs refl (new created (omega arith)) k,
  λ n h. ground (arith, new n, nat_eq_iff (uuids created) (uuids n), apart created n),
)

pub enqueue-Kept :
    (uuids : ℕ → ℕ) (now : ℕ) (cycle_key : String) (limit : Option ℕ) (rows : List TargetRow)
    (db : Db)
    → AreFresh uuids db
    → Kept db
    → Kept (enqueue_cycle uuids now cycle_key limit rows db).1
unfolding enqueue_cycle Enqueuing
enqueue-Kept uuids now cycle_key limit rows db f k =
    (enqueue_rows_induction (Enqueuing uuids) uuids now limit
      (λ row p q. enqueue_row-Enqueuing uuids now row (row_verdict limit row p) p f.apart q) rows
      (0, opened cycle_key rows, db) (k, λ n h. f.fresh n)).0

pub take_ownership-IsFresh :
    (m : Moment) (lease : Lease) (id : ℕ) (db : Db) {closed : Db}
    → take_ownership_for_finalisation m lease db ≡ ok closed
    → IsFresh id db
    → IsFresh id closed
unfolding take_ownership_for_finalisation
take_ownership-IsFresh m lease id db e new =
    let close : FetchAttempt → FetchAttempt =
      λ a. record a { state = finalized; finalized_at = some m.now } in
    ground (arith, count-update (has_id id) (fenced lease) close (λ a _. refl) db.attempts)

pub AreKept-Queues :
    (m : Moment) (lease : Lease) (runs : List FetchRun) {before after : List FetchAttempt}
    → Queues m lease before after
    → count (has_id m.uuid) before ≡ 0
    → AreKept before runs
    → AreKept after runs
AreKept-Queues m lease runs (same e) new k = rw e k
AreKept-Queues m lease runs {before} (added delay room e) new k =
    rw e (AreKept-queued _ before runs refl new k)
