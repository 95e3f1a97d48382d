-- ===== src/Acquisition/Runner/Cycle/Ending.antt =====
-- The loop of `run_cycle` (acquisition/runner.py) ends: each page leaves less to do.
use data_hub_backend.Base.{
  ℕ, zero, suc, ◌+◌, ◌≤◌, ◌<◌, ◌≡◌, refl, ◌∙◌, subst, String, Option, none, some, List, [], ◌∷◌,
  arith, inl, inr, Bool-cases,
}
use data_hub_backend.Base.Counts.{All2}
use data_hub_backend.Base.Result.{Result, ok, err, ok_injective}
use data_hub_backend.Acquisition.Schema.{FetchStatus, FetchAttempt, finalized, Source, Db}
use data_hub_backend.Acquisition.Lease.{
  Lease, LeaseLostError, Moment, take_ownership_for_finalisation, held, fenced,
}
use data_hub_backend.Acquisition.Recorder.{
  FetchOutcome, RecordedFetch, RecordError, not_stored, record_outcome, record_internal_error,
}
use data_hub_backend.Acquisition.Recorder.Parts.{record_outcome_parts, record_internal_error_parts}
use data_hub_backend.Acquisition.Runner.{CycleReport, tally}
use data_hub_backend.Acquisition.Runner.React.{react, ReactError, no_source_row}
use data_hub_backend.Acquisition.Runner.Attempt.{counted}
use data_hub_backend.Acquisition.Runner.Queue.{react-OnlyQueues, same, added}
use data_hub_backend.Acquisition.Runner.Respect.{react-AllRespect}
use data_hub_backend.Acquisition.Runner.Sources.{Respects}
use data_hub_backend.Acquisition.Runner.Cycle.{
  Raised, lease_lost, other, Turn, Worker, reacted, undone, reaction, finished, attempt_one,
  fenced_out, internal_error_run, contained, contain_internal_error, concluded, process_one,
  next_lease, may_go_on, rounded, run_cycle,
}
use data_hub_backend.Acquisition.Runner.Cycle.Balance.{
  IsKnown, IsKnown-sources, record_outcome-sources,
}
use data_hub_backend.Acquisition.Runner.Cycle.Pages.{KeepsSources, Claimed, next_lease-Claimed}
use data_hub_backend.Acquisition.Runner.Cycle.Work.{
  work, retries_left, work-update, retries_left-falls, claim_next-Uses, Uses,
}

work-eq :
    (key : String) (db db' : Db)
    → db'.attempts ≡ db.attempts
    → db'.sources ≡ db.sources
    → work key db' ≡ work key db
work-eq key db db' a s = rw a (rw s refl)

retries_left-Respects :
    (key : String) (status : FetchStatus) (attempts : List FetchAttempt)
    (before after : List Source)
    → All2 (Respects status) before after
    → retries_left key after attempts ≡ retries_left key before attempts
retries_left-Respects key status attempts [] [] r = refl
retries_left-Respects key status attempts [] (s ∷ rest) r = absurd r
retries_left-Respects key status attempts (s ∷ rest) [] r = absurd r
retries_left-Respects key status attempts (s ∷ before) (t ∷ after) r =
    rw r.0.same_id (rw (retries_left-Respects key status attempts before after r.1) refl)

take_ownership-work :
    (key : String) (m : Moment) (lease : Lease) (db : Db) {closed : Db}
    → take_ownership_for_finalisation m lease db ≡ ok closed
    → work key closed ≡ work key db
unfolding take_ownership_for_finalisation
take_ownership-work key m lease db e = elim (Bool-cases (held lease db.attempts)) [
  | inr lost ↦ absurd (ground arith)
  | inl owned ↦
      let close : FetchAttempt → FetchAttempt =
        λ a. record a { state = finalized; finalized_at = some m.now } in
      subst (λ (d : Db). work key d ≡ work key db) (ok_injective (rw owned at e))
        (work-update key (fenced lease) close db (λ a. (refl, refl, refl)) (λ a h. ground arith))
]

-- The reaction queues at most one retry, which the page had left.
react-work :
    (w : Worker) (turn : Turn) (lease : Lease) (o : FetchOutcome) (r : CycleReport) (db : Db)
    {r' : CycleReport} {db' : Db}
    → IsKnown lease.source_id db
    → react w.urls turn.retried lease o r db ≡ ok (r', db')
    → work lease.cycle_key db' ≤ work lease.cycle_key db
react-work w turn lease o r db {r'} {db'} (s, known) e =
    let key = lease.cycle_key in
    let kept =
      retries_left-Respects key o.status db'.attempts db.sources db'.sources
        (react-AllRespect turn.retried lease w.urls o r db e) in
    elim (react-OnlyQueues turn.retried lease w.urls o r db e).attempts [
      | same q ↦ rw kept (rw q (omega arith))
      | added delay room q ↦
          let falls =
            retries_left-falls key lease.source_id (turn.retried.now + delay) turn.retried.now
              turn.retried.uuid db.attempts room db.sources known in
          rw kept (rw q (ground (arith, falls)))
    ]

-- An attempt that commits leaves no more to do.
abbrev NoMore : String → Db → CycleReport × Result Raised Db → Type 0
NoMore key db (r, ok db') = work key db' ≤ work key db
NoMore key db (r, err e) = Unit

reacted-NoMore :
    (w : Worker) (turn : Turn) (lease : Lease) (o : FetchOutcome) (r : CycleReport) (db db1 : Db)
    (call : Result ReactError (CycleReport × Db))
    → IsKnown lease.source_id db1
    → react w.urls turn.retried lease o r db1 ≡ call
    → work lease.cycle_key db1 ≡ work lease.cycle_key db
    → NoMore lease.cycle_key db (reacted r call)
reacted-NoMore w turn lease o r db db1 (ok (r', db')) known e same_work =
    omega (arith, same_work, react-work w turn lease o r db1 known e)
reacted-NoMore w turn lease o r db db1 (err no_source_row) known e same_work = tt

undone-NoMore :
    (w : Worker) (turn : Turn) (lease : Lease) (o : FetchOutcome) (r : CycleReport) (db db1 : Db)
    → IsKnown lease.source_id db1
    → work lease.cycle_key db1 ≡ work lease.cycle_key db
    → NoMore lease.cycle_key db
        (undone r turn.reaction_fails (react w.urls turn.retried lease o r db1))
undone-NoMore w turn lease o r db db1 known same_work = by_failure turn.reaction_fails
  where
    by_failure :
        (failure : Option String)
        → NoMore lease.cycle_key db (undone r failure (react w.urls turn.retried lease o r db1))
    by_failure none = reacted-NoMore w turn lease o r db db1 _ known refl same_work
    by_failure (some name) = tt

reaction-NoMore :
    (w : Worker) (turn : Turn) (lease : Lease) (o : FetchOutcome) (r : CycleReport) (db : Db)
    (call : Result RecordError (RecordedFetch × Db))
    → IsKnown lease.source_id db
    → record_outcome w.put turn.recorded turn.snapshot_id w.fetcher lease o db ≡ call
    → NoMore lease.cycle_key db (reaction w turn lease o r call)
reaction-NoMore w turn lease o r db (err RecordError.lease_lost) known e = tt
reaction-NoMore w turn lease o r db (err RecordError.hash_mismatch) known e = tt
reaction-NoMore w turn lease o r db (err (not_stored name)) known e = tt
reaction-NoMore w turn lease o r db (ok (recorded, db1)) known e =
    let (closed, taken, writes) =
      record_outcome_parts w.put turn.recorded turn.snapshot_id w.fetcher lease o db e in
    let key = lease.cycle_key in
    undone-NoMore w turn lease o (tally o.status (counted recorded r)) db db1
      (IsKnown-sources lease.source_id db db1
        (record_outcome-sources w.put turn.recorded turn.snapshot_id w.fetcher lease o db e) known)
      (work-eq key closed db1 writes.attempts writes.sources
        ∙ take_ownership-work key turn.recorded lease db taken)

attempt_one-NoMore :
    (w : Worker) (turn : Turn) (lease : Lease) (r : CycleReport) (db : Db)
    → IsKnown lease.source_id db
    → NoMore lease.cycle_key db (attempt_one w turn lease r db)
unfolding attempt_one
attempt_one-NoMore w turn lease r db known = by_fetch (turn.fetched lease)
  where
    started : CycleReport
    started = record r { attempted = r.attempted + 1 }

    by_fetch :
        (fetched : Result String FetchOutcome)
        → NoMore lease.cycle_key db (finished w turn lease fetched started db)
    by_fetch (err error) = tt
    by_fetch (ok o) = reaction-NoMore w turn lease o started db _ known refl

contained-work :
    (turn : Turn) (fetcher error : String) (lease : Lease) (r : CycleReport) (db : Db)
    (down : Option String)
    → work lease.cycle_key
        (contained r db (internal_error_run down turn.contained fetcher error lease db)).1
      ≡ work lease.cycle_key db
contained-work turn fetcher error lease r db (some failure) = refl
contained-work turn fetcher error lease r db none =
    by_record (record_internal_error turn.contained fetcher error lease db) refl
  where
    by_record :
        (call : Result LeaseLostError (ℕ × Db))
        → record_internal_error turn.contained fetcher error lease db ≡ call
        → work lease.cycle_key (contained r db (fenced_out call)).1 ≡ work lease.cycle_key db
    by_record (ok (run_id, db')) e =
        let (closed, taken, made) =
          record_internal_error_parts turn.contained fetcher error lease db e in
        rw made (take_ownership-work lease.cycle_key turn.contained lease db taken)
    by_record (err x) e = refl

concluded-work :
    (w : Worker) (turn : Turn) (lease : Lease) (db : Db) (p : CycleReport × Result Raised Db)
    → NoMore lease.cycle_key db p
    → work lease.cycle_key (concluded w turn lease db p).1 ≤ work lease.cycle_key db
unfolding contain_internal_error
concluded-work w turn lease db (r, ok db') h = h
concluded-work w turn lease db (r, err lease_lost) h = omega arith
concluded-work w turn lease db (r, err (other error)) h = omega (
  arith,
  contained-work turn w.fetcher error lease (record r { internal_error = r.internal_error + 1 }) db
      turn.database_down,
)

process_one-work :
    (w : Worker) (turn : Turn) (lease : Lease) (r : CycleReport) (db : Db)
    → IsKnown lease.source_id db
    → work lease.cycle_key (process_one w turn lease r db).1 ≤ work lease.cycle_key db
unfolding process_one
process_one-work w turn lease r db known =
    concluded-work w turn lease db _ (attempt_one-NoMore w turn lease r db known)

next_lease-Uses :
    (w : Worker) (turn : Turn) (processed : ℕ) (db : Db)
    → Uses w.cycle_key db (next_lease w turn processed db)
next_lease-Uses w turn processed db = elim (Bool-cases (may_go_on w.max_pages processed)) [
  | inl e ↦
      rw e
        (claim_next-Uses w.cycle_key w.urls turn.claimed turn.locked w.name w.lease_seconds none db)
  | inr e ↦ rw e tt
]

-- What others commit meanwhile adds no work to the cycle.
abbrev pub AddsNoWork : String → (Db → Db) → Type 0
AddsNoWork key f = (db : Db) → work key (f db) ≤ work key db

rounded-returns :
    (w : Worker) (turn : Turn) (fuel : ℕ) (r : CycleReport) (db : Db)
    (rest : CycleReport → Db → Option (CycleReport × Db)) (p : Option Lease × Db)
    → KeepsSources turn.meanwhile
    → AddsNoWork w.cycle_key turn.meanwhile
    → ((r1 : CycleReport) (db1 : Db)
        → work w.cycle_key db1 < fuel
        → (q : CycleReport × Db) × (rest r1 db1 ≡ some q))
    → work w.cycle_key db < suc fuel
    → Claimed db p
    → Uses w.cycle_key db p
    → (q : CycleReport × Db) × (rounded w turn rest r p ≡ some q)
rounded-returns w turn fuel r db rest (none, db1) keeps adds later enough known uses = (_, refl)
rounded-returns w turn fuel r db rest (some lease, db1) keeps adds later enough known (k, uses) =
    let less =
      process_one-work w turn lease r (turn.meanwhile db1) (keeps lease.source_id db1 known) in
    later _ _ (
      omega (
        arith,
        enough,
        uses,
        adds db1,
        subst
            (λ key.
              work key (process_one w turn lease r (turn.meanwhile db1)).1
              ≤ work key (turn.meanwhile db1))
            k less,
      ))

-- The loop ends, with or without a limit of pages, after at most one round more than the cycle has
-- queued attempts and retries left to queue, if others meanwhile delete no source and add no work
-- to the cycle.
pub run_cycle-returns :
    (w : Worker) (turns : ℕ → Turn)
    → ((n : ℕ) → KeepsSources (turns n).meanwhile)
    → ((n : ℕ) → AddsNoWork w.cycle_key (turns n).meanwhile)
    → (fuel processed : ℕ) (r : CycleReport) (db : Db) → work w.cycle_key db < fuel
    → (p : CycleReport × Db) × (run_cycle w turns fuel processed r db ≡ some p)
unfolding run_cycle
run_cycle-returns w turns keeps adds zero processed r db enough = absurd (omega (arith, enough))
run_cycle-returns w turns keeps adds (suc fuel) processed r db enough =
    rounded-returns w (turns processed) fuel r db _ _ (keeps processed) (adds processed)
      (λ r1 db1 left. run_cycle-returns w turns keeps adds fuel (processed + 1) r1 db1 left) enough
      (next_lease-Claimed w (turns processed) processed db)
      (next_lease-Uses w (turns processed) processed db)
