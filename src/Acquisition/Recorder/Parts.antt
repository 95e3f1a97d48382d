-- ===== src/Acquisition/Recorder/Parts.antt =====
-- The parts of a recorded outcome (acquisition/recorder.py): the bytes, the fence, and the rows.
use data_hub_backend.Base.{
  ℕ, String, String_eq, ◌≡◌, refl, ap, subst, inl, inr, Option, none, some, List, ◌∷◌, Bool-cases,
}
use data_hub_backend.Base.Result.{Result, ok, err, ok_injective, >>=-eq-ok, guard}
use data_hub_backend.Base.Sets.{member}
use data_hub_backend.Acquisition.Schema.{Db}
use data_hub_backend.Acquisition.Lease.{
  Lease, LeaseLostError, Moment, take_ownership_for_finalisation,
}
use data_hub_backend.Acquisition.Recorder.{
  FetchOutcome, RecordedFetch, owned, stored_hash, outcome_run, write_record, record_outcome,
  run_fits, snapshot_fits, not_stored, error_run, record_internal_error,
}

-- `after` is `before` with the terminal run of the outcome, its blob and its snapshot.
pub record Writes (m : Moment) (fetcher : String) (lease : Lease) (o : FetchOutcome)
    (before after : Db) : Type 0 where
  pub attempts : after.attempts ≡ before.attempts
  pub runs : after.runs ≡ outcome_run m fetcher lease o ∷ before.runs
  pub sources : after.sources ≡ before.sources

write_record-Writes :
    (m : Moment) (snapshot_id : ℕ) (fetcher : String) (lease : Lease) (o : FetchOutcome)
    (hash : Option String) (db : Db)
    → Writes m fetcher lease o db (write_record m snapshot_id fetcher lease o hash db).1
unfolding write_record
write_record-Writes m snapshot_id fetcher lease o none db = record {
  attempts = refl;
  runs = refl;
  sources = refl;
}
write_record-Writes m snapshot_id fetcher lease o (some hash) db =
    elim (Bool-cases (member hash db.blobs)) [
      | inl old ↦ rw old (record { attempts = refl; runs = refl; sources = refl })
      | inr new ↦ rw new (record { attempts = refl; runs = refl; sources = refl })
    ]

ok_of_owned : (r : Result LeaseLostError Db) {db : Db} → owned r ≡ ok db → r ≡ ok db
ok_of_owned (ok d) e = cc
ok_of_owned (err x) e = cc

-- A recorded outcome went through the fence, and then wrote its rows.
pub record_outcome_parts :
    (put : List ℕ → String) (m : Moment) (snapshot_id : ℕ) (fetcher : String) (lease : Lease)
    (o : FetchOutcome) (db : Db) {recorded : RecordedFetch} {db' : Db}
    → record_outcome put m snapshot_id fetcher lease o db ≡ ok (recorded, db')
    → (closed : Db) × (take_ownership_for_finalisation m lease db ≡ ok closed)
      × Writes m fetcher lease o closed db'
unfolding record_outcome
record_outcome_parts put m snapshot_id fetcher lease o db {recorded} {db'} e =
    let (hash, _, e1) = >>=-eq-ok (stored_hash put o) _ e in
    let (closed, taken, e2) = >>=-eq-ok (owned (take_ownership_for_finalisation m lease db)) _ e1 in
    let (u, _, e3) = >>=-eq-ok (guard (run_fits m o) (not_stored "IntegrityError")) _ e2 in
    let (v, _, e4) = >>=-eq-ok (guard (snapshot_fits o hash) (not_stored "DataError")) _ e3 in
    let w = write_record-Writes m snapshot_id fetcher lease o hash closed in
    let final : (write_record m snapshot_id fetcher lease o hash closed).1 ≡ db' =
      ap (λ (p : RecordedFetch × Db). p.1) (ok_injective e4) in
    (
      closed,
      ok_of_owned (take_ownership_for_finalisation m lease db) taken,
      subst (Writes m fetcher lease o closed) final w,
    )

-- So did a recorded internal error.
pub record_internal_error_parts :
    (m : Moment) (fetcher error : String) (lease : Lease) (db : Db) {run_id : ℕ} {db' : Db}
    → record_internal_error m fetcher error lease db ≡ ok (run_id, db')
    → (closed : Db) × (take_ownership_for_finalisation m lease db ≡ ok closed)
      × (db' ≡ record closed { runs = error_run m fetcher error lease ∷ closed.runs })
unfolding record_internal_error
record_internal_error_parts m fetcher error lease db e =
    let (closed, taken, e') = >>=-eq-ok (take_ownership_for_finalisation m lease db) _ e in
    (closed, taken, cc)
