-- ===== src/Acquisition/World/Runs.antt =====
-- Exactly one terminal run for each attempt that ended (acquisition/lease.py, recorder.py).
use data_hub_backend.Base.{
  ℕ, ◌+◌, ◌≤◌, ◌≡◌, refl, Bool, true, false, ◌&&◌, some, List, [], ◌∷◌, arith, update, count,
  Bool-cases, inl, inr, nat_eq, nat_eq_iff, ◌==◌, ℕ_eq, if◌then◌else◌, ap, subst,
}
use data_hub_backend.Base.Counts.{count-update, count-update_new, count_mono}
use data_hub_backend.Base.Result.{ok, ok_injective}
use data_hub_backend.Acquisition.Schema.{
  AttemptState, finalized, is_terminal, FetchAttempt, FetchRun, Db,
}
use data_hub_backend.Acquisition.Lease.{
  Lease, Moment, fenced, held, take_ownership_for_finalisation,
}
use data_hub_backend.Acquisition.Sweep.{
  sweep_expired, rows_to_sweep, sweep_row, sweep_rows, running_row, is_live, abandoned_run,
}
use data_hub_backend.Acquisition.World.{has_id}

-- The attempt `i`, if it has ended.
abbrev pub ended : ℕ → FetchAttempt → Bool
ended i a = a.id == i && is_terminal a.state

abbrev pub run_of : ℕ → FetchRun → Bool
run_of i r = r.attempt_id == i

-- Each id is that of one attempt at most, and each attempt that ended has exactly one run, each
-- other attempt none.
pub record AreKept (attempts : List FetchAttempt) (runs : List FetchRun) : Type 0 where
  pub unique : (i : ℕ) → count (has_id i) attempts ≤ 1
  pub matched : (i : ℕ) → count (run_of i) runs ≡ count (ended i) attempts

-- An update that keeps ids and ends no attempt.
pub AreKept-update :
    (p : FetchAttempt → Bool) (f : FetchAttempt → FetchAttempt) (attempts : List FetchAttempt)
    (runs : List FetchRun)
    → ((a : FetchAttempt) → (f a).id ≡ a.id)
    → ((a : FetchAttempt) → p a ≡ true → is_terminal (f a).state ≡ is_terminal a.state)
    → AreKept attempts runs
    → AreKept (update p f attempts) runs
AreKept-update p f attempts runs ids ends k = record {
  unique = λ i. omega (arith, k.unique i, count-update (has_id i) p f (λ a _. rw (ids a)) attempts);
  matched = λ i.
      omega (
        arith,
        k.matched i,
        count-update (ended i) p f (λ a h. rw (ids a) (rw (ends a h))) attempts,
      );
}

-- An update that ends the one attempt `k`, with its run.
module _ (k : ℕ) (p : FetchAttempt → Bool) (f : FetchAttempt → FetchAttempt)
    (ids : (a : FetchAttempt) → (f a).id ≡ a.id)
    (ends : (a : FetchAttempt) → is_terminal (f a).state ≡ true)
    (at_key : (a : FetchAttempt) → p a ≡ true → (a.id ≡ k) × (is_terminal a.state ≡ false)) where
  ended-update :
      (i : ℕ) (attempts : List FetchAttempt)
      → count (ended i) (update p f attempts)
        ≡ count (ended i) attempts + (if nat_eq k i then count p attempts else 0)
  ended-update i attempts = elim (Bool-cases (nat_eq k i)) [
    | inl e ↦ rw e (
        count-update_new (ended i) p f (λ a h. ground (arith, ids a, ends a, at_key a h))
          (λ a h. ground (arith, at_key a h)) attempts)
    | inr e ↦ rw e (
        omega
          (arith, count-update (ended i) p f (λ a h. ground (arith, ids a, at_key a h)) attempts))
  ]

  AreKept-ended :
      (attempts : List FetchAttempt) (runs : List FetchRun) (r : FetchRun)
      → r.attempt_id ≡ k
      → count p attempts ≡ 1
      → AreKept attempts runs
      → AreKept (update p f attempts) (r ∷ runs)
  AreKept-ended attempts runs r e one kept = record {
    unique =
        λ i. omega (arith, kept.unique i, count-update (has_id i) p f (λ a _. rw (ids a)) attempts);
    matched = λ i. ground (arith, kept.matched i, ended-update i attempts, ap (λ n. nat_eq n i) e);
  }

-- An attempt is queued under a new id.
pub AreKept-queued :
    (a : FetchAttempt) (attempts : List FetchAttempt) (runs : List FetchRun)
    → is_terminal a.state ≡ false
    → count (has_id a.id) attempts ≡ 0
    → AreKept attempts runs
    → AreKept (a ∷ attempts) runs
AreKept-queued a attempts runs unended new k = record {
  unique = λ i. ground (arith, k.unique i, nat_eq_iff a.id i);
  matched = λ i. ground (arith, k.matched i);
}

abbrev pub Kept : Db → Type 0
Kept db = AreKept db.attempts db.runs

count-fenced :
    (lease : Lease) (rows : List FetchAttempt)
    → held lease rows ≡ true
    → 1 ≤ count (fenced lease) rows
count-fenced lease [] h = cc
count-fenced lease (a ∷ rest) h = ground (arith, count-fenced lease rest)

count-running_row :
    (id : ℕ) (rows : List FetchAttempt) → is_live id rows ≡ true → 1 ≤ count (running_row id) rows
count-running_row id [] h = cc
count-running_row id (a ∷ rest) h = ground (arith, count-running_row id rest)

-- The fenced transition ends the one attempt that the lease is on.
pub take_ownership-Kept :
    (m : Moment) (lease : Lease) (db : Db) {closed : Db} (r : FetchRun)
    → take_ownership_for_finalisation m lease db ≡ ok closed
    → r.attempt_id ≡ lease.attempt_id
    → Kept db
    → AreKept closed.attempts (r ∷ closed.runs)
unfolding take_ownership_for_finalisation
take_ownership-Kept m lease db {closed} r e to k = elim (Bool-cases (held lease db.attempts)) [
  | inr lost ↦ absurd (ground arith)
  | inl owned ↦
      let close : FetchAttempt → FetchAttempt =
        λ a. record a { state = finalized; finalized_at = some m.now } in
      let one : count (fenced lease) db.attempts ≡ 1 = omega (
        arith,
        k.unique lease.attempt_id,
        count-fenced lease db.attempts owned,
        count_mono (has_id lease.attempt_id) (fenced lease) (λ a h. ground arith) db.attempts,
      ) in
      let done =
        AreKept-ended lease.attempt_id (fenced lease) close (λ a. refl) (λ a. refl)
          (λ a h. ground (arith, nat_eq_iff a.id lease.attempt_id)) db.attempts db.runs r to one
          k in
      let same : record db { attempts = update (fenced lease) close db.attempts } ≡ closed =
        ok_injective (rw owned at e) in
      subst (λ (d : Db). AreKept d.attempts (r ∷ d.runs)) same done
]

sweep_row-Kept :
    (now moment : ℕ) (uuids : ℕ → ℕ) (row : FetchAttempt) (acc : Db × List ℕ)
    → Kept acc.0
    → Kept (sweep_row now moment uuids row acc).0
unfolding sweep_row
sweep_row-Kept now moment uuids row (db, found) k = elim (Bool-cases (is_live row.id db.attempts)) [
  | inr gone ↦ rw gone k
  | inl live ↦
      let one : count (running_row row.id) db.attempts ≡ 1 = omega (
        arith,
        k.unique row.id,
        count-running_row row.id db.attempts live,
        count_mono (has_id row.id) (running_row row.id) (λ a h. ground arith) db.attempts,
      ) in
      rw live (
        AreKept-ended row.id (running_row row.id)
          (λ a. record a { state = AttemptState.abandoned; finalized_at = some now }) (λ a. refl)
          (λ a. refl) (λ a h. ground (arith, nat_eq_iff a.id row.id)) db.attempts db.runs
          (abandoned_run now moment uuids row) refl one k)
]

sweep_rows-Kept :
    (now moment : ℕ) (uuids : ℕ → ℕ) (rows : List FetchAttempt) (acc : Db × List ℕ)
    → Kept acc.0
    → Kept (sweep_rows now moment uuids rows acc).0
unfolding sweep_rows
sweep_rows-Kept now moment uuids [] acc k = k
sweep_rows-Kept now moment uuids (row ∷ rest) acc k =
    sweep_rows-Kept now moment uuids rest (sweep_row now moment uuids row acc)
      (sweep_row-Kept now moment uuids row acc k)

pub sweep_expired-Kept :
    (now moment : ℕ) (uuids : ℕ → ℕ) (locked : List ℕ) (limit : ℕ) (db : Db)
    → Kept db
    → Kept (sweep_expired now moment uuids locked limit db).0
unfolding sweep_expired
sweep_expired-Kept now moment uuids locked limit db k =
    sweep_rows-Kept now moment uuids (rows_to_sweep moment locked limit db) (db, []) k
