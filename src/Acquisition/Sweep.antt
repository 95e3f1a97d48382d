-- ===== src/Acquisition/Sweep.antt =====
-- `sweep_expired`, `schedule_retry` and `backoff_seconds` of acquisition/lease.py.
pub mod Backoff
use data_hub_backend.Base.{
  ℕ, ◌+◌, ◌-◌, ◌*◌, ◌^◌, min, max, String, Bool, true, false, not, ◌&&◌, ◌||◌, Option, none, some,
  List, [], ◌∷◌, ◌++◌, ltb, leb, ◌==◌, ℕ_eq, String_eq, if◌then◌else◌, select, update, take,
}
use data_hub_backend.Base.Sets.{member}
use data_hub_backend.Acquisition.Schema.{
  seconds, FetchStatus, AttemptState, queued, is_running, FetchAttempt, FetchRun, Db,
}
use data_hub_backend.Acquisition.Lease.{Moment}

abbrev pub passed : Option ℕ → ℕ → Bool
passed none moment = false
passed (some t) moment = ltb t moment

-- `state = 'RUNNING' AND lease_expires_at < :now`; rows locked elsewhere are skipped.
abbrev pub expired : ℕ → List ℕ → FetchAttempt → Bool
expired moment locked a =
    is_running a.state && (passed a.lease_expires_at moment && not (member a.id locked))

abbrev pub nulls_last : Option ℕ → Option ℕ → Bool
nulls_last none none = true
nulls_last none (some _) = false
nulls_last (some _) none = true
nulls_last (some s) (some t) = leb s t

-- `ORDER BY lease_expires_at`
abbrev pub expires_before : FetchAttempt → FetchAttempt → Bool
expires_before a b = nulls_last a.lease_expires_at b.lease_expires_at

unfoldable pub insert_by_expiry : FetchAttempt → List FetchAttempt → List FetchAttempt
insert_by_expiry a [] = a ∷ []
insert_by_expiry a (b ∷ rest) =
    if expires_before a b then a ∷ b ∷ rest else b ∷ insert_by_expiry a rest

unfoldable pub by_expiry : List FetchAttempt → List FetchAttempt
unfolding insert_by_expiry
by_expiry [] = []
by_expiry (a ∷ rest) = insert_by_expiry a (by_expiry rest)

abbrev pub running_row : ℕ → FetchAttempt → Bool
running_row id a = a.id == id && is_running a.state

-- Some row is still RUNNING under this id.
abbrev pub is_live : ℕ → List FetchAttempt → Bool
is_live id [] = false
is_live id (a ∷ rest) = running_row id a || is_live id rest

abbrev pub or_else : Option ℕ → ℕ → ℕ
or_else none d = d
or_else (some t) d = t

-- The terminal record of an attempt whose lease ran out.
abbrev pub abandoned_run : ℕ → ℕ → (ℕ → ℕ) → FetchAttempt → FetchRun
abandoned_run now moment uuids row = record {
  id = uuids row.id;
  attempt_id = row.id;
  source_id = row.source_id;
  attempt_no = row.attempt_no;
  scheduled_for = row.scheduled_for;
  started_at = or_else row.claimed_at moment;
  finished_at = now;
  status = FetchStatus.abandoned;
  http_status = none;
  fetcher = "STATIC";
  error_class = some (record { name = "LeaseExpired"; detail = none });
  worker_name = row.claimed_by;
}

-- One round of the loop: `uuids` gives the id of the run that each attempt gets.
unfoldable pub sweep_row : ℕ → ℕ → (ℕ → ℕ) → FetchAttempt → Db × List ℕ → Db × List ℕ
sweep_row now moment uuids row (db, abandoned) =
    if is_live row.id db.attempts
    then (
      record db {
        attempts =
            update (running_row row.id)
              (λ a. record a { state = AttemptState.abandoned; finalized_at = some now })
              db.attempts;
        runs = abandoned_run now moment uuids row ∷ db.runs;
      },
      abandoned ++ row.id ∷ [],
    )
    else (db, abandoned)

unfoldable pub sweep_rows : ℕ → ℕ → (ℕ → ℕ) → List FetchAttempt → Db × List ℕ → Db × List ℕ
unfolding sweep_row
sweep_rows now moment uuids [] acc = acc
sweep_rows now moment uuids (row ∷ rest) acc =
    sweep_rows now moment uuids rest (sweep_row now moment uuids row acc)

-- The rows that the SELECT of `sweep_expired` locks.
abbrev pub rows_to_sweep : ℕ → List ℕ → ℕ → Db → List FetchAttempt
rows_to_sweep moment locked limit db =
    take limit (by_expiry (select (expired moment locked) db.attempts))

unfoldable pub sweep_expired : ℕ → ℕ → (ℕ → ℕ) → List ℕ → ℕ → Db → Db × List ℕ
unfolding sweep_rows by_expiry
sweep_expired now moment uuids locked limit db =
    sweep_rows now moment uuids (rows_to_sweep moment locked limit db) (db, [])

abbrev pub of_page : ℕ → String → FetchAttempt → Bool
of_page source_id cycle_key a = a.source_id == source_id && a.cycle_key == cycle_key

-- `coalesce(max(attempt_no), 0)` over the attempts of one page in one cycle.
unfoldable pub highest_attempt : ℕ → String → List FetchAttempt → ℕ
highest_attempt source_id cycle_key [] = 0
highest_attempt source_id cycle_key (a ∷ rest) =
    let highest = highest_attempt source_id cycle_key rest in
    if of_page source_id cycle_key a then max a.attempt_no highest else highest

-- A row as the INSERT statements of the queue make it; the other columns have their defaults.
abbrev pub new_attempt : ℕ → ℕ → ℕ → String → ℕ → ℕ → FetchAttempt
new_attempt id source_id attempt_no cycle_key scheduled_for now = record {
  id = id;
  source_id = source_id;
  attempt_no = attempt_no;
  cycle_key = cycle_key;
  state = queued;
  scheduled_for = some scheduled_for;
  created_at = now;
  claimed_at = none;
  claimed_by = none;
  heartbeat_at = none;
  lease_expires_at = none;
  lease_token = none;
  lease_generation = 0;
  finalized_at = none;
}

-- `delay` is in microseconds.
unfoldable pub schedule_retry : Moment → ℕ → String → ℕ → ℕ → Db → Option ℕ × Db
unfolding highest_attempt
schedule_retry m source_id cycle_key delay max_attempts db =
    let highest = highest_attempt source_id cycle_key db.attempts in
    if leb max_attempts highest then (none, db) else (
      some m.uuid,
      record db {
        attempts =
            new_attempt m.uuid source_id (highest + 1) cycle_key (m.now + delay) m.now
            ∷ db.attempts;
      },
    )

-- `backoff_seconds`, in microseconds.
unfoldable pub backoff : ℕ → Option ℕ → ℕ
backoff attempt_no (some retry_after) = max (seconds 1) (min retry_after (seconds 3600))
backoff attempt_no none = seconds (min 300 (15 * 2 ^ (attempt_no - 1)))
