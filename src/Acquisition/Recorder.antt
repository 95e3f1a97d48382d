-- ===== src/Acquisition/Recorder.antt =====
-- acquisition/recorder.py: the terminal record of one attempt. Of the columns of a run and of a
-- snapshot, those that name the attempt, the source, the outcome and the bytes are kept; headers,
-- redirect chain and the redacted URLs are left out. The constraints on the columns that hold what
-- the server sent are kept, those on the others are left out.
pub mod Parts
use Prim.Native.String.{count as text_length}
use data_hub_backend.Base.{
  ℕ, String, Bool, true, false, ◌&&◌, ◌||◌, leb, Option, none, some, List, [], ◌∷◌, ◌==◌, String_eq,
  if◌then◌else◌,
}
use data_hub_backend.Base.Result.{Result, ok, err, ◌>>=◌, ◌>>◌, guard}
use data_hub_backend.Base.Sets.{member}
use data_hub_backend.Acquisition.Schema
use data_hub_backend.Acquisition.Schema.{FetchStatus, ErrorText, FetchRun, Snapshot, Db}
use data_hub_backend.Acquisition.Lease.{
  Lease, LeaseLostError, Moment, take_ownership_for_finalisation,
}

-- What the fetcher observed: the fields of `FetchOutcome` that are recorded or reacted to.
pub record FetchOutcome : Type 0 where
  pub status : FetchStatus
  pub http_status : Option ℕ
  pub requested_url : String
  pub started_at : ℕ
  pub finished_at : Option ℕ
  pub content : Option (List ℕ)
  pub content_hash : Option String
  pub error_class : Option String
  pub error_detail : Option String
  pub etag : Option String
  pub last_modified : Option String
  pub content_type : Option String
  pub retry_after : Option ℕ  -- `retry_after_seconds`, in microseconds

pub record RecordedFetch : Type 0 where
  pub fetch_run_id : ℕ
  pub snapshot_id : Option ℕ
  pub content_hash : Option String
  pub blob_created : Bool
  pub status : FetchStatus

pub data RecordError : Type 0 where
  lease_lost : RecordError
  hash_mismatch : RecordError
  not_stored : String → RecordError  -- the database's exception, by its class

abbrev pub lost : LeaseLostError → RecordError
lost _ = lease_lost

-- `LeaseLostError` passes through.
abbrev pub owned : Result LeaseLostError Db → Result RecordError Db
owned (ok db) = ok db
owned (err e) = err (lost e)

abbrev pub is_ok_status : FetchStatus → Bool
is_ok_status FetchStatus.ok = true
is_ok_status _ = false

-- The bytes go to the store before anything else: `put` gives their hash.
abbrev pub store_hash :
    (List ℕ → String) → Option String → Option (List ℕ) → Result RecordError (Option String)
store_hash put expected none = ok none
store_hash put none (some content) = err hash_mismatch
store_hash put (some expected) (some content) =
    if put content == expected then ok (some (put content)) else err hash_mismatch

abbrev pub stored_hash : (List ℕ → String) → FetchOutcome → Result RecordError (Option String)
stored_hash put outcome =
    if is_ok_status outcome.status
    then store_hash put outcome.content_hash outcome.content
    else ok none

-- `_ensure_blob`: `ON CONFLICT (content_hash) DO NOTHING RETURNING content_hash`.
unfoldable pub ensure_blob : Option String → Db → Bool × Db
ensure_blob none db = (false, db)
ensure_blob (some hash) db =
    if member hash db.blobs then (false, db) else (true, record db { blobs = hash ∷ db.blobs })

abbrev pub or_now : Option ℕ → ℕ → ℕ
or_now none now = now
or_now (some t) now = t

-- `value or None`: Python takes an empty text for false.
abbrev pub non_empty : Option String → Option String
non_empty none = none
non_empty (some text) = if text == "" then none else some text

abbrev pub or_text : Option String → String → String
or_text none d = d
or_text (some text) d = text

abbrev pub is_success : FetchStatus → Bool
is_success FetchStatus.ok = true
is_success FetchStatus.unchanged = true
is_success _ = false

-- `_error_text`: the parts; the cuts at 200 and 128 characters are left out.
unfoldable pub error_text : FetchOutcome → Option ErrorText
error_text outcome =
    if is_success outcome.status
    then none
    else some (record {
      name = or_text (non_empty outcome.error_class) "UnknownError";
      detail = non_empty outcome.error_detail;
    })

-- The `fetch_run` that `record_outcome` inserts.
abbrev pub outcome_run : Moment → String → Lease → FetchOutcome → FetchRun
outcome_run m fetcher lease outcome = record {
  id = m.uuid;
  attempt_id = lease.attempt_id;
  source_id = lease.source_id;
  attempt_no = lease.attempt_no;
  scheduled_for = none;
  started_at = outcome.started_at;
  finished_at = or_now outcome.finished_at m.utcnow;
  status = outcome.status;
  http_status = outcome.http_status;
  fetcher = fetcher;
  error_class = error_text outcome;
  worker_name = some lease.worker;
}

abbrev pub add_snapshot : Moment → ℕ → Lease → FetchOutcome → Option String → Db → Option ℕ × Db
add_snapshot m snapshot_id lease outcome none db = (none, db)
add_snapshot m snapshot_id lease outcome (some hash) db =
    let snapshot : Snapshot = record {
      id = snapshot_id;
      fetch_run_id = m.uuid;
      source_id = lease.source_id;
      content_hash = hash;
      requested_url = outcome.requested_url;
      http_status = outcome.http_status;
      observed_at = outcome.started_at;
    } in
    (some snapshot_id, record db { snapshots = snapshot ∷ db.snapshots })

-- The constraints of `fetch_run` that depend on the outcome: `http_status_range` and
-- `finish_after_start` (sources/models.py).
abbrev pub status_in_range : Option ℕ → Bool
status_in_range none = true
status_in_range (some n) = leb 100 n && leb n 599

abbrev pub run_fits : Moment → FetchOutcome → Bool
run_fits m outcome =
    status_in_range outcome.http_status
    && leb outcome.started_at (or_now outcome.finished_at m.utcnow)

-- A text within the width of its column.
abbrev pub within_width : ℕ → Option String → Bool
within_width width none = true
within_width width (some text) = leb (text_length text) width

-- The columns of `snapshot` that keep what the server sent.
abbrev pub snapshot_fits : FetchOutcome → Option String → Bool
snapshot_fits outcome none = true
snapshot_fits outcome (some hash) =
    within_width 256 outcome.etag
    && (within_width 128 outcome.last_modified && within_width 256 outcome.content_type)

-- What follows the fenced transition.
unfoldable pub write_record :
    Moment → ℕ → String → Lease → FetchOutcome → Option String → Db → RecordedFetch × Db
unfolding ensure_blob
write_record m snapshot_id fetcher lease outcome hash db =
    let (blob_created, with_blob) = ensure_blob hash db in
    let with_run = record with_blob {
      runs = outcome_run m fetcher lease outcome ∷ with_blob.runs;
    } in
    let (snapshot, final) = add_snapshot m snapshot_id lease outcome hash with_run in
    (
      record {
        fetch_run_id = m.uuid;
        snapshot_id = snapshot;
        content_hash = hash;
        blob_created = blob_created;
        status = outcome.status;
      },
      final,
    )

-- `snapshot_id` is the second `uuid4` of the call.
unfoldable pub record_outcome :
    (List ℕ → String)
    → Moment
    → ℕ
    → String
    → Lease
    → FetchOutcome
    → Db
    → Result RecordError (RecordedFetch × Db)
record_outcome put m snapshot_id fetcher lease outcome db = do
  hash ← stored_hash put outcome
  closed ← owned (take_ownership_for_finalisation m lease db)
  guard (run_fits m outcome) (not_stored "IntegrityError")
  guard (snapshot_fits outcome hash) (not_stored "DataError")
  ok (write_record m snapshot_id fetcher lease outcome hash closed)

abbrev pub error_run : Moment → String → String → Lease → FetchRun
error_run m fetcher error lease = record {
  id = m.uuid;
  attempt_id = lease.attempt_id;
  source_id = lease.source_id;
  attempt_no = lease.attempt_no;
  scheduled_for = none;
  started_at = m.now;
  finished_at = m.now;
  status = FetchStatus.internal_error;
  http_status = none;
  fetcher = fetcher;
  error_class = some (record { name = error; detail = none });
  worker_name = some lease.worker;
}

-- `error` is the class name of the exception.
unfoldable pub record_internal_error :
    Moment → String → String → Lease → Db → Result LeaseLostError (ℕ × Db)
record_internal_error m fetcher error lease db = do
  closed ← take_ownership_for_finalisation m lease db
  ok (m.uuid, record closed { runs = error_run m fetcher error lease ∷ closed.runs })
