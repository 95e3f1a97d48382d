-- ===== src/Acquisition/Runner/Attempt.antt =====
-- The terminal transaction of `_attempt_one` of acquisition/runner.py: the record, the counters and
-- the reaction.
pub mod Tallied
use data_hub_backend.Base.{
  ℕ, ◌+◌, String, Bool, true, false, Option, none, some, List, is_none, if◌then◌else◌,
}
use data_hub_backend.Base.Result.{Result, ok, err, ◌>>=◌}
use data_hub_backend.Acquisition.Schema.{Db, Urls}
use data_hub_backend.Acquisition.Lease.{Lease, Moment}
use data_hub_backend.Acquisition.Recorder.{FetchOutcome, RecordedFetch, RecordError, record_outcome}
use data_hub_backend.Acquisition.Runner.{CycleReport, tally}
use data_hub_backend.Acquisition.Runner.React.{ReactError, react}

pub data AttemptError : Type 0 where
  not_recorded : RecordError → AttemptError
  no_reaction : ReactError → AttemptError

abbrev pub raised {ℓ κ μ} :
    {E : Type ℓ} {F : Type κ} {A : Type μ} → (E → F) → Result E A → Result F A
raised f (ok a) = ok a
raised f (err e) = err (f e)

-- `report.snapshots += 1` and `report.blobs_created += 1`
abbrev pub counted : RecordedFetch → CycleReport → CycleReport
counted recorded report = record report {
  snapshots = if is_none recorded.snapshot_id then report.snapshots else report.snapshots + 1;
  blobs_created = if recorded.blob_created then report.blobs_created + 1 else report.blobs_created;
}

-- The transaction commits both parts or neither; `m'` is the moment of the retry's INSERT.
unfoldable pub settle :
    (List ℕ → String)
    → Urls
    → Moment
    → Moment
    → ℕ
    → String
    → Lease
    → FetchOutcome
    → CycleReport
    → Db
    → Result AttemptError (CycleReport × Db)
unfolding record_outcome tally react
settle put urls m m' snapshot_id fetcher lease outcome report db = do
  written ← raised not_recorded (record_outcome put m snapshot_id fetcher lease outcome db)
  let recorded = written.0
  raised no_reaction
      (react urls m' lease outcome (tally outcome.status (counted recorded report)) written.1)
