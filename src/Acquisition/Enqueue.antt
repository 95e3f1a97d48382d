-- ===== src/Acquisition/Enqueue.antt =====
-- `enqueue_cycle` and `oldest_open_cycle` of acquisition/lease.py. The rows of the scheduling query
-- over `acquisition_target` and `source_health` are an argument.
pub mod Accounting
pub mod Again
use data_hub_backend.Base.{
  ℕ, zero, suc, ◌+◌, ◌-◌, String, Bool, true, false, not, ◌&&◌, ◌||◌, Option, none, some, List, [],
  ◌∷◌, ltb, leb, ◌==◌, ℕ_eq, String_eq, if◌then◌else◌, map, length, Bool-cases, inl, inr,
}
use data_hub_backend.Base.Sets.{card}
use data_hub_backend.Acquisition.Schema.{
  FetchEligibility, SourceAccessState, is_fetchable, is_access_ok, FetchAttempt, Db, is_queued,
}
use data_hub_backend.Acquisition.Health.{ScheduleState, is_cooldown}
use data_hub_backend.Acquisition.Sweep.{of_page, new_attempt}

pub record TargetRow : Type 0 where
  pub source_id : ℕ
  pub host : String
  pub fetch_eligibility : FetchEligibility
  pub claim_count : ℕ
  pub access_state : SourceAccessState
  pub schedule_state : ScheduleState

pub record EnqueueReport : Type 0 where
  pub cycle_key : String
  pub physical_pages_selected : ℕ
  pub hosts : ℕ
  pub duplicate_responsibilities_skipped : ℕ
  pub already_queued : ℕ
  pub blocked_or_disabled : ℕ
  pub in_cooldown : ℕ
  pub attempts_created : ℕ
  pub max_attempts_reached : ℕ

abbrev pub at_limit : Option ℕ → ℕ → Bool
at_limit none created = false
at_limit (some limit) created = leb limit created

-- `count(*) > 0` over the attempts of the page in the cycle.
abbrev pub is_queued_already : ℕ → String → List FetchAttempt → Bool
is_queued_already source_id cycle_key [] = false
is_queued_already source_id cycle_key (a ∷ rest) =
    of_page source_id cycle_key a || is_queued_already source_id cycle_key rest

-- `sum(max(0, row.claim_count - 1) for row in rows)`
abbrev pub duplicates : List TargetRow → ℕ
duplicates [] = 0
duplicates (row ∷ rest) = (row.claim_count - 1) + duplicates rest

-- The tests of the loop, in their order.
pub data RowVerdict : Type 0 where
  refused cooling limit_reached present inserted : RowVerdict

abbrev pub is_stop : RowVerdict → Bool
is_stop limit_reached = true
is_stop _ = false

-- The attempts created so far, the report and the tables.
abbrev pub Progress : Type 0
Progress = ℕ × EnqueueReport × Db

unfoldable pub row_verdict : Option ℕ → TargetRow → Progress → RowVerdict
row_verdict limit row (created, report, db) =
    if not (is_fetchable row.fetch_eligibility) || not (is_access_ok row.access_state)
    then refused
    else if is_cooldown row.schedule_state
    then cooling
    else if at_limit limit created
    then limit_reached
    else if is_queued_already row.source_id report.cycle_key db.attempts
    then present
    else inserted

-- `uuids n` is the id of the n-th attempt created.
abbrev pub enqueue_row : (ℕ → ℕ) → ℕ → TargetRow → RowVerdict → Progress → Progress
enqueue_row uuids now row refused (created, report, db) =
    (created, record report { blocked_or_disabled = report.blocked_or_disabled + 1 }, db)
enqueue_row uuids now row cooling (created, report, db) =
    (created, record report { in_cooldown = report.in_cooldown + 1 }, db)
enqueue_row uuids now row limit_reached progress = progress
enqueue_row uuids now row present (created, report, db) =
    (created, record report { already_queued = report.already_queued + 1 }, db)
enqueue_row uuids now row inserted (created, report, db) = (
  created + 1,
  report,
  record db {
    attempts = new_attempt (uuids created) row.source_id 1 report.cycle_key now now ∷ db.attempts;
  },
)

-- The loop over the rows.
unfoldable pub enqueue_rows : (ℕ → ℕ) → ℕ → Option ℕ → List TargetRow → Progress → Progress
unfolding row_verdict
enqueue_rows uuids now limit [] progress = progress
enqueue_rows uuids now limit (row ∷ rest) progress =
    let verdict = row_verdict limit row progress in
    let next = enqueue_rows uuids now limit rest (enqueue_row uuids now row verdict progress) in
    if is_stop verdict then progress else next

abbrev pub opened : String → List TargetRow → EnqueueReport
opened cycle_key rows = record {
  cycle_key = cycle_key;
  physical_pages_selected = length rows;
  hosts = card (map (λ row. row.host) rows);
  duplicate_responsibilities_skipped = duplicates rows;
  already_queued = 0;
  blocked_or_disabled = 0;
  in_cooldown = 0;
  attempts_created = 0;
  max_attempts_reached = 0;
}

unfoldable pub enqueue_cycle :
    (ℕ → ℕ) → ℕ → String → Option ℕ → List TargetRow → Db → EnqueueReport × Db
unfolding enqueue_rows
enqueue_cycle uuids now cycle_key limit rows db =
    let (created, report, db') = enqueue_rows uuids now limit rows (0, opened cycle_key rows, db) in
    (record report { attempts_created = created }, db')

-- What every round keeps, the loop keeps.
pub enqueue_rows_induction {ℓ} :
    (P : Progress → Type ℓ) (uuids : ℕ → ℕ) (now : ℕ) (limit : Option ℕ)
    → ((row : TargetRow) (progress : Progress)
        → P progress
        → P (enqueue_row uuids now row (row_verdict limit row progress) progress))
    → (rows : List TargetRow) (progress : Progress) → P progress
    → P (enqueue_rows uuids now limit rows progress)
unfolding enqueue_rows
enqueue_rows_induction P uuids now limit keep [] progress p = p
enqueue_rows_induction P uuids now limit keep (row ∷ rest) progress p =
    elim (Bool-cases (is_stop (row_verdict limit row progress))) [
      | inl stop ↦ rw stop p
      | inr on ↦ rw on (
          enqueue_rows_induction P uuids now limit keep rest
            (enqueue_row uuids now row (row_verdict limit row progress) progress)
            (keep row progress p))
    ]
