-- ===== src/Acquisition/Enqueue/Accounting.antt =====
-- What one `enqueue_cycle` of acquisition/lease.py creates and reports, and what a second one does.
use data_hub_backend.Base.{
  ℕ, ◌+◌, ◌≤◌, ◌≡◌, refl, false, Option, none, some, List, [], ◌∷◌, arith, String, length,
  Bool-cases, inl, inr, ℕ_eq, String_eq,
}
use data_hub_backend.Acquisition.Schema.{Db}
use data_hub_backend.Acquisition.Enqueue.{
  TargetRow, EnqueueReport, Progress, RowVerdict, refused, cooling, limit_reached, present,
  inserted, is_stop, row_verdict, enqueue_row, enqueue_rows, enqueue_cycle, opened,
  enqueue_rows_induction,
}

-- The rows that the counters account for.
accounted : Progress → ℕ
accounted (created, report, db) =
    created + report.already_queued + report.blocked_or_disabled + report.in_cooldown

accounted-enqueue_row :
    (uuids : ℕ → ℕ) (now : ℕ) (row : TargetRow) (v : RowVerdict) (p : Progress)
    → is_stop v ≡ false
    → accounted (enqueue_row uuids now row v p) ≡ accounted p + 1
unfolding accounted
accounted-enqueue_row uuids now row refused (created, report, db) h = omega arith
accounted-enqueue_row uuids now row cooling (created, report, db) h = omega arith
accounted-enqueue_row uuids now row limit_reached p h = absurd (ground arith)
accounted-enqueue_row uuids now row present (created, report, db) h = omega arith
accounted-enqueue_row uuids now row inserted (created, report, db) h = omega arith

accounted_bound :
    (uuids : ℕ → ℕ) (now : ℕ) (limit : Option ℕ) (rows : List TargetRow) (p : Progress)
    → accounted (enqueue_rows uuids now limit rows p) ≤ accounted p + length rows
unfolding enqueue_rows
accounted_bound uuids now limit [] p = omega arith
accounted_bound uuids now limit (row ∷ rest) p =
    elim (Bool-cases (is_stop (row_verdict limit row p))) [
      | inl stop ↦ rw stop (omega arith)
      | inr on ↦ rw on (
          omega (
            arith,
            accounted-enqueue_row uuids now row (row_verdict limit row p) p on,
            accounted_bound uuids now limit rest
                (enqueue_row uuids now row (row_verdict limit row p) p),
          ))
    ]

never_stops : (row : TargetRow) (p : Progress) → is_stop (row_verdict none row p) ≡ false
unfolding row_verdict
never_stops row (created, report, db) = ground arith

accounted_all :
    (uuids : ℕ → ℕ) (now : ℕ) (rows : List TargetRow) (p : Progress)
    → accounted (enqueue_rows uuids now none rows p) ≡ accounted p + length rows
unfolding enqueue_rows
accounted_all uuids now [] p = omega arith
accounted_all uuids now (row ∷ rest) p = rw (never_stops row p) (
    omega (
      arith,
      accounted-enqueue_row uuids now row (row_verdict none row p) p (never_stops row p),
      accounted_all uuids now rest (enqueue_row uuids now row (row_verdict none row p) p),
    ))

-- What the loop keeps: the limit, the number of rows of the queue, and the report's other fields.
Grown : Option ℕ → EnqueueReport → Db → Progress → Type 0
Grown limit before db0 (created, report, db) =
    ((n : ℕ) → limit ≡ some n → created ≤ n)
    × (length db.attempts ≡ created + length db0.attempts)
    × (report.physical_pages_selected ≡ before.physical_pages_selected)

inserted_within :
    (limit : Option ℕ) (row : TargetRow) (p : Progress)
    → row_verdict limit row p ≡ inserted
    → (n : ℕ) → limit ≡ some n
    → p.0 + 1 ≤ n
unfolding row_verdict
inserted_within none row (created, report, db) h n e = absurd (ground (arith, e))
inserted_within (some m) row (created, report, db) h n e = ground (arith, e)

Grown-enqueue_row :
    (uuids : ℕ → ℕ) (now : ℕ) (limit : Option ℕ) (before : EnqueueReport) (db0 : Db)
    (row : TargetRow) (v : RowVerdict) (p : Progress)
    → (v ≡ inserted → (n : ℕ) → limit ≡ some n → p.0 + 1 ≤ n)
    → Grown limit before db0 p
    → Grown limit before db0 (enqueue_row uuids now row v p)
unfolding Grown
Grown-enqueue_row uuids now limit before db0 row refused (created, report, db) h g = g
Grown-enqueue_row uuids now limit before db0 row cooling (created, report, db) h g = g
Grown-enqueue_row uuids now limit before db0 row limit_reached (created, report, db) h g = g
Grown-enqueue_row uuids now limit before db0 row present (created, report, db) h g = g
Grown-enqueue_row uuids now limit before db0 row inserted (created, report, db) h (w, l, s) =
    (h refl, omega (arith, l), s)

-- Without a limit, the attempts created, those present already and the pages passed over are all the
-- pages selected; with one they are not more, and the attempts created are within it.
abbrev pub Counted : Option ℕ → EnqueueReport → Type 0
Counted none r =
    r.attempts_created + r.already_queued + r.blocked_or_disabled + r.in_cooldown
    ≡ r.physical_pages_selected
Counted (some limit) r =
    (r.attempts_created + r.already_queued + r.blocked_or_disabled + r.in_cooldown
      ≤ r.physical_pages_selected)
    × (r.attempts_created ≤ limit)

grown :
    (uuids : ℕ → ℕ) (now : ℕ) (cycle_key : String) (limit : Option ℕ) (rows : List TargetRow)
    (db : Db)
    → Grown limit
        (opened cycle_key rows)
        db
        (enqueue_rows uuids now limit rows (0, opened cycle_key rows, db))
unfolding Grown
grown uuids now cycle_key limit rows db =
    enqueue_rows_induction (Grown limit (opened cycle_key rows) db) uuids now limit
      (λ row p g.
        Grown-enqueue_row uuids now limit (opened cycle_key rows) db row (row_verdict limit row p) p
          (inserted_within limit row p) g)
      rows (0, opened cycle_key rows, db) ((λ n e. omega arith), omega arith, refl)

-- Whatever the tables and the limit, the report of an enqueue adds up: without a limit, the attempts
-- created, those present already and the pages passed over are all the pages selected; with one they
-- are not more, and the attempts created are within it. The queue grew by the attempts created.
pub enqueue_cycle-Counted :
    (uuids : ℕ → ℕ) (now : ℕ) (cycle_key : String) (limit : Option ℕ) (rows : List TargetRow)
    (db : Db)
    → Counted limit (enqueue_cycle uuids now cycle_key limit rows db).0
      × (length (enqueue_cycle uuids now cycle_key limit rows db).1.attempts
          ≡ (enqueue_cycle uuids now cycle_key limit rows db).0.attempts_created
            + length db.attempts)
unfolding enqueue_cycle Grown accounted
enqueue_cycle-Counted uuids now cycle_key none rows db =
    let (within, more, selected) = grown uuids now cycle_key none rows db in
    (omega (arith, accounted_all uuids now rows (0, opened cycle_key rows, db), selected), more)
enqueue_cycle-Counted uuids now cycle_key (some limit) rows db =
    let (within, more, selected) = grown uuids now cycle_key (some limit) rows db in
    (
      (
        omega (
          arith,
          accounted_bound uuids now (some limit) rows (0, opened cycle_key rows, db),
          selected,
        ),
        within limit refl,
      ),
      more,
    )
