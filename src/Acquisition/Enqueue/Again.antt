-- ===== src/Acquisition/Enqueue/Again.antt =====
-- A second `enqueue_cycle` of acquisition/lease.py over the same pages.
use data_hub_backend.Base.{
  ℕ, ◌≡◌, refl, sym, ap, subst, ◌∙◌, Bool, true, false, not, ◌||◌, Option, none, List, [], ◌∷◌,
  arith, String, All, Bool-cases, inl, inr, ℕ_eq, String_eq,
}
use data_hub_backend.Base.Sets.{beq_refl}
use data_hub_backend.Acquisition.Schema.{is_fetchable, is_access_ok, Db}
use data_hub_backend.Acquisition.Health.{is_cooldown}
use data_hub_backend.Acquisition.Enqueue.{
  TargetRow, Progress, RowVerdict, refused, cooling, limit_reached, present, inserted, is_stop,
  is_queued_already, row_verdict, enqueue_row, enqueue_rows, enqueue_cycle, opened,
  enqueue_rows_induction,
}

-- Nothing is left to do for the row: it may not be fetched, or an attempt of its page is there.
abbrev settled : String → Db → TargetRow → Bool
settled cycle_key db row =
    not (is_fetchable row.fetch_eligibility)
    || not (is_access_ok row.access_state)
    || is_cooldown row.schedule_state
    || is_queued_already row.source_id cycle_key db.attempts

Settles : String → TargetRow → Progress → Type 0
Settles cycle_key row (created, report, db) =
    (report.cycle_key ≡ cycle_key) × (settled cycle_key db row ≡ true)

Settles-enqueue_row :
    (cycle_key : String) (row : TargetRow) (uuids : ℕ → ℕ) (now : ℕ) (other : TargetRow)
    (v : RowVerdict) (p : Progress)
    → Settles cycle_key row p
    → Settles cycle_key row (enqueue_row uuids now other v p)
unfolding Settles
Settles-enqueue_row ck row uuids now other refused (created, report, db) s = s
Settles-enqueue_row ck row uuids now other cooling (created, report, db) s = s
Settles-enqueue_row ck row uuids now other limit_reached (created, report, db) s = s
Settles-enqueue_row ck row uuids now other present (created, report, db) s = s
Settles-enqueue_row ck row uuids now other inserted (created, report, db) (e, s) = (e, ground arith)

verdict_Settles :
    (cycle_key : String) (row : TargetRow) (uuids : ℕ → ℕ) (now : ℕ) (v : RowVerdict) (p : Progress)
    → row_verdict none row p ≡ v
    → p.1.cycle_key ≡ cycle_key
    → Settles cycle_key row (enqueue_row uuids now row v p)
unfolding Settles row_verdict
verdict_Settles ck row uuids now refused (created, report, db) h e = (e, ground arith)
verdict_Settles ck row uuids now cooling (created, report, db) h e = (e, ground arith)
verdict_Settles ck row uuids now limit_reached (created, report, db) h e = absurd (ground arith)
verdict_Settles ck row uuids now present (created, report, db) h e =
    (e, ground (arith, ap (λ k. is_queued_already row.source_id k db.attempts) e))
verdict_Settles ck row uuids now inserted (created, report, db) h e =
    (e, ground (arith, beq_refl row.source_id, String_eq.beq_iff report.cycle_key ck))

-- The key of the report never changes.
Keyed : String → Progress → Type 0
Keyed cycle_key (created, report, db) = report.cycle_key ≡ cycle_key

Keyed-enqueue_row :
    (ck : String) (uuids : ℕ → ℕ) (now : ℕ) (row : TargetRow) (v : RowVerdict) (p : Progress)
    → Keyed ck p
    → Keyed ck (enqueue_row uuids now row v p)
unfolding Keyed
Keyed-enqueue_row ck uuids now row refused (created, report, db) k = k
Keyed-enqueue_row ck uuids now row cooling (created, report, db) k = k
Keyed-enqueue_row ck uuids now row limit_reached (created, report, db) k = k
Keyed-enqueue_row ck uuids now row present (created, report, db) k = k
Keyed-enqueue_row ck uuids now row inserted (created, report, db) k = k

never_stops : (row : TargetRow) (p : Progress) → is_stop (row_verdict none row p) ≡ false
unfolding row_verdict
never_stops row (created, report, db) = ground arith

goes_on :
    (uuids : ℕ → ℕ) (now : ℕ) (row : TargetRow) (rest : List TargetRow) (p : Progress)
    → enqueue_rows uuids now none (row ∷ rest) p
      ≡ enqueue_rows uuids now none rest (enqueue_row uuids now row (row_verdict none row p) p)
unfolding enqueue_rows
goes_on uuids now row rest p = rw (never_stops row p) refl

All-settled :
    (ck : String) (uuids : ℕ → ℕ) (now : ℕ) (rows : List TargetRow) (p : Progress)
    → Keyed ck p
    → All (λ row. settled ck (enqueue_rows uuids now none rows p).2 row ≡ true) rows
unfolding enqueue_rows Keyed Settles
All-settled ck uuids now [] p k = tt
All-settled ck uuids now (row ∷ rest) p k =
    let next = enqueue_row uuids now row (row_verdict none row p) p in
    let first = verdict_Settles ck row uuids now (row_verdict none row p) p refl k in
    let later =
      enqueue_rows_induction (Settles ck row) uuids now none
        (λ other q s. Settles-enqueue_row ck row uuids now other (row_verdict none other q) q s)
        rest next first in
    subst (λ (q : Progress). All (λ row. settled ck q.2 row ≡ true) (row ∷ rest))
      (sym (goes_on uuids now row rest p))
      (
        later.1,
        All-settled ck uuids now rest next
            (Keyed-enqueue_row ck uuids now row (row_verdict none row p) p k),
      )

-- Nothing was created, and the tables are as they were.
Unmoved : Progress → Progress → Type 0
Unmoved p q = (q.0 ≡ p.0) × (q.2 ≡ p.2) × (q.1.cycle_key ≡ p.1.cycle_key)

settled_row-Unmoved :
    (ck : String) (uuids : ℕ → ℕ) (now : ℕ) (limit : Option ℕ) (row : TargetRow) (v : RowVerdict)
    (p : Progress)
    → row_verdict limit row p ≡ v
    → p.1.cycle_key ≡ ck
    → settled ck p.2 row ≡ true
    → Unmoved p (enqueue_row uuids now row v p)
unfolding Unmoved row_verdict
settled_row-Unmoved ck uuids now limit row refused (created, report, db) h e s = (refl, refl, refl)
settled_row-Unmoved ck uuids now limit row cooling (created, report, db) h e s = (refl, refl, refl)
settled_row-Unmoved ck uuids now limit row limit_reached (created, report, db) h e s =
    (refl, refl, refl)
settled_row-Unmoved ck uuids now limit row present (created, report, db) h e s = (refl, refl, refl)
settled_row-Unmoved ck uuids now limit row inserted (created, report, db) h e s =
    absurd (ground (arith, ap (λ k. is_queued_already row.source_id k db.attempts) e))

settled-Unmoved :
    (ck : String) (uuids : ℕ → ℕ) (now : ℕ) (limit : Option ℕ) (rows : List TargetRow)
    (p : Progress)
    → p.1.cycle_key ≡ ck
    → All (λ row. settled ck p.2 row ≡ true) rows
    → Unmoved p (enqueue_rows uuids now limit rows p)
unfolding enqueue_rows Unmoved
settled-Unmoved ck uuids now limit [] p e s = (refl, refl, refl)
settled-Unmoved ck uuids now limit (row ∷ rest) p e s =
    elim (Bool-cases (is_stop (row_verdict limit row p))) [
      | inl stop ↦ rw stop (refl, refl, refl)
      | inr on ↦
          let v = row_verdict limit row p in
          let next = enqueue_row uuids now row v p in
          let (c, d, k) = settled_row-Unmoved ck uuids now limit row v p refl e s.0 in
          let (c', d', k') =
            settled-Unmoved ck uuids now limit rest next (k ∙ e)
              (subst (λ db. All (λ r. settled ck db r ≡ true) rest) (sym d) s.1) in
          rw on (c' ∙ c, d' ∙ d, k' ∙ k)
    ]

-- After an enqueue without a limit, another one of the same cycle over the same rows, with any
-- limit, creates no attempt and changes no table.
pub enqueue_cycle_again :
    (uuids uuids' : ℕ → ℕ) (now now' : ℕ) (cycle_key : String) (limit : Option ℕ)
    (rows : List TargetRow) (db : Db)
    → let db' = (enqueue_cycle uuids now cycle_key none rows db).1 in
      let again = enqueue_cycle uuids' now' cycle_key limit rows db' in
      (again.0.attempts_created ≡ 0) × (again.1 ≡ db')
unfolding enqueue_cycle Keyed Unmoved
enqueue_cycle_again uuids uuids' now now' cycle_key limit rows db =
    let start : Progress = (0, opened cycle_key rows, db) in
    let db' = (enqueue_rows uuids now none rows start).2 in
    let (c, d, _) =
      settled-Unmoved cycle_key uuids' now' limit rows (0, opened cycle_key rows, db') refl
        (All-settled cycle_key uuids now rows start refl) in
    (c, d)
