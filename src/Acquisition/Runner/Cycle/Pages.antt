-- ===== src/Acquisition/Runner/Cycle/Pages.antt =====
-- The loop of `run_cycle` (acquisition/runner.py): the pages that it attempts and its report.
use data_hub_backend.Base.{
  ℕ, ◌+◌, ◌≤◌, ◌≡◌, refl, String, Option, none, some, List, inl, inr, Bool-cases, ℕ_eq,
}
use data_hub_backend.Acquisition.Schema.{FetchAttempt, Source, Db, Urls}
use data_hub_backend.Acquisition.Lease.{Lease, Moment, claim_next, claim_row}
use data_hub_backend.Acquisition.Lease.Claiming.{claim_next-IsClaim, IsClaim}
use data_hub_backend.Acquisition.Runner.{CycleReport}
use data_hub_backend.Acquisition.Runner.Cycle.{Turn, Worker, next_lease, may_go_on}
use data_hub_backend.Acquisition.Runner.Cycle.Balance.{IsKnown, IsKnown-sources, Accounts}

-- The lease is on a source that has a row, and the sources are as they were.
abbrev pub Claimed : Db → Option Lease × Db → Type 0
Claimed db (none, db') = Unit
Claimed db (some lease, db') = IsKnown lease.source_id db'

claim_row-sources :
    (m : Moment) (worker : String) (secs : ℕ) (db : Db) (a : Option FetchAttempt)
    (s : Option Source)
    → (claim_row m worker secs db a s).1.sources ≡ db.sources
claim_row-sources m worker secs db none s = refl
claim_row-sources m worker secs db (some a) none = refl
claim_row-sources m worker secs db (some a) (some s) = refl

claim_next-sources :
    (urls : Urls) (m : Moment) (locked : List ℕ) (cycle_key worker : String) (secs : ℕ)
    (host : Option String) (db : Db)
    → (claim_next urls m locked cycle_key worker secs host db).1.sources ≡ db.sources
unfolding claim_next
claim_next-sources urls m locked cycle_key worker secs host db =
    claim_row-sources m worker secs db _ _

of_claim :
    (urls : Urls) (m : Moment) (locked : List ℕ) (cycle_key worker : String) (secs : ℕ)
    (host : Option String) (db : Db) (p : Option Lease × Db)
    → IsClaim urls m locked cycle_key worker secs host db p
    → p.1.sources ≡ db.sources
    → Claimed db p
of_claim urls m locked cycle_key worker secs host db (none, db') taken same = tt
of_claim urls m locked cycle_key worker secs host db (some lease, db') taken same =
    IsKnown-sources lease.source_id db db' same (taken.source, rw taken.lease_of taken.its_source)

pub next_lease-Claimed :
    (w : Worker) (turn : Turn) (processed : ℕ) (db : Db)
    → Claimed db (next_lease w turn processed db)
next_lease-Claimed w turn processed db = elim (Bool-cases (may_go_on w.max_pages processed)) [
  | inl e ↦ rw e (
      of_claim w.urls turn.claimed turn.locked w.cycle_key w.name w.lease_seconds none db _
        (claim_next-IsClaim w.urls turn.claimed turn.locked w.cycle_key w.name w.lease_seconds none
          db)
        (claim_next-sources w.urls turn.claimed turn.locked w.cycle_key w.name w.lease_seconds none
          db))
  | inr e ↦ rw e tt
]

abbrev pub Within : Option ℕ → ℕ → Type 0
Within none n = Unit
Within (some limit) n = n ≤ limit

-- Others never delete a source's row.
abbrev pub KeepsSources : (Db → Db) → Type 0
KeepsSources f = (id : ℕ) (db : Db) → IsKnown id db → IsKnown id (f db)

-- Some number of pages that the limit allows, accounted for.
abbrev pub Ends : Worker → ℕ → CycleReport → CycleReport → Type 0
Ends w processed r r' = (pages : ℕ) × Within w.max_pages (processed + pages) × Accounts pages r r'
