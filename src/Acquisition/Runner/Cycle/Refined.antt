-- ===== src/Acquisition/Runner/Cycle/Refined.antt =====
-- The loop of `run_cycle` (acquisition/runner.py) against the transactions of World: what a cycle
-- writes is a sequence of them.
use data_hub_backend.Base.{
  ℕ, zero, suc, ◌+◌, ◌≡◌, refl, List, ◌∷◌, ◌∙◌, String, false, Option, none, some, arith, inl, inr,
  Bool-cases, ℕ_eq,
}
use data_hub_backend.Base.Result.{Result, ok, err}
use data_hub_backend.Base.Sets.{member}
use data_hub_backend.Acquisition.Schema.{Db, Urls}
use data_hub_backend.Acquisition.Lease.{Lease, LeaseLostError}
use data_hub_backend.Acquisition.Recorder.{
  FetchOutcome, RecordedFetch, RecordError, not_stored, record_outcome, record_internal_error,
}
use data_hub_backend.Acquisition.Runner.{CycleReport, tally}
use data_hub_backend.Acquisition.Runner.React.{ReactError, no_source_row, react}
use data_hub_backend.Acquisition.Runner.Attempt.{counted}
use data_hub_backend.Acquisition.Runner.Cycle.{
  Raised, lease_lost, other, Turn, Worker, reacted, undone, reaction, finished, attempt_one,
  fenced_out, internal_error_run, contained, contain_internal_error, concluded, process_one,
  may_go_on, next_lease, rounded, run_cycle,
}
use data_hub_backend.Acquisition.World.{World, IsFresh, Reach, here, next, claim, finish, fail}

-- Transactions lead from the world to one with these tables, and no token is minted.
abbrev To : Worker → World → Db → Type 0
To w u db = Reach w.urls w.put u (record { db = db; minted = u.minted })

abbrev OkTo : Worker → World → CycleReport × Result Raised Db → Type 0
OkTo w u (r, ok db) = To w u db
OkTo w u (r, err e) = Unit

module _ (w : Worker) (turn : Turn) (lease : Lease) (u : World) where
  reacted-To :
      (o : FetchOutcome) (r : CycleReport) {recorded : RecordedFetch} {db : Db}
      (call : Result ReactError (CycleReport × Db))
      → record_outcome w.put turn.recorded turn.snapshot_id w.fetcher lease o u.db
        ≡ ok (recorded, db)
      → react w.urls turn.retried lease o r db ≡ call
      → IsFresh turn.retried.uuid u.db
      → OkTo w u (reacted r call)
  reacted-To o r (ok (r', db')) e h new =
      next here (finish r turn.recorded turn.retried turn.snapshot_id w.fetcher lease o e h new)
  reacted-To o r (err no_source_row) e h new = tt

  reaction-To :
      (o : FetchOutcome) (r : CycleReport) (call : Result RecordError (RecordedFetch × Db))
      → record_outcome w.put turn.recorded turn.snapshot_id w.fetcher lease o u.db ≡ call
      → IsFresh turn.retried.uuid u.db
      → OkTo w u (reaction w turn lease o r call)
  reaction-To o r (ok (recorded, db)) e new = undone-To turn.reaction_fails
    where
      tallied : CycleReport
      tallied = tally o.status (counted recorded r)

      undone-To :
          (failure : Option String)
          → OkTo w u (undone tallied failure (react w.urls turn.retried lease o tallied db))
      undone-To none = reacted-To o tallied _ e refl new
      undone-To (some name) = tt
  reaction-To o r (err RecordError.lease_lost) e new = tt
  reaction-To o r (err RecordError.hash_mismatch) e new = tt
  reaction-To o r (err (not_stored name)) e new = tt

  finished-To :
      (fetched : Result String FetchOutcome) (r : CycleReport)
      → IsFresh turn.retried.uuid u.db
      → OkTo w u (finished w turn lease fetched r u.db)
  finished-To (ok o) r new = reaction-To o r _ refl new
  finished-To (err error) r new = tt

  contained-To :
      (error : String) (r : CycleReport) (call : Result LeaseLostError (ℕ × Db))
      → record_internal_error turn.contained w.fetcher error lease u.db ≡ call
      → To w u (contained r u.db (fenced_out call)).1
  contained-To error r (ok (id, db)) e = next here (fail turn.contained w.fetcher error lease e)
  contained-To error r (err _) e = here

  internal_error_run-To :
      (error : String) (r : CycleReport) (down : Option String)
      → To w u
          (contained r u.db (internal_error_run down turn.contained w.fetcher error lease u.db)).1
  internal_error_run-To error r none = contained-To error r _ refl
  internal_error_run-To error r (some failure) = here

  concluded-To :
      (p : CycleReport × Result Raised Db) → OkTo w u p → To w u (concluded w turn lease u.db p).1
  unfolding contain_internal_error
  concluded-To (r, ok db) reached = reached
  concluded-To (r, err lease_lost) reached = here
  concluded-To (r, err (other error)) reached = internal_error_run-To error _ turn.database_down

  -- What one page writes is one terminal transaction, an internal error, or nothing.
  process_one-To :
      (r : CycleReport)
      → IsFresh turn.retried.uuid u.db
      → To w u (process_one w turn lease r u.db).1
  unfolding process_one attempt_one
  process_one-To r new = concluded-To _ (finished-To (turn.fetched lease) _ new)

-- The world after a claim with this turn's token.
abbrev claimed_world : Turn → World → Db → World
claimed_world turn u db = record { db = db; minted = turn.claimed.uuid ∷ u.minted }

abbrev ended_world : List ℕ → Db → World
ended_world minted db = record { db = db; minted = minted }

-- Transactions lead from the world to one with the tables of the claim.
abbrev Taken : Worker → Turn → World → Option Lease × Db → Type 0
Taken w turn u (none, db) = (v : World) × Reach w.urls w.put u v × (v.db ≡ db)
Taken w turn u (some lease, db) = Reach w.urls w.put u (claimed_world turn u db)

next_lease-Taken :
    (w : Worker) (turn : Turn) (processed : ℕ) (u : World)
    → member turn.claimed.uuid u.minted ≡ false
    → Taken w turn u (next_lease w turn processed u.db)
next_lease-Taken w turn processed u new = elim (Bool-cases (may_go_on w.max_pages processed)) [
  | inl e ↦ rw e (
      of_claim _
        (next here (claim turn.claimed turn.locked w.cycle_key w.name w.lease_seconds none new)))
  | inr e ↦ rw e (u, here, refl)
]
  where
    of_claim :
        (p : Option Lease × Db) → Reach w.urls w.put u (claimed_world turn u p.1) → Taken w turn u p
    of_claim (none, db) reached = (_, reached, refl)
    of_claim (some lease, db) reached = reached

-- What others commit while a page is fetched, as worlds: transactions of World with the tables of
-- `meanwhile`.
pub record AreOthers (w : Worker) (turns : ℕ → Turn) (others : ℕ → World → World) : Type 0 where
  pub steps : (n : ℕ) (u : World) → Reach w.urls w.put u (others n u)
  pub tables : (n : ℕ) (u : World) → (others n u).db ≡ (turns n).meanwhile u.db

-- The id of the retry is new when the page's transaction begins, and so on in the rest of the loop.
abbrev DrawnPage :
    Worker
    → Turn
    → (World → World)
    → (CycleReport → World → Type 0)
    → CycleReport
    → World
    → Option Lease × Db
    → Type 0
DrawnPage w turn others rest r u (none, db) = Unit
DrawnPage w turn others rest r u (some lease, db) =
    let v = others (claimed_world turn u db) in
    let p = process_one w turn lease r v.db in
    IsFresh turn.retried.uuid v.db × rest p.0 (ended_world v.minted p.1)

-- `uuid4` gives what was not there before: in each round of the loop the token of the claim is one
-- that no claim had, and the id of the retry one that no attempt has.
unfoldable pub Drawn :
    Worker → (ℕ → Turn) → (ℕ → World → World) → ℕ → ℕ → CycleReport → World → Type 0
Drawn w turns others zero processed r u = Unit
Drawn w turns others (suc fuel) processed r u =
    (member (turns processed).claimed.uuid u.minted ≡ false)
    × DrawnPage w (turns processed) (others processed) (Drawn w turns others fuel (processed + 1)) r
        u (next_lease w (turns processed) processed u.db)

-- Transactions lead from the world to one with these tables.
abbrev pub Leads : Worker → World → Db → Type 0
Leads w u db = (v : World) × Reach w.urls w.put u v × (v.db ≡ db)

Reach-trans :
    {urls : Urls} {put : List ℕ → String} {u v x : World}
    → Reach urls put u v
    → Reach urls put v x
    → Reach urls put u x
Reach-trans r here = r
Reach-trans r (next s t) = next (Reach-trans r s) t

rounded-Leads :
    (w : Worker) (turn : Turn) (others : World → World) (Rest : CycleReport → World → Type 0)
    (r : CycleReport) (u : World) (rest : CycleReport → Db → Option (CycleReport × Db))
    (p : Option Lease × Db) {r' : CycleReport} {db' : Db}
    → ((v : World) → Reach w.urls w.put v (others v))
    → ((v : World) → (others v).db ≡ turn.meanwhile v.db)
    → ((r1 : CycleReport) (v : World) → Rest r1 v → rest r1 v.db ≡ some (r', db') → Leads w v db')
    → Taken w turn u p
    → DrawnPage w turn others Rest r u p
    → rounded w turn rest r p ≡ some (r', db')
    → Leads w u db'
rounded-Leads w turn others Rest r u rest (none, db) steps tables later (v, reached, same) drawn
      done =
    (v, reached, same ∙ cc done)
rounded-Leads w turn others Rest r u rest (some lease, db) {r'} {db'} steps tables later reached
      (fresh, drawn) done =
    let v = others (claimed_world turn u db) in
    let p = process_one w turn lease r v.db in
    let after : rest p.0 p.1 ≡ some (r', db') = rw (tables (claimed_world turn u db)) done in
    let (x, onward, same) = later p.0 (ended_world v.minted p.1) drawn after in
    (
      x,
      Reach-trans (Reach-trans reached (steps _))
          (Reach-trans (process_one-To w turn lease v r fresh) onward),
      same,
    )

-- The tables that a cycle leaves are reached from those that it found by the transactions of
-- World, its own and the others', if the others write by such transactions and `uuid4` repeats
-- nothing.
pub run_cycle-Leads :
    (w : Worker) (turns : ℕ → Turn) (others : ℕ → World → World)
    → AreOthers w turns others
    → (fuel processed : ℕ) (r : CycleReport) (u : World) {r' : CycleReport} {db' : Db}
    → Drawn w turns others fuel processed r u
    → run_cycle w turns fuel processed r u.db ≡ some (r', db')
    → Leads w u db'
unfolding run_cycle Drawn
run_cycle-Leads w turns others are zero processed r u drawn e = absurd (ground arith)
run_cycle-Leads w turns others are (suc fuel) processed r u (new, drawn) e =
    rounded-Leads w (turns processed) (others processed) _ r u _ _ (are.steps processed)
      (are.tables processed)
      (λ r1 v fair done. run_cycle-Leads w turns others are fuel (processed + 1) r1 v fair done)
      (next_lease-Taken w (turns processed) processed u new) drawn e
