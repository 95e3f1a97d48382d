-- ===== src/Acquisition/Runner/Cycle/Balance.antt =====
-- The report of a cycle (acquisition/runner.py): how each page that was attempted is counted.
use data_hub_backend.Base.{
  ℕ, ◌+◌, ◌≤◌, ◌⊎◌, Option, none, ◌≡◌, refl, sym, ◌∙◌, ap, String, some, List, arith, inl, inr,
  Bool-cases, ◌==◌, ℕ_eq, find,
}
use data_hub_backend.Base.Result.{Result, ok, err, ok_injective, OnOk}
use data_hub_backend.Acquisition.Schema.{FetchStatus, Source, Db}
use data_hub_backend.Acquisition.Lease.{
  Lease, Moment, source_of, take_ownership_for_finalisation, held,
}
use data_hub_backend.Acquisition.Recorder.{
  FetchOutcome, RecordedFetch, RecordError, not_stored, record_outcome,
}
use data_hub_backend.Acquisition.Recorder.Parts.{record_outcome_parts}
use data_hub_backend.Acquisition.Runner.{CycleReport, tally}
use data_hub_backend.Acquisition.Runner.React.{ReactError, no_source_row, react, react_to}
use data_hub_backend.Acquisition.Runner.Attempt.{counted}
use data_hub_backend.Acquisition.Runner.Attempt.Tallied.{
  outcomes, totals, Counts, react_to-Counts, outcomes-tally, tally-others,
}
use data_hub_backend.Acquisition.Runner.Cycle.{
  Raised, lease_lost, other, Turn, Worker, undone, reaction, finished, attempt_one, contained,
  contain_internal_error, concluded, process_one,
}

-- The source has a row.
abbrev pub IsKnown : ℕ → Db → Type 0
IsKnown id db = (s : Source) × (source_of db id ≡ some s)

take_ownership-sources :
    (m : Moment) (lease : Lease) (db : Db) {closed : Db}
    → take_ownership_for_finalisation m lease db ≡ ok closed
    → closed.sources ≡ db.sources
unfolding take_ownership_for_finalisation
take_ownership-sources m lease db e = elim (Bool-cases (held lease db.attempts)) [
  | inl owned ↦ sym (ap (λ (d : Db). d.sources) (ok_injective (rw owned at e)))
  | inr lost ↦ absurd (ground arith)
]

pub record_outcome-sources :
    (put : List ℕ → String) (m : Moment) (snapshot_id : ℕ) (fetcher : String) (lease : Lease)
    (o : FetchOutcome) (db : Db) {recorded : RecordedFetch} {db' : Db}
    → record_outcome put m snapshot_id fetcher lease o db ≡ ok (recorded, db')
    → db'.sources ≡ db.sources
record_outcome-sources put m snapshot_id fetcher lease o db e =
    let (closed, taken, w) = record_outcome_parts put m snapshot_id fetcher lease o db e in
    w.sources ∙ take_ownership-sources m lease db taken

pub IsKnown-sources :
    (id : ℕ) (db db' : Db) → db'.sources ≡ db.sources → IsKnown id db → IsKnown id db'
IsKnown-sources id db db' same (s, e) =
    (s, ap (λ rows. find (λ (x : Source). x.id == id) rows) same ∙ e)

-- One outcome more is counted, and nothing else moves but the failures that an outcome reports.
record Once (r r' : CycleReport) : Type 0 where
  pub one_more : outcomes r' ≡ outcomes r + 1
  pub attempts : r'.attempted ≡ r.attempted
  pub without_outcome : r'.lease_lost + r'.unrecorded ≡ r.lease_lost + r.unrecorded
  pub failures : r.internal_error ≤ r'.internal_error

-- The report after an attempt: the outcome is counted where the transaction commits; where an
-- exception passes, it was counted before or not.
abbrev Attempted : CycleReport → CycleReport × Result Raised Db → Type 0
Attempted r (r', ok db) = Once r r'
Attempted r (r', err e) = (totals r' ≡ totals r) ⊎ Once r r'

tally-Once : (status : FetchStatus) (r : CycleReport) → Once r (tally status r)
tally-Once status r =
    let (a, l, f) = tally-others status r in
    record { one_more = outcomes-tally status r; attempts = a; without_outcome = l; failures = f }

Once-totals : (r r' r'' : CycleReport) → Once r r' → totals r'' ≡ totals r' → Once r r''
Once-totals r r' r'' once same = record {
  one_more = ap (λ (t : ℕ × ℕ × ℕ × ℕ). t.0) same ∙ once.one_more;
  attempts = ap (λ (t : ℕ × ℕ × ℕ × ℕ). t.1) same ∙ once.attempts;
  without_outcome = ap (λ (t : ℕ × ℕ × ℕ × ℕ). t.2) same ∙ once.without_outcome;
  failures = omega (arith, once.failures, ap (λ (t : ℕ × ℕ × ℕ × ℕ). t.3) same);
}

module _ (w : Worker) (turn : Turn) (lease : Lease) (o : FetchOutcome) where
  -- The report keeps what was counted when the reaction raises.
  undone-Attempted :
      (r : CycleReport) (recorded : RecordedFetch) (db : Db)
      → Attempted r (reaction w turn lease o r (ok (recorded, db)))
  unfolding react
  undone-Attempted r recorded db =
      by_failure turn.reaction_fails (react_to o.status w.urls turn.retried lease o before db)
        (react_to-Counts o.status w.urls turn.retried lease o before db)
    where
      before : CycleReport
      before = tally o.status (counted recorded r)

      once : Once r before
      once =
          let tallied = tally-Once o.status (counted recorded r) in
          record {
            one_more = tallied.one_more;
            attempts = tallied.attempts;
            without_outcome = tallied.without_outcome;
            failures = tallied.failures;
          }

      by_failure :
          (failure : Option String) (call : Result ReactError (CycleReport × Db))
          → OnOk (Counts (totals before)) call
          → Attempted r (undone before failure call)
      by_failure (some name) call kept = inr once
      by_failure none (err no_source_row) kept = inr once
      by_failure none (ok (r', db')) kept = Once-totals r before r' once kept

  written-Attempted :
      (r : CycleReport) (call : Result RecordError (RecordedFetch × Db))
      → Attempted r (reaction w turn lease o r call)
  written-Attempted r (err RecordError.lease_lost) = inl refl
  written-Attempted r (err RecordError.hash_mismatch) = inl refl
  written-Attempted r (err (not_stored name)) = inl refl
  written-Attempted r (ok (recorded, db)) = undone-Attempted r recorded db

attempt_one-Attempted :
    (w : Worker) (turn : Turn) (lease : Lease) (r : CycleReport) (db : Db)
    → Attempted (record r { attempted = r.attempted + 1 }) (attempt_one w turn lease r db)
unfolding attempt_one
attempt_one-Attempted w turn lease r db = finished-Attempted (turn.fetched lease)
  where
    started : CycleReport
    started = record r { attempted = r.attempted + 1 }

    finished-Attempted :
        (fetched : Result String FetchOutcome)
        → Attempted started (finished w turn lease fetched started db)
    finished-Attempted (err error) = inl refl
    finished-Attempted (ok o) = written-Attempted w turn lease o started _

-- The pages that a report accounts for: recorded outcomes, lost leases and unrecorded failures.
abbrev pub settled : CycleReport → ℕ
settled r = outcomes r + (r.lease_lost + r.unrecorded)

-- The failures that a report counts.
abbrev pub faults : CycleReport → ℕ
faults r = r.internal_error + (r.lease_lost + r.unrecorded)

-- From `r` to `r'`, so many pages were attempted, and each is accounted for once, or twice where
-- the second time is a failure.
pub record Accounts (pages : ℕ) (r r' : CycleReport) : Type 0 where
  pub twice : ℕ
  pub some_of_them : twice ≤ pages
  pub attempts : r'.attempted ≡ r.attempted + pages
  pub accounted : settled r' ≡ settled r + (pages + twice)
  pub failed : faults r + twice ≤ faults r'

-- An exception of an attempt is counted as a failure, beside what was counted before.
Accounts-failure :
    (r r' r'' : CycleReport) (e : Raised) (db : Db)
    → Attempted (record r { attempted = r.attempted + 1 }) (r', err e)
    → r''.attempted ≡ r'.attempted
    → settled r'' ≡ settled r' + 1
    → faults r'' ≡ faults r' + 1
    → Accounts 1 r r''
Accounts-failure r r' r'' e db (inl same) a s f =
    let t0 = ap (λ (t : ℕ × ℕ × ℕ × ℕ). t.0) same in
    let t1 = ap (λ (t : ℕ × ℕ × ℕ × ℕ). t.1) same in
    let t2 = ap (λ (t : ℕ × ℕ × ℕ × ℕ). t.2) same in
    let t3 = ap (λ (t : ℕ × ℕ × ℕ × ℕ). t.3) same in
    record {
      twice = 0;
      some_of_them = omega arith;
      attempts = omega (arith, a, t1);
      accounted = omega (arith, s, t0, t2);
      failed = omega (arith, f, t2, t3);
    }
Accounts-failure r r' r'' e db (inr once) a s f = record {
  twice = 1;
  some_of_them = omega arith;
  attempts = omega (arith, a, once.attempts);
  accounted = omega (arith, s, once.one_more, once.without_outcome);
  failed = omega (arith, f, once.without_outcome, once.failures);
}

contained-Accounts :
    (r r' : CycleReport) (e : Raised) (db : Db) (call : Result Raised (ℕ × Db))
    → Attempted (record r { attempted = r.attempted + 1 }) (r', err e)
    → Accounts 1 r (contained (record r' { internal_error = r'.internal_error + 1 }) db call).0
contained-Accounts r r' e db (ok (id, db')) h =
    Accounts-failure r r' _ e db h refl (omega arith) (omega arith)
contained-Accounts r r' e db (err lease_lost) h =
    Accounts-failure r r' _ e db h refl (omega arith) (omega arith)
contained-Accounts r r' e db (err (other failure)) h =
    Accounts-failure r r' _ e db h refl (omega arith) (omega arith)

concluded-Accounts :
    (w : Worker) (turn : Turn) (lease : Lease) (r : CycleReport) (db : Db)
    (p : CycleReport × Result Raised Db)
    → Attempted (record r { attempted = r.attempted + 1 }) p
    → Accounts 1 r (concluded w turn lease db p).0
unfolding contain_internal_error
concluded-Accounts w turn lease r db (r', ok db') once = record {
  twice = 0;
  some_of_them = omega arith;
  attempts = once.attempts;
  accounted = omega (arith, once.one_more, once.without_outcome);
  failed = omega (arith, once.without_outcome, once.failures);
}
concluded-Accounts w turn lease r db (r', err lease_lost) h =
    Accounts-failure r r' _ lease_lost db h refl (omega arith) (omega arith)
concluded-Accounts w turn lease r db (r', err (other error)) h =
    contained-Accounts r r' (other error) db _ h

-- Whatever happens to one page, it is attempted once and accounted for.
pub process_one-Accounts :
    (w : Worker) (turn : Turn) (lease : Lease) (r : CycleReport) (db : Db)
    → Accounts 1 r (process_one w turn lease r db).0
unfolding process_one
process_one-Accounts w turn lease r db =
    concluded-Accounts w turn lease r db _ (attempt_one-Attempted w turn lease r db)
