-- ===== src/Acquisition/Runner/Cycle/Work.antt =====
-- What is left for a cycle to do (acquisition/lease.py, runner.py): its queued attempts, and the
-- retries that may still be queued.
use data_hub_backend.Base.{
  ℕ, ◌+◌, ◌-◌, ◌≤◌, ◌<◌, max, ◌≡◌, refl, sym, ap, String, Bool, true, ◌&&◌, Option, none, some,
  List, [], ◌∷◌, arith, inl, inr, Bool-cases, Option-cases, ◌==◌, ℕ_eq, String_eq, nat_eq,
  nat_eq_iff, nat_eq_refl, if◌then◌else◌, count, update, select, find,
}
use data_hub_backend.Base.Counts.{count-update, count-update_out}
use data_hub_backend.Acquisition.Schema.{is_queued, FetchAttempt, Source, Db, Urls, seconds}
use data_hub_backend.Acquisition.Lease.{
  Lease, Moment, max_attempts_per_cycle, source_of, claim_next, claimable, taken, first_in_line,
}
use data_hub_backend.Acquisition.Lease.Choice.{
  first_in_line-meets, count-first_in_line, count-select,
}
use data_hub_backend.Acquisition.Sweep.{highest_attempt, of_page, new_attempt}

-- The page and the number of a row, kept.
abbrev pub IsSamePage : FetchAttempt → FetchAttempt → Type 0
IsSamePage a b =
    (b.source_id ≡ a.source_id) × (b.cycle_key ≡ a.cycle_key) × (b.attempt_no ≡ a.attempt_no)

module _ (cycle_key : String) where
  abbrev pub waits : FetchAttempt → Bool
  waits a = is_queued a.state && a.cycle_key == cycle_key

  -- The retries that each source has left in the cycle.
  abbrev pub retries_left : List Source → List FetchAttempt → ℕ
  retries_left [] attempts = 0
  retries_left (s ∷ rest) attempts =
      (max_attempts_per_cycle - highest_attempt s.id cycle_key attempts)
      + retries_left rest attempts

  abbrev pub work : Db → ℕ
  work db = count waits db.attempts + retries_left db.sources db.attempts

  pub highest-update :
      (id : ℕ) (p : FetchAttempt → Bool) (f : FetchAttempt → FetchAttempt)
      → ((a : FetchAttempt) → of_page id cycle_key (f a) ≡ of_page id cycle_key a)
      → ((a : FetchAttempt) → (f a).attempt_no ≡ a.attempt_no)
      → (rows : List FetchAttempt)
      → highest_attempt id cycle_key (update p f rows) ≡ highest_attempt id cycle_key rows
  unfolding highest_attempt
  highest-update id p f h k [] = refl
  highest-update id p f h k (a ∷ rest) = elim (Bool-cases (p a)) [
    | inl e ↦ rw e (rw (h a) (rw (k a) (rw (highest-update id p f h k rest) refl)))
    | inr e ↦ rw e (rw (highest-update id p f h k rest) refl)
  ]

  pub retries_left-eq :
      (sources : List Source) (rows rows' : List FetchAttempt)
      → ((id : ℕ) → highest_attempt id cycle_key rows' ≡ highest_attempt id cycle_key rows)
      → retries_left sources rows' ≡ retries_left sources rows
  retries_left-eq [] rows rows' h = refl
  retries_left-eq (s ∷ sources) rows rows' h =
      omega (arith, h s.id, retries_left-eq sources rows rows' h)

  highest-new :
      (id source_id number scheduled now uuid : ℕ) (rows : List FetchAttempt)
      → highest_attempt id cycle_key
          (new_attempt uuid source_id number cycle_key scheduled now ∷ rows)
        ≡ (if nat_eq source_id id
            then max number (highest_attempt id cycle_key rows)
            else highest_attempt id cycle_key rows)
  unfolding highest_attempt
  highest-new id source_id number scheduled now uuid rows =
      ground (arith, String_eq.beq_iff cycle_key cycle_key)

  -- A retry uses up one that a known source had left.
  module _ (source_id scheduled now uuid : ℕ) (rows : List FetchAttempt)
      (room : highest_attempt source_id cycle_key rows < max_attempts_per_cycle) where
    abbrev pub with_retry : List FetchAttempt
    with_retry =
        new_attempt uuid source_id (highest_attempt source_id cycle_key rows + 1) cycle_key
          scheduled now
        ∷ rows

    retry_uses :
        (id : ℕ)
        → (max_attempts_per_cycle - highest_attempt id cycle_key with_retry)
            + (if nat_eq source_id id then 1 else 0)
          ≡ max_attempts_per_cycle - highest_attempt id cycle_key rows
    retry_uses id = elim (Bool-cases (nat_eq source_id id)) [
      | inl e ↦
          let same : source_id ≡ id = (nat_eq_iff source_id id).0 e in
          ground (
            arith,
            room,
            ap (λ n. highest_attempt n cycle_key rows) same,
            highest-new id source_id (highest_attempt source_id cycle_key rows + 1) scheduled now
                uuid rows,
          )
      | inr e ↦ ground (
        arith,
        highest-new id source_id (highest_attempt source_id cycle_key rows + 1) scheduled now uuid
            rows,
      )
    ]

    retries_left_mono :
        (sources : List Source) → retries_left sources with_retry ≤ retries_left sources rows
    retries_left_mono [] = omega arith
    retries_left_mono (x ∷ rest) = ground (arith, retry_uses x.id, retries_left_mono rest)

    pub retries_left-falls :
        (sources : List Source) {s : Source}
        → find (λ x. x.id == source_id) sources ≡ some s
        → retries_left sources with_retry + 1 ≤ retries_left sources rows
    retries_left-falls [] e = cc
    retries_left-falls (x ∷ rest) e = elim (Bool-cases (nat_eq x.id source_id)) [
      | inl here ↦
          let same : source_id ≡ x.id = sym ((nat_eq_iff x.id source_id).0 here) in
          let used = retry_uses x.id in
          let t = (nat_eq_iff source_id x.id).1 same in
          omega (arith, rw t at used, retries_left_mono rest)
      | inr there ↦
          let later = retries_left-falls rest (rw there at e) in
          let used = retry_uses x.id in ground (arith, used, later)
    ]

  -- An update that keeps each row's page and number, and makes no row wait.
  pub work-update :
      (p : FetchAttempt → Bool) (f : FetchAttempt → FetchAttempt) (db : Db)
      → ((a : FetchAttempt) → IsSamePage a (f a))
      → ((a : FetchAttempt) → p a ≡ true → waits (f a) ≡ waits a)
      → work (record db { attempts = update p f db.attempts }) ≡ work db
  work-update p f db h k = omega (
    arith,
    count-update waits p f k db.attempts,
    retries_left-eq db.sources db.attempts (update p f db.attempts) (λ id.
        highest-update id p f (λ a. rw (h a).0 (rw (h a).1 refl)) (λ a. (h a).2) db.attempts),
  )

  -- A claim takes a row that waits.
  work-taken :
      (k now : ℕ) (worker : String) (expires token : ℕ) (db : Db)
      → 1 ≤ count (λ a. nat_eq a.id k && waits a) db.attempts
      → work (record db {
        attempts = update (λ r. r.id == k) (taken now worker expires token) db.attempts;
      })
          + 1
        ≤ work db
  work-taken k now worker expires token db one = omega (
    arith,
    one,
    count-update_out waits (λ r. r.id == k) (taken now worker expires token) (λ a h. refl)
        db.attempts,
    retries_left-eq db.sources db.attempts _ (λ id.
        highest-update id (λ r. r.id == k) (taken now worker expires token) (λ a. refl) (λ a. refl)
          db.attempts),
  )

  -- A claim leaves less to do, and its lease is on a page of the cycle.
  abbrev pub Uses : Db → Option Lease × Db → Type 0
  Uses db (none, db') = Unit
  Uses db (some lease, db') = (lease.cycle_key ≡ cycle_key) × (work db' + 1 ≤ work db)

  pub claim_next-Uses :
      (urls : Urls) (m : Moment) (locked : List ℕ) (worker : String) (secs : ℕ)
      (host : Option String) (db : Db)
      → Uses db (claim_next urls m locked cycle_key worker secs host db)
  unfolding claim_next
  claim_next-Uses urls m locked worker secs host db =
      let query = claimable urls db m.now cycle_key host locked in
      let line = select query db.attempts in
      elim (Option-cases (first_in_line line)) [
        | inl e ↦ rw e tt
        | inr (a, e) ↦
            let q = first_in_line-meets query db.attempts e in
            let w : waits a ≡ true = ground arith in
            let k : a.cycle_key ≡ cycle_key =
              (String_eq.beq_iff a.cycle_key cycle_key).0 (ground arith) in
            let one : 1 ≤ count (λ r. nat_eq r.id a.id && waits r) db.attempts = omega (
              arith,
              count-first_in_line (λ r. nat_eq r.id a.id && waits r) line e
                  (rw (nat_eq_refl a.id) w),
              count-select (λ r. nat_eq r.id a.id && waits r) query db.attempts,
            ) in
            elim (Option-cases (source_of db a.source_id)) [
              | inl missing ↦ rw e (rw missing tt)
              | inr (s, found) ↦ rw e (
                  rw found
                    (k, work-taken a.id m.now worker (m.utcnow + seconds secs) m.uuid db one))
            ]
      ]
