-- ===== src/Acquisition/Lease/Claiming.antt =====
-- What `claim_next` of acquisition/lease.py hands out, and to which sites.
use data_hub_backend.Base.{
  ℕ, ◌+◌, ◌≡◌, refl, ap, true, Option, none, some, List, [], ◌∷◌, arith, String, All, select,
  update, count, ◌≤◌, Option-cases, inl, inr, ◌==◌, ℕ_eq, String_eq, nat_eq_iff,
}
use data_hub_backend.Acquisition.Schema.{FetchAttempt, Source, Db, Urls, seconds}
use data_hub_backend.Acquisition.Lease.{
  Lease, Moment, claim_next, claimable, source_of, source_claimable, lease_on, taken, goes_before,
  first_in_line, held,
}
use data_hub_backend.Acquisition.Lease.Choice.{
  first_in_line-meets, first_in_line-before, first_in_line-none, count-first_in_line, count-select,
}

-- The queue, at one call of `claim_next`.
module _ (urls : Urls) (m : Moment) (locked : List ℕ) (cycle_key worker : String) (secs : ℕ)
    (host : Option String) where
  abbrev pub waiting : Db → List FetchAttempt
  waiting db = select (claimable urls db m.now cycle_key host locked) db.attempts

  -- The lease is on `a`, which meets the query and stands first in its order, and on its source.
  pub record Takes (db : Db) (lease : Lease) (db' : Db) : Type 0 where
    pub attempt : FetchAttempt
    pub source : Source
    pub its_source : source_of db attempt.source_id ≡ some source
    pub meets_query : claimable urls db m.now cycle_key host locked attempt ≡ true
    pub first : All (λ b. goes_before attempt b ≡ true) (waiting db)
    pub lease_of : lease ≡ lease_on attempt source worker (m.utcnow + seconds secs) m.uuid
    pub owned : held lease db'.attempts ≡ true

  -- Nothing waits and nothing changes, or the first that waits is taken.
  abbrev pub IsClaim : Db → Option Lease × Db → Type 0
  IsClaim db (none, db') = (waiting db ≡ []) × (db' ≡ db)
  IsClaim db (some lease, db') = Takes db lease db'

  held-taken :
      (a : FetchAttempt) (s : Source) (rows : List FetchAttempt)
      → 1 ≤ count (λ r. r.id == a.id) rows
      → held
          (lease_on a s worker (m.utcnow + seconds secs) m.uuid)
          (update (λ r. r.id == a.id) (taken m.now worker (m.utcnow + seconds secs) m.uuid) rows)
        ≡ true
  held-taken a s [] h = absurd (omega arith)
  held-taken a s (r ∷ rest) h = ground (arith, held-taken a s rest, nat_eq_iff m.uuid m.uuid)

  -- `claim_next` gives no lease only if no attempt meets its query, and then it changes nothing;
  -- otherwise the lease is on an attempt that meets the query and that no other stands before in
  -- the order, under the next generation and the new token, and the table holds it.
  pub claim_next-IsClaim :
      (db : Db) → IsClaim db (claim_next urls m locked cycle_key worker secs host db)
  unfolding claim_next
  claim_next-IsClaim db = elim (Option-cases (first_in_line (waiting db))) [
    | inl e ↦ rw e (first_in_line-none (waiting db) e, refl)
    | inr (a, e) ↦
        let c = claimable urls db m.now cycle_key host locked in
        let q = first_in_line-meets c db.attempts e in
        elim (Option-cases (source_of db a.source_id)) [
          | inl none_of ↦ absurd (ground (arith, ap (source_claimable urls db m.now host) none_of))
          | inr (s, found) ↦ rw e (
              rw found (record {
                attempt = a;
                source = s;
                its_source = found;
                meets_query = q;
                first = first_in_line-before (waiting db) e;
                lease_of = refl;
                owned = held-taken a s db.attempts (
                    omega (
                      arith,
                      count-first_in_line (λ r. r.id == a.id) (waiting db) e
                          (ground (arith, nat_eq_iff a.id a.id)),
                      count-select (λ r. r.id == a.id) c db.attempts,
                    ));
              }))
        ]
  ]
