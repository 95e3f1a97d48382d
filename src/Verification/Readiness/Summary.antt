-- ===== src/Verification/Readiness/Summary.antt =====
-- What `summarise` of verification/readiness.py counts, over what `assess` gives.
use data_hub_backend.Base.{
  ℕ, suc, ◌+◌, ◌≤◌, ◌≡◌, refl, arith, String_eq, Bool, true, false, not, ◌&&◌, some, List, [], ◌∷◌,
  ◌==◌, Eq, Option_eq, All, count, leb, Bool-cases, inl, inr, if◌then◌else◌,
}
use data_hub_backend.Verification.Readiness.{
  Blocker, Row, Readiness, assessed, assess, blockers_for, Blocker_eq, Counts, add_one, add_all,
  count_all, insert_by_count, by_count, summarise,
}
use data_hub_backend.Verification.Readiness.Blockers.{
  stands, occurrences, one_if, blockers_for-stands,
}

module _ {ℓ} {K : Type ℓ} ⦃e : Eq K⦄ where
  -- What the dict holds for a key.
  abbrev pub amount : K → List (K × ℕ) → ℕ
  amount b [] = 0
  amount b ((k, n) ∷ rest) = (if b == k then n else 0) + amount b rest

  same_key : (b x k : K) → (k == x) ≡ true → (b == k) ≡ (b == x)
  same_key b x k h = rw ((e.beq_iff k x).0 h) refl

  amount-add_one :
      (b x : K) (counts : List (K × ℕ))
      → amount b (add_one x counts) ≡ amount b counts + (if b == x then 1 else 0)
  amount-add_one b x [] = ground arith
  amount-add_one b x ((k, n) ∷ rest) = elim (Bool-cases (k == x)) [
    | inl h ↦ rw h (ground (arith, same_key b x k h))
    | inr h ↦ rw h (omega (arith, amount-add_one b x rest))
  ]

-- The counts do not grow down the dict.
abbrev pub Descending : Counts → Type 0
Descending [] = Unit
Descending ((k, n) ∷ rest) = All (λ e. e.1 ≤ n) rest × Descending rest

if-one : (a : Bool) (n : ℕ) → (if a then suc n else n) ≡ n + (if a then 1 else 0)
if-one true n = omega arith
if-one false n = omega arith

amount-add_all :
    (b : Blocker) (found : List Blocker) (counts : Counts)
    → amount b (add_all found counts) ≡ amount b counts + occurrences b found
amount-add_all b [] counts = omega arith
amount-add_all b (x ∷ found) counts = omega (
  arith,
  amount-add_all b found (add_one x counts),
  amount-add_one b x counts,
  if-one (b == x) (occurrences b found),
)

-- The blockers of one kind over the results.
abbrev over : Blocker → List Readiness → ℕ
over b [] = 0
over b (r ∷ rest) = occurrences b r.blockers + over b rest

amount-count_all :
    (b : Blocker) (results : List Readiness) (counts : Counts)
    → amount b (count_all results counts) ≡ amount b counts + over b results
amount-count_all b [] counts = omega arith
amount-count_all b (r ∷ rest) counts =
    omega (
      arith,
      amount-count_all b rest (add_all r.blockers counts),
      amount-add_all b r.blockers counts,
    )

amount-insert :
    (b : Blocker) (e : Blocker × ℕ) (counts : Counts)
    → amount b (insert_by_count e counts) ≡ amount b (e ∷ counts)
unfolding insert_by_count
amount-insert b (x, n) [] = refl
amount-insert b (x, n) ((k, m) ∷ rest) = ground (arith, amount-insert b (x, n) rest)

amount-by_count : (b : Blocker) (counts : Counts) → amount b (by_count counts) ≡ amount b counts
unfolding by_count
amount-by_count b [] = refl
amount-by_count b ((k, n) ∷ rest) =
    omega (arith, amount-insert b (k, n) (by_count rest), amount-by_count b rest)

All-insert :
    (limit : ℕ) (x : Blocker) (n : ℕ) (counts : Counts)
    → n ≤ limit
    → All (λ e. e.1 ≤ limit) counts
    → All (λ e. e.1 ≤ limit) (insert_by_count (x, n) counts)
unfolding insert_by_count
All-insert limit x n [] h a = (h, tt)
All-insert limit x n ((k, m) ∷ rest) h a = elim (Bool-cases (leb m n)) [
  | inl e ↦ rw e (h, a)
  | inr e ↦ rw e (a.0, All-insert limit x n rest h a.1)
]

All-mono :
    (m n : ℕ) (counts : Counts) → m ≤ n → All (λ e. e.1 ≤ m) counts → All (λ e. e.1 ≤ n) counts
All-mono m n [] h a = tt
All-mono m n (e ∷ rest) h a = (omega (arith, h, a.0), All-mono m n rest h a.1)

Descending-insert :
    (x : Blocker) (n : ℕ) (counts : Counts)
    → Descending counts
    → Descending (insert_by_count (x, n) counts)
unfolding insert_by_count
Descending-insert x n [] d = (tt, tt)
Descending-insert x n ((k, m) ∷ rest) d = elim (Bool-cases (leb m n)) [
  | inl e ↦ let less : m ≤ n = ground arith in rw e ((less, All-mono m n rest less d.0), d)
  | inr e ↦
      let less : n ≤ m = ground arith in
      rw e (All-insert m x n rest less d.0, Descending-insert x n rest d.1)
]

Descending-by_count : (counts : Counts) → Descending (by_count counts)
unfolding by_count
Descending-by_count [] = tt
Descending-by_count ((k, n) ∷ rest) =
    Descending-insert k n (by_count rest) (Descending-by_count rest)

-- The rows that `assess` keeps and that this blocker holds up.
abbrev pub held_up : Bool → Blocker → Row → Bool
held_up accepted_only b row =
    stands row b && not (accepted_only && not (row.decision_state == some "ACCEPTED"))

over-assess :
    (accepted_only : Bool) (b : Blocker) (rows : List Row)
    → over b (assess accepted_only rows) ≡ count (held_up accepted_only b) rows
unfolding assess
over-assess accepted_only b [] = refl
over-assess accepted_only b (row ∷ rest) =
    by_filter (accepted_only && not (row.decision_state == some "ACCEPTED")) (stands row b)
      (blockers_for-stands row b) (over-assess accepted_only b rest)
  where
    by_filter :
        (skipped held : Bool)
        → occurrences b (blockers_for row) ≡ one_if held
        → over b (assess accepted_only rest) ≡ count (held_up accepted_only b) rest
        → over b (
            if skipped then assess accepted_only rest else assessed row ∷ assess accepted_only rest)
          ≡ (if held && not skipped
              then suc (count (held_up accepted_only b) rest)
              else count (held_up accepted_only b) rest)
    by_filter true true one later = later
    by_filter true false one later = later
    by_filter false true one later = omega (arith, one, later)
    by_filter false false one later = omega (arith, one, later)

-- The summary of an assessment holds for each blocker the number of assessed candidates that it
-- holds up, the accepted ones alone where only those are asked for, and its counts do not grow down
-- the dict.
pub summarise-assess :
    (accepted_only : Bool) (rows : List Row) (b : Blocker)
    → (amount b (summarise (assess accepted_only rows)) ≡ count (held_up accepted_only b) rows)
      × Descending (summarise (assess accepted_only rows))
unfolding summarise
summarise-assess accepted_only rows b = (
  omega (
    arith,
    amount-by_count b (count_all (assess accepted_only rows) []),
    amount-count_all b (assess accepted_only rows) [],
    over-assess accepted_only b rows,
  ),
  Descending-by_count (count_all (assess accepted_only rows) []),
)
