-- ===== src/Acquisition/Lease/Choice.antt =====
-- The attempt that `claim_next` of acquisition/lease.py takes: one that meets the query, and the
-- first of those in its order.
use data_hub_backend.Base.{
  ◌≤◌, ◌≡◌, refl, ap, Bool, true, false, Option, none, some, List, [], ◌∷◌, arith, All, select,
  count, Bool-cases, inl, inr, ◌⊎◌, subst, Option-cases,
}
use data_hub_backend.Acquisition.Schema.{FetchAttempt}
use data_hub_backend.Acquisition.Lease.{first_in_line, goes_before, earlier}

All-select {ℓ} : {A : Type ℓ} (c : A → Bool) (rows : List A) → All (λ a. c a ≡ true) (select c rows)
All-select c [] = tt
All-select c (a ∷ rest) = elim (Bool-cases (c a)) [
  | inl e ↦ rw e (e, All-select c rest)
  | inr e ↦ rw e (All-select c rest)
]

pub count-select {ℓ} :
    {A : Type ℓ} (q c : A → Bool) (rows : List A) → count q (select c rows) ≤ count q rows
count-select q c [] = omega arith
count-select q c (a ∷ rest) = ground (arith, count-select q c rest)

first_of_earlier :
    (a : FetchAttempt) (o : Option FetchAttempt) {b : FetchAttempt}
    → earlier a o ≡ some b
    → (a ≡ b) ⊎ (o ≡ some b)
first_of_earlier a none h = inl (ground arith)
first_of_earlier a (some c) h = ground arith

All-first_in_line :
    (P : FetchAttempt → Type 0) (rows : List FetchAttempt) {a : FetchAttempt}
    → All P rows
    → first_in_line rows ≡ some a
    → P a
unfolding first_in_line
All-first_in_line P [] p h = absurd (ground arith)
All-first_in_line P (b ∷ rest) p h = elim (first_of_earlier b (first_in_line rest) h) [
  | inl e ↦ subst P e p.0
  | inr e ↦ All-first_in_line P rest p.1 e
]

pub count-first_in_line :
    (q : FetchAttempt → Bool) (rows : List FetchAttempt) {a : FetchAttempt}
    → first_in_line rows ≡ some a
    → q a ≡ true
    → 1 ≤ count q rows
unfolding first_in_line
count-first_in_line q [] h t = absurd (ground arith)
count-first_in_line q (b ∷ rest) h t = elim (first_of_earlier b (first_in_line rest) h) [
  | inl e ↦ ground (arith, ap q e)
  | inr e ↦ ground (arith, count-first_in_line q rest e t)
]

-- What is taken meets the query.
pub first_in_line-meets :
    (c : FetchAttempt → Bool) (rows : List FetchAttempt) {a : FetchAttempt}
    → first_in_line (select c rows) ≡ some a
    → c a ≡ true
first_in_line-meets c rows h =
    All-first_in_line (λ a. c a ≡ true) (select c rows) (All-select c rows) h

goes_before_total : (a b : FetchAttempt) → goes_before a b ≡ false → goes_before b a ≡ true
goes_before_total a b h = ground arith

goes_before_trans :
    (a b c : FetchAttempt)
    → goes_before a b ≡ true
    → goes_before b c ≡ true
    → goes_before a c ≡ true
goes_before_trans a b c h k = ground arith

goes_before_refl : (a : FetchAttempt) → goes_before a a ≡ true
goes_before_refl a = ground arith

-- `a` stands before the one chosen of the rest, if there is one.
All-before :
    (a b : FetchAttempt) (rows : List FetchAttempt)
    → goes_before a b ≡ true
    → All (λ c. goes_before b c ≡ true) rows
    → All (λ c. goes_before a c ≡ true) rows
All-before a b [] h k = tt
All-before a b (c ∷ rest) h k = (goes_before_trans a b c h k.0, All-before a b rest h k.1)

pub first_in_line-none : (rows : List FetchAttempt) → first_in_line rows ≡ none → rows ≡ []
unfolding first_in_line
first_in_line-none [] h = refl
first_in_line-none (a ∷ rest) h = elim (Option-cases (first_in_line rest)) [
  | inl e ↦ absurd (ground arith)
  | inr (b, e) ↦ absurd (ground arith)
]

-- What is taken stands before every other in the order of the query.
pub first_in_line-before :
    (rows : List FetchAttempt) {a : FetchAttempt}
    → first_in_line rows ≡ some a
    → All (λ b. goes_before a b ≡ true) rows
unfolding first_in_line
first_in_line-before [] h = tt
first_in_line-before (b ∷ rest) {a} h = elim (Option-cases (first_in_line rest)) [
  | inl e ↦
      let f : b ≡ a = ground arith in
      rw (first_in_line-none rest e)
        (subst (λ x. goes_before x b ≡ true) f (goes_before_refl b), tt)
  | inr (c, e) ↦
      let rest_before = first_in_line-before rest e in
      elim (Bool-cases (goes_before b c)) [
        | inl t ↦
            let f : b ≡ a = ground arith in
            subst (λ x. All (λ y. goes_before x y ≡ true) (b ∷ rest)) f
              (goes_before_refl b, All-before b c rest t rest_before)
        | inr t ↦
            let f : c ≡ a = ground arith in
            subst (λ x. All (λ y. goes_before x y ≡ true) (b ∷ rest)) f
              (goes_before_total b c t, rest_before)
      ]
]
