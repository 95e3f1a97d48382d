-- ===== src/Base/Counts.antt =====
-- What an update of a table keeps: the rows that a test counts, and a relation row by row.
use Prim.Native.Nat.{ℕ, zero, suc, min, ◌+◌, ◌≤◌}
use mathlib.Core.Path.{◌≡◌, refl, ap}
use mathlib.Core.Logic.{inl, inr}
use mathlib.Core.Bool.{Bool, true, false, ◌&&◌}
use mathlib.Core.Option.{some}
use mathlib.Core.List.{List, [], ◌∷◌}
use native.Mathlib.Omega.{arith}
use data_hub_backend.Base.Tests.{Bool-cases}
use data_hub_backend.Base.Rows.{update, count, length, find, take}

module _ {ℓ} {A : Type ℓ} where
  -- An update that leaves the test alone leaves its count alone.
  pub count-update :
      (q p : A → Bool) (f : A → A)
      → ((a : A) → p a ≡ true → q (f a) ≡ q a)
      → (xs : List A) → count q (update p f xs) ≡ count q xs
  count-update q p f h [] = refl
  count-update q p f h (x ∷ xs) = ground (arith, h x, count-update q p f h xs)

  -- An update that turns the test from false to true adds the rows that it touches.
  pub count-update_new :
      (q p : A → Bool) (f : A → A)
      → ((a : A) → p a ≡ true → q (f a) ≡ true)
      → ((a : A) → p a ≡ true → q a ≡ false)
      → (xs : List A) → count q (update p f xs) ≡ count q xs + count p xs
  count-update_new q p f h k [] = omega arith
  count-update_new q p f h k (x ∷ xs) = ground (arith, h x, k x, count-update_new q p f h k xs)

  pub count_mono :
      (q p : A → Bool)
      → ((a : A) → p a ≡ true → q a ≡ true)
      → (xs : List A) → count p xs ≤ count q xs
  count_mono q p h [] = omega arith
  count_mono q p h (x ∷ xs) = ground (arith, h x, count_mono q p h xs)

  -- An update after which no touched row passes the test loses those that passed.
  pub count-update_out :
      (q p : A → Bool) (f : A → A)
      → ((a : A) → p a ≡ true → q (f a) ≡ false)
      → (xs : List A) → count q (update p f xs) + count (λ a. p a && q a) xs ≡ count q xs
  count-update_out q p f h [] = omega arith
  count-update_out q p f h (x ∷ xs) = ground (arith, h x, count-update_out q p f h xs)

  pub count_disjoint :
      (q r p : A → Bool)
      → ((a : A) → q a ≡ true → (p a ≡ true) × (r a ≡ false))
      → ((a : A) → r a ≡ true → p a ≡ true)
      → (xs : List A) → count q xs + count r xs ≤ count p xs
  count_disjoint q r p h k [] = omega arith
  count_disjoint q r p h k (x ∷ xs) = ground (arith, h x, k x, count_disjoint q r p h k xs)

-- Two tables with the same number of rows, related row by row.
module _ {ℓ} {A : Type ℓ} where
  abbrev pub All2 : (A → A → Type 0) → List A → List A → Type 0
  All2 R [] [] = Unit
  All2 R (x ∷ xs) (y ∷ ys) = R x y × All2 R xs ys
  All2 R _ _ = ⊥

  pub All2-refl : (R : A → A → Type 0) → ((a : A) → R a a) → (xs : List A) → All2 R xs xs
  All2-refl R h [] = tt
  All2-refl R h (x ∷ xs) = (h x, All2-refl R h xs)

  pub All2-trans :
      (R : A → A → Type 0)
      → ((a b c : A) → R a b → R b c → R a c)
      → (xs ys zs : List A) → All2 R xs ys
      → All2 R ys zs
      → All2 R xs zs
  All2-trans R h [] [] [] p q = tt
  All2-trans R h (x ∷ xs) (y ∷ ys) (z ∷ zs) p q = (h x y z p.0 q.0, All2-trans R h xs ys zs p.1 q.1)
  All2-trans R h [] [] (z ∷ zs) p q = q
  All2-trans R h [] (y ∷ ys) zs p q = absurd p
  All2-trans R h (x ∷ xs) [] zs p q = absurd p
  All2-trans R h (x ∷ xs) (y ∷ ys) [] p q = q

  pub All2-update :
      (R : A → A → Type 0) (p : A → Bool) (f : A → A)
      → ((a : A) → R a a)
      → ((a : A) → p a ≡ true → R a (f a))
      → (xs : List A) → All2 R xs (update p f xs)
  All2-update R p f r h [] = tt
  All2-update R p f r h (x ∷ xs) = elim (Bool-cases (p x)) [
    | inl e ↦ rw e (h x e, All2-update R p f r h xs)
    | inr e ↦ rw e (r x, All2-update R p f r h xs)
  ]

module _ {ℓ} {A : Type ℓ} where
  -- The first row that a test finds, after an update of the rows that it finds.
  pub find-update :
      (p : A → Bool) (f : A → A)
      → ((a : A) → p (f a) ≡ p a)
      → (xs : List A) {a : A} → find p xs ≡ some a
      → find p (update p f xs) ≡ some (f a)
  find-update p f h [] e = cc
  find-update p f h (x ∷ xs) {a} e = elim (Bool-cases (p x)) [
    | inl t ↦ let same : x ≡ a = ground arith in rw t (rw (h x) (rw t (ap (λ y. some (f y)) same)))
    | inr t ↦ rw t (rw t (find-update p f h xs (ground arith)))
  ]

  pub length-take : (n : ℕ) (xs : List A) → length (take n xs) ≡ min n (length xs)
  length-take zero xs = omega arith
  length-take (suc n) [] = omega arith
  length-take (suc n) (x ∷ xs) = omega (arith, length-take n xs)
