-- ===== src/Base/Sets.antt =====
-- Python's `frozenset` as a list under `==`: membership, subset, equality and size.
use Prim.Native.Nat.{ℕ, suc, ◌≤◌, ◌<◌}
use mathlib.Core.Path.{◌≡◌, refl, sym}
use mathlib.Core.Logic.{inl, inr}
use mathlib.Core.Bool.{Bool, true, false, ◌&&◌, ◌||◌, false≢true}
use mathlib.Core.List.{List, [], ◌∷◌}
use native.Mathlib.Omega.{arith}
use data_hub_backend.Base.Tests.{Eq, ◌==◌, if◌then◌else◌, Bool-cases}

module _ {ℓ} {A : Type ℓ} ⦃e : Eq A⦄ where
  abbrev pub member : A → List A → Bool
  member a [] = false
  member a (x ∷ xs) = a == x || member a xs

  abbrev pub subset : List A → List A → Bool
  subset [] ys = true
  subset (x ∷ xs) ys = member x ys && subset xs ys

  -- `len` of the set: an element counts where it does not occur again.
  abbrev pub card : List A → ℕ
  card [] = 0
  card (x ∷ xs) = if member x xs then card xs else suc (card xs)

module _ {ℓ} {A : Type ℓ} ⦃e : Eq A⦄ where
  pub beq_refl : (a : A) → (a == a) ≡ true
  beq_refl a = (e.beq_iff a a).1 refl

  pub member-subset :
      (xs ys : List A) (a : A) → subset xs ys ≡ true → member a xs ≡ true → member a ys ≡ true
  member-subset [] ys a h m = cc
  member-subset (x ∷ xs) ys a h m = ground (arith, e.beq_iff a x, member-subset xs ys a)

  pub subset_intro :
      (xs ys : List A) → ((a : A) → member a xs ≡ true → member a ys ≡ true) → subset xs ys ≡ true
  subset_intro [] ys f = refl
  subset_intro (x ∷ xs) ys f =
      ground (arith, f x, beq_refl x, subset_intro xs ys (λ a m. f a (ground (arith, m))))

  pub subset_refl : (xs : List A) → subset xs xs ≡ true
  subset_refl xs = subset_intro xs xs (λ a m. m)

  pub subset_trans :
      (xs ys zs : List A) → subset xs ys ≡ true → subset ys zs ≡ true → subset xs zs ≡ true
  subset_trans xs ys zs h k =
      subset_intro xs zs (λ a m. member-subset ys zs a k (member-subset xs ys a h m))

  -- What is missing when a set is not a subset.
  pub not_subset :
      (xs ys : List A)
      → subset xs ys ≡ false
      → (a : A) × (member a xs ≡ true) × (member a ys ≡ false)
  not_subset [] ys h = absurd (false≢true (sym h))
  not_subset (x ∷ xs) ys h = elim (Bool-cases (member x ys)) [
    | inr out ↦ (x, ground (arith, beq_refl x), out)
    | inl there ↦ let (a, m, n) = not_subset xs ys (ground arith) in (a, ground arith, n)
  ]

  without : A → List A → List A
  without a [] = []
  without a (x ∷ xs) = let rest = without a xs in if a == x then rest else x ∷ rest

  member-without :
      (a b : A) (xs : List A) → member b (without a xs) ≡ (if a == b then false else member b xs)
  unfolding without
  member-without a b [] = ground arith
  member-without a b (x ∷ xs) =
      ground (arith, member-without a b xs, e.beq_iff a x, e.beq_iff b x, e.beq_iff a b)

  card-without :
      (a : A) (xs : List A)
      → card xs ≡ (if member a xs then suc (card (without a xs)) else card (without a xs))
  unfolding without
  card-without a [] = refl
  card-without a (x ∷ xs) = ground (arith, card-without a xs, e.beq_iff a x, member-without a x xs)

  subset-without :
      (a : A) (xs ys : List A)
      → subset xs ys ≡ true
      → member a xs ≡ false
      → subset xs (without a ys) ≡ true
  subset-without a xs ys h n =
      subset_intro xs (without a ys)
        λ b m. ground (arith, member-without a b ys, member-subset xs ys b h m, e.beq_iff a b)

  pub card-subset : (xs ys : List A) → subset xs ys ≡ true → card xs ≤ card ys
  card-subset [] ys h = omega arith
  card-subset (x ∷ xs) ys h = elim (Bool-cases (member x xs)) [
    | inl old ↦ rw old (card-subset xs ys (ground arith))
    | inr new ↦ ground (
      arith,
      card-without x ys,
      card-subset xs (without x ys) (subset-without x xs ys (ground arith) new),
    )
  ]

  -- A proper subset is smaller.
  pub card_strict_subset :
      (xs ys : List A) → subset xs ys ≡ true → subset ys xs ≡ false → card xs < card ys
  card_strict_subset xs ys h n =
      let (a, m, k) = not_subset ys xs n in
      let smaller = card-subset xs (without a ys) (subset-without a xs ys h k) in
      ground (arith, card-without a ys)
