-- ===== src/Acquisition/Fetcher/Streaming.antt =====
-- The loop over the chunks of a body in acquisition/fetcher.py: it gives the whole stream, within the
-- limit.
use data_hub_backend.Base.{
  ℕ, ◌+◌, ◌≤◌, ◌≡◌, refl, sym, ap, ◌∙◌, arith, String_eq, List, [], ◌∷◌, ◌++◌, length, ltb,
  Bool-cases, inl, inr, ℕ_eq,
}
use data_hub_backend.Base.Result.{ok, ok_injective}
use data_hub_backend.Acquisition.Fetcher.{FetchPolicy, Stream, ended, broken, chunk, Http}
use data_hub_backend.Acquisition.Fetcher.Fetching.{read_body}

pub length-++ {ℓ} : {A : Type ℓ} (xs ys : List A) → length (xs ++ ys) ≡ length xs + length ys
length-++ [] ys = omega arith
length-++ (x ∷ xs) ys = omega (arith, length-++ xs ys)

++-assoc {ℓ} : {A : Type ℓ} (xs ys zs : List A) → (xs ++ ys) ++ zs ≡ xs ++ (ys ++ zs)
++-assoc [] ys zs = refl
++-assoc (x ∷ xs) ys zs = ap (λ l. x ∷ l) (++-assoc xs ys zs)

++-nil {ℓ} : {A : Type ℓ} (xs : List A) → xs ++ [] ≡ xs
++-nil [] = refl
++-nil (x ∷ xs) = ap (λ l. x ∷ l) (++-nil xs)

-- The body that a stream carries to its end.
abbrev pub Streams : Stream → List ℕ → Type 0
Streams ended body = body ≡ []
Streams (broken e) body = ⊥
Streams (chunk bytes rest) body = (later : List ℕ) × (body ≡ bytes ++ later) × Streams rest later

module _ (http : Http) (policy : FetchPolicy) where
  pub read_body-bounded :
      (total : ℕ) (body : List ℕ) (stream : Stream) {all : List ℕ}
      → total ≡ length body
      → total ≤ policy.max_bytes
      → read_body http policy total body stream ≡ ok all
      → length all ≤ policy.max_bytes
  unfolding read_body
  read_body-bounded total body ended {all} e b h =
      let same : body ≡ all = ok_injective h in
      omega (arith, e, b, ap (λ (l : List ℕ). length l) same)
  read_body-bounded total body (broken x) e b h = absurd cc
  read_body-bounded total body (chunk bytes rest) e b h =
      elim (Bool-cases (ltb policy.max_bytes (total + length bytes))) [
        | inl over ↦ absurd (ground arith)
        | inr within ↦
            read_body-bounded (total + length bytes) (body ++ bytes) rest
              (omega (arith, e, length-++ body bytes)) (ground arith) (rw within at h)
      ]

  -- The loop gives what it had and all that the stream still carries.
  pub read_body-Streams :
      (total : ℕ) (body : List ℕ) (stream : Stream) {all : List ℕ}
      → read_body http policy total body stream ≡ ok all
      → (later : List ℕ) × (all ≡ body ++ later) × Streams stream later
  unfolding read_body
  read_body-Streams total body ended h = ([], sym (ok_injective h) ∙ sym (++-nil body), refl)
  read_body-Streams total body (broken x) h = absurd cc
  read_body-Streams total body (chunk bytes rest) h =
      elim (Bool-cases (ltb policy.max_bytes (total + length bytes))) [
        | inl over ↦ absurd (ground arith)
        | inr within ↦
            let (later, all_of, streams) =
              read_body-Streams (total + length bytes) (body ++ bytes) rest (rw within at h) in
            (bytes ++ later, all_of ∙ ++-assoc body bytes later, (later, refl, streams))
      ]
