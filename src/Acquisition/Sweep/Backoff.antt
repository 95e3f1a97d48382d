-- ===== src/Acquisition/Sweep/Backoff.antt =====
-- The bounds of `backoff_seconds` of acquisition/lease.py.
use native.Mathlib.Nat.{one-le-pow, pow-le-pow_right}
use data_hub_backend.Base.{
  ℕ, ◌+◌, ◌-◌, ◌≤◌, ◌<◌, ◌≡◌, ◌⊎◌, inl, inr, Bool-cases, leb, none, some, arith,
}
use data_hub_backend.Acquisition.Schema.{seconds}
use data_hub_backend.Acquisition.Sweep.{backoff}

-- A Retry-After between one second and an hour is taken as it is; a shorter one becomes one second,
-- and a longer one an hour.
abbrev pub IsCapped : ℕ → ℕ → Type 0
IsCapped retry_after delay =
    ((seconds 1 ≤ retry_after) × (retry_after ≤ seconds 3600) × (delay ≡ retry_after))
    ⊎ (((retry_after < seconds 1) × (delay ≡ seconds 1))
        ⊎ ((seconds 3600 < retry_after) × (delay ≡ seconds 3600)))

capped : (n retry_after : ℕ) → IsCapped retry_after (backoff n (some retry_after))
unfolding backoff
capped n retry_after = elim (Bool-cases (leb (seconds 1) retry_after)) [
  | inl e ↦ elim (Bool-cases (leb retry_after (seconds 3600))) [
    | inl f ↦ inl (ground arith, ground arith, ground arith)
    | inr f ↦ inr (inr (ground arith, ground arith))
  ]
  | inr e ↦ inr (inl (ground arith, ground arith))
]

-- Without a Retry-After, the delay lies between 15 and 300 seconds and never falls from one attempt
-- to the next. A Retry-After between one second and an hour is the delay; a shorter one is raised
-- to one second, and one of more than an hour is cut to an hour, although the docstring lets the
-- site's number win outright.
pub backoff_bounds :
    (n retry_after : ℕ)
    → (seconds 15 ≤ backoff n none)
      × (backoff n none ≤ backoff (n + 1) none)
      × (backoff n none ≤ seconds 300)
      × IsCapped retry_after (backoff n (some retry_after))
unfolding backoff
backoff_bounds n retry_after =
    let p = one-le-pow (n - 1) 2 (omega arith) in
    let q = pow-le-pow_right {n = 2} (omega arith) {i = n - 1} {j = (n + 1) - 1} (omega arith) in
    (omega (arith, p), omega (arith, q), omega arith, capped n retry_after)
