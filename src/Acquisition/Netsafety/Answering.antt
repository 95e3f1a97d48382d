-- ===== src/Acquisition/Netsafety/Answering.antt =====
-- `classify_address` of acquisition/netsafety.py answers with the fuel that it is given.
use data_hub_backend.Base.{
  ℕ, ◌≡◌, refl, sym, subst, String, String_eq, Bool, true, false, ℕ_eq, Option, none, some,
  if◌then◌else◌,
}
use data_hub_backend.Acquisition.Netsafety.{
  Ip, v4, IpLibrary, Reason, classify_address, judge_address, by_carried, carried_in, prefixed,
  names_metadata, cloud_metadata,
}
use data_hub_backend.Acquisition.Netsafety.Address.{ReadsItsOwn}
use data_hub_backend.Acquisition.Netsafety.Target.{ℤ_eq, depth}

-- `classify_address` answers with the fuel that `resolve_and_validate` gives it.
module _ (lib : IpLibrary) (reads : ReadsItsOwn lib) where
  unfoldable pub Answers : Option (Option Reason) → Type 0
  Answers o = (verdict : Option Reason) × (o ≡ some verdict)

  if-Answers :
      (b : Bool) (reason : Reason) (rest : Option (Option Reason))
      → Answers rest
      → Answers (if b then some (some reason) else rest)
  unfolding Answers
  if-Answers true reason rest h = (_, refl)
  if-Answers false reason rest h = h

  prefixed-Answers :
      (f : Reason → Reason) (rest : Option (Option Reason))
      → Answers rest
      → Answers (prefixed lib f rest)
  unfolding Answers
  prefixed-Answers f none (v, e) = absurd cc
  prefixed-Answers f (some none) h = (_, refl)
  prefixed-Answers f (some (some reason)) h = (_, refl)

  judge_address-Answers :
      (again : String → Option (Option Reason)) (raw : String) (read : Option Ip)
      → ((n : ℕ) → Answers (again (lib.str (v4 n))))
      → Answers (judge_address lib again raw read)
  unfolding Answers
  judge_address-Answers again raw none h = (_, refl)
  judge_address-Answers again raw (some ip) h =
      if-Answers (names_metadata lib raw ip) (cloud_metadata ip)
        (by_carried lib again ip (carried_in ip)) (by_inside (carried_in ip))
    where
      by_inside :
          (inside : Option ((Reason → Reason) × ℕ)) → Answers (by_carried lib again ip inside)
      by_inside none = (_, refl)
      by_inside (some (f, inner)) = prefixed-Answers f (again (lib.str (v4 inner))) (h inner)

  v4-Answers : (n : ℕ) → Answers (classify_address lib 1 (lib.str (v4 n)))
  unfolding Answers classify_address
  v4-Answers n =
      subst (λ o. Answers (judge_address lib (classify_address lib 0) (lib.str (v4 n)) o))
        (sym (reads n))
        (if-Answers (names_metadata lib (lib.str (v4 n)) (v4 n)) (cloud_metadata (v4 n)) _
          (_, refl))

  pub classify_address-Answers : (raw : String) → Answers (classify_address lib depth raw)
  unfolding classify_address
  classify_address-Answers raw =
      judge_address-Answers (classify_address lib 1) raw (lib.ip_address raw) v4-Answers
