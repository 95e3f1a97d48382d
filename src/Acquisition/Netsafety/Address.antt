-- ===== src/Acquisition/Netsafety/Address.antt =====
-- Which addresses `classify_address` of acquisition/netsafety.py lets through.
use data_hub_backend.Base.{
  ℕ, suc, ◌≡◌, refl, sym, subst, ap, arith, String, String_eq, Bool, true, false, ◌||◌, ◌↔◌, Option,
  none, some, Bool-cases, inl, inr, if◌then◌else◌,
}
use data_hub_backend.Acquisition.Netsafety.{
  Ip, v4, IpLibrary, Reason, classify_address, range_of, carried_in, names_metadata, prefixed,
  judge_address, by_carried, cloud_metadata, metadata_addresses,
}
use data_hub_backend.Base.Sets.{member}
use data_hub_backend.Acquisition.Netsafety.Embedded.{
  Reaches, reached_by, found_in, found_in-Reaches, Reaches-found_in,
}

-- `ip_address` reads what `str` writes of an IPv4 address.
abbrev pub ReadsItsOwn : IpLibrary → Type 0
ReadsItsOwn lib = (n : ℕ) → lib.ip_address (lib.str (v4 n)) ≡ some (v4 n)

module _ (lib : IpLibrary) where
  -- The text is an address, neither it nor what it reaches is a metadata service, and what it
  -- reaches is globally routable.
  pub record IsPublic (raw : String) : Type 0 where
    pub ip : Ip
    pub reached : Ip
    pub parses : lib.ip_address raw ≡ some ip
    pub reaches : Reaches ip reached
    pub no_metadata : names_metadata lib raw ip ≡ false
    pub none_inside : names_metadata lib (lib.str reached) reached ≡ false
    pub global : lib.is_global reached ≡ true

  range_of-none : (ip : Ip) → (range_of lib ip ≡ none) ↔ (lib.is_global ip ≡ true)
  unfolding range_of
  range_of-none ip = elim (Bool-cases (lib.is_global ip)) [
    | inl e ↦ (λ h. e, λ h. rw e refl)
    | inr e ↦ (λ h. absurd (ground arith), λ h. cc)
  ]

  second_twice : (a b : Bool) → (a || b) ≡ false → (b || b) ≡ false
  second_twice true b h = absurd cc
  second_twice false true h = absurd cc
  second_twice false false h = refl

  if-none :
      (b : Bool) (reason : Reason) (rest : Option (Option Reason))
      → ((if b then some (some reason) else rest) ≡ some none) ↔ ((b ≡ false) × (rest ≡ some none))
  if-none true reason rest = (λ h. absurd cc, λ h. absurd cc)
  if-none false reason rest = (λ h. (refl, h), λ h. h.1)

  prefixed-none :
      (f : Reason → Reason) (rest : Option (Option Reason))
      → (prefixed lib f rest ≡ some none) ↔ (rest ≡ some none)
  prefixed-none f none = (λ h. absurd cc, λ h. absurd cc)
  prefixed-none f (some none) = (λ h. refl, λ h. refl)
  prefixed-none f (some (some reason)) = (λ h. absurd cc, λ h. absurd cc)

  -- What is asked of an address that was read.
  abbrev Passes : String → Ip → Type 0
  Passes raw ip =
      (names_metadata lib raw ip ≡ false)
      × (names_metadata lib (lib.str (found_in ip)) (found_in ip) ≡ false)
      × (lib.is_global (found_in ip) ≡ true)

  module _ (reads : ReadsItsOwn lib) where
    plain_v4 :
        (fuel n : ℕ)
        → (classify_address lib (suc fuel) (lib.str (v4 n)) ≡ some none)
          ↔ ((names_metadata lib (lib.str (v4 n)) (v4 n) ≡ false) × (lib.is_global (v4 n) ≡ true))
    unfolding classify_address
    plain_v4 fuel n =
        let b = names_metadata lib (lib.str (v4 n)) (v4 n) in
        let i = if-none b (cloud_metadata (v4 n)) (some (range_of lib (v4 n))) in
        let r = range_of-none (v4 n) in
        subst
          (λ o.
            (judge_address lib (classify_address lib fuel) (lib.str (v4 n)) o ≡ some none)
            ↔ ((b ≡ false) × (lib.is_global (v4 n) ≡ true)))
          (sym (reads n))
          (λ h. ((i.0 h).0, r.0 (cc ((i.0 h).1))), λ h. i.1 (h.0, ap some (r.1 h.1)))

    by_carried-none :
        (fuel : ℕ) (raw : String) (ip : Ip) (inside : Option ((Reason → Reason) × ℕ))
        → names_metadata lib raw ip ≡ false
        → (by_carried lib (classify_address lib (suc fuel)) ip inside ≡ some none) ↔ (
            (names_metadata lib (lib.str (reached_by ip inside)) (reached_by ip inside) ≡ false)
            × (lib.is_global (reached_by ip inside) ≡ true))
    by_carried-none fuel raw ip none out =
        let r = range_of-none ip in
        (
          λ h. (
            second_twice (member raw metadata_addresses) (member (lib.str ip) metadata_addresses)
                out,
            r.0 (cc h),
          ),
          λ h. ap some (r.1 h.1),
        )
    by_carried-none fuel raw ip (some (f, inner)) out =
        let p = prefixed-none f (classify_address lib (suc fuel) (lib.str (v4 inner))) in
        let q = plain_v4 fuel inner in (λ h. q.0 (p.0 h), λ h. p.1 (q.1 h))

    judge_address-none :
        (fuel : ℕ) (raw : String) (ip : Ip)
        → (judge_address lib (classify_address lib (suc fuel)) raw (some ip) ≡ some none)
          ↔ Passes raw ip
    judge_address-none fuel raw ip =
        let i =
          if-none (names_metadata lib raw ip) (cloud_metadata ip)
            (by_carried lib (classify_address lib (suc fuel)) ip (carried_in ip)) in
        (
          λ h.
              let (out, rest) = i.0 h in
              let (inside, global) = (by_carried-none fuel raw ip (carried_in ip) out).0 rest in
              (out, inside, global),
          λ h. i.1 (h.0, (by_carried-none fuel raw ip (carried_in ip) h.0).1 (h.1, h.2)),
        )

    by_parse :
        (fuel : ℕ) (raw : String) (read : Option Ip)
        → lib.ip_address raw ≡ read
        → (judge_address lib (classify_address lib (suc fuel)) raw read ≡ some none) ↔ IsPublic raw
    by_parse fuel raw none e = (λ h. absurd cc, λ h. absurd (nothing_read h.parses))
      where
        nothing_read : {ip : Ip} → lib.ip_address raw ≡ some ip → ⊥
        nothing_read f = cc
    by_parse fuel raw (some ip) e =
        let j = judge_address-none fuel raw ip in
        (
          λ h.
              let (out, inside, global) = j.0 h in
              record {
                ip = ip;
                reached = found_in ip;
                parses = e;
                reaches = found_in-Reaches ip;
                no_metadata = out;
                none_inside = inside;
                global = global;
              },
          λ h.
              let found = Reaches-found_in h.ip h.reached h.reaches in
              j.1 (
                subst (Passes raw) (same h.parses) (
                  h.no_metadata,
                  subst (λ r. names_metadata lib (lib.str r) r ≡ false) found h.none_inside,
                  subst (λ r. lib.is_global r ≡ true) found h.global,
                )),
        )
      where
        same : {other : Ip} → lib.ip_address raw ≡ some other → other ≡ ip
        same f = cc

    -- With fuel for one call inside another, `classify_address` finds no reason against a text
    -- exactly if the text is an address that is no metadata service and that reaches a globally
    -- routable address that is none either: the one that the layout of a mapped, a 6to4 or a
    -- Teredo address puts in it, and itself otherwise. The library is to read the IPv4 addresses
    -- that it writes.
    pub classify_address-IsPublic :
        (fuel : ℕ) (raw : String)
        → (classify_address lib (suc (suc fuel)) raw ≡ some none) ↔ IsPublic raw
    unfolding classify_address
    classify_address-IsPublic fuel raw = by_parse fuel raw (lib.ip_address raw) refl
