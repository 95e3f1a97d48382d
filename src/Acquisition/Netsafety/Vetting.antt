-- ===== src/Acquisition/Netsafety/Vetting.antt =====
-- What a target that `resolve_and_validate` of acquisition/netsafety.py returns has passed.
use data_hub_backend.Base.{
  ℕ, ◌+◌, ◌≤◌, ◌≡◌, refl, sym, subst, arith, String, String_eq, Bool, true, false, not, ◌||◌,
  Option, none, some, List, [], ◌∷◌, ◌++◌, ◌==◌, Eq, ℕ_eq, All, count, Bool-cases, inl, inr,
  if◌then◌else◌, length,
}
use data_hub_backend.Base.Result.{ok, >>=-eq-ok, guard, guard_holds, ok_injective}
use data_hub_backend.Base.Sets.{member}
use data_hub_backend.Acquisition.Netsafety.{
  IpLibrary, Reason, classify_address, metadata_hosts, allowed_schemes, allowed_ports,
}
use data_hub_backend.Acquisition.Netsafety.Address.{
  IsPublic, ReadsItsOwn, classify_address-IsPublic,
}
use data_hub_backend.Acquisition.Netsafety.Target.{
  UrlLibrary, SocketCodes, Lookup, timed_out, failed, raised, answered, VettedTarget, as_ip_literal,
  then_check, check_url_shape, distinct, check_all, vet, after_lookup, resolve_and_validate, parsed,
  not_literal, port_of, host_in, is_truthy, unsafe_target, bad_scheme, credentials, no_host,
  metadata_host, odd_port, depth,
}

-- At most one occurrence of each.
abbrev pub IsUnique {ℓ} : {A : Type ℓ} → ⦃e : Eq A⦄ → List A → Type ℓ
IsUnique {A = A} xs = (a : A) → count (λ x. a == x) xs ≤ 1

module _ {ℓ} {A : Type ℓ} ⦃e : Eq A⦄ where
  member-++ : (a b : A) (xs : List A) → member a (xs ++ b ∷ []) ≡ (member a xs || a == b)
  member-++ a b [] = ground arith
  member-++ a b (x ∷ xs) = ground (arith, member-++ a b xs)

  count-++ :
      (a b : A) (xs : List A)
      → count (λ x. a == x) (xs ++ b ∷ []) ≡ count (λ x. a == x) xs + (if a == b then 1 else 0)
  count-++ a b [] = ground arith
  count-++ a b (x ∷ xs) = ground (arith, count-++ a b xs)

  count-member : (a : A) (xs : List A) → member a xs ≡ false → count (λ x. a == x) xs ≡ 0
  count-member a [] h = refl
  count-member a (x ∷ xs) h = ground (arith, count-member a xs)

  IsUnique-added :
      (b : A) (xs : List A) → IsUnique xs → IsUnique (if member b xs then xs else xs ++ b ∷ [])
  IsUnique-added b xs u = elim (Bool-cases (member b xs)) [
    | inl old ↦ rw old u
    | inr new ↦ rw new (λ a. ground (arith, u a, count-++ a b xs, count-member b xs, e.beq_iff a b))
  ]

IsUnique-distinct : (infos seen : List String) → IsUnique seen → IsUnique (distinct seen infos)
unfolding distinct
IsUnique-distinct [] seen u = u
IsUnique-distinct (a ∷ rest) seen u =
    IsUnique-distinct rest (if member a seen then seen else seen ++ a ∷ [])
      (IsUnique-added a seen u)

pub member-distinct :
    (a : String) (seen infos : List String)
    → member a (distinct seen infos) ≡ (member a seen || member a infos)
unfolding distinct
member-distinct a seen [] = ground arith
member-distinct a seen (b ∷ rest) = elim (Bool-cases (member b seen)) [
  | inl old ↦ rw old (ground (arith, member-distinct a seen rest, String_eq.beq_iff a b))
  | inr new ↦ rw new (ground (arith, member-distinct a (seen ++ b ∷ []) rest, member-++ a b seen))
]

-- What was checked of the URL of a target, before its host was looked up.
pub record IsShaped (ips : IpLibrary) (urls : UrlLibrary) (scheme host : String) (port : ℕ)
    : Type 0 where
  pub web_scheme : member scheme allowed_schemes ≡ true
  pub web_port : member port allowed_ports ≡ true
  pub named : (host == "") ≡ false
  pub no_metadata : member host metadata_hosts ≡ false
  pub no_literal : as_ip_literal ips urls host ≡ none

not-true : (b : Bool) → not b ≡ true → b ≡ false
not-true true h = absurd cc
not-true false h = refl

module _ (ips : IpLibrary) (urls : UrlLibrary) where
  not_literal-ok :
      (host : String) (literal : Option String) {u : Unit {0}}
      → not_literal ips urls host literal ≡ ok u
      → literal ≡ none
  not_literal-ok host none h = refl
  not_literal-ok host (some literal) h = absurd cc

  check_url_shape-IsShaped :
      (url : String) {scheme host : String} {port : ℕ}
      → check_url_shape ips urls url ≡ ok (scheme, host, port)
      → IsShaped ips urls scheme host port
  unfolding check_url_shape
  check_url_shape-IsShaped url {scheme} {host} {port} e =
      let (parts, _, e1) = >>=-eq-ok (parsed ips urls (urls.urlsplit url)) _ e in
      let scheme1 = urls.lower parts.scheme in
      let host1 = host_in ips urls parts in
      let (_, g1, e2) =
        >>=-eq-ok (guard (member scheme1 allowed_schemes) (unsafe_target (bad_scheme scheme1))) _
          e1 in
      let (_, g2, e3) =
        >>=-eq-ok
          (guard (not (is_truthy parts.username || is_truthy parts.password))
            (unsafe_target credentials))
          _ e2 in
      let (_, g3, e4) = >>=-eq-ok (guard (not (host1 == "")) (unsafe_target no_host)) _ e3 in
      let (_, g4, e5) =
        >>=-eq-ok (guard (not (member host1 metadata_hosts)) (unsafe_target (metadata_host host1)))
          _ e4 in
      let (_, g5, e6) =
        >>=-eq-ok (not_literal ips urls host1 (as_ip_literal ips urls host1)) _ e5 in
      let (port1, _, e7) = >>=-eq-ok (port_of ips urls scheme1 parts.port) _ e6 in
      let (_, g6, e8) =
        >>=-eq-ok (guard (member port1 allowed_ports) (unsafe_target (odd_port port1))) _ e7 in
      let shape : IsShaped ips urls scheme1 host1 port1 = record {
        web_scheme = guard_holds _ _ g1;
        web_port = guard_holds _ _ g6;
        named = not-true _ (guard_holds _ _ g3);
        no_metadata = not-true _ (guard_holds _ _ g4);
        no_literal = not_literal-ok host1 (as_ip_literal ips urls host1) g5;
      } in
      subst (λ (t : String × String × ℕ). IsShaped ips urls t.0 t.1 t.2) (ok_injective e8) shape

  module _ (reads : ReadsItsOwn ips) where
    check_all-IsPublic :
        (host : String) (addresses : List String) {u : Unit {0}}
        → check_all ips urls host addresses ≡ ok u
        → All (IsPublic ips) addresses
    unfolding check_all
    check_all-IsPublic host [] h = tt
    check_all-IsPublic host (a ∷ rest) h =
        let (public, later) = by_verdict (classify_address ips depth a) refl h in
        (public, check_all-IsPublic host rest later)
      where
        by_verdict :
            (verdict : Option (Option Reason)) {v : Unit {0}}
            → classify_address ips depth a ≡ verdict
            → then_check host a verdict (check_all ips urls host rest) ≡ ok v
            → IsPublic ips a × (check_all ips urls host rest ≡ ok v)
        by_verdict none c e = absurd cc
        by_verdict (some none) c e = ((classify_address-IsPublic ips reads 0 a).0 c, e)
        by_verdict (some (some reason)) c e = absurd cc

    -- The target of a lookup that answered: its shape, and its addresses against the answers.
    pub record IsVetted (getaddrinfo : String → ℕ → Lookup) (target : VettedTarget) : Type 0 where
      pub shaped : IsShaped ips urls target.scheme target.host target.port
      pub answers : List String
      pub looked_up : getaddrinfo target.host target.port ≡ answered answers
      pub some_address : 1 ≤ length target.addresses
      pub public : All (IsPublic ips) target.addresses
      pub unique : IsUnique target.addresses
      pub same_answers : (a : String) → member a target.addresses ≡ member a answers

    vet-ok :
        (scheme host : String) (port : ℕ) (addresses : List String) {target : VettedTarget}
        → vet ips urls scheme host port addresses ≡ ok target
        → (1 ≤ length addresses)
          × All (IsPublic ips) addresses
          × (target ≡ record { host = host; port = port; scheme = scheme; addresses = addresses })
    vet-ok scheme host port [] e = absurd cc
    vet-ok scheme host port (a ∷ rest) e =
        let (_, checked, made) = >>=-eq-ok (check_all ips urls host (a ∷ rest)) _ e in
        (omega arith, check_all-IsPublic host (a ∷ rest) checked, sym (ok_injective made))

    after_lookup-IsVetted :
        (codes : SocketCodes) (getaddrinfo : String → ℕ → Lookup) (scheme host : String) (port : ℕ)
        (call : Lookup) {target : VettedTarget}
        → IsShaped ips urls scheme host port
        → getaddrinfo host port ≡ call
        → after_lookup ips urls codes scheme host port call ≡ ok target
        → IsVetted getaddrinfo target
    after_lookup-IsVetted codes getaddrinfo scheme host port timed_out shape asked e = absurd cc
    after_lookup-IsVetted codes getaddrinfo scheme host port (failed code) shape asked e = absurd cc
    after_lookup-IsVetted codes getaddrinfo scheme host port (raised name) shape asked e = absurd cc
    after_lookup-IsVetted codes getaddrinfo scheme host port (answered infos) shape asked e =
        let (some_of, public, made) = vet-ok scheme host port (distinct [] infos) e in
        subst (IsVetted getaddrinfo) (sym made) (record {
          shaped = shape;
          answers = infos;
          looked_up = asked;
          some_address = some_of;
          public = public;
          unique = IsUnique-distinct infos [] (λ a. omega arith);
          same_answers = λ a. member-distinct a [] infos;
        })

    -- A target that is returned names a web scheme and port and a host that is no metadata service
    -- and no IP literal, and its addresses are exactly the resolver's answers for that host, at
    -- least one, each once, and every one of them public, if the library reads the IPv4 addresses
    -- that it writes.
    pub resolve_and_validate-IsVetted :
        (codes : SocketCodes) (getaddrinfo : String → ℕ → Lookup) (url : String)
        {target : VettedTarget}
        → resolve_and_validate ips urls codes getaddrinfo url ≡ ok target
        → IsVetted getaddrinfo target
    unfolding resolve_and_validate
    resolve_and_validate-IsVetted codes getaddrinfo url e =
        let ((scheme, host, port), shaped, rest) = >>=-eq-ok (check_url_shape ips urls url) _ e in
        after_lookup-IsVetted codes getaddrinfo scheme host port (getaddrinfo host port)
          (check_url_shape-IsShaped url shaped) refl rest
