-- ===== src/Acquisition/Netsafety/Shape.antt =====
-- What `check_url_shape` of acquisition/netsafety.py raises, guard by guard.
use data_hub_backend.Base.{
  ℕ, ◌≡◌, refl, String, String_eq, Bool, true, false, not, ◌||◌, ℕ_eq, Option, none, some, ◌==◌,
  inl, inr, ◌⊎◌,
}
use data_hub_backend.Base.Result.{Result, ok, err, ◌>>=◌, ◌>>◌, guard, OnErr}
use data_hub_backend.Base.Sets.{member}
use data_hub_backend.Acquisition.Netsafety.{
  IpLibrary, allowed_schemes, allowed_ports, metadata_hosts,
}
use data_hub_backend.Acquisition.Netsafety.Target.{
  Unsafety, not_literal, port_of, check_parts, host_in, is_truthy, as_ip_literal, bad_scheme,
  credentials, no_host, metadata_host, odd_port, Refusal, value_error, unsafe_target, UrlParts,
  UrlLibrary, ℤ_eq, SocketCodes, Lookup, VettedTarget, check_url_shape, resolve_and_validate,
  validate_stored_url_for_fetch, parsed,
}

module _ (ips : IpLibrary) (urls : UrlLibrary) (url : String) where
  unfoldable pub IsShapeError : Refusal → Type 0
  IsShapeError r =
      ((r ≡ value_error) × (urls.urlsplit url ≡ none))
      ⊎ ((why : Unsafety) × (r ≡ unsafe_target why))

  -- The guards after `urlsplit`, from the last to the first.
  ShapeErrors : Result Refusal (String × String × ℕ) → Type 0
  ShapeErrors call = OnErr IsShapeError call

  after_guard :
      (b : Bool) (why : Unsafety) (rest : Result Refusal (String × String × ℕ))
      → ShapeErrors rest
      → ShapeErrors (guard b (unsafe_target why) >> rest)
  unfolding ShapeErrors IsShapeError
  after_guard true why rest p = p
  after_guard false why rest p = inr (why, refl)

  after_literal :
      (host : String) (literal : Option String) (rest : Result Refusal (String × String × ℕ))
      → ShapeErrors rest
      → ShapeErrors (not_literal ips urls host literal >> rest)
  unfolding ShapeErrors IsShapeError
  after_literal host none rest p = p
  after_literal host (some literal) rest p = inr (_, refl)

  after_port :
      (scheme : String) (port : Option (Option ℕ)) (rest : ℕ → Result Refusal (String × String × ℕ))
      → ((n : ℕ) → ShapeErrors (rest n))
      → ShapeErrors (port_of ips urls scheme port >>= rest)
  unfolding ShapeErrors IsShapeError
  after_port scheme none rest p = inr (_, refl)
  after_port scheme (some none) rest p = p _
  after_port scheme (some (some port)) rest p = p port

  check_parts-ShapeErrors : (parts : UrlParts) → ShapeErrors (check_parts ips urls parts)
  unfolding ShapeErrors
  check_parts-ShapeErrors parts =
      let scheme = urls.lower parts.scheme in
      let host = host_in ips urls parts in
      after_guard (member scheme allowed_schemes) (bad_scheme scheme) _ (
        after_guard (not (is_truthy parts.username || is_truthy parts.password)) credentials _ (
          after_guard (not (host == "")) no_host _ (
            after_guard (not (member host metadata_hosts)) (metadata_host host) _ (
              after_literal host (as_ip_literal ips urls host) _ (
                after_port scheme parts.port _ λ port.
                  after_guard (member port allowed_ports) (odd_port port) (ok (scheme, host, port))
                    tt)))))

  pub check_url_shape-IsShapeError : OnErr IsShapeError (check_url_shape ips urls url)
  unfolding check_url_shape ShapeErrors IsShapeError
  check_url_shape-IsShapeError = by_parts (urls.urlsplit url) refl
    where
      by_parts :
          (parts : Option UrlParts)
          → urls.urlsplit url ≡ parts
          → OnErr IsShapeError (parsed ips urls parts >>= check_parts ips urls)
      by_parts none e = inl (refl, e)
      by_parts (some parts) e = check_parts-ShapeErrors parts

  refused_alike :
      (shaped : Result Refusal (String × String × ℕ))
      (rest : String × String × ℕ → Result Refusal VettedTarget) {r : Refusal}
      → ◌≡◌ {A = Result Refusal (Unit {0})} (shaped >> ok tt) (err r)
      → (shaped >>= rest) ≡ err r
  refused_alike (ok shape) rest refused = absurd cc
  refused_alike (err reason) rest refused = cc

  -- A URL that the check at its registration refuses is refused at every fetch, for the same
  -- reason, whatever the resolver would answer.
  pub validate_stored_url_for_fetch-resolve :
      (codes : SocketCodes) (getaddrinfo : String → ℕ → Lookup) {r : Refusal}
      → validate_stored_url_for_fetch ips urls url ≡ err r
      → resolve_and_validate ips urls codes getaddrinfo url ≡ err r
  unfolding validate_stored_url_for_fetch resolve_and_validate
  validate_stored_url_for_fetch-resolve codes getaddrinfo refused =
      refused_alike (check_url_shape ips urls url) _ refused
