-- ===== src/Acquisition/Netsafety/Refusing.antt =====
-- Why `resolve_and_validate` of acquisition/netsafety.py refuses: each kind of refusal has its own
-- causes.
use data_hub_backend.Base.{
  ℕ, ◌≡◌, refl, sym, subst, ap, ◌∙◌, arith, String, String_eq, Bool, true, false, ℕ_eq, Option,
  none, some, List, [], ◌∷◌, Bool-cases, inl, inr, if◌then◌else◌,
}
use data_hub_backend.Base.Result.{Result, ok, err, OnErr, OnErr-bind, OnErr_reason}
use data_hub_backend.Base.Sets.{member, beq_refl}
use data_hub_backend.Acquisition.Netsafety.{IpLibrary, Reason, classify_address}
use data_hub_backend.Acquisition.Netsafety.Address.{
  IsPublic, ReadsItsOwn, classify_address-IsPublic,
}
use data_hub_backend.Acquisition.Netsafety.Target.{
  Unsafety, Refusal, dns_temporary, name_not_resolved, value_error, uncaught, unsafe_target,
  resolves_to, UrlLibrary, ℤ, ℤ_eq, SocketCodes, not_found_dns_codes, temporary_dns_codes,
  classify_resolver_failure, Lookup, timed_out, failed, raised, answered, VettedTarget, then_check,
  check_url_shape, distinct, check_all, vet, after_lookup, resolve_and_validate, depth,
}
use data_hub_backend.Acquisition.Netsafety.Vetting.{member-distinct}
use data_hub_backend.Acquisition.Netsafety.Answering.{Answers, classify_address-Answers}
use data_hub_backend.Acquisition.Netsafety.Shape.{IsShapeError, check_url_shape-IsShapeError}

-- The resolver says that there is no such name.
abbrev pub is_no_name : SocketCodes → Option ℤ → Bool
is_no_name codes none = false
is_no_name codes (some code) = member code (not_found_dns_codes codes)

-- What the code gives as the cause of each kind of refusal.
module _ (ips : IpLibrary) (urls : UrlLibrary) (codes : SocketCodes)
    (getaddrinfo : String → ℕ → Lookup) (url : String) where
  -- The URL may be attempted, and this is what its lookup did.
  abbrev pub LookedUp : Lookup → Type 0
  LookedUp call =
      (scheme : String) × (host : String) × (port : ℕ) × (check_url_shape ips urls url
        ≡ ok (scheme, host, port))
      × (getaddrinfo host port ≡ call)

  -- `ValueError` escapes where `urlsplit` raises it, and what the lookup raises beside its own
  -- errors escapes too; a security refusal has a bad URL or an answer
  -- that is not public; the resolver's failures are temporary unless it says that there is no such
  -- name.
  pub data Caused : Refusal → Type 0 where
    malformed : urls.urlsplit url ≡ none → Caused value_error
    not_encoded : (name : String) → LookedUp (raised name) → Caused (uncaught name)
    bad_shape :
        (why : Unsafety)
        → check_url_shape ips urls url ≡ err (unsafe_target why)
        → Caused (unsafe_target why)
    not_public :
        (infos : List String) (host address : String) (reason : Reason)
        → LookedUp (answered infos)
        → member address infos ≡ true
        → (IsPublic ips address → ⊥)
        → Caused (unsafe_target (resolves_to host address reason))
    too_slow : LookedUp timed_out → Caused dns_temporary
    no_answer :
        (code : Option ℤ)
        → LookedUp (failed code)
        → is_no_name codes code ≡ false
        → Caused dns_temporary
    no_such_name :
        (code : Option ℤ)
        → LookedUp (failed code)
        → is_no_name codes code ≡ true
        → Caused name_not_resolved
    no_addresses : LookedUp (answered []) → Caused name_not_resolved

  distinct-empty : (infos : List String) → distinct [] infos ≡ [] → infos ≡ []
  distinct-empty [] e = refl
  distinct-empty (a ∷ rest) e =
      let there = member-distinct a [] (a ∷ rest) in
      absurd (ground (arith, beq_refl a, ap (member a) e))

  abbrev Refused : Result Refusal VettedTarget → Type 0
  Refused call = OnErr Caused call

  -- A refusal of the loop names one of its addresses, which is not public.
  pub record IsNamed (addresses : List String) (host : String) (r : Refusal) : Type 0 where
    pub address : String
    pub reason : Reason
    pub among : member address addresses ≡ true
    pub names_it : r ≡ unsafe_target (resolves_to host address reason)
    pub unfit : IsPublic ips address → ⊥

  module _ (reads : ReadsItsOwn ips) where
    check_all-IsNamed :
        (host : String) (addresses : List String)
        → OnErr (IsNamed addresses host) (check_all ips urls host addresses)
    unfolding check_all Answers
    check_all-IsNamed host [] = tt
    check_all-IsNamed host (a ∷ rest) =
        by_verdict (classify_address ips depth a) refl (classify_address-Answers ips reads a)
          (check_all ips urls host rest) (check_all-IsNamed host rest)
      where
        by_verdict :
            (verdict : Option (Option Reason))
            → classify_address ips depth a ≡ verdict
            → (v : Option Reason) × (classify_address ips depth a ≡ some v)
            → (later : Result Refusal (Unit {0})) → OnErr (IsNamed rest host) later
            → OnErr (IsNamed (a ∷ rest) host) (then_check host a verdict later)
        by_verdict none c (v, e) later named = absurd cc
        by_verdict (some none) c answers (ok u) named = tt
        by_verdict (some none) c answers (err r) named = record {
          address = named.address;
          reason = named.reason;
          among = ground (arith, named.among);
          names_it = named.names_it;
          unfit = named.unfit;
        }
        by_verdict (some (some reason)) c answers later named = record {
          address = a;
          reason = reason;
          among = ground (arith, beq_refl a);
          names_it = refl;
          unfit = λ p. absurd (two_verdicts ((classify_address-IsPublic ips reads 0 a).1 p));
        }
          where
            two_verdicts : classify_address ips depth a ≡ some none → ⊥
            two_verdicts e = cc

    vet-Refused :
        (scheme host : String) (port : ℕ) (infos : List String)
        → check_url_shape ips urls url ≡ ok (scheme, host, port)
        → getaddrinfo host port ≡ answered infos
        → Refused (vet ips urls scheme host port (distinct [] infos))
    vet-Refused scheme host port infos shaped asked = by_addresses (distinct [] infos) refl
      where
        by_addresses :
            (addresses : List String)
            → distinct [] infos ≡ addresses
            → Refused (vet ips urls scheme host port addresses)
        by_addresses [] e = no_addresses (
          scheme,
          host,
          port,
          shaped,
          subst (λ call. getaddrinfo host port ≡ call) (ap answered (distinct-empty infos e)) asked,
        )
        by_addresses (a ∷ rest) e =
            OnErr-bind Caused (check_all ips urls host (a ∷ rest)) _
              (unnamed (check_all ips urls host (a ∷ rest)) (check_all-IsNamed host (a ∷ rest)))
              (λ u _. tt)
          where
            unnamed :
                (call : Result Refusal (Unit {0}))
                → OnErr (IsNamed (a ∷ rest) host) call
                → OnErr Caused call
            unnamed (ok u) named = tt
            unnamed (err r) named = subst Caused (sym named.names_it) (
                not_public infos host named.address named.reason (scheme, host, port, shaped, asked)
                  (sym (member-distinct named.address [] infos)
                    ∙ ap (member named.address) e
                    ∙ named.among)
                  named.unfit)

    after_lookup-Refused :
        (scheme host : String) (port : ℕ) (call : Lookup)
        → check_url_shape ips urls url ≡ ok (scheme, host, port)
        → getaddrinfo host port ≡ call
        → Refused (after_lookup ips urls codes scheme host port call)
    unfolding classify_resolver_failure
    after_lookup-Refused scheme host port timed_out shaped asked =
        too_slow (scheme, host, port, shaped, asked)
    after_lookup-Refused scheme host port (failed none) shaped asked =
        no_answer none (scheme, host, port, shaped, asked) refl
    after_lookup-Refused scheme host port (failed (some code)) shaped asked =
        elim (Bool-cases (member code (not_found_dns_codes codes))) [
          | inl e ↦ rw e (no_such_name (some code) (scheme, host, port, shaped, asked) e)
          | inr e ↦ rw e (
              subst Caused (sym (same_either (member code (temporary_dns_codes codes))))
                (no_answer (some code) (scheme, host, port, shaped, asked) e))
        ]
      where
        same_either : (b : Bool) → (if b then dns_temporary else dns_temporary) ≡ dns_temporary
        same_either true = refl
        same_either false = refl
    after_lookup-Refused scheme host port (raised name) shaped asked =
        not_encoded name (scheme, host, port, shaped, asked)
    after_lookup-Refused scheme host port (answered infos) shaped asked =
        vet-Refused scheme host port infos shaped asked

    resolve-Refused : Refused (resolve_and_validate ips urls codes getaddrinfo url)
    unfolding resolve_and_validate IsShapeError
    resolve-Refused =
        OnErr-bind Caused (check_url_shape ips urls url) _
          (by_shape (check_url_shape ips urls url) refl (check_url_shape-IsShapeError ips urls url))
          (λ (scheme, host, port) shaped.
            after_lookup-Refused scheme host port (getaddrinfo host port) shaped refl)
      where
        by_shape :
            (call : Result Refusal (String × String × ℕ))
            → check_url_shape ips urls url ≡ call
            → OnErr (IsShapeError ips urls url) call
            → OnErr Caused call
        by_shape (ok shape) e h = tt
        by_shape (err r) e (inl (same, none_read)) = subst Caused (sym same) (malformed none_read)
        by_shape (err r) e (inr (why, same)) =
            subst Caused (sym same)
              (bad_shape why (subst (λ x. check_url_shape ips urls url ≡ err x) same e))

    -- Each refusal has its own cause: a security refusal is one of the URL's shape or of an answer
    -- that is not public, a temporary one a lookup that timed out or failed without saying that
    -- there is no such name, a missing name a lookup that said so or gave no address. What escapes is
    -- the `ValueError` of a URL that `urlsplit` cannot read, or what the lookup raised beside
    -- `OSError`, a `UnicodeError` say, after the shape was accepted; there is no other, if the
    -- library reads the IPv4 addresses that it writes.
    pub resolve_and_validate-Caused :
        {r : Refusal} → resolve_and_validate ips urls codes getaddrinfo url ≡ err r → Caused r
    resolve_and_validate-Caused e =
        OnErr_reason Caused (resolve_and_validate ips urls codes getaddrinfo url) resolve-Refused e
