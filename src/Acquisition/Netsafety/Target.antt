-- ===== src/Acquisition/Netsafety/Target.antt =====
-- `check_url_shape`, `_as_ip_literal`, `classify_resolver_failure`, `resolve_and_validate` and
-- `validate_stored_url_for_fetch` of acquisition/netsafety.py.
use data_hub_backend.Base.{
  ℕ, ◌≡◌, ap, String, Bool, true, false, not, ◌||◌, ◌↔◌, Option, none, some, List, [], ◌∷◌, ◌++◌,
  ◌==◌, Eq, ℕ_eq, String_eq, nat_eq, nat_eq_iff, if◌then◌else◌,
}
use data_hub_backend.Base.Result.{Result, ok, err, ◌>>=◌, ◌>>◌, guard}
use data_hub_backend.Base.Sets.{member}
use data_hub_backend.Acquisition.Netsafety.{
  v4, IpLibrary, Reason, classify_address, metadata_hosts, allowed_schemes, allowed_ports,
}

-- What the guard of a URL raises.
pub data Unsafety : Type 0 where
  bad_scheme : String → Unsafety
  credentials : Unsafety
  no_host : Unsafety
  metadata_host : String → Unsafety
  ip_literal : String → String → Option (Option Reason) → Unsafety
  bad_port : Unsafety
  odd_port : ℕ → Unsafety
  resolves_to : String → String → Reason → Unsafety

-- `TargetRefusedError` by its subclasses, the `ValueError` of `urlsplit` and the exceptions of the
-- lookup that nothing here catches, by their class, and the fuel of `classify_address` run out.
pub data Refusal : Type 0 where
  unsafe_target : Unsafety → Refusal
  dns_temporary : Refusal
  name_not_resolved : Refusal
  value_error : Refusal
  uncaught : String → Refusal
  undecided : Refusal

pub record UrlParts : Type 0 where
  pub scheme : String
  pub username : Option String
  pub password : Option String
  pub hostname : Option String
  pub port : Option (Option ℕ)  -- `none` where `.port` raises `ValueError`

-- `urllib.parse`, `str` methods and `socket.inet_aton`.
pub record UrlLibrary : Type 0 where
  pub urlsplit : String → Option UrlParts  -- `none` where it raises `ValueError`
  pub lower : String → String
  pub strip : String → String
  pub rstrip_dots : String → String
  pub unbracketed : String → String  -- `host[1:-1]` where the host stands in square brackets
  pub is_loose : String → Bool  -- all in "0123456789abcdefABCDEFxX."
  pub inet_aton : String → Option ℕ

-- A whole number: `negsuc n` is below zero, `- (n + 1)`.
pub data ℤ : Type 0 where
  pos : ℕ → ℤ
  negsuc : ℕ → ℤ

abbrev pub int_beq : ℤ → ℤ → Bool
int_beq (pos m) (pos n) = nat_eq m n
int_beq (negsuc m) (negsuc n) = nat_eq m n
int_beq _ _ = false

pub int_beq_iff : (a b : ℤ) → (int_beq a b ≡ true) ↔ (a ≡ b)
int_beq_iff (pos m) (pos n) = (λ h. ap pos ((nat_eq_iff m n).0 h), λ h. (nat_eq_iff m n).1 cc)
int_beq_iff (negsuc m) (negsuc n) =
    (λ h. ap negsuc ((nat_eq_iff m n).0 h), λ h. (nat_eq_iff m n).1 cc)
int_beq_iff (pos m) (negsuc n) = (λ h. cc, λ h. cc)
int_beq_iff (negsuc m) (pos n) = (λ h. cc, λ h. cc)

instance abbrev pub ℤ_eq : Eq ℤ
ℤ_eq = record { beq = int_beq; beq_iff = int_beq_iff }

-- The constants of the running platform's `socket`, where it has them.
pub record SocketCodes : Type 0 where
  pub eai_again : Option ℤ
  pub eai_fail : Option ℤ
  pub eai_system : Option ℤ
  pub eai_noname : Option ℤ
  pub eai_nodata : Option ℤ

abbrev pub with_code : Option ℤ → List ℤ → List ℤ
with_code none codes = codes
with_code (some code) codes = code ∷ codes

abbrev pub temporary_dns_codes : SocketCodes → List ℤ
temporary_dns_codes s = with_code s.eai_again (
    with_code s.eai_fail
      (with_code s.eai_system (negsuc 2 ∷ negsuc 3 ∷ negsuc 10 ∷ pos 11002 ∷ pos 11003 ∷ [])))

abbrev pub not_found_dns_codes : SocketCodes → List ℤ
not_found_dns_codes s =
    with_code s.eai_noname
      (with_code s.eai_nodata (negsuc 1 ∷ negsuc 4 ∷ pos 11001 ∷ pos 11004 ∷ []))

-- `errno` of the exception, where it is a number.
unfoldable pub classify_resolver_failure : SocketCodes → Option ℤ → Refusal
classify_resolver_failure s none = dns_temporary
classify_resolver_failure s (some code) =
    if member code (not_found_dns_codes s)
    then name_not_resolved
    else if member code (temporary_dns_codes s)
    then dns_temporary
    else dns_temporary

-- What `getaddrinfo` did within the timeout. Beside `OSError` it raises `UnicodeError`, where it
-- cannot encode the host: an empty label, or one of more than 63 characters.
pub data Lookup : Type 0 where
  timed_out : Lookup
  failed : Option ℤ → Lookup
  raised : String → Lookup
  answered : List String → Lookup

pub record VettedTarget : Type 0 where
  pub host : String
  pub port : ℕ
  pub scheme : String
  pub addresses : List String

-- Not empty and not missing.
abbrev pub is_truthy : Option String → Bool
is_truthy none = false
is_truthy (some text) = not (text == "")

abbrev pub or_empty : Option String → String
or_empty none = ""
or_empty (some text) = text

-- An embedded address is an IPv4 address, so one call inside another is enough.
abbrev pub depth : ℕ
depth = 2

-- The loop that keeps each address once, in the order of the answers.
unfoldable pub distinct : List String → List String → List String
distinct seen [] = seen
distinct seen (a ∷ rest) = distinct (if member a seen then seen else seen ++ a ∷ []) rest

-- One round of the loop over the addresses.
abbrev pub then_check :
    String → String → Option (Option Reason) → Result Refusal (Unit {0}) → Result Refusal (Unit {0})
then_check host a none rest = err undecided
then_check host a (some none) rest = rest
then_check host a (some (some reason)) rest = err (unsafe_target (resolves_to host a reason))

module _ (ips : IpLibrary) (urls : UrlLibrary) where
  -- `_as_ip_literal`
  unfoldable pub as_ip_literal : String → Option String
  as_ip_literal host =
      let candidate = urls.unbracketed host in
      elim (ips.ip_address candidate) [
        | some ip ↦ some (ips.str ip)
        | none ↦ if not (urls.is_loose candidate) then none else elim (urls.inet_aton candidate) [
          | none ↦ none
          | some packed ↦ some (ips.str (v4 packed))
        ]
      ]

  abbrev pub parsed : Option UrlParts → Result Refusal UrlParts
  parsed none = err value_error
  parsed (some parts) = ok parts

  abbrev pub not_literal : String → Option String → Result Refusal (Unit {0})
  not_literal host none = ok tt
  not_literal host (some literal) =
      err (unsafe_target (ip_literal host literal (classify_address ips depth literal)))

  abbrev pub port_of : String → Option (Option ℕ) → Result Refusal ℕ
  port_of scheme none = err (unsafe_target bad_port)
  port_of scheme (some (some port)) = ok port
  port_of scheme (some none) = ok (if scheme == "https" then 443 else 80)

  abbrev pub host_in : UrlParts → String
  host_in parts = urls.lower (urls.rstrip_dots (urls.strip (or_empty parts.hostname)))

  -- The checks of the parts.
  abbrev pub check_parts : UrlParts → Result Refusal (String × String × ℕ)
  check_parts parts = do
    let scheme = urls.lower parts.scheme
    guard (member scheme allowed_schemes) (unsafe_target (bad_scheme scheme))
    guard (not (is_truthy parts.username || is_truthy parts.password)) (unsafe_target credentials)
    let host = host_in parts
    guard (not (host == "")) (unsafe_target no_host)
    guard (not (member host metadata_hosts)) (unsafe_target (metadata_host host))
    not_literal host (as_ip_literal host)
    port ← port_of scheme parts.port
    guard (member port allowed_ports) (unsafe_target (odd_port port))
    ok (scheme, host, port)

  unfoldable pub check_url_shape : String → Result Refusal (String × String × ℕ)
  unfolding as_ip_literal classify_address
  check_url_shape url = parsed (urls.urlsplit url) >>= check_parts

  -- The shape alone, with no lookup.
  unfoldable pub validate_stored_url_for_fetch : String → Result Refusal (Unit {0})
  unfolding check_url_shape
  validate_stored_url_for_fetch url = check_url_shape url >> ok tt

  unfoldable pub check_all : String → List String → Result Refusal (Unit {0})
  unfolding classify_address
  check_all host [] = ok tt
  check_all host (a ∷ rest) = then_check host a (classify_address ips depth a) (check_all host rest)

  abbrev pub vet : String → String → ℕ → List String → Result Refusal VettedTarget
  vet scheme host port [] = err name_not_resolved
  vet scheme host port (a ∷ rest) = do
    check_all host (a ∷ rest)
    ok (record { host = host; port = port; scheme = scheme; addresses = a ∷ rest })

  abbrev pub after_lookup : SocketCodes → String → String → ℕ → Lookup → Result Refusal VettedTarget
  after_lookup codes scheme host port timed_out = err dns_temporary
  after_lookup codes scheme host port (failed code) = err (classify_resolver_failure codes code)
  after_lookup codes scheme host port (raised name) = err (uncaught name)
  after_lookup codes scheme host port (answered infos) = vet scheme host port (distinct [] infos)

  -- `getaddrinfo` answers for a host and a port.
  unfoldable pub resolve_and_validate :
      SocketCodes → (String → ℕ → Lookup) → String → Result Refusal VettedTarget
  unfolding check_url_shape classify_resolver_failure distinct check_all
  resolve_and_validate codes getaddrinfo url = do
    (scheme, host, port) ← check_url_shape url
    after_lookup codes scheme host port (getaddrinfo host port)
