-- ===== src/Acquisition/Netsafety.antt =====
-- acquisition/netsafety.py: which URLs may be attempted, and which resolved addresses contacted.
-- Python's `urlsplit`, `ipaddress`, `inet_aton` and `getaddrinfo` are arguments; the texts of the
-- log lines are left out, the parts that an error names are kept.
pub mod Embedded
pub mod Address
pub mod Target
pub mod Vetting
pub mod Answering
pub mod Shape
pub mod Refusing
use data_hub_backend.Base.{
  ℕ, zero, suc, ◌+◌, ◌-◌, ◌*◌, ◌/◌, ◌%◌, ◌^◌, ◌≡◌, String, Bool, true, false, not, ◌&&◌, ◌||◌,
  Option, none, some, List, [], ◌∷◌, ◌++◌, ◌==◌, ℕ_eq, String_eq, nat_eq, is_none, if◌then◌else◌,
}
use data_hub_backend.Base.Result.{Result, ok, err, ◌>>=◌, ◌>>◌, guard}
use data_hub_backend.Base.Sets.{member}

abbrev pub metadata_addresses : List String
metadata_addresses =
    "169.254.169.254" ∷ "169.254.170.2" ∷ "fd00:ec2::254" ∷ "100.100.100.200" ∷ "192.0.0.192" ∷ []

abbrev pub metadata_hosts : List String
metadata_hosts =
    "metadata" ∷ "metadata.google.internal" ∷ "metadata.goog" ∷ "instance-data"
    ∷ "instance-data.ec2.internal" ∷ []

-- `ALLOWED_SCHEMES` and `ALLOWED_PORTS` of onboarding/urls.py.
abbrev pub allowed_schemes : List String
allowed_schemes = "http" ∷ "https" ∷ []

abbrev pub allowed_ports : List ℕ
allowed_ports = 80 ∷ 443 ∷ 8080 ∷ 8443 ∷ []

-- `IPv4Address` and `IPv6Address`, by their numbers.
pub data Ip : Type 0 where
  v4 : ℕ → Ip
  v6 : ℕ → Ip

-- Python's `ipaddress`: the parser of the strict forms, `str`, and the tests on ranges.
pub record IpLibrary : Type 0 where
  pub ip_address : String → Option Ip
  pub str : Ip → String
  pub is_global : Ip → Bool
  pub is_unspecified : Ip → Bool
  pub is_loopback : Ip → Bool
  pub is_link_local : Ip → Bool
  pub is_multicast : Ip → Bool
  pub is_reserved : Ip → Bool
  pub is_private : Ip → Bool

-- `IPv6Address.ipv4_mapped`, `.sixtofour` and the client of `.teredo`, as `ipaddress` has them.
unfoldable pub ipv4_mapped : ℕ → Option ℕ
ipv4_mapped n = if nat_eq (n / 2 ^ 32) 65535 then some (n % 2 ^ 32) else none

unfoldable pub sixtofour : ℕ → Option ℕ
sixtofour n = if nat_eq (n / 2 ^ 112) 8194 then some (n / 2 ^ 80 % 2 ^ 32) else none

unfoldable pub teredo_client : ℕ → Option ℕ
teredo_client n = if nat_eq (n / 2 ^ 96) 536936448 then some (2 ^ 32 - 1 - n % 2 ^ 32) else none

-- Why an address is unsafe.
pub data Reason : Type 0 where
  not_an_ip : String → Reason
  cloud_metadata : Ip → Reason
  mapped : Reason → Reason
  embedded_6to4 : Reason → Reason
  embedded_teredo : Reason → Reason
  unspecified : Ip → Reason
  loopback : Ip → Reason
  link_local : Ip → Reason
  multicast : Ip → Reason
  reserved : Ip → Reason
  private_range : Ip → Reason
  not_global : Ip → Reason

-- The prefix of the reason, and the address that an IPv6 address carries.
abbrev pub carried : ℕ → Option ((Reason → Reason) × ℕ)
carried n = elim (ipv4_mapped n) [
  | some inner ↦ some (mapped, inner)
  | none ↦ elim (sixtofour n) [
    | some inner ↦ some (embedded_6to4, inner)
    | none ↦ elim (teredo_client n) [ some inner ↦ some (embedded_teredo, inner) | none ↦ none ]
  ]
]

abbrev pub carried_in : Ip → Option ((Reason → Reason) × ℕ)
carried_in (v4 n) = none
carried_in (v6 n) = carried n

module _ (lib : IpLibrary) where
  -- The tests after the embedded forms.
  unfoldable pub range_of : Ip → Option Reason
  range_of ip =
      if lib.is_global ip
      then none
      else some (
          if lib.is_unspecified ip
          then unspecified ip
          else if lib.is_loopback ip
          then loopback ip
          else if lib.is_link_local ip
          then link_local ip
          else if lib.is_multicast ip
          then multicast ip
          else if lib.is_reserved ip
          then reserved ip
          else if lib.is_private ip
          then private_range ip
          else not_global ip)

  abbrev pub prefixed : (Reason → Reason) → Option (Option Reason) → Option (Option Reason)
  prefixed f none = none
  prefixed f (some none) = some none
  prefixed f (some (some reason)) = some (some (f reason))

  abbrev pub names_metadata : String → Ip → Bool
  names_metadata raw ip = member raw metadata_addresses || member (lib.str ip) metadata_addresses

  abbrev pub by_carried :
      (String → Option (Option Reason))
      → Ip
      → Option ((Reason → Reason) × ℕ)
      → Option (Option Reason)
  by_carried again ip none = some (range_of ip)
  by_carried again ip (some (f, inner)) = prefixed f (again (lib.str (v4 inner)))

  -- The body, with the call of itself as an argument.
  abbrev pub judge_address :
      (String → Option (Option Reason)) → String → Option Ip → Option (Option Reason)
  judge_address again raw none = some (some (not_an_ip raw))
  judge_address again raw (some ip) =
      if names_metadata raw ip
      then some (some (cloud_metadata ip))
      else by_carried again ip (carried_in ip)

  -- `classify_address`, on fuel: `none` where its calls of itself do not end.
  unfoldable pub classify_address : ℕ → String → Option (Option Reason)
  unfolding range_of ipv4_mapped sixtofour teredo_client
  classify_address zero raw = none
  classify_address (suc fuel) raw = judge_address (classify_address fuel) raw (lib.ip_address raw)
