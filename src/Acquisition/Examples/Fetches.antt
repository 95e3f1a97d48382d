-- ===== src/Acquisition/Examples/Fetches.antt =====
-- A page fetched over one redirect, and hosts that are refused.
use data_hub_backend.Base.{
  ℕ, zero, suc, ◌∙◌, ◌≡◌, refl, ap, ◌↔◌, String, String_eq, false, Option, none, some, [], ◌∷◌,
  ◌==◌, nat_eq, if◌then◌else◌,
}
use Prim.Native.Char.{char, code}
use Prim.Native.String.count
use Prim.Native.String.{count, [] as []ˢ, ◌∷◌ as ◌∷ˢ◌}
use data_hub_backend.Base.Result.{Result, ok, err}
use data_hub_backend.Acquisition.Netsafety.{
  Ip, v4, v6, IpLibrary, loopback, classify_address, range_of, ipv4_mapped, sixtofour,
  teredo_client,
}
use data_hub_backend.Acquisition.Netsafety.Address.{
  IsPublic, classify_address-IsPublic, ReadsItsOwn,
}
use data_hub_backend.Acquisition.Netsafety.Target.{
  UrlLibrary, SocketCodes, Lookup, failed, answered, VettedTarget, dns_temporary, unsafe_target,
  resolves_to, resolve_and_validate, check_url_shape, as_ip_literal, distinct, check_all,
  classify_resolver_failure, negsuc,
}
use data_hub_backend.Acquisition.Netsafety.Vetting.{IsVetted, resolve_and_validate-IsVetted}
use data_hub_backend.Acquisition.Netsafety.Refusing.{Caused, resolve_and_validate-Caused}
use data_hub_backend.Acquisition.Fetcher.{
  Http, FetchPolicy, Fetched, chunk, ended, declared_length, challenge_marker,
}
use data_hub_backend.Acquisition.Fetcher.Fetching.{
  fetch, fetch_chain, blank, read_response, read_ok, read_body,
}
use data_hub_backend.Acquisition.Fetcher.Reading.{IsHonest}
use data_hub_backend.Acquisition.Fetcher.Honest.{fetch-IsHonest}
use data_hub_backend.Acquisition.Fetcher.Chained.{IsChain, fetch-IsChain}

-- IPv4 addresses are written as strokes, and every text with a colon in front is `::ffff:0.0.0.1`.
abbrev strokes : ℕ → String
strokes zero = []ˢ
strokes (suc n) = char 124 tt ∷ˢ strokes n

abbrev address_in : String → Option Ip
address_in []ˢ = some (v4 0)
address_in (c ∷ˢ rest) =
    if nat_eq (code c) 124
    then some (v4 (suc (count rest)))
    else if nat_eq (code c) 58
    then some (v6 281470681743361)
    else none

-- One stroke is the one public address, two are loopback.
abbrev ips : IpLibrary
ips = record {
  ip_address = address_in;
  str = λ ip. elim ip [ v4 n ↦ strokes n | v6 n ↦ ":" ];
  is_global = λ ip. elim ip [ v4 n ↦ nat_eq n 1 | v6 n ↦ false ];
  is_unspecified = λ ip. elim ip [ v4 n ↦ nat_eq n 0 | v6 n ↦ nat_eq n 0 ];
  is_loopback = λ ip. elim ip [ v4 n ↦ nat_eq n 2 | v6 n ↦ nat_eq n 1 ];
  is_link_local = λ ip. false;
  is_multicast = λ ip. false;
  is_reserved = λ ip. false;
  is_private = λ ip. false;
}

count-strokes : (n : ℕ) → count (strokes n) ≡ n
count-strokes zero = count.nil
count-strokes (suc n) = count.cons (char 124 tt) (strokes n) ∙ ap suc (count-strokes n)

strokes_read : ReadsItsOwn ips
strokes_read zero = refl
strokes_read (suc n) = ap (λ k. some (v4 (suc k))) (count-strokes n)

classify_address-IsPublic_example : (classify_address ips 2 ":" ≡ some none) ↔ IsPublic ips ":"
classify_address-IsPublic_example = classify_address-IsPublic ips strokes_read 0 ":"

mapped_is_public : classify_address ips 2 ":" ≡ some none
unfolding classify_address ipv4_mapped sixtofour teredo_client range_of
mapped_is_public = refl

-- A page's URL is the name of its host.
abbrev urls : UrlLibrary
urls = record {
  urlsplit = λ url. some (record {
    scheme = "https";
    username = none;
    password = none;
    hostname = some url;
    port = some none;
  });
  lower = λ text. text;
  strip = λ text. text;
  rstrip_dots = λ text. text;
  unbracketed = λ text. text;
  is_loose = λ text. false;
  inet_aton = λ text. none;
}

abbrev codes : SocketCodes
codes = record {
  eai_again = some (negsuc 2);
  eai_fail = some (negsuc 3);
  eai_system = some (negsuc 10);
  eai_noname = some (negsuc 1);
  eai_nodata = none;
}

-- One host has a public address twice, one also a private one, one does not answer.
abbrev lookup : String → ℕ → Lookup
lookup host port =
    if host == "a.edu"
    then answered ("|" ∷ ":" ∷ "|" ∷ [])
    else if host == "b.edu"
    then answered ("|" ∷ "||" ∷ [])
    else failed (some (negsuc 2))

abbrev vetted : VettedTarget
vetted = record { host = "a.edu"; port = 443; scheme = "https"; addresses = "|" ∷ ":" ∷ [] }

resolve_and_validate-IsVetted_example : IsVetted ips urls strokes_read lookup vetted
unfolding resolve_and_validate check_url_shape as_ip_literal distinct check_all classify_address
    ipv4_mapped sixtofour teredo_client range_of
resolve_and_validate-IsVetted_example =
    resolve_and_validate-IsVetted ips urls strokes_read codes lookup "a.edu" {target = vetted} refl

resolve_and_validate-Caused_example : Caused ips urls codes lookup "c.edu" dns_temporary
unfolding resolve_and_validate check_url_shape as_ip_literal classify_resolver_failure
resolve_and_validate-Caused_example =
    resolve_and_validate-Caused ips urls codes lookup "c.edu" strokes_read {r = dns_temporary} refl

rebinding_refused :
    resolve_and_validate ips urls codes lookup "b.edu"
    ≡ err (unsafe_target (resolves_to "b.edu" "||" (loopback (v4 2))))
unfolding resolve_and_validate check_url_shape as_ip_literal distinct check_all classify_address
    ipv4_mapped sixtofour teredo_client range_of
rebinding_refused = refl

-- The first page redirects to the second, which answers with three bytes.
abbrev http : Http
http = record {
  resolver = λ hop url. ok vetted;
  send = λ hop target url. ok (record {
    status_code = if url == "a.edu" then 301 else 200;
    reason_phrase = "";
    location = if url == "a.edu" then some "fees" else none;
    retry_after = none;
    content_length = none;
    content_type = none;
    etag = none;
    last_modified = none;
    body = chunk (1 ∷ 2 ∷ []) (chunk (3 ∷ []) ended);
  });
  urljoin = λ url location. location;
  sha256 = λ bytes. "hash";
  base_of = λ value. value;
  strip = λ value. value;
  int_of = λ value. none;
  date_of = λ value. none;
  now = 0;
  utcnow = 9;
  http_class = λ status. "HTTP";
  render = λ detail. "";
}

abbrev policy : FetchPolicy
policy = record { max_redirects = 5; max_bytes = 100 }

abbrev page_of : Result String Fetched → Fetched → Fetched
page_of (ok seen) d = seen
page_of (err e) d = d

abbrev nothing : Fetched
nothing = blank http policy "a.edu" 1

abbrev page : Fetched
page = page_of (fetch http policy "a.edu" 1) nothing

three_bytes : page.outcome.content ≡ some (1 ∷ 2 ∷ 3 ∷ [])
unfolding fetch fetch_chain read_response read_ok read_body declared_length challenge_marker
three_bytes = refl

fetch-IsHonest_example : IsHonest http policy page
unfolding fetch fetch_chain read_response read_ok read_body declared_length challenge_marker
fetch-IsHonest_example = fetch-IsHonest http policy "a.edu" 1 {seen = page} refl

fetch-IsChain_example : IsChain http policy "a.edu" 6 page.redirect_chain
unfolding fetch fetch_chain read_response read_ok read_body declared_length challenge_marker
fetch-IsChain_example = fetch-IsChain http policy "a.edu" 1 {seen = page} refl
