-- ===== src/Acquisition/Fetcher/Fetching.antt =====
-- `_read_response`, `_fetch_chain` and `fetch` of acquisition/fetcher.py.
use data_hub_backend.Base.{
  ℕ, zero, suc, ◌+◌, String, not, ◌&&◌, ◌||◌, Option, none, some, List, [], ◌∷◌, ◌++◌, ◌==◌, ℕ_eq,
  String_eq, nat_eq, ltb, leb, length, if◌then◌else◌,
}
use data_hub_backend.Base.Result.{Result, ok, err, ◌>>=◌}
use data_hub_backend.Base.Sets.{member}
use data_hub_backend.Acquisition.Schema.{FetchStatus}
use data_hub_backend.Acquisition.Recorder.{FetchOutcome}
use data_hub_backend.Acquisition.Netsafety.Target.{
  Refusal, unsafe_target, dns_temporary, name_not_resolved, value_error, uncaught, undecided,
  VettedTarget,
}
use data_hub_backend.Acquisition.Fetcher.{
  redirect_statuses, allowed_content_types, FetchPolicy, HttpError, total_timeout,
  timeout_exception, ssl_error, transport_error, http_error, unexpected, Stream, ended, broken,
  chunk, Response, Detail, over_budget, refused, plain, no_location, over_redirects,
  http_status_only, unexpected_status, declared_too_long, too_long, not_stored, interstitial,
  Thrown, by_resolver, by_client, oversized, unsupported, uncaught_by_class, Http, Redirect,
  Fetched, with_outcome, failing, non_blank, header, retry_of, declared_length, exceeds,
  challenge_marker, parse_retry_after,
}

-- What was observed, and whether an exception follows.
abbrev pub Reply : Type 0
Reply = Fetched × Result Thrown (Unit {0})

abbrev pub returns : Fetched → Reply
returns seen = (seen, ok tt)

abbrev pub throws : Fetched → Thrown → Reply
throws seen e = (seen, err e)

module _ (http : Http) (policy : FetchPolicy) where
  -- The loop over the chunks.
  unfoldable pub read_body : ℕ → List ℕ → Stream → Result Thrown (List ℕ)
  read_body total body ended = ok body
  read_body total body (broken e) = err (by_client e)
  read_body total body (chunk bytes rest) =
      let later = read_body (total + length bytes) (body ++ bytes) rest in
      if ltb policy.max_bytes (total + length bytes)
      then err (oversized (too_long policy.max_bytes))
      else later

  abbrev pub accepted_body : Option (List ℕ) → List ℕ → Fetched → Fetched
  accepted_body (some marker) body seen =
      record (with_outcome
        (failing FetchStatus.blocked "ChallengeInterstitial"
          (http.render (interstitial marker (length body))))
        seen) { byte_size = some (length body) }
  accepted_body none body seen =
      record (with_outcome
        (λ o. record o {
          content = some body;
          content_hash = some (http.sha256 body);
          status = FetchStatus.ok;
        })
        seen) { byte_size = some (length body) }

  -- The body is whole.
  abbrev pub accept : String → List ℕ → Fetched → Fetched
  accept base_type body seen = accepted_body (challenge_marker body base_type) body seen

  abbrev pub received : String → Fetched → Result Thrown (List ℕ) → Reply
  received base_type seen (err e) = throws seen e
  received base_type seen (ok body) = returns (accept base_type body seen)

  abbrev pub base_type_of : Option String → String
  base_type_of none = http.base_of ""
  base_type_of (some value) = http.base_of value

  -- The branch of a 200.
  unfoldable pub read_ok : Response → Fetched → Reply
  unfolding read_body challenge_marker declared_length
  read_ok response seen =
      let base_type = base_type_of response.content_type in
      let declared = declared_length http response.content_length in
      if exceeds declared policy.max_bytes
      then throws seen (oversized (declared_too_long declared policy.max_bytes))
      else if not (base_type == "") && not (member base_type allowed_content_types)
      then throws seen (unsupported (not_stored base_type))
      else received base_type seen (read_body 0 [] response.body)

  abbrev pub fails : FetchStatus → String → Detail → Fetched → Reply
  fails status name detail seen =
      returns (with_outcome (failing status name (http.render detail)) seen)

  -- The branches of `_read_response`, in their order.
  abbrev pub by_status : ℕ → Response → Fetched → Reply
  by_status status response seen =
      if nat_eq status 304
      then returns (with_outcome (λ o. record o { status = FetchStatus.unchanged }) seen)
      else if nat_eq status 429
      then fails FetchStatus.rate_limited "RateLimited"
          (plain "the site asked us to slow down (429)") seen
      else if nat_eq status 403 || nat_eq status 401
      then fails FetchStatus.blocked (http.http_class status) (plain "access refused by the site")
          seen
      else if leb 400 status
      then fails FetchStatus.http_error (http.http_class status)
          (if response.reason_phrase == ""
            then http_status_only status
            else plain response.reason_phrase)
          seen
      else if not (nat_eq status 200)
      then fails FetchStatus.http_error (http.http_class status) (unexpected_status status) seen
      else read_ok response seen

  -- The headers that the outcome keeps.
  abbrev pub with_headers : Response → Fetched → Fetched
  with_headers response seen =
      with_outcome
        (λ o. record o {
          etag = response.etag;
          last_modified = response.last_modified;
          content_type = response.content_type;
        })
        seen

  abbrev pub after_retry : Response → Fetched → Result Thrown (Option ℕ) → Reply
  after_retry response seen (err e) = throws seen e
  after_retry response seen (ok delay) =
      by_status response.status_code response
        (with_outcome (λ o. record o { retry_after = delay }) seen)

  -- `_read_response`
  unfoldable pub read_response : Response → Fetched → Reply
  unfolding read_ok parse_retry_after
  read_response response seen =
      after_retry response (with_headers response seen)
        (retry_of http (header response.retry_after) seen.outcome.retry_after)

  -- A redirect is followed by `next`, the hop after this one, if there may be one:
  -- `hop == self.policy.max_redirects` is `none`.
  abbrev pub follow_to : Option (String → Fetched → Reply) → String → Fetched → Reply
  follow_to none target seen =
      fails FetchStatus.http_error "TooManyRedirects" (over_redirects policy.max_redirects) seen
  follow_to (some next) target seen = next target seen

  abbrev pub follow :
      String → ℕ → Option String → Option (String → Fetched → Reply) → Fetched → Reply
  follow current status none next seen =
      fails FetchStatus.http_error "RedirectWithoutLocation" (no_location status) seen
  follow current status (some location) next seen =
      let target = http.urljoin current location in
      let step : Redirect = record { status = status; source = current; target = target } in
      follow_to next target (record seen { redirect_chain = seen.redirect_chain ++ step ∷ [] })

  abbrev pub answer : String → Response → Option (String → Fetched → Reply) → Fetched → Reply
  answer current response next seen =
      let seen' =
        record (with_outcome (λ o. record o { http_status = some response.status_code }) seen) {
          effective_url = current;
        } in
      if member response.status_code redirect_statuses
      then follow current response.status_code (header response.location) next seen'
      else read_response response seen'

  abbrev pub heard :
      String → Result HttpError Response → Option (String → Fetched → Reply) → Fetched → Reply
  heard current (err e) next seen = throws seen (by_client e)
  heard current (ok response) next seen = answer current response next seen

  abbrev pub contact :
      ℕ → String → Result Refusal VettedTarget → Option (String → Fetched → Reply) → Fetched → Reply
  contact hop current (err r) next seen = throws seen (by_resolver r)
  contact hop current (ok target) next seen = heard current (http.send hop target current) next seen

  -- `_fetch_chain` from one hop on, with `left` redirects that may still be followed.
  unfoldable pub fetch_chain : ℕ → ℕ → String → Fetched → Reply
  unfolding read_response
  fetch_chain zero hop current seen = contact hop current (http.resolver hop current) none seen
  fetch_chain (suc left) hop current seen =
      contact hop current (http.resolver hop current) (some (fetch_chain left (suc hop))) seen

  abbrev pub on_refusal : Refusal → FetchOutcome → Result String FetchOutcome
  on_refusal (unsafe_target why) o =
      ok (failing FetchStatus.blocked "UnsafeTarget" (http.render (refused (unsafe_target why))) o)
  on_refusal name_not_resolved o = ok (
      failing FetchStatus.name_not_resolved "NameNotResolved"
        (http.render (refused name_not_resolved)) o)
  on_refusal dns_temporary o = ok (
      failing FetchStatus.dns_temporary "DnsTemporaryFailure" (http.render (refused dns_temporary))
        o)
  on_refusal value_error o = err "ValueError"
  on_refusal (uncaught name) o = err name
  on_refusal undecided o = err "RecursionError"

  abbrev pub on_http_error : HttpError → FetchOutcome → Result String FetchOutcome
  on_http_error total_timeout o =
      ok (failing FetchStatus.timeout "TotalTimeout" (http.render over_budget) o)
  on_http_error (timeout_exception name text) o =
      ok (failing FetchStatus.timeout name (non_blank text "timed out") o)
  on_http_error (ssl_error text) o = ok (failing FetchStatus.http_error "SSLError" text o)
  on_http_error (transport_error name text) o =
      ok (failing FetchStatus.http_error name (non_blank text "transport error") o)
  on_http_error (http_error name text) o = ok (failing FetchStatus.http_error name text o)
  on_http_error (unexpected name) o = err name

  -- The `except` clauses of `fetch`; what none of them catches leaves it by its class name.
  abbrev pub caught : Thrown → FetchOutcome → Result String FetchOutcome
  caught (by_resolver r) o = on_refusal r o
  caught (by_client e) o = on_http_error e o
  caught (oversized detail) o =
      ok (failing FetchStatus.http_error "OversizedResponse" (http.render detail) o)
  caught (unsupported detail) o =
      ok (failing FetchStatus.http_error "UnsupportedContentType" (http.render detail) o)
  caught (uncaught_by_class name) o = err name

  abbrev pub blank : String → ℕ → Fetched
  blank url started = record {
    outcome = record {
      status = FetchStatus.http_error;
      http_status = none;
      requested_url = url;
      started_at = started;
      finished_at = none;
      content = none;
      content_hash = none;
      error_class = none;
      error_detail = none;
      etag = none;
      last_modified = none;
      content_type = none;
      retry_after = none;
    };
    effective_url = url;
    redirect_chain = [];
    byte_size = none;
  }

  abbrev pub settled_by : Reply → Result String Fetched
  settled_by (seen, ok u) = ok seen
  settled_by (seen, err e) = do o ← caught e seen.outcome; ok (record seen { outcome = o })

  -- `fetch`
  unfoldable pub fetch : String → ℕ → Result String Fetched
  unfolding fetch_chain
  fetch url started = do
    seen ← settled_by (fetch_chain policy.max_redirects 0 url (blank url started))
    ok (with_outcome (λ o. record o { finished_at = some http.utcnow }) seen)
