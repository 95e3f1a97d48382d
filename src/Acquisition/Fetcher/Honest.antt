-- ===== src/Acquisition/Fetcher/Honest.antt =====
-- The bytes that `fetch` of acquisition/fetcher.py keeps as evidence.
use data_hub_backend.Base.{
  ℕ, zero, suc, ◌≡◌, refl, subst, String, String_eq, Option, none, some, List, ℕ_eq,
}
use data_hub_backend.Base.Result.{
  Result, ok, err, >>=-eq-ok, ok_injective, OnOk, OnOk-bind, OnOk_value,
}
use data_hub_backend.Base.Sets.{member}
use data_hub_backend.Acquisition.Schema.{FetchStatus}
use data_hub_backend.Acquisition.Netsafety.Target.{
  Refusal, unsafe_target, dns_temporary, name_not_resolved, value_error, uncaught, undecided,
  VettedTarget,
}
use data_hub_backend.Acquisition.Fetcher.{
  redirect_statuses, FetchPolicy, HttpError, total_timeout, timeout_exception, ssl_error,
  transport_error, http_error, unexpected, Response, Thrown, by_resolver, by_client, oversized,
  unsupported, uncaught_by_class, Http, Fetched, with_outcome, header,
}
use data_hub_backend.Acquisition.Fetcher.Fetching.{
  Reply, follow, answer, heard, contact, fetch_chain, caught, blank, settled_by, fetch,
}
use data_hub_backend.Acquisition.Fetcher.Reading.{
  IsHonestOn, IsHonest, IsBare, Sound, whole, bare, bare-failing, if-Sound, read_response-Sound,
  Answered,
}

module _ (http : Http) (policy : FetchPolicy) where
  -- The hop after this one, if there may be one, is sound.
  abbrev NextSound : Option (String → Fetched → Reply) → Type 0
  NextSound none = Unit
  NextSound (some next) =
      (url : String) (s : Fetched) → IsBare http policy s → Sound http policy (next url s)

  follow-Sound :
      (current : String) (status : ℕ) (location : Option String)
      (next : Option (String → Fetched → Reply)) (seen : Fetched)
      → NextSound next
      → IsBare http policy seen
      → Sound http policy (follow http policy current status location next seen)
  follow-Sound current status none next seen h b =
      whole (bare-failing http policy FetchStatus.http_error _ _ seen refl b)
  follow-Sound current status (some location) none seen h b =
      whole (rw b.no_content (b.no_hash, refl))
  follow-Sound current status (some location) (some next) seen h b =
      h _ _ (record { no_content = b.no_content; no_hash = b.no_hash })

  answer-Sound :
      (current : String) (response : Response) (next : Option (String → Fetched → Reply))
      (seen : Fetched)
      → Answered http policy current response
      → NextSound next
      → IsBare http policy seen
      → Sound http policy (answer http policy current response next seen)
  answer-Sound current response next seen answered h b =
      let seen' : Fetched =
        record (with_outcome (λ o. record o { http_status = some response.status_code }) seen) {
          effective_url = current;
        } in
      let b' : IsBare http policy seen' = record {
        no_content = b.no_content;
        no_hash = b.no_hash;
      } in
      if-Sound http policy (member response.status_code redirect_statuses) _ _
        (λ e. follow-Sound current response.status_code (header response.location) next seen' h b')
        (λ e. read_response-Sound http policy response seen' answered refl b')

  contact-Sound :
      (hop : ℕ) (current : String) (call : Result Refusal VettedTarget)
      (next : Option (String → Fetched → Reply)) (seen : Fetched)
      → http.resolver hop current ≡ call
      → NextSound next
      → IsBare http policy seen
      → Sound http policy (contact http policy hop current call next seen)
  contact-Sound hop current (err r) next seen e h b = bare b
  contact-Sound hop current (ok target) next seen vetted h b =
      by_response (http.send hop target current) refl
    where
      by_response :
          (call : Result HttpError Response)
          → http.send hop target current ≡ call
          → Sound http policy (heard http policy current call next seen)
      by_response (err e) sent = bare b
      by_response (ok response) sent =
          answer-Sound current response next seen
            (record { hop = hop; target = target; vetted = vetted; sent = sent }) h b

  fetch_chain-Sound :
      (left hop : ℕ) (current : String) (seen : Fetched)
      → IsBare http policy seen
      → Sound http policy (fetch_chain http policy left hop current seen)
  unfolding fetch_chain
  fetch_chain-Sound zero hop current seen b =
      contact-Sound hop current (http.resolver hop current) none seen refl tt b
  fetch_chain-Sound (suc left) hop current seen b =
      contact-Sound hop current (http.resolver hop current)
        (some (fetch_chain http policy left (suc hop))) seen refl (fetch_chain-Sound left (suc hop))
        b

  caught-IsHonest :
      (e : Thrown) (seen : Fetched)
      → IsBare http policy seen
      → OnOk
          (λ o. IsHonest http policy (record seen { outcome = o }))
          (caught http policy e seen.outcome)
  caught-IsHonest (by_resolver (unsafe_target why)) seen b = rw b.no_content (b.no_hash, refl)
  caught-IsHonest (by_resolver dns_temporary) seen b = rw b.no_content (b.no_hash, refl)
  caught-IsHonest (by_resolver name_not_resolved) seen b = rw b.no_content (b.no_hash, refl)
  caught-IsHonest (by_resolver value_error) seen b = tt
  caught-IsHonest (by_resolver (uncaught name)) seen b = tt
  caught-IsHonest (by_resolver undecided) seen b = tt
  caught-IsHonest (by_client total_timeout) seen b = rw b.no_content (b.no_hash, refl)
  caught-IsHonest (by_client (timeout_exception name text)) seen b =
      rw b.no_content (b.no_hash, refl)
  caught-IsHonest (by_client (ssl_error text)) seen b = rw b.no_content (b.no_hash, refl)
  caught-IsHonest (by_client (transport_error name text)) seen b = rw b.no_content (b.no_hash, refl)
  caught-IsHonest (by_client (http_error name text)) seen b = rw b.no_content (b.no_hash, refl)
  caught-IsHonest (by_client (unexpected name)) seen b = tt
  caught-IsHonest (oversized detail) seen b = rw b.no_content (b.no_hash, refl)
  caught-IsHonest (unsupported detail) seen b = rw b.no_content (b.no_hash, refl)
  caught-IsHonest (uncaught_by_class name) seen b = tt

  settled_by-IsHonest :
      (reply : Reply)
      → Sound http policy reply
      → OnOk (IsHonest http policy) (settled_by http policy reply)
  settled_by-IsHonest (seen, ok u) (whole h) = h
  settled_by-IsHonest (seen, err e) (bare b) =
      OnOk-bind (IsHonest http policy) (caught http policy e seen.outcome) _ λ o same.
        OnOk_value (λ o. IsHonest http policy (record seen { outcome = o }))
          (caught http policy e seen.outcome) (caught-IsHonest e seen b) same

  -- Setting the end of the outcome changes nothing that is asked of it.
  finished-IsHonest :
      (content : Option (List ℕ)) (t : ℕ) (seen : Fetched)
      → IsHonestOn http policy content seen
      → IsHonestOn http policy content (with_outcome (λ o. record o { finished_at = some t }) seen)
  finished-IsHonest none t seen h = h
  finished-IsHonest (some body) t seen (good, status, hash, size, plain, served) = (
    good,
    status,
    hash,
    size,
    plain,
    record {
      response = served.response;
      answered = served.answered;
      is_200 = served.is_200;
      typed = served.typed;
      streamed = served.streamed;
    },
  )

  -- What `fetch` returns has bytes only if the client answered the last URL with a 200, to a target
  -- that the resolver gave, and the bytes are all that the stream of its body carried, within the
  -- limit and with no challenge: then the status is OK and the hash is that of the bytes.
  -- Without bytes there is no hash and the status is not OK, whatever was redirected, refused or
  -- raised on the way.
  pub fetch-IsHonest :
      (url : String) (started : ℕ) {seen : Fetched}
      → fetch http policy url started ≡ ok seen
      → IsHonest http policy seen
  unfolding fetch
  fetch-IsHonest url started {seen} e =
      let reply =
        fetch_chain http policy policy.max_redirects 0 url (blank http policy url started) in
      let (before, settled, done) = >>=-eq-ok (settled_by http policy reply) _ e in
      let h =
        OnOk_value (IsHonest http policy) (settled_by http policy reply)
          (settled_by-IsHonest reply (
            fetch_chain-Sound policy.max_redirects 0 url (blank http policy url started)
              (record { no_content = refl; no_hash = refl })))
          settled in
      subst (IsHonest http policy) (ok_injective done)
        (finished-IsHonest before.outcome.content http.utcnow before h)
