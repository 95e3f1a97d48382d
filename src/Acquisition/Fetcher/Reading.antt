-- ===== src/Acquisition/Fetcher/Reading.antt =====
-- What `_read_response` of acquisition/fetcher.py leaves in an outcome: bytes only of a whole 200.
use data_hub_backend.Base.{
  ℕ, ◌≤◌, ◌≡◌, refl, sym, subst, ap, ◌∙◌, arith, String, String_eq, Bool, true, false, not, ◌&&◌,
  ◌||◌, Option, none, some, List, [], ◌==◌, length, nat_eq, nat_eq_iff, leb, Bool-cases, inl, inr,
  if◌then◌else◌, ℕ_eq,
}
use data_hub_backend.Base.Result.{Result, ok, err}
use data_hub_backend.Base.Sets.{member}
use data_hub_backend.Acquisition.Schema.{FetchStatus}
use data_hub_backend.Acquisition.Recorder.{is_ok_status}
use data_hub_backend.Acquisition.Netsafety.Target.{VettedTarget}
use data_hub_backend.Acquisition.Fetcher.{
  allowed_content_types, FetchPolicy, Response, Thrown, Http, Fetched, with_outcome, failing,
  header, retry_of, declared_length, exceeds, challenge_marker,
}
use data_hub_backend.Acquisition.Fetcher.Fetching.{
  Reply, read_body, accepted_body, accept, received, base_type_of, read_ok, with_headers,
  after_retry, by_status, read_response,
}
use data_hub_backend.Acquisition.Fetcher.Streaming.{Streams, read_body-bounded, read_body-Streams}

module _ (http : Http) (policy : FetchPolicy) where
  -- The client's answer to a hop for this URL, to a target that the resolver gave.
  pub record Answered (url : String) (response : Response) : Type 0 where
    pub hop : ℕ
    pub target : VettedTarget
    pub vetted : http.resolver hop url ≡ ok target
    pub sent : http.send hop target url ≡ ok response

  -- The bytes are all that the stream of an answer carried, a 200 for the last URL.
  pub record Served (body : List ℕ) (seen : Fetched) : Type 0 where
    pub response : Response
    pub answered : Answered seen.effective_url response
    pub is_200 : response.status_code ≡ 200
    pub typed : seen.outcome.content_type ≡ response.content_type
    pub streamed : Streams response.body body

  -- Without bytes there is no hash and no success by content; bytes are the whole stream of a 200,
  -- within the limit, with their hash, and no challenge.
  abbrev pub IsHonestOn : Option (List ℕ) → Fetched → Type 0
  IsHonestOn none seen =
      (seen.outcome.content_hash ≡ none) × (is_ok_status seen.outcome.status ≡ false)
  IsHonestOn (some body) seen =
      (seen.outcome.status ≡ FetchStatus.ok)
      × (seen.outcome.http_status ≡ some 200)
      × (seen.outcome.content_hash ≡ some (http.sha256 body))
      × (length body ≤ policy.max_bytes)
      × (challenge_marker body (base_type_of http policy seen.outcome.content_type) ≡ none)
      × Served body seen

  abbrev pub IsHonest : Fetched → Type 0
  IsHonest seen = IsHonestOn seen.outcome.content seen

  -- Nothing is kept yet.
  pub record IsBare (seen : Fetched) : Type 0 where
    pub no_content : seen.outcome.content ≡ none
    pub no_hash : seen.outcome.content_hash ≡ none

  -- What a reply leaves behind: an honest outcome, or nothing kept where an exception follows.
  pub data Sound : Reply → Type 0 where
    whole : {seen : Fetched} {u : Unit {0}} → IsHonest seen → Sound (seen, ok u)
    bare : {seen : Fetched} {e : Thrown} → IsBare seen → Sound (seen, err e)

  pub bare-failing :
      (status : FetchStatus) (name detail : String) (seen : Fetched)
      → is_ok_status status ≡ false
      → IsBare seen
      → IsHonest (with_outcome (failing status name detail) seen)
  bare-failing status name detail seen e b = rw b.no_content (b.no_hash, e)

  accept-Sound :
      (body : List ℕ) (seen : Fetched)
      → Served body seen
      → IsBare seen
      → seen.outcome.http_status ≡ some 200
      → length body ≤ policy.max_bytes
      → IsHonest (accept http policy (base_type_of http policy seen.outcome.content_type) body seen)
  accept-Sound body seen served b status size =
      by_marker (challenge_marker body (base_type_of http policy seen.outcome.content_type)) refl
    where
      by_marker :
          (marker : Option (List ℕ))
          → challenge_marker body (base_type_of http policy seen.outcome.content_type) ≡ marker
          → IsHonest (accepted_body http policy marker body seen)
      by_marker none e = (
        refl,
        status,
        refl,
        size,
        e,
        record {
          response = served.response;
          answered = served.answered;
          is_200 = served.is_200;
          typed = served.typed;
          streamed = served.streamed;
        },
      )
      by_marker (some marker) e = rw b.no_content (b.no_hash, refl)

  received-Sound :
      (seen : Fetched) (response : Response)
      → Answered seen.effective_url response
      → response.status_code ≡ 200
      → seen.outcome.content_type ≡ response.content_type
      → IsBare seen
      → seen.outcome.http_status ≡ some 200
      → Sound (
          received http policy
            (base_type_of http policy seen.outcome.content_type)
            seen
            (read_body http policy 0 [] response.body))
  received-Sound seen response answered is_200 typed b status =
      by_body (read_body http policy 0 [] response.body) refl
    where
      by_body :
          (call : Result Thrown (List ℕ))
          → read_body http policy 0 [] response.body ≡ call
          → Sound
              (received http policy (base_type_of http policy seen.outcome.content_type) seen call)
      by_body (err x) e = bare b
      by_body (ok body) e =
          let (later, all_of, streams) = read_body-Streams http policy 0 [] response.body e in
          whole (
            accept-Sound body seen
              (record {
                response = response;
                answered = answered;
                is_200 = is_200;
                typed = typed;
                streamed = subst (Streams response.body) (sym all_of) streams;
              })
              b status (read_body-bounded http policy 0 [] response.body refl (omega arith) e))

  pub if-Sound :
      (test : Bool) (first second : Reply)
      → (test ≡ true → Sound first)
      → (test ≡ false → Sound second)
      → Sound (if test then first else second)
  if-Sound true first second h k = h refl
  if-Sound false first second h k = k refl

  read_ok-Sound :
      (response : Response) (seen : Fetched)
      → Answered seen.effective_url response
      → response.status_code ≡ 200
      → seen.outcome.content_type ≡ response.content_type
      → seen.outcome.http_status ≡ some 200
      → IsBare seen
      → Sound (read_ok http policy response seen)
  unfolding read_ok
  read_ok-Sound response seen answered is_200 same status b =
      let type = base_type_of http policy response.content_type in
      let declared = declared_length http response.content_length in
      elim (Bool-cases (exceeds declared policy.max_bytes)) [
        | inl e ↦ rw e (bare b)
        | inr e ↦
            rw e (elim (Bool-cases (not (type == "") && not (member type allowed_content_types))) [
              | inl f ↦ rw f (bare b)
              | inr f ↦ rw f (
                  subst
                    (λ header. Sound (
                      received http policy (base_type_of http policy header) seen
                        (read_body http policy 0 [] response.body)))
                    same (received-Sound seen response answered is_200 same b status))
            ])
      ]

  by_status-Sound :
      (response : Response) (seen : Fetched)
      → Answered seen.effective_url response
      → seen.outcome.content_type ≡ response.content_type
      → seen.outcome.http_status ≡ some response.status_code
      → IsBare seen
      → Sound (by_status http policy response.status_code response seen)
  by_status-Sound response seen answered typed status b =
      let code = response.status_code in
      if-Sound (nat_eq code 304) _ _ (λ e. whole (rw b.no_content (b.no_hash, refl)))
        λ e.
          if-Sound (nat_eq code 429) _ _ (λ e. whole (bare-failing _ _ _ seen refl b))
            λ e.
              if-Sound (nat_eq code 403 || nat_eq code 401) _ _
                (λ e. whole (bare-failing _ _ _ seen refl b))
                λ e.
                  if-Sound (leb 400 code) _ _ (λ e. whole (bare-failing _ _ _ seen refl b))
                    λ e.
                      if-Sound (not (nat_eq code 200)) _ _
                        (λ e. whole (bare-failing _ _ _ seen refl b))
                        λ e.
                          let is_200 : code ≡ 200 = ground (arith, nat_eq_iff code 200) in
                          read_ok-Sound response seen answered is_200 typed
                            (status ∙ ap some is_200) b

  pub read_response-Sound :
      (response : Response) (seen : Fetched)
      → Answered seen.effective_url response
      → seen.outcome.http_status ≡ some response.status_code
      → IsBare seen
      → Sound (read_response http policy response seen)
  unfolding read_response
  read_response-Sound response seen answered status b =
      after_retry-Sound (retry_of http (header response.retry_after) seen.outcome.retry_after)
    where
      typed : Fetched
      typed = with_headers http policy response seen

      after_retry-Sound :
          (call : Result Thrown (Option ℕ)) → Sound (after_retry http policy response typed call)
      after_retry-Sound (err e) = bare (record { no_content = b.no_content; no_hash = b.no_hash })
      after_retry-Sound (ok delay) =
          by_status-Sound response (with_outcome (λ o. record o { retry_after = delay }) typed)
            answered refl status (record { no_content = b.no_content; no_hash = b.no_hash })
