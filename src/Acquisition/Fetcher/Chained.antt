-- ===== src/Acquisition/Fetcher/Chained.antt =====
-- The redirects that `fetch` of acquisition/fetcher.py records.
use data_hub_backend.Base.{
  ℕ, zero, suc, ◌+◌, ◌≤◌, ◌≡◌, refl, sym, subst, ap, ◌∙◌, arith, String, Bool, true, false, not,
  ◌||◌, ◌&&◌, Option, none, some, List, [], ◌∷◌, ◌++◌, ◌==◌, String_eq, ℕ_eq, length, nat_eq, leb,
  Bool-cases, inl, inr, if◌then◌else◌,
}
use data_hub_backend.Base.Result.{Result, ok, err, >>=-eq-ok, ok_injective}
use data_hub_backend.Base.Sets.{member}
use data_hub_backend.Acquisition.Netsafety.Target.{Refusal, VettedTarget}
use data_hub_backend.Acquisition.Fetcher.{
  redirect_statuses, allowed_content_types, FetchPolicy, HttpError, Response, Thrown, Http,
  Redirect, Fetched, with_outcome, header, retry_of, declared_length, exceeds, challenge_marker,
}
use data_hub_backend.Acquisition.Fetcher.Fetching.{
  Reply, read_body, accepted_body, received, base_type_of, read_ok, with_headers, after_retry,
  by_status, read_response, follow, answer, heard, contact, fetch_chain, caught, blank, settled_by,
  fetch,
}
use data_hub_backend.Acquisition.Fetcher.Streaming.{length-++}

-- Each redirect starts where the one before it led, with a redirect's status; the first starts at
-- the first URL, the last leads to the last.
abbrev pub Linked : String → List Redirect → String → Type 0
Linked first [] last = first ≡ last
Linked first (r ∷ rest) last =
    (r.source ≡ first) × (member r.status redirect_statuses ≡ true) × Linked r.target rest last

Linked-++ :
    (first last : String) (chain : List Redirect) (r : Redirect)
    → Linked first chain last
    → r.source ≡ last
    → member r.status redirect_statuses ≡ true
    → Linked first (chain ++ r ∷ []) r.target
Linked-++ first last [] r h e m = (e ∙ sym h, m, refl)
Linked-++ first last (s ∷ rest) r h e m = (h.0, h.1, Linked-++ s.target last rest r h.2 e m)

module _ (http : Http) (policy : FetchPolicy) where
  -- A chain from the first URL, of at most so many redirects.
  pub record IsChain (first : String) (limit : ℕ) (chain : List Redirect) : Type 0 where
    pub last : String
    pub linked : Linked first chain last
    pub bounded : length chain ≤ limit

  -- What follows a response that is no redirect leaves the chain alone.
  abbrev Same : List Redirect → Reply → Type 0
  Same chain reply = reply.0.redirect_chain ≡ chain

  accepted_body-Same :
      (marker : Option (List ℕ)) (body : List ℕ) (seen : Fetched)
      → (accepted_body http policy marker body seen).redirect_chain ≡ seen.redirect_chain
  accepted_body-Same none body seen = refl
  accepted_body-Same (some marker) body seen = refl

  received-Same :
      (type : String) (seen : Fetched) (call : Result Thrown (List ℕ))
      → Same seen.redirect_chain (received http policy type seen call)
  received-Same type seen (err e) = refl
  received-Same type seen (ok body) = accepted_body-Same (challenge_marker body type) body seen

  if-Same :
      (chain : List Redirect) (test : Bool) (first second : Reply)
      → Same chain first
      → Same chain second
      → Same chain (if test then first else second)
  if-Same chain true first second h k = h
  if-Same chain false first second h k = k

  read_ok-Same :
      (response : Response) (seen : Fetched)
      → Same seen.redirect_chain (read_ok http policy response seen)
  unfolding read_ok
  read_ok-Same response seen =
      let type = base_type_of http policy response.content_type in
      let declared = declared_length http response.content_length in
      if-Same seen.redirect_chain (exceeds declared policy.max_bytes) _ _ refl (
        if-Same seen.redirect_chain (not (type == "") && not (member type allowed_content_types)) _
          _ refl (received-Same type seen (read_body http policy 0 [] response.body)))

  by_status-Same :
      (response : Response) (seen : Fetched)
      → Same seen.redirect_chain (by_status http policy response.status_code response seen)
  by_status-Same response seen =
      let code = response.status_code in
      let chain = seen.redirect_chain in
      if-Same chain (nat_eq code 304) _ _ refl (
        if-Same chain (nat_eq code 429) _ _ refl (
          if-Same chain (nat_eq code 403 || nat_eq code 401) _ _ refl (
            if-Same chain (leb 400 code) _ _ refl
              (if-Same chain (not (nat_eq code 200)) _ _ refl (read_ok-Same response _)))))

  read_response-Same :
      (response : Response) (seen : Fetched)
      → Same seen.redirect_chain (read_response http policy response seen)
  unfolding read_response
  read_response-Same response seen =
      after_retry-Same (retry_of http (header response.retry_after) seen.outcome.retry_after)
    where
      after_retry-Same :
          (call : Result Thrown (Option ℕ))
          → Same seen.redirect_chain
              (after_retry http policy response (with_headers http policy response seen) call)
      after_retry-Same (err e) = refl
      after_retry-Same (ok delay) = by_status-Same response (
          with_outcome (λ o. record o { retry_after = delay })
            (with_headers http policy response seen))

  module _ (first : String) (limit : ℕ) where
    abbrev Chains : Reply → Type 0
    Chains reply = IsChain first limit reply.0.redirect_chain

    -- Where a hop may start that may still add so many redirects.
    abbrev MayStart : ℕ → String → Fetched → Type 0
    MayStart room url seen =
        Linked first seen.redirect_chain url × (length seen.redirect_chain + room ≤ limit)

    abbrev NextChains : ℕ → Option (String → Fetched → Reply) → Type 0
    NextChains room none = Unit
    NextChains room (some next) =
        (url : String) (s : Fetched) → MayStart room url s → Chains (next url s)

    kept-IsChain :
        (room : ℕ) (url : String) (seen : Fetched) (chain : List Redirect)
        → MayStart (suc room) url seen
        → chain ≡ seen.redirect_chain
        → IsChain first limit chain
    kept-IsChain room url seen chain m e =
        subst (IsChain first limit) (sym e)
          (record { last = url; linked = m.0; bounded = omega (arith, m.1) })

    follow-IsChain :
        (room : ℕ) (current : String) (status : ℕ) (location : Option String)
        (next : Option (String → Fetched → Reply)) (seen : Fetched)
        → member status redirect_statuses ≡ true
        → MayStart (suc room) current seen
        → NextChains room next
        → Chains (follow http policy current status location next seen)
    follow-IsChain room current status none next seen r m h =
        kept-IsChain room current seen seen.redirect_chain m refl
    follow-IsChain room current status (some location) none seen r m h =
        let target = http.urljoin current location in
        let step : Redirect = record { status = status; source = current; target = target } in
        record {
          last = target;
          linked = Linked-++ first current seen.redirect_chain step m.0 refl r;
          bounded = omega (arith, m.1, length-++ seen.redirect_chain (step ∷ []));
        }
    follow-IsChain room current status (some location) (some next) seen r m h =
        let target = http.urljoin current location in
        let step : Redirect = record { status = status; source = current; target = target } in
        h target (record seen { redirect_chain = seen.redirect_chain ++ step ∷ [] })
          (
            Linked-++ first current seen.redirect_chain step m.0 refl r,
            omega (arith, m.1, length-++ seen.redirect_chain (step ∷ [])),
          )

    answer-IsChain :
        (room : ℕ) (current : String) (response : Response)
        (next : Option (String → Fetched → Reply)) (seen : Fetched)
        → MayStart (suc room) current seen
        → NextChains room next
        → Chains (answer http policy current response next seen)
    answer-IsChain room current response next seen m h =
        let seen' : Fetched =
          record (with_outcome (λ o. record o { http_status = some response.status_code }) seen) {
            effective_url = current;
          } in
        elim (Bool-cases (member response.status_code redirect_statuses)) [
          | inl e ↦ rw e (
              follow-IsChain room current response.status_code (header response.location) next seen'
                e m h)
          | inr e ↦ rw e (
              kept-IsChain room current seen'
                (read_response http policy response seen').0.redirect_chain m
                (read_response-Same response seen'))
        ]

    contact-IsChain :
        (room hop : ℕ) (current : String) (call : Result Refusal VettedTarget)
        (next : Option (String → Fetched → Reply)) (seen : Fetched)
        → MayStart (suc room) current seen
        → NextChains room next
        → Chains (contact http policy hop current call next seen)
    contact-IsChain room hop current (err r) next seen m h =
        kept-IsChain room current seen seen.redirect_chain m refl
    contact-IsChain room hop current (ok target) next seen m h =
        by_response (http.send hop target current)
      where
        by_response :
            (sent : Result HttpError Response) → Chains (heard http policy current sent next seen)
        by_response (err e) = kept-IsChain room current seen seen.redirect_chain m refl
        by_response (ok response) = answer-IsChain room current response next seen m h

    fetch_chain-IsChain :
        (left hop : ℕ) (current : String) (seen : Fetched)
        → MayStart (suc left) current seen
        → Chains (fetch_chain http policy left hop current seen)
    unfolding fetch_chain
    fetch_chain-IsChain zero hop current seen m =
        contact-IsChain zero hop current (http.resolver hop current) none seen m tt
    fetch_chain-IsChain (suc left) hop current seen m =
        contact-IsChain (suc left) hop current (http.resolver hop current)
          (some (fetch_chain http policy left (suc hop))) seen m
          (fetch_chain-IsChain left (suc hop))

  settled_by-Same :
      (reply : Reply) {seen : Fetched}
      → settled_by http policy reply ≡ ok seen
      → seen.redirect_chain ≡ reply.0.redirect_chain
  settled_by-Same (before, ok u) h = sym (ap (λ (s : Fetched). s.redirect_chain) (ok_injective h))
  settled_by-Same (before, err e) h =
      let (o, _, done) = >>=-eq-ok (caught http policy e before.outcome) _ h in
      sym (ap (λ (s : Fetched). s.redirect_chain) (ok_injective done))

  -- The redirects that `fetch` records lead from the URL that was asked for, each from where the
  -- one before it led and by one of the five redirect statuses, and there is at most one more than
  -- the limit, the one that is declined.
  pub fetch-IsChain :
      (url : String) (started : ℕ) {seen : Fetched}
      → fetch http policy url started ≡ ok seen
      → IsChain url (suc policy.max_redirects) seen.redirect_chain
  unfolding fetch
  fetch-IsChain url started {seen} e =
      let reply =
        fetch_chain http policy policy.max_redirects 0 url (blank http policy url started) in
      let (before, settled, done) = >>=-eq-ok (settled_by http policy reply) _ e in
      subst (IsChain url (suc policy.max_redirects))
        (sym (settled_by-Same reply settled)
          ∙ ap (λ (s : Fetched). s.redirect_chain) (ok_injective done))
        (fetch_chain-IsChain url (suc policy.max_redirects) policy.max_redirects 0 url
          (blank http policy url started) (refl, omega arith))
