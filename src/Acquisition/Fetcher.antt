-- ===== src/Acquisition/Fetcher.antt =====
-- acquisition/fetcher.py: one retrieval, its redirects and its body. The HTTP client, the resolver,
-- the digest and Python's parsers are arguments; the response headers, the technical metadata and
-- the durations are left out, and a message is kept as its parts.
pub mod Fetching
pub mod Streaming
pub mod Reading
pub mod Honest
pub mod Chained
pub mod Recorded
use data_hub_backend.Base.{
  ℕ, zero, suc, ◌+◌, ◌-◌, ◌^◌, max, String, Bool, true, false, not, ◌&&◌, ◌||◌, Option, none, some,
  List, [], ◌∷◌, ◌++◌, ◌==◌, ℕ_eq, String_eq, nat_eq, ltb, leb, length, if◌then◌else◌,
}
use data_hub_backend.Base.Result.{Result, ok, err}
use data_hub_backend.Base.Sets.{member}
use data_hub_backend.Acquisition.Schema.{FetchStatus, seconds}
use data_hub_backend.Acquisition.Recorder.{FetchOutcome}
use data_hub_backend.Acquisition.Netsafety.Target.{
  Refusal, unsafe_target, dns_temporary, name_not_resolved, value_error, uncaught, undecided,
  Unsafety, VettedTarget, ℤ, pos, negsuc,
}

abbrev pub redirect_statuses : List ℕ
redirect_statuses = 301 ∷ 302 ∷ 303 ∷ 307 ∷ 308 ∷ []

abbrev pub allowed_content_types : List String
allowed_content_types =
    "text/html" ∷ "application/xhtml+xml" ∷ "text/plain" ∷ "application/pdf" ∷ "application/json"
    ∷ "text/xml" ∷ "application/xml" ∷ []

abbrev pub html_types : List String
html_types = "text/html" ∷ "application/xhtml+xml" ∷ "" ∷ []

abbrev pub max_challenge_bytes : ℕ
max_challenge_bytes = 8192

-- The markers as bytes.
abbrev pub challenge_markers : List (List ℕ)
challenge_markers =
    (95 ∷ 73 ∷ 110 ∷ 99 ∷ 97 ∷ 112 ∷ 115 ∷ 117 ∷ 108 ∷ 97 ∷ 95 ∷ 82 ∷ 101 ∷ 115 ∷ 111 ∷ 117 ∷ 114
      ∷ 99 ∷ 101 ∷ [])
    ∷ (74 ∷ 117 ∷ 115 ∷ 116 ∷ 32 ∷ 97 ∷ 32 ∷ 109 ∷ 111 ∷ 109 ∷ 101 ∷ 110 ∷ 116 ∷ 46 ∷ 46 ∷ 46 ∷ [])
    ∷ (99 ∷ 102 ∷ 45 ∷ 98 ∷ 114 ∷ 111 ∷ 119 ∷ 115 ∷ 101 ∷ 114 ∷ 45 ∷ 118 ∷ 101 ∷ 114 ∷ 105 ∷ 102
        ∷ 105 ∷ 99 ∷ 97 ∷ 116 ∷ 105 ∷ 111 ∷ 110 ∷ [])
    ∷ (47 ∷ 99 ∷ 100 ∷ 110 ∷ 45 ∷ 99 ∷ 103 ∷ 105 ∷ 47 ∷ 99 ∷ 104 ∷ 97 ∷ 108 ∷ 108 ∷ 101 ∷ 110 ∷ 103
        ∷ 101 ∷ 45 ∷ 112 ∷ 108 ∷ 97 ∷ 116 ∷ 102 ∷ 111 ∷ 114 ∷ 109 ∷ [])
    ∷ (65 ∷ 116 ∷ 116 ∷ 101 ∷ 110 ∷ 116 ∷ 105 ∷ 111 ∷ 110 ∷ 32 ∷ 82 ∷ 101 ∷ 113 ∷ 117 ∷ 105 ∷ 114
        ∷ 101 ∷ 100 ∷ 33 ∷ 32 ∷ 124 ∷ 32 ∷ 67 ∷ 108 ∷ 111 ∷ 117 ∷ 100 ∷ 102 ∷ 108 ∷ 97 ∷ 114 ∷ 101
        ∷ [])
    ∷ (68 ∷ 68 ∷ 111 ∷ 83 ∷ 32 ∷ 112 ∷ 114 ∷ 111 ∷ 116 ∷ 101 ∷ 99 ∷ 116 ∷ 105 ∷ 111 ∷ 110 ∷ 32 ∷ 98
        ∷ 121 ∷ [])
    ∷ []

-- `max_redirects` and `max_bytes` of `FetchPolicy`.
pub record FetchPolicy : Type 0 where
  pub max_redirects : ℕ
  pub max_bytes : ℕ

-- What the HTTP client raises, with the name of the class and its text; the total budget is
-- `asyncio.wait_for`'s.
pub data HttpError : Type 0 where
  total_timeout : HttpError
  timeout_exception : String → String → HttpError
  ssl_error : String → HttpError
  transport_error : String → String → HttpError
  http_error : String → String → HttpError
  unexpected : String → HttpError

-- The body as it streams in.
pub data Stream : Type 0 where
  ended : Stream
  broken : HttpError → Stream
  chunk : List ℕ → Stream → Stream

pub record Response : Type 0 where
  pub status_code : ℕ
  pub reason_phrase : String
  pub location : Option String
  pub retry_after : Option String
  pub content_length : Option String
  pub content_type : Option String
  pub etag : Option String
  pub last_modified : Option String
  pub body : Stream

-- The parts of an `error_detail`.
pub data Detail : Type 0 where
  over_budget : Detail
  refused : Refusal → Detail
  plain : String → Detail
  no_location : ℕ → Detail
  over_redirects : ℕ → Detail
  http_status_only : ℕ → Detail
  unexpected_status : ℕ → Detail
  declared_too_long : Option ℤ → ℕ → Detail
  too_long : ℕ → Detail
  not_stored : String → Detail
  interstitial : List ℕ → ℕ → Detail

-- What `_fetch_chain` raises.
pub data Thrown : Type 0 where
  by_resolver : Refusal → Thrown
  by_client : HttpError → Thrown
  oversized : Detail → Thrown
  unsupported : Detail → Thrown
  uncaught_by_class : String → Thrown

-- What `parsedate_to_datetime` reads, in microseconds; a date whose zone is -0000 has none.
pub data HttpDate : Type 0 where
  aware : ℕ → HttpDate
  naive : ℕ → HttpDate

-- The resolver and the client at each hop, and the library calls.
pub record Http : Type 0 where
  pub resolver : ℕ → String → Result Refusal VettedTarget
  pub send : ℕ → VettedTarget → String → Result HttpError Response
  pub urljoin : String → String → String
  pub sha256 : List ℕ → String
  pub base_of : String → String  -- `value.split(";")[0].strip().lower()`
  pub strip : String → String
  pub int_of : String → Option ℤ  -- `int(value)`
  pub date_of : String → Option HttpDate  -- `parsedate_to_datetime(value)`
  pub now : ℕ
  pub utcnow : ℕ
  pub http_class : ℕ → String  -- `f"HTTP{status}"`
  pub render : Detail → String

pub record Redirect : Type 0 where
  pub status : ℕ
  pub source : String
  pub target : String

-- `FetchOutcome`, with the fields that only the fetcher and the snapshot's row use beside the
-- others.
pub record Fetched : Type 0 where
  pub outcome : FetchOutcome
  pub effective_url : String
  pub redirect_chain : List Redirect
  pub byte_size : Option ℕ

abbrev pub with_outcome : (FetchOutcome → FetchOutcome) → Fetched → Fetched
with_outcome f seen = record seen { outcome = f seen.outcome }

-- The three assignments of an outcome that is no success.
abbrev pub failing : FetchStatus → String → String → FetchOutcome → FetchOutcome
failing status name detail o = record o {
  status = status;
  error_class = some name;
  error_detail = some detail;
}

abbrev pub non_blank : String → String → String
non_blank text other = if text == "" then other else text

-- `not value` holds of no header and of an empty one.
abbrev pub header : Option String → Option String
header none = none
header (some text) = if text == "" then none else some text

-- `max(0.0, float(n))` seconds
abbrev pub at_least_zero : ℤ → ℕ
at_least_zero (pos n) = seconds n
at_least_zero (negsuc n) = 0

-- `float` raises `OverflowError` where the number rounds to 2 ** 1024 or more.
abbrev pub overflows : ℤ → Bool
overflows (pos n) = leb (2 ^ 1024 - 2 ^ 970) n
overflows (negsuc n) = leb (2 ^ 1024 - 2 ^ 970) (n + 1)

-- `(when - utcnow()).total_seconds()`: a date without a zone cannot be subtracted.
abbrev pub until_date : Http → Option HttpDate → Result Thrown (Option ℕ)
until_date http none = ok none
until_date http (some (aware moment)) = ok (some (moment - http.now))
until_date http (some (naive moment)) = err (uncaught_by_class "TypeError")

-- `_parse_retry_after`
unfoldable pub parse_retry_after : Http → String → Result Thrown (Option ℕ)
parse_retry_after http value = elim (http.int_of (http.strip value)) [
  | some n ↦
      if overflows n then err (uncaught_by_class "OverflowError") else ok (some (at_least_zero n))
  | none ↦ until_date http (http.date_of (http.strip value))
]

abbrev pub retry_of : Http → Option String → Option ℕ → Result Thrown (Option ℕ)
retry_of http none before = ok before
retry_of http (some value) before = parse_retry_after http value

-- `_declared_length`
unfoldable pub declared_length : Http → Option String → Option ℤ
declared_length http value = elim (header value) [ none ↦ none | some text ↦ http.int_of text ]

abbrev pub exceeds : Option ℤ → ℕ → Bool
exceeds none limit = false
exceeds (some (negsuc n)) limit = false
exceeds (some (pos n)) limit = ltb limit n

abbrev pub starts : List ℕ → List ℕ → Bool
starts [] body = true
starts (m ∷ marker) [] = false
starts (m ∷ marker) (b ∷ body) = nat_eq m b && starts marker body

-- `marker in body`
abbrev pub occurs : List ℕ → List ℕ → Bool
occurs marker [] = starts marker []
occurs marker (b ∷ body) = starts marker (b ∷ body) || occurs marker body

abbrev pub first_marker : List (List ℕ) → List ℕ → Option (List ℕ)
first_marker [] body = none
first_marker (m ∷ rest) body = if occurs m body then some m else first_marker rest body

-- `_challenge_marker`
unfoldable pub challenge_marker : List ℕ → String → Option (List ℕ)
challenge_marker body base_type =
    if not (member base_type html_types)
    then none
    else if ltb max_challenge_bytes (length body)
    then none
    else first_marker challenge_markers body
