-- ===== src/Acquisition/Schema.antt =====
-- The tables that acquisition reads and writes (domains/sources/models.py, db/enums.py). Instants
-- are microseconds, the resolution of the database; a UUID is a number.
use data_hub_backend.Base.{ℕ, ◌*◌, String, Bool, true, false, Option, none, some, List, leb, ℕ_eq}

abbrev pub seconds : ℕ → ℕ
seconds n = n * 1000000

pub data FetchStatus : Type 0 where
  ok unchanged http_error blocked timeout parse_failed abandoned : FetchStatus
  rate_limited dns_temporary name_not_resolved internal_error : FetchStatus

pub data FetchEligibility : Type 0 where
  fetchable blocked disabled needs_manual_review : FetchEligibility

pub data SourceAccessState : Type 0 where
  ok blocked manual_only : SourceAccessState

pub data PublicationEligibility : Type 0 where
  target_scope_only official_verified authorized_external authorized_ranking :
      PublicationEligibility
  not_eligible : PublicationEligibility

pub data AttemptState : Type 0 where
  queued running finalized abandoned : AttemptState

abbrev pub is_fetchable : FetchEligibility → Bool
is_fetchable FetchEligibility.fetchable = true
is_fetchable _ = false

abbrev pub is_access_ok : SourceAccessState → Bool
is_access_ok SourceAccessState.ok = true
is_access_ok _ = false

abbrev pub is_queued : AttemptState → Bool
is_queued AttemptState.queued = true
is_queued _ = false

abbrev pub is_running : AttemptState → Bool
is_running AttemptState.running = true
is_running _ = false

abbrev pub is_terminal : AttemptState → Bool
is_terminal AttemptState.finalized = true
is_terminal AttemptState.abandoned = true
is_terminal _ = false

-- Why a source is held back or judged: the texts that the program formats, with their arguments.
pub data Reason : Type 0 where
  http_429 : Option ℕ → Reason
  http_429_on : String → Reason
  rate_limited_times : ℕ → Reason
  temporary_dns_failure : Option String → Reason
  hostname_does_not_resolve : Option String → Reason
  refused : Option String → Option String → Reason
  reenabled_by_operator disabled_by_operator flagged_by_operator : List ℕ → Reason

pub record Source : Type 0 where
  pub id : ℕ
  pub url : String
  pub is_active : Bool
  pub fetch_eligibility : FetchEligibility
  pub fetch_eligibility_reason : Option Reason
  pub fetch_eligibility_set_at : Option ℕ
  pub publication_eligibility : PublicationEligibility
  pub access_state : SourceAccessState
  pub cooldown_until : Option ℕ
  pub cooldown_reason : Option Reason
  pub cooldown_set_at : Option ℕ
  pub rate_limit_strikes : ℕ

pub record HostCooldown : Type 0 where
  pub host : String
  pub cooldown_until : ℕ
  pub reason : Reason
  pub set_at : ℕ
  pub triggered_by_source_id : ℕ

pub record FetchAttempt : Type 0 where
  pub id : ℕ
  pub source_id : ℕ
  pub attempt_no : ℕ
  pub cycle_key : String
  pub state : AttemptState
  pub scheduled_for : Option ℕ
  pub created_at : ℕ
  pub claimed_at : Option ℕ
  pub claimed_by : Option String
  pub heartbeat_at : Option ℕ
  pub lease_expires_at : Option ℕ
  pub lease_token : Option ℕ
  pub lease_generation : ℕ
  pub finalized_at : Option ℕ

-- An exception's class and, where one is kept, its detail: the parts of the recorded text.
pub record ErrorText : Type 0 where
  pub name : String
  pub detail : Option String

pub record FetchRun : Type 0 where
  pub id : ℕ
  pub attempt_id : ℕ
  pub source_id : ℕ
  pub attempt_no : ℕ
  pub scheduled_for : Option ℕ
  pub started_at : ℕ
  pub finished_at : ℕ
  pub status : FetchStatus
  pub http_status : Option ℕ
  pub fetcher : String
  pub error_class : Option ErrorText
  pub worker_name : Option String

pub record Snapshot : Type 0 where
  pub id : ℕ
  pub fetch_run_id : ℕ
  pub source_id : ℕ
  pub content_hash : String
  pub requested_url : String
  pub http_status : Option ℕ
  pub observed_at : ℕ

pub record Db : Type 0 where
  pub sources : List Source
  pub host_cooldowns : List HostCooldown
  pub attempts : List FetchAttempt
  pub runs : List FetchRun
  pub snapshots : List Snapshot
  pub blobs : List String  -- the content hashes of `content_blob`

-- What the queries and the workers read of a URL: the SQL `split_part(split_part(url, '://', 2),
-- '/', 1)`, the SQL `lower`, the host that the view `source_health` cuts out, and Python's
-- `(urlsplit(url).hostname or "").lower()`.
pub record Urls : Type 0 where
  pub authority : String → String
  pub lower : String → String
  pub health_host : String → String
  pub hostname : String → String

-- `moment IS NULL OR moment <= now`
abbrev pub due : Option ℕ → ℕ → Bool
due none now = true
due (some moment) now = leb moment now
