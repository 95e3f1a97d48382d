-- ===== src/Acquisition/Examples.antt =====
-- Data to run acquisition on: one site with two pages, a worker's lease, and outcomes.
pub mod Queueing
pub mod Deciding
pub mod Steps
pub mod Cycles
pub mod Fetches
use data_hub_backend.Base.{
  ℕ, Bool, true, false, Option, none, some, List, [], ◌∷◌, String, String_eq, ◌==◌, nat_eq,
  if◌then◌else◌,
}
use data_hub_backend.Base.Result.{Result, ok, err}
use data_hub_backend.Acquisition.Schema.{
  FetchStatus, FetchEligibility, SourceAccessState, PublicationEligibility, AttemptState, Source,
  FetchAttempt, Db, Urls, seconds,
}
use data_hub_backend.Acquisition.Health.{ScheduleState}
use data_hub_backend.Acquisition.Lease.{Lease, Moment}
use data_hub_backend.Acquisition.Enqueue.{TargetRow}
use data_hub_backend.Acquisition.Recorder.{FetchOutcome}
use data_hub_backend.Acquisition.Runner.{CycleReport}

abbrev pub site_of : String → String
site_of url = if url == "https://a.edu/fees" then "a.edu" else "b.edu"

abbrev pub two_sites : Urls
two_sites = record {
  authority = site_of;
  lower = λ host. host;
  health_host = site_of;
  hostname = site_of;
}

abbrev pub page : ℕ → String → FetchEligibility → Source
page id url eligibility = record {
  id = id;
  url = url;
  is_active = true;
  fetch_eligibility = eligibility;
  fetch_eligibility_reason = none;
  fetch_eligibility_set_at = none;
  publication_eligibility = PublicationEligibility.target_scope_only;
  access_state = SourceAccessState.ok;
  cooldown_until = none;
  cooldown_reason = none;
  cooldown_set_at = none;
  rate_limit_strikes = 0;
}

abbrev pub empty_queue : Db
empty_queue = record {
  sources =
      page 1 "https://a.edu/fees" FetchEligibility.fetchable
      ∷ page 2 "https://b.edu/dates" FetchEligibility.fetchable
      ∷ page 3 "https://b.edu/old" FetchEligibility.blocked
      ∷ [];
  host_cooldowns = [];
  attempts = [];
  runs = [];
  snapshots = [];
  blobs = [];
}

abbrev pub selected : ℕ → String → FetchEligibility → TargetRow
selected id host eligibility = record {
  source_id = id;
  host = host;
  fetch_eligibility = eligibility;
  claim_count = 2;
  access_state = SourceAccessState.ok;
  schedule_state = ScheduleState.fetchable_now;
}

abbrev pub rows : List TargetRow
rows =
    selected 1 "a.edu" FetchEligibility.fetchable
    ∷ selected 2 "b.edu" FetchEligibility.fetchable
    ∷ selected 3 "b.edu" FetchEligibility.blocked
    ∷ []

abbrev pub at_time : ℕ → ℕ → Moment
at_time now uuid = record { now = seconds now; utcnow = seconds now; uuid = uuid }

abbrev pub running_under : ℕ → FetchAttempt
running_under token = record {
  id = 7;
  source_id = 1;
  attempt_no = 1;
  cycle_key = "2026-W40";
  state = AttemptState.running;
  scheduled_for = some 0;
  created_at = 0;
  claimed_at = some 0;
  claimed_by = some "worker-1";
  heartbeat_at = some 0;
  lease_expires_at = some (seconds 180);
  lease_token = some token;
  lease_generation = 1;
  finalized_at = none;
}

abbrev pub lease_under : ℕ → Lease
lease_under token = record {
  attempt_id = 7;
  source_id = 1;
  url = "https://a.edu/fees";
  cycle_key = "2026-W40";
  attempt_no = 1;
  lease_token = token;
  lease_generation = 1;
  expires_at = seconds 180;
  worker = "worker-1";
}

abbrev pub busy : Db
busy = record empty_queue { attempts = running_under 50 ∷ [] }

abbrev pub outcome_of : FetchStatus → FetchOutcome
outcome_of status = record {
  status = status;
  http_status = some 429;
  requested_url = "https://a.edu/fees";
  started_at = seconds 10;
  finished_at = some (seconds 11);
  content = none;
  content_hash = none;
  error_class = none;
  error_detail = none;
  etag = none;
  last_modified = none;
  content_type = none;
  retry_after = some (seconds 60);
}

abbrev pub no_counts : CycleReport
no_counts = record {
  attempted = 0;
  ok = 0;
  unchanged = 0;
  http_error = 0;
  blocked = 0;
  timeout = 0;
  rate_limited = 0;
  dns_temporary = 0;
  name_not_resolved = 0;
  internal_error = 0;
  lease_lost = 0;
  unrecorded = 0;
  cooldowns_set = 0;
  hosts_paused = 0;
  escalated_to_review = 0;
  snapshots = 0;
  blobs_created = 0;
  retries_scheduled = 0;
}

-- The tables after a call that returns.
abbrev pub after {ℓ κ} : {E : Type ℓ} {A : Type κ} → Result E (A × Db) → Db
after (ok (_, db)) = db
after (err _) = empty_queue

-- Its other result, or the one given.
abbrev pub result {ℓ κ} : {E : Type ℓ} {A : Type κ} → A → Result E (A × Db) → A
result a (ok (b, _)) = b
result a (err _) = a

abbrev pub is_blank : ℕ → Bool
is_blank c = nat_eq c 32

-- "site fixed"
abbrev pub reason : List ℕ
reason = 115 ∷ 105 ∷ 116 ∷ 101 ∷ 32 ∷ 102 ∷ 105 ∷ 120 ∷ 101 ∷ 100 ∷ []
