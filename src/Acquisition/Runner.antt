-- ===== src/Acquisition/Runner.antt =====
-- acquisition/runner.py: what one outcome does to the queue, to its source and to its host. Delays
-- are microseconds; an update of one row is an update where its key fits.
pub mod React
pub mod Queue
pub mod Sources
pub mod Respect
pub mod Pauses
pub mod Throttle
pub mod Attempt
pub mod Cycle
pub mod Gate
use data_hub_backend.Base.{
  ℕ, zero, suc, ◌+◌, ◌≤◌, min, max, String, Bool, true, false, not, ◌&&◌, ◌||◌, Option, none, some,
  List, [], ◌∷◌, ltb, leb, nat_eq, ◌==◌, ℕ_eq, String_eq, is_none, if◌then◌else◌, find, update,
}
use data_hub_backend.Acquisition.Schema
use data_hub_backend.Acquisition.Schema.{
  seconds, FetchStatus, FetchEligibility, SourceAccessState, is_fetchable, Reason, Source,
  HostCooldown, Db, Urls,
}
use data_hub_backend.Acquisition.Lease.{Lease, Moment, max_attempts_per_cycle}
use data_hub_backend.Acquisition.Sweep.{schedule_retry, backoff}
use data_hub_backend.Acquisition.Recorder.{FetchOutcome}

abbrev pub default_rate_limit_cooldown : ℕ
default_rate_limit_cooldown = seconds 900

abbrev pub default_dns_cooldown : ℕ
default_dns_cooldown = seconds 300

abbrev pub rate_limit_strike_limit : ℕ
rate_limit_strike_limit = 4

-- `PERMANENT_STATUSES`: 404 and 410.
abbrev pub is_permanent : Option ℕ → Bool
is_permanent none = false
is_permanent (some status) = nat_eq status 404 || nat_eq status 410

pub record CycleReport : Type 0 where
  pub attempted : ℕ
  pub ok : ℕ
  pub unchanged : ℕ
  pub http_error : ℕ
  pub blocked : ℕ
  pub timeout : ℕ
  pub rate_limited : ℕ
  pub dns_temporary : ℕ
  pub name_not_resolved : ℕ
  pub internal_error : ℕ
  pub lease_lost : ℕ
  pub unrecorded : ℕ
  pub cooldowns_set : ℕ
  pub hosts_paused : ℕ
  pub escalated_to_review : ℕ
  pub snapshots : ℕ
  pub blobs_created : ℕ
  pub retries_scheduled : ℕ

-- `_tally`
unfoldable pub tally : FetchStatus → CycleReport → CycleReport
tally FetchStatus.ok r = record r { ok = r.ok + 1 }
tally FetchStatus.unchanged r = record r { unchanged = r.unchanged + 1 }
tally FetchStatus.blocked r = record r { blocked = r.blocked + 1 }
tally FetchStatus.timeout r = record r { timeout = r.timeout + 1 }
tally FetchStatus.rate_limited r = record r { rate_limited = r.rate_limited + 1 }
tally FetchStatus.dns_temporary r = record r { dns_temporary = r.dns_temporary + 1 }
tally FetchStatus.name_not_resolved r = record r { name_not_resolved = r.name_not_resolved + 1 }
tally FetchStatus.internal_error r = record r { internal_error = r.internal_error + 1 }
tally _ r = record r { http_error = r.http_error + 1 }

abbrev pub at_source : ℕ → (Source → Source) → Db → Db
at_source id f db = record db { sources = update (λ s. s.id == id) f db.sources }

-- The SET clauses.
abbrev pub cooled : ℕ → ℕ → Reason → Source → Source
cooled now delay reason s = record s {
  cooldown_until = some (now + delay);
  cooldown_reason = some reason;
  cooldown_set_at = some now;
}

abbrev pub struck : Source → Source
struck s = record s { rate_limit_strikes = s.rate_limit_strikes + 1 }

-- `_set_cooldown`
unfoldable pub set_cooldown : ℕ → ℕ → ℕ → Reason → Db → Db
set_cooldown now source_id delay reason db = at_source source_id (cooled now delay reason) db

abbrev pub uncooled : Source → Source
uncooled s =
    if not (is_none s.cooldown_until) || not (nat_eq s.rate_limit_strikes 0)
    then record s {
      cooldown_until = none;
      cooldown_reason = none;
      cooldown_set_at = none;
      rate_limit_strikes = 0;
    }
    else s

-- `_clear_cooldown`
unfoldable pub clear_cooldown : ℕ → Db → Db
clear_cooldown source_id db = at_source source_id uncooled db

abbrev pub or_access : Option SourceAccessState → SourceAccessState → SourceAccessState
or_access none state = state
or_access (some access) state = access

abbrev pub judged : ℕ → FetchEligibility → Reason → Option SourceAccessState → Source → Source
judged now state reason access s =
    if is_fetchable s.fetch_eligibility
    then record s {
      fetch_eligibility = state;
      fetch_eligibility_reason = some reason;
      fetch_eligibility_set_at = some now;
      access_state = or_access access s.access_state;
    }
    else s

-- Some row of this source is FETCHABLE: the row count of `_set_eligibility_if_unjudged`.
abbrev pub is_unjudged : ℕ → List Source → Bool
is_unjudged id [] = false
is_unjudged id (s ∷ rest) = (s.id == id && is_fetchable s.fetch_eligibility) || is_unjudged id rest

-- `_set_eligibility_if_unjudged`
unfoldable pub set_eligibility_if_unjudged :
    ℕ → ℕ → FetchEligibility → Reason → Option SourceAccessState → Db → Bool × Db
set_eligibility_if_unjudged now source_id state reason access db =
    (is_unjudged source_id db.sources, at_source source_id (judged now state reason access) db)

-- `_pause_host`: an existing pause only ever extends.
unfoldable pub pause_rows : HostCooldown → List HostCooldown → List HostCooldown
pause_rows new [] = new ∷ []
pause_rows new (hc ∷ rest) =
    if hc.host == new.host
    then record new { cooldown_until = max hc.cooldown_until new.cooldown_until } ∷ rest
    else hc ∷ pause_rows new rest

unfoldable pub pause_host : ℕ → String → ℕ → Reason → ℕ → Db → Db
unfolding pause_rows
pause_host now host delay reason source_id db =
    let new : HostCooldown = record {
      host = host;
      cooldown_until = now + delay;
      reason = reason;
      set_at = now;
      triggered_by_source_id = source_id;
    } in
    record db { host_cooldowns = pause_rows new db.host_cooldowns }
