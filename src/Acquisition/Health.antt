-- ===== src/Acquisition/Health.antt =====
-- `schedule_state` of the view `source_health` (alembic revision 0025, acquisition recovery): what a
-- scheduler may do with a source right now.
use data_hub_backend.Base.{
  ℕ, String, Bool, true, false, not, Option, none, some, List, [], ◌∷◌, ltb, ◌==◌, String_eq,
  if◌then◌else◌,
}
use data_hub_backend.Acquisition.Schema.{
  FetchEligibility, Source, HostCooldown, Db, Urls, is_access_ok,
}

pub data ScheduleState : Type 0 where
  disabled needs_manual_review blocked cooldown fetchable_now : ScheduleState

abbrev pub is_cooldown : ScheduleState → Bool
is_cooldown ScheduleState.cooldown = true
is_cooldown _ = false

-- `moment IS NOT NULL AND moment > now()`
abbrev pub pending : Option ℕ → ℕ → Bool
pending none now = false
pending (some moment) now = ltb now moment

-- The joined row of `host_cooldown`: the host is its primary key.
abbrev pub cooldown_of : List HostCooldown → String → Option ℕ
cooldown_of [] host = none
cooldown_of (hc ∷ rest) host =
    if hc.host == host then some hc.cooldown_until else cooldown_of rest host

-- The tests of the view that come after the eligibility.
abbrev pub open_state : Urls → Db → ℕ → Source → ScheduleState
open_state urls db now s =
    if not (is_access_ok s.access_state)
    then ScheduleState.blocked
    else if pending s.cooldown_until now
    then ScheduleState.cooldown
    else if pending (cooldown_of db.host_cooldowns (urls.health_host s.url)) now
    then ScheduleState.cooldown
    else ScheduleState.fetchable_now

abbrev pub eligibility_state : FetchEligibility → ScheduleState → ScheduleState
eligibility_state FetchEligibility.disabled later = ScheduleState.disabled
eligibility_state FetchEligibility.needs_manual_review later = ScheduleState.needs_manual_review
eligibility_state FetchEligibility.blocked later = ScheduleState.blocked
eligibility_state FetchEligibility.fetchable later = later

unfoldable pub schedule_state : Urls → Db → ℕ → Source → ScheduleState
schedule_state urls db now s =
    if not s.is_active
    then ScheduleState.disabled
    else eligibility_state s.fetch_eligibility (open_state urls db now s)
