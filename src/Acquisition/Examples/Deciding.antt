-- ===== src/Acquisition/Examples/Deciding.antt =====
-- Reactions to an outcome and an operator's decisions, on concrete data.
use data_hub_backend.Base.{
  ℕ, Bool, true, false, Option, none, some, List, [], ◌∷◌, String, ◌≡◌, ◌≤◌, refl, arith, length,
  update, find,
}
use data_hub_backend.Base.Result.{ok, OnOk}
use data_hub_backend.Acquisition.Schema.{FetchStatus, FetchEligibility, Reason, seconds, Db}
use data_hub_backend.Acquisition.Health.{ScheduleState, schedule_state}
use data_hub_backend.Acquisition.Sweep.{schedule_retry, highest_attempt}
use data_hub_backend.Acquisition.Runner.{
  pause_host, pause_rows, set_cooldown, set_eligibility_if_unjudged,
}
use data_hub_backend.Acquisition.Runner.React.{
  react, react_rate_limited, settle_429, cool_and_pause, retry, escalate,
}
use data_hub_backend.Acquisition.Runner.Queue.{OnlyQueues, react-OnlyQueues}
use data_hub_backend.Acquisition.Runner.Sources.{AllRespect}
use data_hub_backend.Acquisition.Lease.{source_of, source_claimable, host_paused}
use data_hub_backend.Acquisition.Runner.Throttle.{react-source_claimable}
use data_hub_backend.Acquisition.Runner.Respect.{react-AllRespect}
use data_hub_backend.Acquisition.Recovery.State.{
  Actor, ActorType, SourceState, Ledger, check_reason, source_state, state_of, leading_word,
  disable_source, needs_review,
}
use data_hub_backend.Acquisition.Recovery.{reenable, disable, mark_needs_review, clear_cooldown}
use data_hub_backend.Acquisition.Recovery.Reopening.{
  Reopens, reenable-Reopens, Closes, disable-Closes,
}
use data_hub_backend.Acquisition.Recovery.Clearing.{
  Clears, clear_cooldown-Clears, clear_cooldown-fetchable_now, reenable_succeeds,
}
use data_hub_backend.Acquisition.Examples.{
  two_sites, empty_queue, page, busy, at_time, lease_under, outcome_of, no_counts, after, result,
  is_blank, reason,
}

abbrev throttled : Db
throttled = after (
    react two_sites (at_time 12 60) (lease_under 50) (outcome_of FetchStatus.rate_limited) no_counts
      busy)

react-OnlyQueues_example : OnlyQueues (at_time 12 60) (lease_under 50) busy throttled
unfolding react react_rate_limited settle_429 cool_and_pause retry escalate schedule_retry
    highest_attempt pause_host pause_rows set_cooldown set_eligibility_if_unjudged
react-OnlyQueues_example =
    react-OnlyQueues (at_time 12 60) (lease_under 50) two_sites
      (outcome_of FetchStatus.rate_limited) no_counts busy refl

react-AllRespect_example : AllRespect FetchStatus.rate_limited busy throttled
unfolding react react_rate_limited settle_429 cool_and_pause retry escalate schedule_retry
    highest_attempt pause_host pause_rows set_cooldown set_eligibility_if_unjudged
react-AllRespect_example =
    react-AllRespect (at_time 12 60) (lease_under 50) two_sites
      (outcome_of FetchStatus.rate_limited) no_counts busy refl

abbrev operator : Actor
operator = record { user_id = 4; actor_type = ActorType.user }

abbrev ledger : Ledger
ledger = record { db = empty_queue; audit_log = [] }

abbrev nothing : SourceState
nothing = state_of two_sites 0 empty_queue (page 9 "" FetchEligibility.disabled)

abbrev tables {ℓ} :
    {E : Type ℓ}
    → data_hub_backend.Base.Result.Result E (SourceState × Ledger)
    → SourceState × Ledger
tables (ok r) = r
tables (data_hub_backend.Base.Result.err _) = (nothing, ledger)

reenable-Reopens_example :
    Reopens two_sites is_blank
      (seconds 20)
      operator
      3
      reason
      ledger
      (tables (reenable two_sites is_blank (seconds 20) 3 operator reason ledger)).0
      (tables (reenable two_sites is_blank (seconds 20) 3 operator reason ledger)).1
unfolding reenable check_reason source_state leading_word schedule_state
reenable-Reopens_example =
    reenable-Reopens two_sites is_blank (seconds 20) 3 operator reason ledger refl

disable-Closes_example :
    OnOk
      (λ (r : SourceState × Ledger).
        Closes two_sites is_blank (seconds 20) operator disable_source 3 reason ledger r.0 r.1)
      (disable two_sites is_blank (seconds 20) 3 operator reason ledger)
    × OnOk
        (λ (r : SourceState × Ledger).
          Closes two_sites is_blank (seconds 20) operator needs_review 3 reason ledger r.0 r.1)
        (mark_needs_review two_sites is_blank (seconds 20) 3 operator reason ledger)
disable-Closes_example = disable-Closes two_sites is_blank (seconds 20) 3 operator reason ledger

-- The ledger with the host of page 1 paused.
abbrev quiet : Ledger
quiet = record ledger {
  db = record empty_queue {
    host_cooldowns =
        (record {
          host = "a.edu";
          cooldown_until = seconds 90;
          reason = Reason.http_429_on "https://a.edu/fees";
          set_at = seconds 5;
          triggered_by_source_id = 1;
        })
        ∷ [];
  };
}

abbrev cut_short : Bool → SourceState × Ledger
cut_short host_too =
    tables (clear_cooldown two_sites is_blank (seconds 20) 1 operator reason host_too quiet)

clear_cooldown-Clears_example :
    Clears two_sites is_blank
      (seconds 20)
      1
      operator
      reason
      false
      quiet
      (cut_short false).0
      (cut_short false).1
unfolding clear_cooldown check_reason source_state leading_word schedule_state
clear_cooldown-Clears_example =
    clear_cooldown-Clears two_sites is_blank (seconds 20) 1 operator reason false quiet refl

clear_cooldown-fetchable_now_example :
    (cut_short true).0.schedule_state ≡ ScheduleState.fetchable_now
unfolding clear_cooldown check_reason source_state leading_word schedule_state
clear_cooldown-fetchable_now_example =
    clear_cooldown-fetchable_now two_sites is_blank (seconds 20) 1 operator reason quiet
      (page 1 "https://a.edu/fees" FetchEligibility.fetchable) {ledger' = (cut_short true).1} refl
      refl refl

-- Without the host's pause, the same source stays in cooldown.
still_paused : (cut_short false).0.schedule_state ≡ ScheduleState.cooldown
unfolding clear_cooldown check_reason source_state leading_word schedule_state
still_paused = refl

reenable_succeeds_example :
    (r : SourceState × Ledger) × (reenable two_sites is_blank (seconds 20) 3 operator reason ledger
      ≡ ok r)
unfolding leading_word
reenable_succeeds_example =
    reenable_succeeds two_sites is_blank (seconds 20) 3 operator reason ledger
      (page 3 "https://b.edu/old" FetchEligibility.blocked) (omega arith) refl refl

react-source_claimable_example :
    (source_claimable two_sites throttled (seconds 70) none (source_of throttled 1) ≡ false)
    × (host_paused throttled.host_cooldowns "a.edu" (seconds 70) ≡ true)
unfolding react react_rate_limited settle_429 cool_and_pause retry escalate schedule_retry
    highest_attempt pause_host pause_rows set_cooldown set_eligibility_if_unjudged
react-source_claimable_example =
    react-source_claimable two_sites (at_time 12 60) (lease_under 50)
      (outcome_of FetchStatus.rate_limited) no_counts busy
      (page 1 "https://a.edu/fees" FetchEligibility.fetchable) (seconds 70) none
      {report' = result no_counts (
        react two_sites (at_time 12 60) (lease_under 50) (outcome_of FetchStatus.rate_limited)
          no_counts busy)}
      {db' = throttled} refl refl refl (omega arith)
