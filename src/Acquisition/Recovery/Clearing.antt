-- ===== src/Acquisition/Recovery/Clearing.antt =====
-- `clear_cooldown` of acquisition/recovery.py: what a cooldown that is cut short leaves in place.
use data_hub_backend.Base.{
  ℕ, ◌≤◌, ◌≡◌, refl, sym, ap, ◌∙◌, subst, Bool, true, false, not, Option, none, some, List, [], ◌∷◌,
  arith, String, length, take, ltb, if◌then◌else◌, ◌==◌, String_eq, select,
}
use data_hub_backend.Base.Result.{ok, ok_injective, >>=-eq-ok, >>=-returns, guard, guard_holds}
use data_hub_backend.Acquisition.Schema.{Source, HostCooldown, Db, Urls}
use data_hub_backend.Acquisition.Health.{
  ScheduleState, is_cooldown, schedule_state, pending, cooldown_of,
}
use data_hub_backend.Acquisition.Lease.{source_of}
use data_hub_backend.Acquisition.Runner.{at_source}
use data_hub_backend.Acquisition.Recovery.State.{
  Actor, SourceState, Ledger, check_reason, source_state, tidied, state_or_refusal, source_inactive,
  not_in_cooldown, min_reason_length, clear_cooldown_of,
}
use data_hub_backend.Acquisition.Recovery.{
  unpaused, forget_host, clear_cooldown, reenable, reenabled, append_audit,
}
use data_hub_backend.Acquisition.Recovery.Effects.{
  Decides, IsOperational, updated-Decides, source_of-at_source, source_state_of,
}

cooldown_of-forget_host :
    (host : String) (rows : List HostCooldown)
    → cooldown_of (select (λ hc. not (hc.host == host)) rows) host ≡ none
cooldown_of-forget_host host [] = refl
cooldown_of-forget_host host (hc ∷ rest) = ground (arith, cooldown_of-forget_host host rest)

-- The schedule of a source in cooldown, once its own pause is gone: that of its host's pause.
schedule-unpaused :
    (urls : Urls) (now : ℕ) (db db' : Db) (s : Source)
    → is_cooldown (schedule_state urls db now s) ≡ true
    → schedule_state urls db' now (unpaused s) ≡ (
        if pending (cooldown_of db'.host_cooldowns (urls.health_host s.url)) now
        then ScheduleState.cooldown
        else ScheduleState.fetchable_now)
unfolding schedule_state
schedule-unpaused urls now db db' s h = ground arith

some_injective : {a b : Source} → ◌≡◌ {A = Option Source} (some a) (some b) → a ≡ b
some_injective e = cc

abbrev after_pause : Bool → ScheduleState
after_pause paused = if paused then ScheduleState.cooldown else ScheduleState.fetchable_now

-- A cooldown was cut short: the source was in one, and it is now in the state that the pause of its
-- host gives. Of the pauses of hosts, only that of the URL's authority is gone, and only where asked.
pub record Clears (urls : Urls) (is_space : ℕ → Bool) (now id : ℕ) (actor : Actor) (reason : List ℕ)
    (include_host : Bool) (before : Ledger) (state : SourceState) (after : Ledger) : Type 0 where
  pub decision :
      Decides urls is_space now actor clear_cooldown_of id reason include_host before state after
  pub source : Source
  pub was : source_of before.db id ≡ some source
  pub was_paused : is_cooldown (schedule_state urls before.db now source) ≡ true
  pub by_host :
      state.schedule_state
      ≡ after_pause
          (pending (cooldown_of after.db.host_cooldowns (urls.health_host source.url)) now)
  pub hosts : after.db.host_cooldowns ≡ (
      if include_host
      then (forget_host (urls.lower (urls.authority source.url)) before.db).host_cooldowns
      else before.db.host_cooldowns)

module _ (urls : Urls) (is_space : ℕ → Bool) (now id : ℕ) (actor : Actor) where
  abbrev cleared : Bool → String → Db → Db
  cleared include_host host db =
      if include_host then forget_host host (at_source id unpaused db) else at_source id unpaused db

  unpaused-IsOperational : IsOperational unpaused
  unpaused-IsOperational = record {
    id = λ s. refl;
    url = λ s. refl;
    activity = λ s. refl;
    trust = λ s. refl;
  }

  cleared_same :
      (include_host : Bool) (host : String) (db : Db)
      → cleared include_host host db ≡ record db {
        sources = (at_source id unpaused db).sources;
        host_cooldowns = (cleared include_host host db).host_cooldowns;
      }
  cleared_same true host db = refl
  cleared_same false host db = refl

  cleared_hosts :
      (include_host : Bool) (host : String) (db : Db)
      → (cleared include_host host db).host_cooldowns
        ≡ (if include_host then (forget_host host db).host_cooldowns else db.host_cooldowns)
  cleared_hosts true host db = refl
  cleared_hosts false host db = refl

  -- `clear_cooldown` succeeds only on a source that is in a cooldown, logs one decision with the
  -- operator's reason, tidied and cut, and the states before and after, and leaves the source in the
  -- state that its host's pause gives. No pause of a host is gone but that of the URL's authority,
  -- and that only where it is asked for.
  pub clear_cooldown-Clears :
      (reason : List ℕ) (include_host : Bool) (ledger : Ledger) {state : SourceState}
      {ledger' : Ledger}
      → clear_cooldown urls is_space now id actor reason include_host ledger ≡ ok (state, ledger')
      → Clears urls is_space now id actor reason include_host ledger state ledger'
  unfolding clear_cooldown
  clear_cooldown-Clears reason include_host ledger {state} {ledger'} e =
      let (cleaned, e0, e1) = >>=-eq-ok (check_reason is_space reason) _ e in
      let (before, e2, e3) = >>=-eq-ok (source_state urls now id ledger.db) _ e1 in
      let (u, e4, e5) =
        >>=-eq-ok (guard (is_cooldown before.schedule_state) not_in_cooldown) _ e3 in
      let db = cleared include_host before.host ledger.db in
      let (after, e6, e7) = >>=-eq-ok (source_state urls now id db) _ e5 in
      let (s, was, eb) = source_state_of urls now id ledger.db e2 in
      let (t, found, ea) = source_state_of urls now id db e6 in
      let same = cleared_same include_host before.host ledger.db in
      let it : t ≡ unpaused s = some_injective (
        sym found
        ∙ ap (λ (d : Db). source_of d id) same
        ∙ source_of-at_source id unpaused ledger.db (λ x. refl) was) in
      let paused : is_cooldown (schedule_state urls ledger.db now s) ≡ true =
        sym (ap (λ (x : SourceState). is_cooldown x.schedule_state) eb)
        ∙ guard_holds (is_cooldown before.schedule_state) not_in_cooldown e4 in
      let schedule : after.schedule_state
          ≡ after_pause (pending (cooldown_of db.host_cooldowns (urls.health_host s.url)) now) =
        ap (λ (x : SourceState). x.schedule_state) ea
        ∙ ap (schedule_state urls db now) it
        ∙ schedule-unpaused urls now ledger.db db s paused in
      let done : Clears urls is_space now id actor reason include_host ledger after (
          append_audit actor clear_cooldown_of id before after cleaned include_host
            (record ledger { db = db })) =
        record {
          decision =
              updated-Decides urls is_space now id actor clear_cooldown_of unpaused ledger cleaned
                reason include_host db unpaused-IsOperational e0 was e2 eb e6 same;
          source = s;
          was = was;
          was_paused = paused;
          by_host = schedule;
          hosts =
              cleared_hosts include_host before.host ledger.db
              ∙ ap
                  (λ h.
                    if include_host
                    then (forget_host h ledger.db).host_cooldowns
                    else ledger.db.host_cooldowns)
                  (ap (λ (x : SourceState). x.host) eb);
        } in
      subst
        (λ (p : SourceState × Ledger).
          Clears urls is_space now id actor reason include_host ledger p.0 p.1)
        (ok_injective e7) done

  -- With the host's pause included, and where the view and the query cut the same host out of the
  -- source's URL, the source may be fetched now.
  pub clear_cooldown-fetchable_now :
      (reason : List ℕ) (ledger : Ledger) (s : Source) {state : SourceState} {ledger' : Ledger}
      → source_of ledger.db id ≡ some s
      → urls.health_host s.url ≡ urls.lower (urls.authority s.url)
      → clear_cooldown urls is_space now id actor reason true ledger ≡ ok (state, ledger')
      → state.schedule_state ≡ ScheduleState.fetchable_now
  clear_cooldown-fetchable_now reason ledger s {state} {ledger'} was one e =
      let c = clear_cooldown-Clears reason true ledger e in
      let it : c.source ≡ s = some_injective (sym c.was ∙ was) in
      let host : urls.health_host c.source.url ≡ urls.lower (urls.authority c.source.url) =
        ap (λ (x : Source). urls.health_host x.url) it
        ∙ one
        ∙ sym (ap (λ (x : Source). urls.lower (urls.authority x.url)) it) in
      let gone : cooldown_of ledger'.db.host_cooldowns (urls.health_host c.source.url) ≡ none =
        ap (cooldown_of ledger'.db.host_cooldowns) host
        ∙ ap (λ h. cooldown_of h (urls.lower (urls.authority c.source.url))) c.hosts
        ∙ cooldown_of-forget_host (urls.lower (urls.authority c.source.url))
            ledger.db.host_cooldowns in
      c.by_host ∙ ap (λ x. after_pause (pending x now)) gone

  -- An active source is re-enabled by any reason of eight characters or more, once tidied.
  pub reenable_succeeds :
      (reason : List ℕ) (ledger : Ledger) (s : Source)
      → min_reason_length ≤ length (tidied is_space reason)
      → source_of ledger.db id ≡ some s
      → s.is_active ≡ true
      → (result : SourceState × Ledger) × (reenable urls is_space now id actor reason ledger
          ≡ ok result)
  unfolding reenable check_reason source_state
  reenable_succeeds reason ledger s long was active =
      let cleaned = take 400 (tidied is_space reason) in
      let now_is = source_of-at_source id (reenabled now cleaned) ledger.db (λ t. refl) was in
      >>=-returns (check_reason is_space reason) _
        (rw (ltb_true (length (tidied is_space reason)) min_reason_length long) refl)
        (>>=-returns (source_state urls now id ledger.db) _
          (ap (state_or_refusal urls now ledger.db) was)
          (>>=-returns (guard s.is_active source_inactive) _ (rw active refl) (
            >>=-returns (source_state urls now id (at_source id (reenabled now cleaned) ledger.db))
              _
              (ap (state_or_refusal urls now (at_source id (reenabled now cleaned) ledger.db))
                now_is)
              (_, refl))))
    where
      ltb_true : (a b : ℕ) → b ≤ a → ltb a b ≡ false
      ltb_true a b h = ground arith
