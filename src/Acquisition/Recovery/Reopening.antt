-- ===== src/Acquisition/Recovery/Reopening.antt =====
-- What the decisions of acquisition/recovery.py mean for the queue: a re-enabled source may be
-- claimed again, a disabled or parked one may not.
use data_hub_backend.Base.{
  ℕ, ◌≡◌, refl, sym, ap, ◌∙◌, subst, Bool, true, false, not, Option, none, some, List, arith,
  String,
}
use data_hub_backend.Base.Result.{ok, ok_injective, >>=-eq-ok, OnOk, OnOk-bind, guard, guard_holds}
use data_hub_backend.Acquisition.Schema.{FetchEligibility, Reason, Source, Db, Urls, is_fetchable}
use data_hub_backend.Acquisition.Lease.{source_of, source_claimable, host_paused}
use data_hub_backend.Acquisition.Runner.{at_source}
use data_hub_backend.Acquisition.Recovery.State.{
  AcquisitionRecoveryAction, Actor, SourceState, Ledger, check_reason, source_state,
  source_inactive, reenable_source, disable_source, needs_review,
}
use data_hub_backend.Acquisition.Recovery.{
  reenabled, parked, reenable, disable, mark_needs_review, append_audit,
}
use data_hub_backend.Acquisition.Recovery.Effects.{
  Decides, IsOperational, updated-Decides, source_of-at_source, source_state_of,
}

-- The source was re-enabled: it was active, and its part of the query of `claim_next` is met exactly
-- while its host is not paused.
pub record Reopens (urls : Urls) (is_space : ℕ → Bool) (now : ℕ) (actor : Actor) (id : ℕ)
    (reason : List ℕ) (before : Ledger) (state : SourceState) (after : Ledger) : Type 0 where
  pub decision : Decides urls is_space now actor reenable_source id reason false before state after
  pub hosts : after.db.host_cooldowns ≡ before.db.host_cooldowns
  pub source : Source
  pub was : source_of before.db id ≡ some source
  pub was_active : source.is_active ≡ true
  pub claimable_again :
      (t : ℕ)
      → source_claimable urls after.db t none (source_of after.db id)
        ≡ not (host_paused before.db.host_cooldowns (urls.lower (urls.authority source.url)) t)

reenabled-IsOperational : (now : ℕ) (cleaned : List ℕ) → IsOperational (reenabled now cleaned)
reenabled-IsOperational now cleaned = record {
  id = λ s. refl;
  url = λ s. refl;
  activity = λ s. refl;
  trust = λ s. refl;
}

-- The source was taken out: at any time, whatever host a worker asks for, its part of the query of
-- `claim_next` fails.
pub record Closes (urls : Urls) (is_space : ℕ → Bool) (now : ℕ) (actor : Actor)
    (action : AcquisitionRecoveryAction) (id : ℕ) (reason : List ℕ) (before : Ledger)
    (state : SourceState) (after : Ledger) : Type 0 where
  pub decision : Decides urls is_space now actor action id reason false before state after
  pub hosts : after.db.host_cooldowns ≡ before.db.host_cooldowns
  pub closed :
      (t : ℕ) (host : Option String)
      → source_claimable urls after.db t host (source_of after.db id) ≡ false

reopened :
    (urls : Urls) (now : ℕ) (cleaned : List ℕ) (t : ℕ) (s : Source) (db : Db)
    → s.is_active ≡ true
    → source_claimable urls db t none (some (reenabled now cleaned s))
      ≡ not (host_paused db.host_cooldowns (urls.lower (urls.authority s.url)) t)
reopened urls now cleaned t s db active = ground arith

module _ (urls : Urls) (is_space : ℕ → Bool) (now id : ℕ) (actor : Actor) where
  -- Re-enabling a source logs one decision with the operator's reason, tidied and cut, and the
  -- states before and after, moves nothing but that source's operational columns, with the pauses
  -- of hosts and the blobs as they were, leaves its publication eligibility, and makes the source
  -- claimable again unless its host is paused. It succeeds on active sources alone.
  pub reenable-Reopens :
      (reason : List ℕ) (ledger : Ledger) {state : SourceState} {ledger' : Ledger}
      → reenable urls is_space now id actor reason ledger ≡ ok (state, ledger')
      → Reopens urls is_space now actor id reason ledger state ledger'
  unfolding reenable
  reenable-Reopens reason ledger {state} {ledger'} e =
      let (cleaned, e0, e1) = >>=-eq-ok (check_reason is_space reason) _ e in
      let (before, e2, e3) = >>=-eq-ok (source_state urls now id ledger.db) _ e1 in
      let (u, e4, e5) = >>=-eq-ok (guard before.is_active source_inactive) _ e3 in
      let db = at_source id (reenabled now cleaned) ledger.db in
      let (after, e6, e7) = >>=-eq-ok (source_state urls now id db) _ e5 in
      let (s, was, eb) = source_state_of urls now id ledger.db e2 in
      let active : s.is_active ≡ true =
        sym (ap (λ (x : SourceState). x.is_active) eb)
        ∙ guard_holds before.is_active source_inactive e4 in
      let keep = reenabled-IsOperational now cleaned in
      let final = record ledger { db = db } in
      let done : Reopens urls is_space now actor id reason ledger after
          (append_audit actor reenable_source id before after cleaned false final) =
        record {
          decision =
              updated-Decides urls is_space now id actor reenable_source (reenabled now cleaned)
                ledger cleaned reason false db keep e0 was e2 eb e6 refl;
          hosts = refl;
          source = s;
          was = was;
          was_active = active;
          claimable_again = λ t.
              ap (source_claimable urls db t none)
                (source_of-at_source id (reenabled now cleaned) ledger.db keep.id was)
              ∙ reopened urls now cleaned t s db active;
        } in
      subst (λ (p : SourceState × Ledger). Reopens urls is_space now actor id reason ledger p.0 p.1)
        (ok_injective e7) done

  -- The UPDATE to an eligibility that is not FETCHABLE, and its audit row.
  parked-Closes :
      (action : AcquisitionRecoveryAction) (target : FetchEligibility) (r : List ℕ → Reason)
      (cleaned reason : List ℕ) (ledger : Ledger) {before after : SourceState}
      → is_fetchable target ≡ false
      → check_reason is_space reason ≡ ok cleaned
      → source_state urls now id ledger.db ≡ ok before
      → source_state urls now id (at_source id (parked now target (r cleaned)) ledger.db) ≡ ok after
      → Closes urls is_space now actor action id reason ledger after (
          append_audit actor action id before after cleaned false
            (record ledger { db = at_source id (parked now target (r cleaned)) ledger.db }))
  parked-Closes action target r cleaned reason ledger shut e0 e1 e2 =
      let f = parked now target (r cleaned) in
      let keep : IsOperational f = record {
        id = λ s. refl;
        url = λ s. refl;
        activity = λ s. refl;
        trust = λ s. refl;
      } in
      let (s, was, eb) = source_state_of urls now id ledger.db e1 in
      let db = at_source id f ledger.db in
      record {
        decision =
            updated-Decides urls is_space now id actor action f ledger cleaned reason false db keep
              e0 was e1 eb e2 refl;
        hosts = refl;
        closed = λ t host.
            ap (source_claimable urls db t host) (source_of-at_source id f ledger.db keep.id was)
            ∙ not_claimable t host s db;
      }
    where
      not_claimable :
          (t : ℕ) (host : Option String) (s : Source) (db : Db)
          → source_claimable urls db t host (some (parked now target (r cleaned) s)) ≡ false
      not_claimable t host s db = ground arith

  -- Disabling a source and flagging it for review log one decision with the operator's reason,
  -- tidied and cut, and the states before and after, move nothing but that source's operational
  -- columns, with the pauses of hosts and the blobs as they were, leave its publication
  -- eligibility, and keep `claim_next` from it at any time.
  pub disable-Closes :
      (reason : List ℕ) (ledger : Ledger)
      → OnOk
          (λ (r : SourceState × Ledger).
            Closes urls is_space now actor disable_source id reason ledger r.0 r.1)
          (disable urls is_space now id actor reason ledger)
        × OnOk
            (λ (r : SourceState × Ledger).
              Closes urls is_space now actor needs_review id reason ledger r.0 r.1)
            (mark_needs_review urls is_space now id actor reason ledger)
  unfolding disable mark_needs_review
  disable-Closes reason ledger = (
    OnOk-bind _ (check_reason is_space reason) _ λ cleaned e0.
        OnOk-bind _ (source_state urls now id ledger.db) _ λ before e1.
          OnOk-bind _ (source_state urls now id _) _ λ after e2.
            parked-Closes disable_source FetchEligibility.disabled Reason.disabled_by_operator
              cleaned reason ledger refl e0 e1 e2,
    OnOk-bind _ (check_reason is_space reason) _ λ cleaned e0.
        OnOk-bind _ (source_state urls now id ledger.db) _ λ before e1.
          OnOk-bind _ (source_state urls now id _) _ λ after e2.
            parked-Closes needs_review FetchEligibility.needs_manual_review
              Reason.flagged_by_operator cleaned reason ledger refl e0 e1 e2,
  )
