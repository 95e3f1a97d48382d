-- ===== src/Acquisition/Runner/Sources.antt =====
-- What `_react` of acquisition/runner.py does to the sources: only the operational columns move,
-- and a judgement that was made stays.
use data_hub_backend.Base.{
  ℕ, ◌+◌, ◌≡◌, refl, sym, ap, subst, ◌∙◌, Bool, true, false, not, ◌||◌, is_none, Option, none, some,
  List, arith, Bool-cases, inl, inr, ◌⊎◌, leb, ◌==◌, ℕ_eq, nat_eq,
}
use data_hub_backend.Base.Counts.{All2, All2-refl, All2-trans, All2-update}
use data_hub_backend.Acquisition.Schema.{
  FetchStatus, FetchEligibility, SourceAccessState, Reason, Source, Db, is_fetchable,
}
use data_hub_backend.Acquisition.Lease.{Lease, Moment, max_attempts_per_cycle}
use data_hub_backend.Acquisition.Sweep.{schedule_retry, highest_attempt}
use data_hub_backend.Acquisition.Runner.{
  CycleReport, set_cooldown, at_source, judged, or_access, uncooled, cooled,
  rate_limit_strike_limit,
}
use data_hub_backend.Acquisition.Runner.React.{settle_429, retry, escalate}

-- The columns that hold a judgement.
abbrev pub judgement : Source → FetchEligibility × Option Reason × Option ℕ × SourceAccessState
judgement s =
    (s.fetch_eligibility, s.fetch_eligibility_reason, s.fetch_eligibility_set_at, s.access_state)

abbrev pub is_refusal : FetchStatus → Bool
is_refusal FetchStatus.blocked = true
is_refusal _ = false

abbrev pub is_blocked : FetchEligibility → Bool
is_blocked FetchEligibility.blocked = true
is_blocked _ = false

-- What a source may become after an outcome of this status.
pub record Respects (status : FetchStatus) (s s' : Source) : Type 0 where
  pub same_id : s'.id ≡ s.id
  pub same_url : s'.url ≡ s.url
  pub same_activity : s'.is_active ≡ s.is_active
  pub same_trust : s'.publication_eligibility ≡ s.publication_eligibility
  pub same_judgement : (is_fetchable s.fetch_eligibility ≡ true) ⊎ (judgement s' ≡ judgement s)
  pub only_refusal_closes : (is_refusal status ≡ true) ⊎ (s'.access_state ≡ s.access_state)
  pub only_refusal_blocks :
      (is_refusal status ≡ true)
      ⊎ (is_blocked s'.fetch_eligibility ≡ is_blocked s.fetch_eligibility)

or_trans {ℓ} : {A : Type ℓ} {P : Type 0} {a b c : A} → P ⊎ (b ≡ a) → P ⊎ (c ≡ b) → P ⊎ (c ≡ a)
or_trans (inl p) q = inl p
or_trans (inr e) (inl p) = inl p
or_trans (inr e) (inr f) = inr (f ∙ e)

pub Respects-refl : (status : FetchStatus) (s : Source) → Respects status s s
Respects-refl status s = record {
  same_id = refl;
  same_url = refl;
  same_activity = refl;
  same_trust = refl;
  same_judgement = inr refl;
  only_refusal_closes = inr refl;
  only_refusal_blocks = inr refl;
}

Respects-trans :
    (status : FetchStatus) (s t u : Source)
    → Respects status s t
    → Respects status t u
    → Respects status s u
Respects-trans status s t u p q = record {
  same_id = q.same_id ∙ p.same_id;
  same_url = q.same_url ∙ p.same_url;
  same_activity = q.same_activity ∙ p.same_activity;
  same_trust = q.same_trust ∙ p.same_trust;
  same_judgement = elim p.same_judgement [
    | inl h ↦ inl h
    | inr e ↦ elim q.same_judgement [
      | inl h ↦ inl (
          sym (
            ap
              (λ (x : FetchEligibility × Option Reason × Option ℕ × SourceAccessState).
                is_fetchable x.0)
              e)
          ∙ h)
      | inr f ↦ inr (f ∙ e)
    ]
  ];
  only_refusal_closes = or_trans p.only_refusal_closes q.only_refusal_closes;
  only_refusal_blocks = or_trans p.only_refusal_blocks q.only_refusal_blocks;
}

fetchable_not_blocked : (e : FetchEligibility) → is_fetchable e ≡ true → is_blocked e ≡ false
fetchable_not_blocked FetchEligibility.fetchable h = refl
fetchable_not_blocked FetchEligibility.blocked h = absurd (ground arith)
fetchable_not_blocked FetchEligibility.disabled h = refl
fetchable_not_blocked FetchEligibility.needs_manual_review h = refl

pub Respects-judged :
    (status : FetchStatus) (now : ℕ) (state : FetchEligibility) (reason : Reason)
    (access : Option SourceAccessState) (s : Source)
    → (is_refusal status ≡ true) ⊎ ((access ≡ none) × (is_blocked state ≡ false))
    → Respects status s (judged now state reason access s)
Respects-judged status now state reason access s h =
    elim (Bool-cases (is_fetchable s.fetch_eligibility)) [
      | inr done ↦ rw done (Respects-refl status s)
      | inl unjudged ↦ rw unjudged (record {
        same_id = refl;
        same_url = refl;
        same_activity = refl;
        same_trust = refl;
        same_judgement = inl unjudged;
        only_refusal_closes = elim h [
          | inl r ↦ inl r
          | inr (n, c) ↦ inr (ap (λ a. or_access a s.access_state) n)
        ];
        only_refusal_blocks = elim h [
          | inl r ↦ inl r
          | inr (n, c) ↦ inr (c ∙ sym (fetchable_not_blocked s.fetch_eligibility unjudged))
        ];
      })
    ]

-- A change of the timing columns alone.
pub Respects-timing :
    (status : FetchStatus) (s : Source) (until : Option ℕ) (reason : Option Reason)
    (set_at : Option ℕ) (strikes : ℕ)
    → Respects status s (record s {
      cooldown_until = until;
      cooldown_reason = reason;
      cooldown_set_at = set_at;
      rate_limit_strikes = strikes;
    })
Respects-timing status s until reason set_at strikes = record {
  same_id = refl;
  same_url = refl;
  same_activity = refl;
  same_trust = refl;
  same_judgement = inr refl;
  only_refusal_closes = inr refl;
  only_refusal_blocks = inr refl;
}

pub Respects-uncooled : (status : FetchStatus) (s : Source) → Respects status s (uncooled s)
Respects-uncooled status s =
    elim (Bool-cases (not (is_none s.cooldown_until) || not (nat_eq s.rate_limit_strikes 0))) [
      | inr e ↦ rw e (Respects-refl status s)
      | inl e ↦ rw e (Respects-timing status s none none none 0)
    ]

-- Every source becomes what the status allows it to.
abbrev pub AllRespect : FetchStatus → Db → Db → Type 0
AllRespect status db db' = All2 (Respects status) db.sources db'.sources

module _ (status : FetchStatus) where
  pub at_source-AllRespect :
      (id : ℕ) (f : Source → Source) (db : Db)
      → ((s : Source) → Respects status s (f s))
      → AllRespect status db (at_source id f db)
  at_source-AllRespect id f db h =
      All2-update (Respects status) (λ s. s.id == id) f (Respects-refl status) (λ s _. h s)
        db.sources

  pub AllRespect_refl : (db : Db) → AllRespect status db db
  AllRespect_refl db = All2-refl (Respects status) (Respects-refl status) db.sources

  pub AllRespect_trans :
      (a b c : List Source)
      → All2 (Respects status) a b
      → All2 (Respects status) b c
      → All2 (Respects status) a c
  AllRespect_trans a b c p q = All2-trans (Respects status) (Respects-trans status) a b c p q

  retry_sources :
      (m : Moment) (lease : Lease) (delay : ℕ) (report : CycleReport) (db : Db)
      → (retry m lease delay (report, db)).1.sources ≡ db.sources
  unfolding retry schedule_retry
  retry_sources m lease delay report db =
      elim (Bool-cases (
        leb max_attempts_per_cycle (highest_attempt lease.source_id lease.cycle_key db.attempts))) [
          | inl e ↦ rw e refl
          | inr e ↦ rw e refl
        ]

  pub retry-AllRespect :
      (m : Moment) (lease : Lease) (delay : ℕ) (report : CycleReport) (db : Db)
      → AllRespect status db (retry m lease delay (report, db)).1
  retry-AllRespect m lease delay report db =
      subst (All2 (Respects status) db.sources) (sym (retry_sources m lease delay report db))
        (AllRespect_refl db)

  pub escalate-AllRespect :
      (m : Moment) (lease : Lease) (reason : Reason) (report : CycleReport) (db : Db)
      → AllRespect status db (escalate m.now lease.source_id reason (report, db)).1
  unfolding escalate
  escalate-AllRespect m lease reason report db =
      at_source-AllRespect lease.source_id
        (judged m.now FetchEligibility.needs_manual_review reason none) db
        (λ s.
          Respects-judged status m.now FetchEligibility.needs_manual_review reason none s
            (inr (refl, refl)))

  pub settle_429-AllRespect :
      (m : Moment) (lease : Lease) (delay strikes : ℕ) (report : CycleReport) (db : Db)
      → AllRespect status db (settle_429 m lease delay strikes (report, db)).1
  unfolding settle_429
  settle_429-AllRespect m lease delay strikes report db =
      elim (Bool-cases (leb rate_limit_strike_limit strikes)) [
        | inl e ↦ rw e (escalate-AllRespect m lease (Reason.rate_limited_times strikes) report db)
        | inr e ↦ rw e (retry-AllRespect m lease delay report db)
      ]

  pub set_cooldown-AllRespect :
      (now source_id delay : ℕ) (reason : Reason) (db : Db)
      → AllRespect status db (set_cooldown now source_id delay reason db)
  unfolding set_cooldown
  set_cooldown-AllRespect now source_id delay reason db =
      at_source-AllRespect source_id (cooled now delay reason) db (λ s.
        Respects-timing status s (some (now + delay)) (some reason) (some now) s.rate_limit_strikes)
