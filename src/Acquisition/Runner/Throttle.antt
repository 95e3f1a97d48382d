-- ===== src/Acquisition/Runner/Throttle.antt =====
-- A 429, as `_react` of acquisition/runner.py honours it and `claim_next` sees it.
use data_hub_backend.Base.{
  ℕ, ◌+◌, ◌<◌, ◌≡◌, refl, sym, ap, ◌∙◌, String, true, false, Option, none, some, arith, leb,
  Bool-cases, inl, inr, ◌==◌, ℕ_eq,
}
use data_hub_backend.Base.Counts.{find-update}
use data_hub_backend.Base.Result.{ok, OnOk, OnOk-bind, OnOk_value}
use data_hub_backend.Acquisition.Schema.{
  FetchStatus, FetchEligibility, Reason, Source, Db, Urls, due, is_fetchable,
}
use data_hub_backend.Acquisition.Lease.{
  Lease, Moment, source_of, source_claimable, host_paused, max_attempts_per_cycle,
}
use data_hub_backend.Acquisition.Sweep.{schedule_retry, highest_attempt}
use data_hub_backend.Acquisition.Recorder.{FetchOutcome}
use data_hub_backend.Acquisition.Runner.{
  CycleReport, at_source, struck, cooled, judged, set_cooldown, pause_host,
  set_eligibility_if_unjudged, default_rate_limit_cooldown, rate_limit_strike_limit,
}
use data_hub_backend.Acquisition.Runner.Pauses.{pause_row, host_paused-pause_rows}
use data_hub_backend.Acquisition.Runner.React.{
  react, react_to, react_rate_limited, settle_429, cool_and_pause, retry, escalate, strikes_of,
  or_delay, non_zero,
}

-- The source is in a cooldown until then, and so is the host.
record Waits (id : ℕ) (host : String) (until : ℕ) (db : Db) : Type 0 where
  source : Source
  its_source : source_of db id ≡ some source
  cooling : source.cooldown_until ≡ some until
  paused : (t : ℕ) → t < until → host_paused db.host_cooldowns host t ≡ true

-- A change of that source that leaves its cooldown alone.
Waits-at_source :
    (id : ℕ) (host : String) (until : ℕ) (f : Source → Source) (db : Db)
    → ((s : Source) → (f s).id ≡ s.id)
    → ((s : Source) → (f s).cooldown_until ≡ s.cooldown_until)
    → Waits id host until db
    → Waits id host until (at_source id f db)
Waits-at_source id host until f db ids cools w = record {
  source = f w.source;
  its_source =
      find-update (λ s. s.id == id) f (λ s. ap (λ n. n == id) (ids s)) db.sources w.its_source;
  cooling = cools w.source ∙ w.cooling;
  paused = w.paused;
}

judged_id :
    (now : ℕ) (state : FetchEligibility) (reason : Reason) (s : Source)
    → (judged now state reason none s).id ≡ s.id
judged_id now state reason s = elim (Bool-cases (is_fetchable s.fetch_eligibility)) [
  | inl e ↦ rw e refl
  | inr e ↦ rw e refl
]

judged_cooldown :
    (now : ℕ) (state : FetchEligibility) (reason : Reason) (s : Source)
    → (judged now state reason none s).cooldown_until ≡ s.cooldown_until
judged_cooldown now state reason s = elim (Bool-cases (is_fetchable s.fetch_eligibility)) [
  | inl e ↦ rw e refl
  | inr e ↦ rw e refl
]

module _ (m : Moment) (lease : Lease) (host : String) (until : ℕ) where
  abbrev Settled : CycleReport × Db → Type 0
  Settled (report, db) = Waits lease.source_id host until db

  retry-Waits :
      (delay : ℕ) (report : CycleReport) (db : Db)
      → Waits lease.source_id host until db
      → Settled (retry m lease delay (report, db))
  unfolding retry schedule_retry
  retry-Waits delay report db w =
      elim (Bool-cases (
        leb max_attempts_per_cycle (highest_attempt lease.source_id lease.cycle_key db.attempts))) [
          | inl e ↦ rw e w
          | inr e ↦ rw e (record {
            source = w.source;
            its_source = w.its_source;
            cooling = w.cooling;
            paused = w.paused;
          })
        ]

  settle_429-Waits :
      (delay strikes : ℕ) (report : CycleReport) (db : Db)
      → Waits lease.source_id host until db
      → Settled (settle_429 m lease delay strikes (report, db))
  unfolding settle_429 escalate set_eligibility_if_unjudged
  settle_429-Waits delay strikes report db w =
      elim (Bool-cases (leb rate_limit_strike_limit strikes)) [
        | inr e ↦ rw e (retry-Waits delay report db w)
        | inl e ↦ rw e (
            Waits-at_source lease.source_id host until
              (judged m.now FetchEligibility.needs_manual_review (Reason.rate_limited_times strikes)
                none)
              db
              (judged_id m.now FetchEligibility.needs_manual_review
                (Reason.rate_limited_times strikes))
              (judged_cooldown m.now FetchEligibility.needs_manual_review
                (Reason.rate_limited_times strikes))
              w)
      ]

-- How long a 429 asks to wait: its Retry-After, or 900 seconds if it names none or zero.
abbrev pub wait_of : FetchOutcome → ℕ
wait_of o = or_delay (non_zero o.retry_after) default_rate_limit_cooldown

cool_and_pause-Waits :
    (urls : Urls) (m : Moment) (lease : Lease) (o : FetchOutcome) (db : Db) {s : Source}
    → source_of db lease.source_id ≡ some s
    → Waits lease.source_id
        (urls.hostname lease.url)
        (m.now + wait_of o)
        (cool_and_pause urls m lease o (wait_of o) (at_source lease.source_id struck db))
unfolding cool_and_pause set_cooldown pause_host
cool_and_pause-Waits urls m lease o db {s} found = record {
  source = cooled m.now (wait_of o) (Reason.http_429 (non_zero o.retry_after)) (struck s);
  its_source =
      find-update (λ x. x.id == lease.source_id)
        (cooled m.now (wait_of o) (Reason.http_429 (non_zero o.retry_after))) (λ x. refl)
        (at_source lease.source_id struck db).sources
        (find-update (λ x. x.id == lease.source_id) struck (λ x. refl) db.sources found);
  cooling = refl;
  paused = λ t h.
      host_paused-pause_rows
        (pause_row m.now (wait_of o) lease.source_id (urls.hostname lease.url)
          (Reason.http_429_on lease.url))
        db.host_cooldowns t h;
}

not_due :
    (urls : Urls) (db : Db) (t : ℕ) (wanted : Option String) (s : Source) (until : ℕ)
    → s.cooldown_until ≡ some until
    → t < until
    → source_claimable urls db t wanted (some s) ≡ false
not_due urls db t wanted s until e h = ground (arith, ap (λ c. due c t) e)

-- After the reaction to a 429, and until the time that it asked for is over, the source's part of
-- the query of `claim_next` fails, whatever host a worker asks for, and the host of its URL is
-- paused. This holds at every strike, whether or not the source goes to a person.
pub react-source_claimable :
    (urls : Urls) (m : Moment) (lease : Lease) (o : FetchOutcome) (report : CycleReport) (db : Db)
    (s : Source) (t : ℕ) (wanted : Option String) {report' : CycleReport} {db' : Db}
    → o.status ≡ FetchStatus.rate_limited
    → source_of db lease.source_id ≡ some s
    → react urls m lease o report db ≡ ok (report', db')
    → t < m.now + wait_of o
    → (source_claimable urls db' t wanted (source_of db' lease.source_id) ≡ false)
      × (host_paused db'.host_cooldowns (urls.hostname lease.url) t ≡ true)
unfolding react react_rate_limited
react-source_claimable urls m lease o report db s t wanted {report'} {db'} is_429 found e soon =
    let until = m.now + wait_of o in
    let host = urls.hostname lease.url in
    let w0 = cool_and_pause-Waits urls m lease o db found in
    let every : OnOk (Settled m lease host until) (react_rate_limited urls m lease o report db) =
      OnOk-bind (Settled m lease host until)
        (strikes_of (source_of (at_source lease.source_id struck db) lease.source_id)) _
        (λ strikes _.
          settle_429-Waits m lease host until (wait_of o) strikes
            (record report {
              cooldowns_set = report.cooldowns_set + 1;
              hosts_paused = report.hosts_paused + 1;
            })
            (cool_and_pause urls m lease o (wait_of o) (at_source lease.source_id struck db)) w0) in
    let w : Waits lease.source_id host until db' =
      OnOk_value (Settled m lease host until) (react_rate_limited urls m lease o report db) every
        (sym (ap (λ status. react_to status urls m lease o report db) is_429) ∙ e) in
    (
      ap (source_claimable urls db' t wanted) w.its_source
          ∙ not_due urls db' t wanted w.source until w.cooling soon,
      w.paused t soon,
    )
