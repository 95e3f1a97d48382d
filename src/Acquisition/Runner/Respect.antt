-- ===== src/Acquisition/Runner/Respect.antt =====
-- What `_react` of acquisition/runner.py does to the sources: each branch, then all of it.
use data_hub_backend.Base.{ℕ, ◌+◌, ◌≡◌, refl, none, some, Bool-cases, inl, inr, max, ℕ_eq}
use data_hub_backend.Base.Result.{ok, OnOk, OnOk-bind, OnOk_value}
use data_hub_backend.Acquisition.Schema.{
  FetchStatus, FetchEligibility, SourceAccessState, Reason, Db, Urls,
}
use data_hub_backend.Acquisition.Lease.{Lease, Moment, source_of}
use data_hub_backend.Acquisition.Sweep.{backoff}
use data_hub_backend.Acquisition.Recorder.{FetchOutcome}
use data_hub_backend.Acquisition.Runner.{
  CycleReport, set_eligibility_if_unjudged, set_cooldown, clear_cooldown, pause_host, at_source,
  uncooled, struck, default_rate_limit_cooldown, default_dns_cooldown, is_permanent,
}
use data_hub_backend.Acquisition.Runner.React.{
  react, react_to, cool_and_pause, react_rate_limited, react_dns_temporary, react_blocked,
  react_failed, strikes_of, or_delay, non_zero,
}
use data_hub_backend.Acquisition.Runner.Sources.{
  Respects-timing, Respects-judged, Respects-uncooled, AllRespect, at_source-AllRespect,
  AllRespect_refl, AllRespect_trans, retry-AllRespect, escalate-AllRespect, settle_429-AllRespect,
  set_cooldown-AllRespect,
}

module _ (m : Moment) (lease : Lease) where
  abbrev Frames : FetchStatus → Db → CycleReport × Db → Type 0
  Frames status db (report, db') = AllRespect status db db'

  react_rate_limited-Frames :
      (urls : Urls) (o : FetchOutcome) (report : CycleReport) (db : Db)
      → OnOk (Frames FetchStatus.rate_limited db) (react_rate_limited urls m lease o report db)
  unfolding react_rate_limited cool_and_pause pause_host
  react_rate_limited-Frames urls o report db =
      OnOk-bind (Frames status db) (strikes_of (source_of counted lease.source_id)) _ λ strikes _.
        AllRespect_trans status db.sources counted.sources _
          (at_source-AllRespect status lease.source_id struck db (λ s.
            Respects-timing status s s.cooldown_until s.cooldown_reason s.cooldown_set_at
              (s.rate_limit_strikes + 1)))
          (AllRespect_trans status counted.sources
            (cool_and_pause urls m lease o delay counted).sources _
            (set_cooldown-AllRespect status m.now lease.source_id delay
              (Reason.http_429 (non_zero o.retry_after)) counted)
            (settle_429-AllRespect status m lease delay strikes
              (record report {
                cooldowns_set = report.cooldowns_set + 1;
                hosts_paused = report.hosts_paused + 1;
              })
              (cool_and_pause urls m lease o delay counted)))
    where
      status : FetchStatus
      status = FetchStatus.rate_limited

      delay : ℕ
      delay = or_delay (non_zero o.retry_after) default_rate_limit_cooldown

      counted : Db
      counted = at_source lease.source_id struck db

  react_dns_temporary-Frames :
      (o : FetchOutcome) (report : CycleReport) (db : Db)
      → Frames FetchStatus.dns_temporary db (react_dns_temporary m lease o report db)
  unfolding react_dns_temporary
  react_dns_temporary-Frames o report db =
      let delay = max (backoff lease.attempt_no none) default_dns_cooldown in
      let reason = Reason.temporary_dns_failure o.error_class in
      let cooling = set_cooldown m.now lease.source_id delay reason db in
      AllRespect_trans FetchStatus.dns_temporary db.sources cooling.sources _
        (set_cooldown-AllRespect FetchStatus.dns_temporary m.now lease.source_id delay reason db)
        (retry-AllRespect FetchStatus.dns_temporary m lease delay
          (record report { cooldowns_set = report.cooldowns_set + 1 }) cooling)

  react_blocked-AllRespect :
      (o : FetchOutcome) (db : Db) → AllRespect FetchStatus.blocked db (react_blocked m lease o db)
  unfolding react_blocked set_eligibility_if_unjudged
  react_blocked-AllRespect o db =
      at_source-AllRespect FetchStatus.blocked lease.source_id _ db (λ s.
        Respects-judged FetchStatus.blocked m.now FetchEligibility.blocked _
          (some SourceAccessState.blocked) s (inl refl))

  react_failed-Frames :
      (status : FetchStatus) (o : FetchOutcome) (report : CycleReport) (db : Db)
      → Frames status db (react_failed m lease o report db)
  unfolding react_failed
  react_failed-Frames status o report db = elim (Bool-cases (is_permanent o.http_status)) [
    | inl e ↦ rw e (AllRespect_refl status db)
    | inr e ↦
        rw e (retry-AllRespect status m lease (backoff lease.attempt_no o.retry_after) report db)
  ]

  cleared :
      (status : FetchStatus) (db : Db) → AllRespect status db (clear_cooldown lease.source_id db)
  unfolding clear_cooldown
  cleared status db =
      at_source-AllRespect status lease.source_id uncooled db (Respects-uncooled status)

  react_to-Frames :
      (status : FetchStatus) (urls : Urls) (o : FetchOutcome) (report : CycleReport) (db : Db)
      → OnOk (Frames status db) (react_to status urls m lease o report db)
  react_to-Frames FetchStatus.ok urls o report db = cleared FetchStatus.ok db
  react_to-Frames FetchStatus.unchanged urls o report db = cleared FetchStatus.unchanged db
  react_to-Frames FetchStatus.rate_limited urls o report db =
      react_rate_limited-Frames urls o report db
  react_to-Frames FetchStatus.dns_temporary urls o report db =
      react_dns_temporary-Frames o report db
  react_to-Frames FetchStatus.name_not_resolved urls o report db =
      escalate-AllRespect FetchStatus.name_not_resolved m lease
        (Reason.hostname_does_not_resolve o.error_detail) report db
  react_to-Frames FetchStatus.blocked urls o report db = react_blocked-AllRespect o db
  react_to-Frames FetchStatus.http_error urls o report db =
      react_failed-Frames FetchStatus.http_error o report db
  react_to-Frames FetchStatus.timeout urls o report db =
      react_failed-Frames FetchStatus.timeout o report db
  react_to-Frames FetchStatus.internal_error urls o report db =
      AllRespect_refl FetchStatus.internal_error db
  react_to-Frames FetchStatus.parse_failed urls o report db =
      AllRespect_refl FetchStatus.parse_failed db
  react_to-Frames FetchStatus.abandoned urls o report db = AllRespect_refl FetchStatus.abandoned db

  -- A reaction keeps the list of sources, and of each its id, URL, activity and publication
  -- eligibility; it keeps every judgement that was made, and only an outcome BLOCKED blocks a
  -- source or changes its access. So a repeated 429 never blocks one, although FetchEligibility
  -- documents it as a cause of BLOCKED.
  pub react-AllRespect :
      (urls : Urls) (o : FetchOutcome) (report : CycleReport) (db : Db) {report' : CycleReport}
      {db' : Db}
      → react urls m lease o report db ≡ ok (report', db')
      → AllRespect o.status db db'
  unfolding react
  react-AllRespect urls o report db h =
      OnOk_value (Frames o.status db) (react_to o.status urls m lease o report db)
        (react_to-Frames o.status urls o report db) h
