-- ===== src/Acquisition/Runner/Pauses.antt =====
-- A host that `_pause_host` of acquisition/runner.py quieted, as `claim_next` of
-- acquisition/lease.py sees it.
use data_hub_backend.Base.{
  ℕ, ◌+◌, ◌<◌, ◌≡◌, ◌≢◌, sym, ap, subst, ◌∙◌, Bool, true, false, not, ◌&&◌, Option, some, List, [],
  ◌∷◌, arith, String, ◌==◌, ℕ_eq, String_eq,
}
use data_hub_backend.Base.Sets.{beq_refl, member}
use data_hub_backend.Acquisition.Schema.{
  is_fetchable, is_access_ok, is_queued, Source, HostCooldown, Db, Urls, due, Reason,
}
use data_hub_backend.Acquisition.Lease.{
  Lease, Moment, claim_next, source_of, source_claimable, host_paused,
}
use data_hub_backend.Acquisition.Lease.Claiming.{IsClaim, Takes, claim_next-IsClaim}
use data_hub_backend.Acquisition.Runner.{pause_host, pause_rows}

-- A worker may ask the lease's page of its site at `now`.
pub record MayFetch (urls : Urls) (now : ℕ) (db : Db) (lease : Lease) : Type 0 where
  pub source : Source
  pub its_source : source_of db lease.source_id ≡ some source
  pub its_url : lease.url ≡ source.url
  pub active : source.is_active ≡ true
  pub fetchable : is_fetchable source.fetch_eligibility ≡ true
  pub accessible : is_access_ok source.access_state ≡ true
  pub cooled_down : due source.cooldown_until now ≡ true
  pub host_free : host_paused db.host_cooldowns (urls.lower (urls.authority lease.url)) now ≡ false

fourth_holds : (a b c d e : Bool) → (a && (b && (c && (d && e)))) ≡ true → d ≡ true
fourth_holds a b c d e h = ground arith

may_fetch :
    (urls : Urls) (now : ℕ) (host : Option String) (db : Db) (lease : Lease) (s : Source)
    → source_of db lease.source_id ≡ some s
    → lease.url ≡ s.url
    → source_claimable urls db now host (some s) ≡ true
    → MayFetch urls now db lease
may_fetch urls now host db lease s found url h = record {
  source = s;
  its_source = found;
  its_url = url;
  active = ground arith;
  fetchable = ground arith;
  accessible = ground arith;
  cooled_down = ground arith;
  host_free = rw url (ground arith);
}

module _ (urls : Urls) (m : Moment) (locked : List ℕ) (cycle_key worker : String) (secs : ℕ)
    (host : Option String) where
  -- Every lease that `claim_next` gives is on a source that is active, FETCHABLE and accessible,
  -- whose own cooldown is over and whose host is not paused.
  pub claim_next-MayFetch :
      (db : Db) {lease : Lease} {db' : Db}
      → claim_next urls m locked cycle_key worker secs host db ≡ (some lease, db')
      → MayFetch urls m.now db lease
  claim_next-MayFetch db {lease} {db'} e =
      let t : Takes urls m locked cycle_key worker secs host db lease db' =
        subst (IsClaim urls m locked cycle_key worker secs host db) e
          (claim_next-IsClaim urls m locked cycle_key worker secs host db) in
      let a = t.attempt in
      let query =
        fourth_holds (is_queued a.state) (a.cycle_key == cycle_key) (due a.scheduled_for m.now)
          (source_claimable urls db m.now host (source_of db a.source_id))
          (not (member a.id locked)) t.meets_query in
      may_fetch urls m.now host db lease t.source
        (ap (λ (l : Lease). source_of db l.source_id) t.lease_of ∙ t.its_source)
        (ap (λ (l : Lease). l.url) t.lease_of)
        (sym (ap (source_claimable urls db m.now host) t.its_source) ∙ query)

pub host_paused-pause_rows :
    (new : HostCooldown) (rows : List HostCooldown) (now : ℕ)
    → now < new.cooldown_until
    → host_paused (pause_rows new rows) new.host now ≡ true
unfolding pause_rows
host_paused-pause_rows new [] now h = ground (arith, beq_refl new.host)
host_paused-pause_rows new (hc ∷ rest) now h =
    ground (arith, beq_refl new.host, host_paused-pause_rows new rest now h)

-- A pause of any host keeps every pause that stands: none ends sooner.
host_paused-kept :
    (new : HostCooldown) (rows : List HostCooldown) (host : String) (now : ℕ)
    → host_paused rows host now ≡ true
    → host_paused (pause_rows new rows) host now ≡ true
unfolding pause_rows
host_paused-kept new [] host now h = ground arith
host_paused-kept new (hc ∷ rest) host now h =
    ground (arith, host_paused-kept new rest host now, String_eq.beq_iff hc.host new.host)

abbrev pub pause_row : ℕ → ℕ → ℕ → String → Reason → HostCooldown
pause_row now delay source_id paused reason = record {
  host = paused;
  cooldown_until = now + delay;
  reason = reason;
  set_at = now;
  triggered_by_source_id = source_id;
}

-- Pausing a host ends no pause of any host sooner.
pub host_paused-pause_host :
    (now delay source_id : ℕ) (paused : String) (reason : Reason) (db : Db) (host : String) (t : ℕ)
    → host_paused db.host_cooldowns host t ≡ true
    → host_paused (pause_host now paused delay reason source_id db).host_cooldowns host t ≡ true
unfolding pause_host
host_paused-pause_host now delay source_id paused reason db host t h =
    host_paused-kept (pause_row now delay source_id paused reason) db.host_cooldowns host t h

-- After a host is paused for `delay`, and until that time is over, `claim_next` gives no lease on a
-- URL whose authority, in lower case, is that host.
pub pause_host-claim_next :
    (urls : Urls) (now delay source_id : ℕ) (paused : String) (reason : Reason) (db : Db)
    (m : Moment) (locked : List ℕ) (cycle_key worker : String) (secs : ℕ) (wanted : Option String)
    (lease : Lease) (db' : Db)
    → m.now < now + delay
    → claim_next urls m locked cycle_key worker secs wanted
        (pause_host now paused delay reason source_id db)
      ≡ (some lease, db')
    → urls.lower (urls.authority lease.url) ≢ paused
unfolding pause_host
pause_host-claim_next urls now delay source_id paused reason db m locked cycle_key worker secs
      wanted lease db' soon e at_host =
    let may =
      claim_next-MayFetch urls m locked cycle_key worker secs wanted
        (pause_host now paused delay reason source_id db) e in
    let row = pause_row now delay source_id paused reason in
    absurd (
      ground (
        arith,
        may.host_free,
        ap (λ h. host_paused (pause_rows row db.host_cooldowns) h m.now) at_host,
        host_paused-pause_rows row db.host_cooldowns m.now soon,
      ))
