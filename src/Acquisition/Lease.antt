-- ===== src/Acquisition/Lease.antt =====
-- acquisition/lease.py: claiming, heartbeating and finalising fetch work. A statement of the
-- database is an update of the tables; what raises `LeaseLostError` returns `err`, and its
-- transaction leaves the tables as they were.
pub mod Choice
pub mod Claiming
pub mod OpenCycle
use data_hub_backend.Base.{
  ℕ, zero, suc, ◌+◌, ◌-◌, ◌*◌, ◌^◌, min, max, String, Bool, true, false, not, ◌&&◌, ◌||◌, Option,
  none, some, List, [], ◌∷◌, ◌++◌, ltb, leb, ◌==◌, ℕ_eq, String_eq, Option_eq, if◌then◌else◌,
  select, find, update, count, is_none,
}
use data_hub_backend.Base.Result.{Result, ok, err}
use data_hub_backend.Base.Sets.{member}
use data_hub_backend.Acquisition.Schema
use data_hub_backend.Acquisition.Schema.{
  seconds, FetchStatus, AttemptState, queued, running, finalized, is_fetchable, is_access_ok,
  is_queued, is_running, Source, HostCooldown, FetchAttempt, FetchRun, Db, Urls, due,
}

abbrev pub max_attempts_per_cycle : ℕ
max_attempts_per_cycle = 3

pub data LeaseLostError : Type 0 where
  lease_lost : LeaseLostError

pub record Lease : Type 0 where
  pub attempt_id : ℕ
  pub source_id : ℕ
  pub url : String
  pub cycle_key : String
  pub attempt_no : ℕ
  pub lease_token : ℕ
  pub lease_generation : ℕ
  pub expires_at : ℕ
  pub worker : String

abbrev pub source_of : Db → ℕ → Option Source
source_of db id = find (λ s. s.id == id) db.sources

-- `EXISTS (SELECT 1 FROM host_cooldown hc WHERE hc.cooldown_until > now() AND hc.host = host)`
abbrev pub host_paused : List HostCooldown → String → ℕ → Bool
host_paused [] host now = false
host_paused (hc ∷ rest) host now =
    (ltb now hc.cooldown_until && hc.host == host) || host_paused rest host now

abbrev pub host_wanted : Urls → Option String → String → Bool
host_wanted urls none url = true
host_wanted urls (some host) url = urls.authority url == host

-- What the query of `claim_next` asks of the joined source.
abbrev pub source_claimable : Urls → Db → ℕ → Option String → Option Source → Bool
source_claimable urls db now host none = false
source_claimable urls db now host (some s) =
    s.is_active
    && (is_fetchable s.fetch_eligibility
        && (is_access_ok s.access_state
            && (due s.cooldown_until now
                && (not (host_paused db.host_cooldowns (urls.lower (urls.authority s.url)) now)
                    && host_wanted urls host s.url))))

-- The WHERE clause of `claim_next`; rows that another transaction has locked are skipped.
abbrev pub claimable : Urls → Db → ℕ → String → Option String → List ℕ → FetchAttempt → Bool
claimable urls db now cycle_key host locked a =
    is_queued a.state
    && (a.cycle_key == cycle_key
        && (due a.scheduled_for now
            && (source_claimable urls db now host (source_of db a.source_id)
                && not (member a.id locked))))

-- `ORDER BY scheduled_for NULLS FIRST, created_at`
abbrev pub sorts_before : Option ℕ → Option ℕ → Bool → Bool
sorts_before none none tie = tie
sorts_before none (some _) tie = true
sorts_before (some _) none tie = false
sorts_before (some s) (some t) tie = ltb s t || (s == t && tie)

abbrev pub goes_before : FetchAttempt → FetchAttempt → Bool
goes_before a b = sorts_before a.scheduled_for b.scheduled_for (leb a.created_at b.created_at)

abbrev pub earlier : FetchAttempt → Option FetchAttempt → Option FetchAttempt
earlier a none = some a
earlier a (some b) = if goes_before a b then some a else some b

-- The first in that order.
unfoldable pub first_in_line : List FetchAttempt → Option FetchAttempt
first_in_line [] = none
first_in_line (a ∷ rest) = earlier a (first_in_line rest)

-- The SET clause of `claim_next`.
abbrev pub taken : ℕ → String → ℕ → ℕ → FetchAttempt → FetchAttempt
taken now worker expires token a = record a {
  state = running;
  claimed_at = some now;
  claimed_by = some worker;
  heartbeat_at = some now;
  lease_expires_at = some expires;
  lease_token = some token;
  lease_generation = a.lease_generation + 1;
}

abbrev pub lease_on : FetchAttempt → Source → String → ℕ → ℕ → Lease
lease_on a s worker expires token = record {
  attempt_id = a.id;
  source_id = a.source_id;
  url = s.url;
  cycle_key = a.cycle_key;
  attempt_no = a.attempt_no;
  lease_token = token;
  lease_generation = a.lease_generation + 1;
  expires_at = expires;
  worker = worker;
}

-- What one call of a worker's clock, the database's clock and `uuid4` gave.
pub record Moment : Type 0 where
  pub now : ℕ
  pub utcnow : ℕ
  pub uuid : ℕ

abbrev pub claim_row :
    Moment → String → ℕ → Db → Option FetchAttempt → Option Source → Option Lease × Db
claim_row m worker lease_seconds db none s = (none, db)
claim_row m worker lease_seconds db (some a) none = (none, db)
claim_row m worker lease_seconds db (some a) (some s) =
    let expires = m.utcnow + seconds lease_seconds in
    (
      some (lease_on a s worker expires m.uuid),
      record db {
        attempts = update (λ r. r.id == a.id) (taken m.now worker expires m.uuid) db.attempts;
      },
    )

unfoldable pub claim_next :
    Urls → Moment → List ℕ → String → String → ℕ → Option String → Db → Option Lease × Db
unfolding first_in_line
claim_next urls m locked cycle_key worker lease_seconds host db =
    let candidate =
      first_in_line (select (claimable urls db m.now cycle_key host locked) db.attempts) in
    claim_row m worker lease_seconds db candidate
      (elim candidate [ none ↦ none | some a ↦ source_of db a.source_id ])

-- `id = :id AND state = 'RUNNING' AND lease_token = :token`
abbrev pub fenced : Lease → FetchAttempt → Bool
fenced lease a =
    a.id == lease.attempt_id && (is_running a.state && a.lease_token == some lease.lease_token)

-- Some row still answers to the lease.
abbrev pub held : Lease → List FetchAttempt → Bool
held lease [] = false
held lease (a ∷ rest) = fenced lease a || held lease rest

unfoldable pub heartbeat : Moment → Lease → ℕ → Db → Result LeaseLostError (ℕ × Db)
heartbeat m lease lease_seconds db =
    let expires = m.utcnow + seconds lease_seconds in
    let extended =
      update (fenced lease)
        (λ a. record a { heartbeat_at = some m.now; lease_expires_at = some expires })
        db.attempts in
    if held lease db.attempts
    then ok (expires, record db { attempts = extended })
    else err lease_lost

unfoldable pub release_lease : Moment → Lease → Db → Db
release_lease m lease db = record db {
  attempts =
      update (fenced lease)
        (λ a. record a {
          state = queued;
          claimed_at = none;
          claimed_by = none;
          lease_expires_at = none;
          lease_token = none;
          scheduled_for = some m.now;
        })
        db.attempts;
}

unfoldable pub take_ownership_for_finalisation : Moment → Lease → Db → Result LeaseLostError Db
take_ownership_for_finalisation m lease db =
    let closed =
      update (fenced lease) (λ a. record a { state = finalized; finalized_at = some m.now })
        db.attempts in
    if held lease db.attempts then ok (record db { attempts = closed }) else err lease_lost
