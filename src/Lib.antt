-- ===== src/Lib.antt =====
-- The DataHub backend: parts of the API server under apps/api/src/app/domains: the acquisition
-- of web sources, the precedence of applicant scopes, the readiness of candidates for publication,
-- and the browser sessions of reviewers.
--
-- Acquisition (Acquisition.antt, of domains/acquisition) keeps its state in database tables that
-- several workers share. Acquisition/Schema.antt holds the tables as lists of rows in the record
-- Db, with the rows of domains/sources/models.py; an UPDATE is an update of the rows that its WHERE
-- clause selects, and a statement that returns no row is a test on the table. Instants are
-- microseconds, a UUID is a number, and what clocks, `uuid4`, row locks and URL functions give are
-- arguments: Moment, lists of locked ids, and the record Urls.
--   * Acquisition/Lease.antt, Sweep.antt and Enqueue.antt: lease.py (claim_next, heartbeat,
--     release_lease, take_ownership_for_finalisation; sweep_expired, schedule_retry and
--     backoff_seconds as `backoff`; enqueue_cycle).
--     Lease/OpenCycle.antt: oldest_open_cycle, with the collation of the database as an argument.
--   * Acquisition/Recorder.antt: recorder.py (record_outcome, record_internal_error).
--   * Acquisition/Runner.antt and Runner/React.antt: runner.py (_tally, _react and the statements
--     that it runs, one function for each branch).
--     Runner/Attempt.antt: the terminal transaction of _attempt_one. Runner/Cycle.antt: run_cycle,
--     _process_one, _contain_internal_error and _attempt_one; a Turn holds what surrounds the work
--     on one page, with what other workers commit meanwhile. Runner/Gate.antt: HostGate.
--   * Acquisition/Netsafety.antt and Netsafety/Target.antt: netsafety.py (classify_address;
--     check_url_shape, _as_ip_literal, classify_resolver_failure, resolve_and_validate,
--     validate_stored_url_for_fetch). urlsplit, ipaddress, inet_aton and getaddrinfo are arguments.
--   * Acquisition/Fetcher.antt and Fetcher/Fetching.antt: fetcher.py (fetch, _fetch_chain,
--     _read_response and the parsers of two headers). The HTTP client, the resolver and the digest
--     are arguments; the fetcher's result is what the recorder and a cycle take.
--   * Acquisition/Recovery.antt and Recovery/State.antt: recovery.py (reenable, disable,
--     mark_needs_review, clear_cooldown), with the audit log.
--   * Acquisition/Health.antt: the column schedule_state of the view source_health.
--   * Acquisition/World.antt: the transactions of lease.py, recorder.py and runner.py as steps on
--     the shared tables; each transaction is one step, and steps come in any order.
-- Claims (Claims/Precedence.antt): domains/claims/precedence.py, with compare, governing and
-- state_for. A frozenset is a list, read through membership and the number of different elements.
-- Identity (Identity/Sessions.antt, Identity/Tables.antt): domains/identity/sessions.py (login,
-- resolve, logout, revoke_all), with verify_password of passwords.py and permissions_of of
-- verification/identity.py, over the tables of users, roles and sessions in the record Accounts. The
-- password hasher and the token hash are arguments.
--
-- Verification (Verification/Policy.antt, Verification/Readiness.antt): domains/verification/policy.py
-- and readiness.py, with ROUTING of domains/claims/model.py: which facts a page may publish, what
-- holds a candidate up, and the summary of the report.
--
-- Two definitions have fuel. run_cycle has one unit for each round, and one more than the queued
-- attempts and the retries left in the cycle is enough. classify_address calls itself on the IPv4
-- address in an IPv6 one, so two units are enough. Every other loop is over a list, and the chain
-- of redirects over the redirects that are left. Numbers are natural numbers, so a moment or a
-- delay is not negative. Fractions of a second below a microsecond are not modelled. A moment has no
-- upper end; where PostgreSQL refuses one as out of range, the field reaction_fails of a Turn says so,
-- which stands for any failure of the database after the outcome was counted.
--
-- Not modelled: log lines; the texts of reasons, kept as their parts, and their cuts at 400
-- characters; the response headers and technical metadata of a fetch, the redaction of URLs, and
-- the pinned transport; the counts and the last run in the state that recovery reads;
-- the queries of enqueue_cycle and of assess, whose rows are arguments; the
-- publication bindings; the browser's address and agent in a session; triggers of the database,
-- and its constraints but for those on what a server sends; the other domains, and the HTTP API.
mod Base
pub mod Claims
pub mod Acquisition
pub mod Identity
pub mod Verification
