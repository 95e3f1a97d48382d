-- ===== src/Acquisition/Examples/Steps.antt =====
-- Runs of several steps on concrete data: an attempt queued, claimed and recorded, and a lease lost.
use data_hub_backend.Base.{ℕ, none, some, List, [], ◌∷◌, String, refl, arith, ◌+◌}
use data_hub_backend.Acquisition.Schema.{FetchStatus, Db, seconds}
use data_hub_backend.Acquisition.Lease.{
  first_in_line, claim_next, release_lease, take_ownership_for_finalisation,
}
use data_hub_backend.Acquisition.Enqueue.{row_verdict, enqueue_rows, enqueue_cycle}
use data_hub_backend.Acquisition.Recorder.{
  record_outcome, record_internal_error, write_record, ensure_blob, error_text,
}
use data_hub_backend.Acquisition.World.{claim, release, fail, enqueue, here, next}
use data_hub_backend.Acquisition.World.Runs.{Kept}
use data_hub_backend.Acquisition.World.Account.{Kept-Reach}
use data_hub_backend.Acquisition.World.Stale.{Refused, Lost-Refused, record_outcome-Refused}
use data_hub_backend.Acquisition.Examples.{
  two_sites, empty_queue, busy, rows, at_time, lease_under, outcome_of, after,
}

abbrev put : List ℕ → String
put content = "0"

abbrev queue : Db
queue = (enqueue_cycle (λ n. n + 7) (seconds 5) "2026-W40" (some 1) rows empty_queue).1

abbrev claimed : Db
claimed = (claim_next two_sites (at_time 9 50) [] "2026-W40" "worker-1" 180 none queue).1

abbrev failed : Db
failed = after (record_internal_error (at_time 12 61) "STATIC" "KeyError" (lease_under 50) claimed)

-- Queued, claimed, and ended by an internal error.
Kept-Reach_example : Kept failed
unfolding enqueue_cycle enqueue_rows row_verdict claim_next first_in_line record_internal_error
    take_ownership_for_finalisation
Kept-Reach_example =
    Kept-Reach two_sites put {w = record { db = empty_queue; minted = [] }}
      {v = record { db = failed; minted = 50 ∷ [] }}
      (next
        (next
          (next here (
            enqueue (λ n. n + 7) (seconds 5) "2026-W40" (some 1) rows
              (record { fresh = λ n. refl; apart = λ m n e. omega (arith, e) })))
          (claim (at_time 9 50) [] "2026-W40" "worker-1" 180 none refl))
        (fail (at_time 12 61) "STATIC" "KeyError" (lease_under 50) refl))
      (record { unique = λ i. omega arith; matched = λ i. refl })

-- The attempt runs under the token 50; the lease with the token 40 is lost.
Lost-Refused_example :
    Refused (lease_under 40) put (release_lease (at_time 12 61) (lease_under 50) busy)
unfolding release_lease
Lost-Refused_example =
    Lost-Refused (lease_under 40) two_sites put {w = record { db = busy; minted = 50 ∷ 40 ∷ [] }}
      {v = record {
        db = release_lease (at_time 12 61) (lease_under 50) busy;
        minted = 50 ∷ 40 ∷ [];
      }}
      (refl, refl) (next here (release (at_time 12 61) (lease_under 50)))

record_outcome-Refused_example : Refused (lease_under 50) put (
    after (
      record_outcome put
        (at_time 12 61)
        62
        "STATIC"
        (lease_under 50)
        (outcome_of FetchStatus.rate_limited)
        busy))
unfolding record_outcome take_ownership_for_finalisation write_record ensure_blob error_text
record_outcome-Refused_example =
    record_outcome-Refused put (at_time 12 61) 62 "STATIC" (lease_under 50)
      (outcome_of FetchStatus.rate_limited) busy refl
