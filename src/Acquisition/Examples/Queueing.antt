-- ===== src/Acquisition/Examples/Queueing.antt =====
-- The queue on concrete data: enqueueing, claiming and pausing.
use data_hub_backend.Base.{
  ℕ, String, Bool, leb, ◌==◌, String_eq, if◌then◌else◌, ◌≤◌, Option, none, some, [], ◌∷◌, ◌≡◌, ◌≢◌,
  refl, arith, length, ◌+◌,
}
use data_hub_backend.Acquisition.Schema.{Reason, FetchEligibility, seconds, Db}
use data_hub_backend.Acquisition.Lease.{Lease, first_in_line, claim_next, lease_on}
use data_hub_backend.Acquisition.Lease.Claiming.{IsClaim, claim_next-IsClaim}
use data_hub_backend.Acquisition.Lease.OpenCycle.{
  oldest, oldest_open_cycle, IsCollation, IsOldest, oldest_open_cycle-IsOldest,
}
use data_hub_backend.Acquisition.Enqueue.{row_verdict, enqueue_rows, enqueue_cycle}
use data_hub_backend.Acquisition.Enqueue.Accounting.{Counted, enqueue_cycle-Counted}
use data_hub_backend.Acquisition.Enqueue.Again.{enqueue_cycle_again}
use data_hub_backend.Acquisition.Runner.{pause_host, pause_rows}
use data_hub_backend.Acquisition.Runner.Pauses.{
  MayFetch, claim_next-MayFetch, pause_host-claim_next,
}
use data_hub_backend.Acquisition.Sweep.{new_attempt, backoff}
use data_hub_backend.Acquisition.Sweep.Backoff.{IsCapped, backoff_bounds}
use data_hub_backend.Acquisition.Examples.{two_sites, empty_queue, page, rows, at_time}

abbrev queue : Db
queue = record empty_queue {
  attempts =
      new_attempt 1 2 1 "2026-W40" (seconds 5) (seconds 5)
      ∷ new_attempt 0 1 1 "2026-W40" (seconds 4) (seconds 4)
      ∷ [];
}

queued :
    (enqueue_cycle (λ n. n) (seconds 5) "2026-W40" none rows empty_queue).0.attempts_created ≡ 2
unfolding enqueue_cycle enqueue_rows row_verdict
queued = refl

enqueue_cycle-Counted_example :
    Counted (some 1) (enqueue_cycle (λ n. n) (seconds 5) "2026-W40" (some 1) rows empty_queue).0
    × (length (enqueue_cycle (λ n. n) (seconds 5) "2026-W40" (some 1) rows empty_queue).1.attempts
        ≡ (enqueue_cycle
            (λ n. n)
            (seconds 5)
            "2026-W40"
            (some 1)
            rows
            empty_queue).0.attempts_created
          + length empty_queue.attempts)
enqueue_cycle-Counted_example =
    enqueue_cycle-Counted (λ n. n) (seconds 5) "2026-W40" (some 1) rows empty_queue

enqueue_cycle_again_example :
    let db' = (enqueue_cycle (λ n. n) (seconds 5) "2026-W40" none rows empty_queue).1 in
    let again = enqueue_cycle (λ n. n + 9) (seconds 6) "2026-W40" (some 1) rows db' in
    (again.0.attempts_created ≡ 0) × (again.1 ≡ db')
enqueue_cycle_again_example =
    enqueue_cycle_again (λ n. n) (λ n. n + 9) (seconds 5) (seconds 6) "2026-W40" (some 1) rows
      empty_queue

abbrev claimed : Option Lease × Db
claimed = claim_next two_sites (at_time 9 50) [] "2026-W40" "worker-1" 180 none queue

-- The page that waits longest comes first.
first_lease :
    claimed.0
    ≡ some (
        lease_on
          (new_attempt 0 1 1 "2026-W40" (seconds 4) (seconds 4))
          (page 1 "https://a.edu/fees" FetchEligibility.fetchable)
          "worker-1"
          (seconds 189)
          50)
unfolding claim_next first_in_line
first_lease = refl

claim_next-IsClaim_example :
    IsClaim two_sites (at_time 9 50) [] "2026-W40" "worker-1" 180 none queue claimed
claim_next-IsClaim_example =
    claim_next-IsClaim two_sites (at_time 9 50) [] "2026-W40" "worker-1" 180 none queue

abbrev first_on : Lease
first_on =
    lease_on (new_attempt 0 1 1 "2026-W40" (seconds 4) (seconds 4))
      (page 1 "https://a.edu/fees" FetchEligibility.fetchable) "worker-1" (seconds 189) 50

claim_next-MayFetch_example : MayFetch two_sites (seconds 9) queue first_on
unfolding claim_next first_in_line
claim_next-MayFetch_example =
    claim_next-MayFetch two_sites (at_time 9 50) [] "2026-W40" "worker-1" 180 none queue
      {lease = first_on} {db' = claimed.1} refl

abbrev paused : Db
paused =
    pause_host (seconds 8) "a.edu" (seconds 60) (Reason.http_429_on "https://a.edu/fees") 1 queue

abbrev second_on : Lease
second_on =
    lease_on (new_attempt 1 2 1 "2026-W40" (seconds 5) (seconds 5))
      (page 2 "https://b.edu/dates" FetchEligibility.fetchable) "worker-1" (seconds 189) 50

-- The page of the paused host waits longer, and the other is taken.
pause_host-claim_next_example : two_sites.lower (two_sites.authority second_on.url) ≢ "a.edu"
unfolding claim_next first_in_line pause_host pause_rows
pause_host-claim_next_example =
    pause_host-claim_next two_sites (seconds 8) (seconds 60) 1 "a.edu"
      (Reason.http_429_on "https://a.edu/fees") queue (at_time 9 50) [] "2026-W40" "worker-1" 180
      none second_on
      (claim_next two_sites (at_time 9 50) [] "2026-W40" "worker-1" 180 none paused).1 (omega arith)
      refl

backoff_bounds_example :
    (seconds 15 ≤ backoff 2 none)
    × (backoff 2 none ≤ backoff 3 none)
    × (backoff 2 none ≤ seconds 300)
    × IsCapped (seconds 90) (backoff 2 (some (seconds 90)))
backoff_bounds_example = backoff_bounds 2 (seconds 90)

-- Two cycles, in the order of their keys.
abbrev rank : String → ℕ
rank key = if key == "2026-W39" then 0 else 1

abbrev by_rank : String → String → Bool
by_rank k l = leb (rank k) (rank l)

by_rank-IsCollation : IsCollation by_rank
by_rank-IsCollation = record {
  total = λ k l h. leb_total (rank k) (rank l) h;
  trans = λ k l n h t. leb_trans (rank k) (rank l) (rank n) h t;
}
  where
    leb_total : (a b : ℕ) → leb a b ≡ Bool.false → leb b a ≡ Bool.true
    leb_total a b h = ground arith

    leb_trans : (a b c : ℕ) → leb a b ≡ Bool.true → leb b c ≡ Bool.true → leb a c ≡ Bool.true
    leb_trans a b c h t = ground arith

-- A retry of the older cycle is due after a new attempt of the newer one.
abbrev two_cycles : Db
two_cycles = record empty_queue {
  attempts =
      new_attempt 1 2 2 "2026-W39" (seconds 60) (seconds 5)
      ∷ new_attempt 0 1 1 "2026-W40" (seconds 6) (seconds 6)
      ∷ [];
}

newer_first : oldest_open_cycle by_rank two_cycles ≡ some "2026-W40"
unfolding oldest_open_cycle oldest
newer_first = refl

oldest_open_cycle-IsOldest_example :
    IsOldest by_rank two_cycles (oldest_open_cycle by_rank two_cycles)
oldest_open_cycle-IsOldest_example =
    oldest_open_cycle-IsOldest by_rank by_rank-IsCollation two_cycles
