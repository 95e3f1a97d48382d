-- ===== src/Acquisition/Runner/Gate.antt =====
-- `HostGate` of acquisition/runner.py: one worker's pauses between the requests to one host. Times
-- are those of the event loop's clock, in microseconds; the lock of a host makes its visits a
-- sequence.
use data_hub_backend.Base.{
  ℕ, ◌+◌, ◌-◌, ◌≤◌, max, ◌≡◌, refl, String, false, List, [], ◌∷◌, arith, ◌==◌, String_eq,
  if◌then◌else◌, All, Bool-cases, inl, inr, ◌⊎◌, ap,
}
use data_hub_backend.Base.Sets.{beq_refl}

-- A dict with float values.
abbrev pub Times : Type 0
Times = List (String × ℕ)

-- `times.get(host, 0.0)`
abbrev pub time_of : String → Times → ℕ
time_of host [] = 0
time_of host ((h, t) ∷ rest) = if h == host then t else time_of host rest

abbrev pub set_time : String → ℕ → Times → Times
set_time host t times = (host, t) ∷ times

pub record HostGate : Type 0 where
  pub min_interval : ℕ
  pub last_request : Times
  pub paused_until : Times

-- The sleep of `acquire`: the longest of the three, of which the last is zero.
unfoldable pub wait : String → ℕ → HostGate → ℕ
wait host now gate =
    max (time_of host gate.paused_until - now)
      (time_of host gate.last_request + gate.min_interval - now)

-- The `finally` of `acquire`.
unfoldable pub released : String → ℕ → HostGate → HostGate
released host now gate = record gate { last_request = set_time host now gate.last_request }

unfoldable pub pause : String → ℕ → ℕ → HostGate → HostGate
pause host now delay gate = record gate {
  paused_until =
      set_time host (max (time_of host gate.paused_until) (now + delay)) gate.paused_until;
}

-- What a worker does with the gate. A visit enters at `now`, sleeps `late` longer than it asked,
-- and its request takes `duration`.
pub data GateUse : Type 0 where
  visit : (host : String) (now late duration : ℕ) → GateUse
  hold_off : (host : String) (now delay : ℕ) → GateUse

-- A request that was made, and a pause that a site asked for.
pub data Trace : Type 0 where
  requested : (host : String) (start finish : ℕ) → Trace
  told : (host : String) (until : ℕ) → Trace

-- The start of a visit's request.
abbrev pub start_of : String → ℕ → ℕ → HostGate → ℕ
start_of host now late gate = now + wait host now gate + late

unfoldable pub use_gate : GateUse → HostGate × List Trace → HostGate × List Trace
unfolding wait released pause
use_gate (visit host now late duration) (gate, trace) =
    let start = start_of host now late gate in
    (released host (start + duration) gate, requested host start (start + duration) ∷ trace)
use_gate (hold_off host now delay) (gate, trace) =
    (pause host now delay gate, told host (now + delay) ∷ trace)

unfoldable pub use_all : List GateUse → HostGate × List Trace → HostGate × List Trace
unfolding use_gate
use_all [] acc = acc
use_all (u ∷ rest) acc = use_all rest (use_gate u acc)

-- What an earlier entry asks of a request to `host` that starts at `start`.
abbrev pub Clears : ℕ → String → ℕ → Trace → Type 0
Clears interval host start (requested h s finish) =
    ((h == host) ≡ false) ⊎ (finish + interval ≤ start)
Clears interval host start (told h until) = ((h == host) ≡ false) ⊎ (until ≤ start)

-- Each request clears every entry before it.
abbrev pub IsPolite : ℕ → List Trace → Type 0
IsPolite interval [] = Unit
IsPolite interval (told h until ∷ before) = IsPolite interval before
IsPolite interval (requested host start finish ∷ before) =
    All (Clears interval host start) before × IsPolite interval before

-- The gate remembers the latest of what was traced.
abbrev Remembers : HostGate → Trace → Type 0
Remembers gate (requested h s finish) = finish ≤ time_of h gate.last_request
Remembers gate (told h until) = until ≤ time_of h gate.paused_until

record IsFollowing (interval : ℕ) (gate : HostGate) (trace : List Trace) : Type 0 where
  pub floor : gate.min_interval ≡ interval
  pub kept : All (Remembers gate) trace
  pub polite : IsPolite interval trace

All-mono {ℓ} :
    {A : Type ℓ} {P Q : A → Type 0} → ((a : A) → P a → Q a) → (xs : List A) → All P xs → All Q xs
All-mono f [] h = tt
All-mono f (x ∷ xs) h = (f x h.0, All-mono f xs h.1)

visit-Clears :
    (interval : ℕ) (gate : HostGate) (host : String) (now late : ℕ) (t : Trace)
    → gate.min_interval ≡ interval
    → Remembers gate t
    → Clears interval host (start_of host now late gate) t
unfolding wait
visit-Clears interval gate host now late (requested h s finish) f r =
    elim (Bool-cases (h == host)) [
      | inr other ↦ inl other
      | inl e ↦
          let same = ap (λ k. time_of k gate.last_request) ((String_eq.beq_iff h host).0 e) in
          inr (omega (arith, r, f, same))
    ]
visit-Clears interval gate host now late (told h until) f r = elim (Bool-cases (h == host)) [
  | inr other ↦ inl other
  | inl e ↦
      let same = ap (λ k. time_of k gate.paused_until) ((String_eq.beq_iff h host).0 e) in
      inr (omega (arith, r, same))
]

-- A request ends after the one before it on its host.
visit-Remembers :
    (gate : HostGate) (host : String) (now late duration : ℕ) (t : Trace)
    → Remembers gate t
    → Remembers (released host (start_of host now late gate + duration) gate) t
unfolding released wait
visit-Remembers gate host now late duration (told h until) r = r
visit-Remembers gate host now late duration (requested h s finish) r =
    elim (Bool-cases (host == h)) [
      | inr other ↦ rw other r
      | inl e ↦
          let same = ap (λ k. time_of k gate.last_request) ((String_eq.beq_iff host h).0 e) in
          rw e (omega (arith, r, same))
    ]

-- A pause only ever extends.
pause-Remembers :
    (gate : HostGate) (host : String) (now delay : ℕ) (t : Trace)
    → Remembers gate t
    → Remembers (pause host now delay gate) t
unfolding pause
pause-Remembers gate host now delay (requested h s finish) r = r
pause-Remembers gate host now delay (told h until) r = elim (Bool-cases (host == h)) [
  | inr other ↦ rw other r
  | inl e ↦
      let same = ap (λ k. time_of k gate.paused_until) ((String_eq.beq_iff host h).0 e) in
      rw e (omega (arith, r, same))
]

use_gate-IsFollowing :
    (interval : ℕ) (u : GateUse) (gate : HostGate) (trace : List Trace)
    → IsFollowing interval gate trace
    → IsFollowing interval (use_gate u (gate, trace)).0 (use_gate u (gate, trace)).1
unfolding use_gate released pause
use_gate-IsFollowing interval (visit host now late duration) gate trace k = record {
  floor = k.floor;
  kept = (
    rw (beq_refl host) (omega arith),
    All-mono (visit-Remembers gate host now late duration) trace k.kept,
  );
  polite = (
    All-mono (λ t r. visit-Clears interval gate host now late t k.floor r) trace k.kept,
    k.polite,
  );
}
use_gate-IsFollowing interval (hold_off host now delay) gate trace k = record {
  floor = k.floor;
  kept = (
    rw (beq_refl host) (omega arith),
    All-mono (pause-Remembers gate host now delay) trace k.kept,
  );
  polite = k.polite;
}

use_all-IsFollowing :
    (interval : ℕ) (uses : List GateUse) (gate : HostGate) (trace : List Trace)
    → IsFollowing interval gate trace
    → IsPolite interval (use_all uses (gate, trace)).1
unfolding use_all
use_all-IsFollowing interval [] gate trace k = k.polite
use_all-IsFollowing interval (u ∷ rest) gate trace k =
    use_all-IsFollowing interval rest _ _ (use_gate-IsFollowing interval u gate trace k)

abbrev pub new_gate : ℕ → HostGate
new_gate interval = record { min_interval = interval; last_request = []; paused_until = [] }

-- However a worker's visits and the pauses that sites ask for follow one another, each request
-- starts no sooner than the interval after the end of every earlier request to its host, and no
-- sooner than the end of every pause that its host asked for before.
pub use_all-IsPolite :
    (interval : ℕ) (uses : List GateUse)
    → IsPolite interval (use_all uses (new_gate interval, [])).1
use_all-IsPolite interval uses =
    use_all-IsFollowing interval uses (new_gate interval) []
      (record { floor = refl; kept = tt; polite = tt })
