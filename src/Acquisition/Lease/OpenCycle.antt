-- ===== src/Acquisition/Lease/OpenCycle.antt =====
-- oldest_open_cycle of acquisition/lease.py: the cycle that a bounded worker is told to work on. The
-- collation of the database, by which it orders the keys of the cycles, is an argument.
use data_hub_backend.Base.{
  ℕ, ◌≡◌, refl, inl, inr, String, Bool, true, false, ◌&&◌, ◌||◌, Option, none, some, List, [], ◌∷◌,
  ltb, ◌==◌, ℕ_eq, if◌then◌else◌, select, All, Bool-cases, arith,
}
use mathlib.Core.List.{Memᴰ}
use data_hub_backend.Acquisition.Schema.{FetchAttempt, Db, is_queued}

-- `ORDER BY scheduled_for, cycle_key`: an attempt without a time comes last.
abbrev pub scheduled_before : Option ℕ → Option ℕ → Bool → Bool
scheduled_before none none tie = tie
scheduled_before none (some _) tie = false
scheduled_before (some _) none tie = true
scheduled_before (some s) (some t) tie = ltb s t || (s == t && tie)

abbrev pub opens_before : (String → String → Bool) → FetchAttempt → FetchAttempt → Bool
opens_before collates a b =
    scheduled_before a.scheduled_for b.scheduled_for (collates a.cycle_key b.cycle_key)

-- `LIMIT 1` of the rows in that order.
abbrev pub older : (String → String → Bool) → FetchAttempt → Option FetchAttempt → FetchAttempt
older collates a none = a
older collates a (some b) = if opens_before collates a b then a else b

unfoldable pub oldest : (String → String → Bool) → List FetchAttempt → Option FetchAttempt
oldest collates [] = none
oldest collates (a ∷ rest) = some (older collates a (oldest collates rest))

abbrev pub cycle_of : Option FetchAttempt → Option String
cycle_of none = none
cycle_of (some a) = some a.cycle_key

unfoldable pub oldest_open_cycle : (String → String → Bool) → Db → Option String
unfolding oldest
oldest_open_cycle collates db =
    cycle_of (oldest collates (select (λ a. is_queued a.state) db.attempts))

-- A collation orders any two keys, and its order is transitive.
pub record IsCollation (collates : String → String → Bool) : Type 0 where
  pub total : (k l : String) → collates k l ≡ false → collates l k ≡ true
  pub trans : (k l n : String) → collates k l ≡ true → collates l n ≡ true → collates k n ≡ true

module _ (collates : String → String → Bool) where
  -- The attempt is one of the rows and stands before each of them.
  record Leader (rows : List FetchAttempt) (a : FetchAttempt) : Type 0 where
    pub among : Memᴰ a rows
    pub leads : All (λ b. opens_before collates a b ≡ true) rows

  -- What `oldest` gives, or that there was no row.
  abbrev Chosen : List FetchAttempt → Option FetchAttempt → Type 0
  Chosen rows none = rows ≡ []
  Chosen rows (some a) = Leader rows a

  -- An attempt of this cycle is queued, and it stands before every queued attempt.
  pub record Oldest (db : Db) (key : String) : Type 0 where
    pub attempt : FetchAttempt
    pub among : Memᴰ attempt db.attempts
    pub waits : is_queued attempt.state ≡ true
    pub its_cycle : attempt.cycle_key ≡ key
    pub leads :
        All (λ b. is_queued b.state ≡ true → opens_before collates attempt b ≡ true) db.attempts

  -- Nothing is queued, or the cycle is that of the oldest queued attempt.
  abbrev pub IsOldest : Db → Option String → Type 0
  IsOldest db none = All (λ a. is_queued a.state ≡ false) db.attempts
  IsOldest db (some key) = Oldest db key

module _ (collates : String → String → Bool) (is : IsCollation collates) where
  before_total :
      (a b : FetchAttempt) → opens_before collates a b ≡ false → opens_before collates b a ≡ true
  before_total a b h = ground (arith, is.total a.cycle_key b.cycle_key)

  before_trans :
      (a b c : FetchAttempt)
      → opens_before collates a b ≡ true
      → opens_before collates b c ≡ true
      → opens_before collates a c ≡ true
  before_trans a b c h k = ground (arith, is.trans a.cycle_key b.cycle_key c.cycle_key)

  before_refl : (a : FetchAttempt) → opens_before collates a a ≡ true
  before_refl a = elim (Bool-cases (opens_before collates a a)) [
    | inl e ↦ e
    | inr e ↦ before_total a a e
  ]

  before-All :
      (a b : FetchAttempt) (rows : List FetchAttempt)
      → opens_before collates a b ≡ true
      → All (λ c. opens_before collates b c ≡ true) rows
      → All (λ c. opens_before collates a c ≡ true) rows
  before-All a b [] h k = tt
  before-All a b (c ∷ rest) h k = (before_trans a b c h k.0, before-All a b rest h k.1)

  older-Leader :
      (a : FetchAttempt) (rows : List FetchAttempt) (o : Option FetchAttempt)
      → Chosen collates rows o
      → Leader collates (a ∷ rows) (older collates a o)
  older-Leader a rows none e = rw e (record { among = Memᴰ.head refl; leads = (before_refl a, tt) })
  older-Leader a rows (some b) l = elim (Bool-cases (opens_before collates a b)) [
    | inl e ↦
        rw e (record {
          among = Memᴰ.head refl;
          leads = (before_refl a, before-All a b rows e l.leads);
        })
    | inr e ↦ rw e (record { among = Memᴰ.tail l.among; leads = (before_total a b e, l.leads) })
  ]

  oldest-Chosen : (rows : List FetchAttempt) → Chosen collates rows (oldest collates rows)
  unfolding oldest
  oldest-Chosen [] = refl
  oldest-Chosen (a ∷ rest) = older-Leader a rest (oldest collates rest) (oldest-Chosen rest)

  Mem-select :
      (q : FetchAttempt → Bool) (rows : List FetchAttempt) {a : FetchAttempt}
      → Memᴰ a (select q rows)
      → Memᴰ a rows × (q a ≡ true)
  Mem-select q [] m = elim m [ ]
  Mem-select q (b ∷ rest) {a} m = elim (Bool-cases (q b)) [
    | inl e ↦ of_head e (λ k. Mem-select q rest k) (rw e at m)
    | inr e ↦ let (k, t) = Mem-select q rest (rw e at m) in (Memᴰ.tail k, t)
  ]
    where
      of_head :
          q b ≡ true
          → (Memᴰ a (select q rest) → Memᴰ a rest × (q a ≡ true))
          → Memᴰ a (b ∷ select q rest)
          → Memᴰ a (b ∷ rest) × (q a ≡ true)
      of_head e later (Memᴰ.head h) = (Memᴰ.head h, cc)
      of_head e later (Memᴰ.tail k) = let (k', t) = later k in (Memᴰ.tail k', t)

  All-of_select :
      (q : FetchAttempt → Bool) (P : FetchAttempt → Type 0) (rows : List FetchAttempt)
      → All P (select q rows)
      → All (λ a. q a ≡ true → P a) rows
  All-of_select q P [] all = tt
  All-of_select q P (a ∷ rest) all = elim (Bool-cases (q a)) [
    | inl e ↦ let both = rw e at all in (λ t. both.0, All-of_select q P rest both.1)
    | inr e ↦ (λ t. absurd cc, All-of_select q P rest (rw e at all))
  ]

  select-none :
      (q : FetchAttempt → Bool) (rows : List FetchAttempt)
      → select q rows ≡ []
      → All (λ a. q a ≡ false) rows
  select-none q [] e = tt
  select-none q (a ∷ rest) e = elim (Bool-cases (q a)) [
    | inl t ↦ absurd (ground arith)
    | inr t ↦ (t, select-none q rest (rw t at e))
  ]

  -- `oldest_open_cycle` names no cycle only if no attempt is queued; otherwise it names the cycle
  -- of a queued attempt that stands before every queued one by its time and then its cycle, in
  -- the collation of the database.
  pub oldest_open_cycle-IsOldest : (db : Db) → IsOldest collates db (oldest_open_cycle collates db)
  unfolding oldest_open_cycle
  oldest_open_cycle-IsOldest db = of_choice _ (oldest-Chosen waiting)
    where
      waiting : List FetchAttempt
      waiting = select (λ a. is_queued a.state) db.attempts

      of_choice :
          (o : Option FetchAttempt) → Chosen collates waiting o → IsOldest collates db (cycle_of o)
      of_choice none e = select-none (λ a. is_queued a.state) db.attempts e
      of_choice (some a) l =
          let (among, waits) = Mem-select (λ a. is_queued a.state) db.attempts l.among in
          record {
            attempt = a;
            among = among;
            waits = waits;
            its_cycle = refl;
            leads = All-of_select (λ a. is_queued a.state) _ db.attempts l.leads;
          }
