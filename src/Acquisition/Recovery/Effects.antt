-- ===== src/Acquisition/Recovery/Effects.antt =====
-- What each decision of acquisition/recovery.py writes: its audit row, and its own source's
-- operational columns.
use data_hub_backend.Base.{
  ℕ, ◌≤◌, ◌≡◌, refl, sym, ap, ◌∙◌, subst, Bool, false, Option, some, List, ◌∷◌, arith, length, take,
  ltb, Bool-cases, Option-cases, inl, inr, ◌⊎◌, ◌==◌, ℕ_eq, String_eq, nat_eq_iff,
}
use data_hub_backend.Base.Counts.{All2, All2-update, find-update}
use data_hub_backend.Base.Result.{ok, ok_injective}
use data_hub_backend.Acquisition.Schema.{Source, Db, Urls}
use data_hub_backend.Acquisition.Lease.{source_of}
use data_hub_backend.Acquisition.Runner.{at_source}
use data_hub_backend.Acquisition.Recovery.State.{
  AcquisitionRecoveryAction, Actor, SourceState, AuditRow, Ledger, check_reason, source_state,
  snapshot, tidied, state_of, min_reason_length,
}
use data_hub_backend.Acquisition.Recovery.{append_audit}

-- What a decision about the source `id` may do to a source.
pub record Keeps (id : ℕ) (s s' : Source) : Type 0 where
  pub same_id : s'.id ≡ s.id
  pub same_url : s'.url ≡ s.url
  pub same_activity : s'.is_active ≡ s.is_active
  pub same_trust : s'.publication_eligibility ≡ s.publication_eligibility
  pub elsewhere : (s.id ≡ id) ⊎ (s' ≡ s)

-- The row that a decision logs: its actor, action and source, the operator's reason, tidied and cut
-- at 400 characters, and the states that the view shows before and after.
abbrev pub decision_row :
    (ℕ → Bool)
    → Actor
    → AcquisitionRecoveryAction
    → ℕ
    → List ℕ
    → Bool
    → SourceState
    → SourceState
    → AuditRow
decision_row is_space actor action id reason host_too before after = record {
  actor = actor;
  action = action;
  object_id = id;
  before_state = snapshot before;
  after_state = snapshot after;
  reason = take 400 (tidied is_space reason);
  host_pause_cleared = host_too;
}

-- A decision was carried out and logged: one audit row with the operator's reason, of at least
-- eight characters, and the states before and after; `state` is the one after. The other sources,
-- the queue, the terminal records and the blobs are as they were.
pub record Decides (urls : Urls) (is_space : ℕ → Bool) (now : ℕ) (actor : Actor)
    (action : AcquisitionRecoveryAction) (id : ℕ) (reason : List ℕ) (host_too : Bool)
    (before : Ledger) (state : SourceState) (after : Ledger) : Type 0 where
  pub state_before : SourceState
  pub read_before : source_state urls now id before.db ≡ ok state_before
  pub read_after : source_state urls now id after.db ≡ ok state
  pub logged :
      after.audit_log
      ≡ decision_row is_space actor action id reason host_too state_before state ∷ before.audit_log
  pub explained : min_reason_length ≤ length (tidied is_space reason)
  pub same_trust : state.publication_eligibility ≡ state_before.publication_eligibility
  pub sources : All2 (Keeps id) before.db.sources after.db.sources
  pub attempts : after.db.attempts ≡ before.db.attempts
  pub runs : after.db.runs ≡ before.db.runs
  pub snapshots : after.db.snapshots ≡ before.db.snapshots
  pub blobs : after.db.blobs ≡ before.db.blobs

-- A reason that is accepted has at least eight characters once tidied, and is kept up to 400.
pub check_reason-ok :
    (is_space : ℕ → Bool) (reason : List ℕ) {cleaned : List ℕ}
    → check_reason is_space reason ≡ ok cleaned
    → (min_reason_length ≤ length (tidied is_space reason))
      × (cleaned ≡ take 400 (tidied is_space reason))
unfolding check_reason
check_reason-ok is_space reason {cleaned} e =
    let all = tidied is_space reason in
    elim (Bool-cases (ltb (length all) min_reason_length)) [
      | inl short ↦ absurd (ground arith)
      | inr long ↦
          (ltb_false (length all) min_reason_length long, sym (ok_injective (rw long at e)))
    ]
  where
    ltb_false : (a b : ℕ) → ltb a b ≡ false → b ≤ a
    ltb_false a b h = ground arith

pub at_source-Keeps :
    (id : ℕ) (f : Source → Source) (db : Db)
    → ((s : Source) → (f s).id ≡ s.id)
    → ((s : Source) → (f s).url ≡ s.url)
    → ((s : Source) → (f s).is_active ≡ s.is_active)
    → ((s : Source) → (f s).publication_eligibility ≡ s.publication_eligibility)
    → All2 (Keeps id) db.sources (at_source id f db).sources
at_source-Keeps id f db i u a p =
    All2-update (Keeps id) (λ s. s.id == id) f
      (λ s. record {
        same_id = refl;
        same_url = refl;
        same_activity = refl;
        same_trust = refl;
        elsewhere = inr refl;
      })
      (λ s h. record {
        same_id = i s;
        same_url = u s;
        same_activity = a s;
        same_trust = p s;
        elsewhere = inl ((nat_eq_iff s.id id).0 h);
      })
      db.sources

-- The source that a decision is about, after its UPDATE.
pub source_of-at_source :
    (id : ℕ) (f : Source → Source) (db : Db) {s : Source}
    → ((t : Source) → (f t).id ≡ t.id)
    → source_of db id ≡ some s
    → source_of (at_source id f db) id ≡ some (f s)
source_of-at_source id f db i e =
    find-update (λ s. s.id == id) f (λ s. ap (λ n. n == id) (i s)) db.sources e

-- The state that is read is that of the source.
pub source_state_of :
    (urls : Urls) (now id : ℕ) (db : Db) {state : SourceState}
    → source_state urls now id db ≡ ok state
    → (s : Source) × (source_of db id ≡ some s) × (state ≡ state_of urls now db s)
unfolding source_state
source_state_of urls now id db e = elim (Option-cases (source_of db id)) [
  | inl none_of ↦ absurd (cc (rw none_of at e))
  | inr (s, found) ↦ (s, found, sym (ok_injective (rw found at e)))
]

-- The columns that an UPDATE of a decision leaves alone.
pub record IsOperational (f : Source → Source) : Type 0 where
  pub id : (s : Source) → (f s).id ≡ s.id
  pub url : (s : Source) → (f s).url ≡ s.url
  pub activity : (s : Source) → (f s).is_active ≡ s.is_active
  pub trust : (s : Source) → (f s).publication_eligibility ≡ s.publication_eligibility

-- The UPDATE, the state after it and the audit row make a decision.
pub updated-Decides :
    (urls : Urls) (is_space : ℕ → Bool) (now id : ℕ) (actor : Actor)
    (action : AcquisitionRecoveryAction) (f : Source → Source) (ledger : Ledger)
    (cleaned reason : List ℕ) (host_too : Bool) (db : Db) {before after : SourceState} {s : Source}
    → IsOperational f
    → check_reason is_space reason ≡ ok cleaned
    → source_of ledger.db id ≡ some s
    → source_state urls now id ledger.db ≡ ok before
    → before ≡ state_of urls now ledger.db s
    → source_state urls now id db ≡ ok after
    → db ≡ record ledger.db {
      sources = (at_source id f ledger.db).sources;
      host_cooldowns = db.host_cooldowns;
    }
    → Decides urls is_space now actor action id reason host_too ledger after
        (append_audit actor action id before after cleaned host_too (record ledger { db = db }))
updated-Decides urls is_space now id actor action f ledger cleaned reason host_too db {before}
      {after} {s} keep accepted was read_first eb read same =
    let (t, found, ea) = source_state_of urls now id db read in
    let (long, kept) = check_reason-ok is_space reason accepted in
    let source_now : source_of db id ≡ some (f s) =
      ap (λ (d : Db). source_of d id) same ∙ source_of-at_source id f ledger.db keep.id was in
    let which : t ≡ f s = some_injective (sym found ∙ source_now) in
    let trust : after.publication_eligibility ≡ before.publication_eligibility =
      ap (λ (x : SourceState). x.publication_eligibility) ea
      ∙ ap (λ (x : Source). x.publication_eligibility) which
      ∙ keep.trust s
      ∙ sym (ap (λ (x : SourceState). x.publication_eligibility) eb) in
    record {
      state_before = before;
      read_before = read_first;
      read_after = read;
      logged =
          ap
            (λ (r : List ℕ).
              (append_audit actor action id before after r host_too ledger).audit_log)
            kept;
      explained = long;
      same_trust = trust;
      sources =
          subst (λ (d : Db). All2 (Keeps id) ledger.db.sources d.sources) (sym same)
            (at_source-Keeps id f ledger.db keep.id keep.url keep.activity keep.trust);
      attempts = ap (λ (d : Db). d.attempts) same;
      runs = ap (λ (d : Db). d.runs) same;
      snapshots = ap (λ (d : Db). d.snapshots) same;
      blobs = ap (λ (d : Db). d.blobs) same;
    }
  where
    some_injective : {a b : Source} → ◌≡◌ {A = Option Source} (some a) (some b) → a ≡ b
    some_injective e = cc
