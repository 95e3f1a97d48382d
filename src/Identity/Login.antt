-- ===== src/Identity/Login.antt =====
-- What a login of domains/identity/sessions.py opens resolves until it is over.
use data_hub_backend.Base.{
  ℕ, ◌≤◌, ◌<◌, ◌+◌, ◌*◌, ◌≡◌, refl, sym, ap, ◌∙◌, subst, String, String_eq, Bool, true, false,
  Option, none, some, List, [], ◌∷◌, arith, ltb, ◌==◌, ℕ_eq, find, count, is_none, Bool-cases, inl,
  inr,
}
use data_hub_backend.Base.Counts.{find-update}
use data_hub_backend.Base.Sets.{member, beq_refl}
use data_hub_backend.Base.Result.{ok, ok_injective, >>=-eq-ok, guard, guard_holds}
use data_hub_backend.Identity.Tables.{
  Hasher, Texts, AppUser, UserSession, Accounts, IssuedSession, ResolvedSession, no_account,
  deactivated, not_permitted, verify_permission,
}
use data_hub_backend.Identity.Sessions.{
  Minted, verify_password, identity_of, user_by_email, user_by_id, upgrade, found, login,
  session_by_hash, resolve,
}
use data_hub_backend.Identity.Laws.{found_ok}

some_injective {ℓ} : {A : Type ℓ} {a b : A} → ◌≡◌ {A = Option A} (some a) (some b) → a ≡ b
some_injective e = cc

count-found {ℓ} :
    {A : Type ℓ} (p q : A → Bool) (rows : List A) {a : A}
    → find p rows ≡ some a
    → q a ≡ true
    → 1 ≤ count q rows
count-found p q [] e t = absurd cc
count-found p q (x ∷ rest) {a} e t = elim (Bool-cases (p x)) [
  | inl this ↦ let same : x ≡ a = some_injective (rw this at e) in ground (arith, ap q same)
  | inr other ↦ ground (arith, count-found p q rest {a = a} (rw other at e) t)
]

-- A row found by one test is the one that another test finds, if it meets that one and alone does.
found_by {ℓ} :
    {A : Type ℓ} (p q : A → Bool) (rows : List A) {a : A}
    → find p rows ≡ some a
    → q a ≡ true
    → count q rows ≤ 1
    → find q rows ≡ some a
found_by p q [] e t one = absurd cc
found_by p q (x ∷ rest) {a} e t one = elim (Bool-cases (p x)) [
  | inl this ↦ let same : x ≡ a = some_injective (rw this at e) in rw (ap q same ∙ t) (ap some same)
  | inr other ↦ elim (Bool-cases (q x)) [
    | inl both ↦ absurd (ground (arith, count-found p q rest {a = a} (rw other at e) t))
    | inr not_it ↦ rw not_it (found_by p q rest {a = a} (rw other at e) t (ground arith))
  ]
]

-- Hashing a password again changes no id, no activity and no other user.
user_by_id-upgrade :
    (may_write : Bool) (id : ℕ) (replacement : Option String) (users : List AppUser) {u : AppUser}
    → user_by_id id users ≡ some u
    → (v : AppUser) × (user_by_id id (upgrade may_write id replacement users) ≡ some v)
      × (v.is_active ≡ u.is_active)
user_by_id-upgrade may_write id none users {u} e = (u, e, refl)
user_by_id-upgrade false id (some h) users {u} e = (u, e, refl)
user_by_id-upgrade true id (some h) users {u} e = (
  record u { password_hash = some h },
  find-update (λ x. x.id == id) (λ x. record x { password_hash = some h }) (λ x. refl) users e,
  refl,
)

-- The session that resolves, from its row and its user.
abbrev resolved : Accounts → UserSession → AppUser → ResolvedSession
resolved db s u = record {
  session_id = s.id;
  user_id = s.user_id;
  email = u.email;
  display_name = u.display_name;
  roles = (identity_of db s.user_id).0;
  permissions = (identity_of db s.user_id).1;
  expires_at = s.expires_at;
}

resolve_live :
    (texts : Texts) (token : String) (t : ℕ) (db : Accounts) (s : UserSession) (u : AppUser)
    → (texts.strip token == "") ≡ false
    → session_by_hash (texts.hash_token token) db.sessions ≡ some s
    → user_by_id s.user_id db.users ≡ some u
    → is_none s.revoked_at ≡ true
    → ltb t s.expires_at ≡ true
    → u.is_active ≡ true
    → resolve texts token t db ≡ ok (resolved db s u)
unfolding resolve
resolve_live texts token t db s u blank in_table its unrevoked unexpired active =
    rw blank (rw in_table (rw its (rw unrevoked (rw unexpired (rw active refl)))))

ltb_of : (a b : ℕ) → a < b → ltb a b ≡ true
ltb_of a b h = ground arith

-- The token of what a login gave resolves in the tables that it left.
abbrev pub Resolves : Texts → ℕ → IssuedSession × Accounts → Type 0
Resolves texts t (issued, db) =
    (r : ResolvedSession) × (resolve texts issued.token t db ≡ ok r)
    × (r.user_id ≡ issued.user_id)
    × (r.roles ≡ issued.roles)
    × (r.permissions ≡ issued.permissions)

-- The token of a login resolves until the session is over, to the user that logged in and with the
-- roles and permissions that the login gave, where ids of users are unique and the token is not
-- blank.
pub login-resolve :
    (hasher : Hasher) (texts : Texts) (may_write : Bool) (minted : Minted) (email : String)
    (password : List ℕ) (ttl moment t : ℕ) (db : Accounts) {issued : IssuedSession} {db' : Accounts}
    → ((i : ℕ) → count (λ u. u.id == i) db.users ≤ 1)
    → (texts.strip minted.token == "") ≡ false
    → login hasher texts may_write minted email password ttl moment db ≡ ok (issued, db')
    → t < issued.expires_at
    → Resolves texts t (issued, db')
unfolding login
login-resolve hasher texts may_write minted email password ttl moment t db {issued} {db'} unique
      blank e soon =
    let (user, e0, e1) = >>=-eq-ok (found no_account (user_by_email texts email db.users)) _ e in
    let (checked, _, e2) = >>=-eq-ok (verify_password hasher user.password_hash password) _ e1 in
    let (_, _, e3) = >>=-eq-ok (guard checked.matched no_account) _ e2 in
    let (_, active, e4) = >>=-eq-ok (guard user.is_active deactivated) _ e3 in
    let (_, _, e5) =
      >>=-eq-ok (guard (member verify_permission (identity_of db user.id).1) not_permitted) _ e4 in
    let by_email = found_ok no_account (user_by_email texts email db.users) e0 in
    let by_id =
      found_by _ (λ u. u.id == user.id) db.users by_email (beq_refl user.id) (unique user.id) in
    let (v, now, same) =
      user_by_id-upgrade may_write user.id checked.replacement_hash db.users by_id in
    let session : UserSession = record {
      id = minted.session_id;
      user_id = user.id;
      token_hash = texts.hash_token minted.token;
      issued_at = moment;
      expires_at = moment + ttl * 60000000;
      revoked_at = none;
    } in
    let after : Accounts = record db {
      users = upgrade may_write user.id checked.replacement_hash db.users;
      sessions = session ∷ db.sessions;
    } in
    let result = ok_injective e5 in
    let until : t < moment + ttl * 60000000 =
      subst (λ (p : IssuedSession × Accounts). t < p.0.expires_at) (sym result) soon in
    subst (Resolves texts t) result (
      resolved after session v,
      resolve_live texts minted.token t after session v blank
          (rw (beq_refl (texts.hash_token minted.token)) refl) now refl
          (ltb_of t (moment + ttl * 60000000) until)
          (same ∙ guard_holds user.is_active deactivated active),
      refl,
      refl,
      refl,
    )
