-- ===== src/Identity/Laws.antt =====
-- Which sessions of domains/identity/sessions.py resolve: the ones that a login opened, until they
-- are revoked or run out.
use data_hub_backend.Base.{
  ℕ, ◌≤◌, ◌≡◌, ◌≢◌, sym, ap, ◌∙◌, String, String_eq, true, false, not, ◌&&◌, Option, none, some,
  List, [], ◌∷◌, arith, ltb, ◌==◌, ℕ_eq, update, is_none, Bool-cases, inl, inr,
}
use mathlib.Core.Bool.{false≢true}
use data_hub_backend.Base.Result.{Result, ok, ok_injective, >>=-eq-ok, guard, guard_holds}
use data_hub_backend.Identity.Tables.{
  Texts, AppUser, UserSession, Accounts, ResolvedSession, no_session, logged_out, expired,
  user_deactivated,
}
use data_hub_backend.Identity.Sessions.{
  identity_of, user_by_id, found, session_by_hash, resolve, revoked, logout, live_of, revoke_all,
}

-- The session of the token is in the table, not revoked and not over, its user is active, and the
-- roles and permissions are those that the tables give the user now.
pub record Live (texts : Texts) (token : String) (moment : ℕ) (db : Accounts) (r : ResolvedSession)
    : Type 0 where
  pub session : UserSession
  pub user : AppUser
  pub in_table : session_by_hash (texts.hash_token token) db.sessions ≡ some session
  pub its_user : user_by_id session.user_id db.users ≡ some user
  pub unrevoked : is_none session.revoked_at ≡ true
  pub unexpired : ltb moment session.expires_at ≡ true
  pub active : user.is_active ≡ true
  pub who : r.user_id ≡ session.user_id
  pub held : (r.roles, r.permissions) ≡ identity_of db session.user_id

pub found_ok {ℓ κ} :
    {E : Type ℓ} {A : Type κ} (e : E) (o : Option A) {a : A}
    → ◌≡◌ {A = Result E A} (found e o) (ok a)
    → o ≡ some a
found_ok e none h = absurd cc
found_ok e (some b) h = cc

-- What resolves is live: an unknown, revoked or expired session, or one of a deactivated user, is
-- refused, and roles and permissions are read anew.
pub resolve-Live :
    (texts : Texts) (token : String) (moment : ℕ) (db : Accounts) {r : ResolvedSession}
    → resolve texts token moment db ≡ ok r
    → Live texts token moment db r
unfolding resolve
resolve-Live texts token moment db {r} e =
    let (_, _, e1) = >>=-eq-ok (guard (not (texts.strip token == "")) no_session) _ e in
    let (s, in_table, e2) =
      >>=-eq-ok (found no_session (session_by_hash (texts.hash_token token) db.sessions)) _ e1 in
    let (u, its_user, e3) = >>=-eq-ok (found no_session (user_by_id s.user_id db.users)) _ e2 in
    let (_, unrevoked, e4) = >>=-eq-ok (guard (is_none s.revoked_at) logged_out) _ e3 in
    let (_, unexpired, e5) = >>=-eq-ok (guard (ltb moment s.expires_at) expired) _ e4 in
    let (_, active, e6) = >>=-eq-ok (guard u.is_active user_deactivated) _ e5 in
    let same = ok_injective e6 in
    record {
      session = s;
      user = u;
      in_table =
          found_ok no_session (session_by_hash (texts.hash_token token) db.sessions) in_table;
      its_user = found_ok no_session (user_by_id s.user_id db.users) its_user;
      unrevoked = guard_holds (is_none s.revoked_at) logged_out unrevoked;
      unexpired = guard_holds (ltb moment s.expires_at) expired unexpired;
      active = guard_holds u.is_active user_deactivated active;
      who = sym (ap (λ (x : ResolvedSession). x.user_id) same);
      held = sym (ap (λ (x : ResolvedSession). (x.roles, x.permissions)) same);
    }

find-logged_out :
    (hash : String) (moment : ℕ) (rows : List UserSession) {s : UserSession}
    → session_by_hash hash
        (update (λ x. x.token_hash == hash && is_none x.revoked_at) (revoked moment) rows)
      ≡ some s
    → is_none s.revoked_at ≡ false
find-logged_out hash moment [] e = absurd cc
find-logged_out hash moment (x ∷ rest) {s} e = elim (Bool-cases (x.token_hash == hash)) [
  | inr other ↦ find-logged_out hash moment rest {s = s} (ground (arith, e))
  | inl this ↦ elim (Bool-cases (is_none x.revoked_at)) [
    | inl open_until_now ↦
        let same : revoked moment x ≡ s = ground (arith, e) in
        ap (λ (y : UserSession). is_none y.revoked_at) (sym same)
    | inr closed ↦
        let same : x ≡ s = ground (arith, e) in
        ap (λ (y : UserSession). is_none y.revoked_at) (sym same) ∙ closed
  ]
]

find-revoked :
    (hash : String) (user_id moment t : ℕ) (rows : List UserSession) {s : UserSession}
    → session_by_hash hash (update (live_of user_id moment) (revoked moment) rows) ≡ some s
    → moment ≤ t
    → s.user_id ≡ user_id
    → (is_none s.revoked_at && ltb t s.expires_at) ≡ false
find-revoked hash user_id moment t [] e h w = absurd cc
find-revoked hash user_id moment t (x ∷ rest) {s} e h w = elim (Bool-cases (x.token_hash == hash)) [
  | inr other ↦ find-revoked hash user_id moment t rest {s = s} (ground (arith, e)) h w
  | inl this ↦ elim (Bool-cases (live_of user_id moment x)) [
    | inl live ↦
        let same : revoked moment x ≡ s = ground (arith, e) in
        ap (λ (y : UserSession). is_none y.revoked_at && ltb t y.expires_at) (sym same)
    | inr dead ↦
        let same : x ≡ s = ground (arith, e) in
        let whose : x.user_id ≡ user_id = ap (λ (y : UserSession). y.user_id) same ∙ w in
        ap (λ (y : UserSession). is_none y.revoked_at && ltb t y.expires_at) (sym same)
        ∙ ground (arith, dead, whose, h)
  ]
]

-- After a logout, the token never resolves, at any moment.
pub logout-resolve :
    (texts : Texts) (token : String) (moment t : ℕ) (db : Accounts) (r : ResolvedSession)
    → resolve texts token t (logout texts token moment db).1 ≢ ok r
unfolding logout
logout-resolve texts token moment t db r e =
    let l = resolve-Live texts token t (logout texts token moment db).1 e in
    absurd (
      false≢true (
        sym (find-logged_out (texts.hash_token token) moment db.sessions l.in_table) ∙ l.unrevoked))

-- After all sessions of a user are revoked, no session that the tables hold resolves to that user,
-- then or later.
pub revoke_all-resolve :
    (texts : Texts) (user_id moment : ℕ) (db : Accounts) (token : String) (t : ℕ)
    (r : ResolvedSession)
    → moment ≤ t
    → resolve texts token t (revoke_all user_id moment db).1 ≡ ok r
    → r.user_id ≢ user_id
unfolding revoke_all
revoke_all-resolve texts user_id moment db token t r h e w =
    let l = resolve-Live texts token t (revoke_all user_id moment db).1 e in
    let gone =
      find-revoked (texts.hash_token token) user_id moment t db.sessions l.in_table h
        (sym l.who ∙ w) in
    absurd (ground (arith, gone, l.unrevoked, l.unexpired))
