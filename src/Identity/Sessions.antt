-- ===== src/Identity/Sessions.antt =====
-- domains/identity/sessions.py, with verify_password of passwords.py and permissions_of of
-- verification/identity.py. Of a session row, the address and the agent of the browser are left
-- out, and so is the mark of a test account; roles and permissions come in table order. A password
-- is a list of characters; the password hasher, the token hash and the functions on texts are
-- arguments.
use data_hub_backend.Base.{
  ℕ, ◌+◌, ◌*◌, String, Bool, true, false, not, ◌&&◌, Option, none, some, List, [], ◌∷◌, ltb, ◌==◌,
  ℕ_eq, String_eq, if◌then◌else◌, find, update, count, length, is_none,
}
use data_hub_backend.Base.Result.{Result, ok, err, ◌>>=◌, ◌>>◌, guard}
use data_hub_backend.Base.Sets.{member}
use data_hub_backend.Identity.Tables.{
  minimum_length, verify_permission, Hasher, Texts, AppUser, UserRole, RolePermission, UserSession,
  Accounts, SessionRefusedError, SessionExpiredError, IssuedSession, ResolvedSession,
  VerificationResult, no_account, deactivated, weak_password, not_permitted, no_session, logged_out,
  expired, user_deactivated,
}

-- `hash_password`
abbrev pub hash_password : Hasher → List ℕ → Result SessionRefusedError String
hash_password hasher password =
    if ltb (length password) minimum_length then err weak_password else ok (hasher.hash password)

abbrev pub mismatch : VerificationResult
mismatch = record { matched = false; replacement_hash = none }

abbrev pub matching : Option String → VerificationResult
matching replacement = record { matched = true; replacement_hash = replacement }

abbrev pub rehashed : Hasher → String → List ℕ → Result SessionRefusedError VerificationResult
rehashed hasher stored password =
    if hasher.check_needs_rehash stored
    then (hash_password hasher password >>= λ h. ok (matching (some h)))
    else ok (matching none)

-- `verify_password`: a password that matches is hashed again where the parameters have moved.
unfoldable pub verify_password :
    Hasher → Option String → List ℕ → Result SessionRefusedError VerificationResult
verify_password hasher none password = ok mismatch
verify_password hasher (some stored) password =
    if stored == ""
    then ok mismatch
    else if hasher.verify stored password
    then rehashed hasher stored password
    else ok mismatch

-- The roles of a user, and the permissions that they carry.
unfoldable pub roles_of : ℕ → List UserRole → List String
roles_of user_id [] = []
roles_of user_id (row ∷ rest) =
    let others = roles_of user_id rest in
    if row.user_id == user_id then row.role_code ∷ others else others

unfoldable pub permissions_of : List String → List RolePermission → List String
permissions_of roles [] = []
permissions_of roles (row ∷ rest) =
    let others = permissions_of roles rest in
    if member row.role_code roles then row.permission_code ∷ others else others

-- `_identity`: read anew at each call.
abbrev pub identity_of : Accounts → ℕ → List String × List String
identity_of db user_id =
    let roles = roles_of user_id db.user_roles in (roles, permissions_of roles db.role_permissions)

abbrev pub user_by_email : Texts → String → List AppUser → Option AppUser
user_by_email texts email users =
    find (λ u. texts.lower u.email == texts.lower (texts.strip email)) users

abbrev pub user_by_id : ℕ → List AppUser → Option AppUser
user_by_id id users = find (λ u. u.id == id) users

-- `_try_upgrade_hash`: whether the role may write `app_user` is an argument.
abbrev pub upgrade : Bool → ℕ → Option String → List AppUser → List AppUser
upgrade may_write user_id none users = users
upgrade may_write user_id (some replacement) users =
    if may_write
    then update (λ u. u.id == user_id) (λ u. record u { password_hash = some replacement }) users
    else users

abbrev pub found {ℓ κ} : {E : Type ℓ} {A : Type κ} → E → Option A → Result E A
found e none = err e
found e (some a) = ok a

-- What `secrets` and `uuid4` gave to one login.
pub record Minted : Type 0 where
  pub token : String
  pub csrf : String
  pub session_id : ℕ

unfoldable pub login :
    Hasher
    → Texts
    → Bool
    → Minted
    → String
    → List ℕ
    → ℕ
    → ℕ
    → Accounts
    → Result SessionRefusedError (IssuedSession × Accounts)
unfolding verify_password roles_of permissions_of
login hasher texts may_write minted email password ttl_minutes moment db = do
  user ← found no_account (user_by_email texts email db.users)
  checked ← verify_password hasher user.password_hash password
  guard checked.matched no_account
  guard user.is_active deactivated
  let users = upgrade may_write user.id checked.replacement_hash db.users
  let roles = (identity_of db user.id).0
  let permissions = (identity_of db user.id).1
  guard (member verify_permission permissions) not_permitted
  let expires_at = moment + ttl_minutes * 60000000
  let session : UserSession = record {
    id = minted.session_id;
    user_id = user.id;
    token_hash = texts.hash_token minted.token;
    issued_at = moment;
    expires_at = expires_at;
    revoked_at = none;
  }
  ok (
    record {
      session_id = minted.session_id;
      token = minted.token;
      csrf_token = minted.csrf;
      expires_at = expires_at;
      user_id = user.id;
      email = user.email;
      display_name = user.display_name;
      roles = roles;
      permissions = permissions;
    },
    record db { users = users; sessions = session ∷ db.sessions },
  )

abbrev pub session_by_hash : String → List UserSession → Option UserSession
session_by_hash hash sessions = find (λ s. s.token_hash == hash) sessions

unfoldable pub resolve : Texts → String → ℕ → Accounts → Result SessionExpiredError ResolvedSession
unfolding roles_of permissions_of
resolve texts token moment db = do
  guard (not (texts.strip token == "")) no_session
  session ← found no_session (session_by_hash (texts.hash_token token) db.sessions)
  user ← found no_session (user_by_id session.user_id db.users)
  guard (is_none session.revoked_at) logged_out
  guard (ltb moment session.expires_at) expired
  guard user.is_active user_deactivated
  let roles = (identity_of db session.user_id).0
  let permissions = (identity_of db session.user_id).1
  ok (record {
    session_id = session.id;
    user_id = session.user_id;
    email = user.email;
    display_name = user.display_name;
    roles = roles;
    permissions = permissions;
    expires_at = session.expires_at;
  })

abbrev pub revoked : ℕ → UserSession → UserSession
revoked now s = record s { revoked_at = some now }

-- Whether the call was the one that revoked the session.
unfoldable pub logout : Texts → String → ℕ → Accounts → Bool × Accounts
logout texts token moment db =
    let live : UserSession → Bool =
      λ s. s.token_hash == texts.hash_token token && is_none s.revoked_at in
    (
      not (count live db.sessions == 0),
      record db { sessions = update live (revoked moment) db.sessions },
    )

abbrev pub live_of : ℕ → ℕ → UserSession → Bool
live_of user_id moment s = s.user_id == user_id && (is_none s.revoked_at && ltb moment s.expires_at)

-- How many sessions were closed.
unfoldable pub revoke_all : ℕ → ℕ → Accounts → ℕ × Accounts
revoke_all user_id moment db = (
  count (live_of user_id moment) db.sessions,
  record db { sessions = update (live_of user_id moment) (revoked moment) db.sessions },
)
