-- ===== src/Identity/Tables.antt =====
-- The tables of domains/identity/models.py that sessions.py reads and writes, and the values that its
-- functions and those of passwords.py return. A password is a list of characters; the password
-- hasher, the token hash and the functions on texts are arguments.
use data_hub_backend.Base.{ℕ, String, Bool, Option, List, ℕ_eq, String_eq}

abbrev pub minimum_length : ℕ
minimum_length = 12

abbrev pub verify_permission : String
verify_permission = "source:verify"

-- What `argon2.PasswordHasher` does.
pub record Hasher : Type 0 where
  pub verify : String → List ℕ → Bool
  pub check_needs_rehash : String → Bool
  pub hash : List ℕ → String

-- SHA-256 in hexadecimal, SQL `lower`, and Python's `strip`.
pub record Texts : Type 0 where
  pub hash_token : String → String
  pub lower : String → String
  pub strip : String → String

pub record AppUser : Type 0 where
  pub id : ℕ
  pub email : String
  pub display_name : String
  pub password_hash : Option String
  pub is_active : Bool

pub record UserRole : Type 0 where
  pub user_id : ℕ
  pub role_code : String

pub record RolePermission : Type 0 where
  pub role_code : String
  pub permission_code : String

pub record UserSession : Type 0 where
  pub id : ℕ
  pub user_id : ℕ
  pub token_hash : String
  pub issued_at : ℕ
  pub expires_at : ℕ
  pub revoked_at : Option ℕ

pub record Accounts : Type 0 where
  pub users : List AppUser
  pub user_roles : List UserRole
  pub role_permissions : List RolePermission
  pub sessions : List UserSession

pub data SessionRefusedError : Type 0 where
  no_account deactivated weak_password not_permitted : SessionRefusedError

pub data SessionExpiredError : Type 0 where
  no_session logged_out expired user_deactivated : SessionExpiredError

pub record IssuedSession : Type 0 where
  pub session_id : ℕ
  pub token : String
  pub csrf_token : String
  pub expires_at : ℕ
  pub user_id : ℕ
  pub email : String
  pub display_name : String
  pub roles : List String
  pub permissions : List String

pub record ResolvedSession : Type 0 where
  pub session_id : ℕ
  pub user_id : ℕ
  pub email : String
  pub display_name : String
  pub roles : List String
  pub permissions : List String
  pub expires_at : ℕ

pub record VerificationResult : Type 0 where
  pub matched : Bool
  pub replacement_hash : Option String
