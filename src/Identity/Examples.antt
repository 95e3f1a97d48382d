-- ===== src/Identity/Examples.antt =====
-- A reviewer who logs in, on concrete data.
use data_hub_backend.Base.{String_eq, true, false, none, some, [], ◌∷◌, ◌≢◌, ◌==◌, refl, arith}
use data_hub_backend.Base.Result.{Result, ok, err}
use data_hub_backend.Identity.Tables.{
  Hasher, Texts, AppUser, Accounts, IssuedSession, ResolvedSession, SessionRefusedError,
}
use data_hub_backend.Identity.Sessions.{
  Minted, login, resolve, logout, revoke_all, verify_password, roles_of, permissions_of,
}
use data_hub_backend.Identity.Laws.{Live, resolve-Live, logout-resolve, revoke_all-resolve}
use data_hub_backend.Identity.Login.{Resolves, login-resolve}

abbrev plain : Texts
plain = record { hash_token = λ t. t; lower = λ t. t; strip = λ t. t }

abbrev hasher : Hasher
hasher = record {
  verify = λ stored password. stored == "h";
  check_needs_rehash = λ stored. false;
  hash = λ password. "h";
}

abbrev reviewer : AppUser
reviewer = record {
  id = 3;
  email = "r@hub";
  display_name = "R";
  password_hash = some "h";
  is_active = true;
}

abbrev accounts : Accounts
accounts = record {
  users = reviewer ∷ [];
  user_roles = (record { user_id = 3; role_code = "reviewer" }) ∷ [];
  role_permissions = (record { role_code = "reviewer"; permission_code = "source:verify" }) ∷ [];
  sessions =
      (record {
        id = 8;
        user_id = 3;
        token_hash = "old";
        issued_at = 0;
        expires_at = 900;
        revoked_at = none;
      })
      ∷ [];
}

abbrev minted : Minted
minted = record { token = "new"; csrf = "c"; session_id = 9 }

abbrev logged_in : Result SessionRefusedError (IssuedSession × Accounts)
logged_in = login hasher plain false minted "r@hub" (1 ∷ []) 60 100 accounts

abbrev issued : IssuedSession
issued = record {
  session_id = 9;
  token = "new";
  csrf_token = "c";
  expires_at = 3600000100;
  user_id = 3;
  email = "r@hub";
  display_name = "R";
  roles = "reviewer" ∷ [];
  permissions = "source:verify" ∷ [];
}

abbrev accounts_of : Result SessionRefusedError (IssuedSession × Accounts) → Accounts
accounts_of (ok (_, db)) = db
accounts_of (err _) = accounts

login-resolve_example : Resolves plain 200 (issued, accounts_of logged_in)
unfolding login verify_password roles_of permissions_of
login-resolve_example =
    login-resolve hasher plain false minted "r@hub" (1 ∷ []) 60 100 200 accounts {issued = issued}
      {db' = accounts_of logged_in} (λ i. ground arith) refl refl (omega arith)

abbrev old_session : ResolvedSession
old_session = record {
  session_id = 8;
  user_id = 3;
  email = "r@hub";
  display_name = "R";
  roles = "reviewer" ∷ [];
  permissions = "source:verify" ∷ [];
  expires_at = 900;
}

resolve-Live_example : Live plain "old" 200 accounts old_session
unfolding resolve roles_of permissions_of
resolve-Live_example = resolve-Live plain "old" 200 accounts refl

logout-resolve_example :
    resolve plain "old" 200 (logout plain "old" 150 accounts).1 ≢ ok old_session
logout-resolve_example = logout-resolve plain "old" 150 200 accounts old_session

-- Another user's sessions are revoked, and this one resolves to its own user.
revoke_all-resolve_example : old_session.user_id ≢ 4
unfolding resolve roles_of permissions_of revoke_all
revoke_all-resolve_example =
    revoke_all-resolve plain 4 150 accounts "old" 200 old_session (omega arith) refl
