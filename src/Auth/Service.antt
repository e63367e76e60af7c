-- ===== src/Auth/Service.antt =====
-- services/auth_service/src/app/services/auth.py: AuthService
use supply_chain_tracker.Prelude.{
  ℕ, String, Bool, true, not, Option, none, some, ◌+◌, if◌then◌else◌,
}
use supply_chain_tracker.Outcome.{Error, user_already_exists, invalid_credentials, user_not_found}
use supply_chain_tracker.Exec.{Exec, pure, raise, or_raise, ◌>>=◌, ◌>>◌}
use supply_chain_tracker.Auth.Repository.{
  User, Accounts, now, uuid4, token_urlsafe, save_user, get_by_id, get_by_username, get_by_email,
  save_token, get_valid, revoke,
}

-- The libraries that the service calls: SHA-256 as a hex digest, bcrypt (a hash takes the salt
-- drawn), and the signed token of a subject, a role and an expiry; the settings, as spans on the
-- clock's scale; and the exception that the CHECK on the role raises, if any.
pub record Setup : Type 0 where
  pub sha256 : String → String
  pub hash_password : String → String → String
  pub verify_password : String → String → Bool
  pub encode : String → String → ℕ → String
  pub access_span : ℕ
  pub refresh_span : ℕ
  pub violation : String → Option Error

module _ (env : Setup) where
  unfoldable pub register : String → String → String → String → Exec Accounts User
  register username email password role = do
    by_name ← get_by_username username
    elim by_name [
      | some user ↦ raise user_already_exists
      | none ↦ do
        by_email ← get_by_email email
        elim by_email [
          | some user ↦ raise user_already_exists
          | none ↦ do
            t ← now
            user_id ← uuid4
            salt ← token_urlsafe
            save_user env.violation (record {
              user_id = user_id;
              username = username;
              email = email;
              hashed_password = env.hash_password salt password;
              role = role;
              is_active = true;
              created_at = t;
              updated_at = t;
            })
        ]
    ]

  unfoldable pub authenticate : String → String → Exec Accounts User
  authenticate username password = do
    found ← get_by_username username
    user ← or_raise found invalid_credentials
    if not (env.verify_password password user.hashed_password)
        then raise invalid_credentials
        else pure user

  unfoldable pub create_access_token : User → Exec Accounts String
  create_access_token user = do
    t ← now
    pure (env.encode user.username user.role (t + env.access_span))

  unfoldable pub create_refresh_token : User → Exec Accounts String
  create_refresh_token user = do
    raw_token ← token_urlsafe
    t ← now
    save_token user.user_id (env.sha256 raw_token) (t + env.refresh_span)
    pure raw_token

  -- after the token was revoked: the user, and the new tokens
  unfoldable pub renew : ℕ → Exec Accounts (String × String)
  renew user_id = do
    found ← get_by_id user_id
    user ← or_raise found user_not_found
    new_access ← create_access_token user
    new_refresh ← create_refresh_token user
    pure (new_access, new_refresh)

  unfoldable pub refresh : String → Exec Accounts (String × String)
  refresh raw_token = do
    valid ← get_valid (env.sha256 raw_token)
    token ← or_raise valid invalid_credentials
    revoke (env.sha256 raw_token)
    renew token.user_id

unfoldable pub get_me : String → Exec Accounts User
get_me username = do found ← get_by_username username; or_raise found user_not_found
