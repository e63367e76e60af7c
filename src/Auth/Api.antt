-- ===== src/Auth/Api.antt =====
-- services/auth_service/src/api: the DTOs and the handlers.
use supply_chain_tracker.Prelude.{ℕ, String, Bool}
use supply_chain_tracker.Outcome.{
  Outcome, returns, raises, user_already_exists, invalid_credentials, user_not_found,
  http_exception,
}
use supply_chain_tracker.Exec.{Exec, pure, ◌>>=◌}
use supply_chain_tracker.Auth.Repository.{User, Accounts}
use supply_chain_tracker.Auth.Provider.{UserInDb}
use supply_chain_tracker.Auth.Service.{Setup}
use supply_chain_tracker.Auth.Service

pub record RegisterRequest : Type 0 where
  pub username : String
  pub email : String
  pub password : String
  pub role : String

pub record TokenResponse : Type 0 where
  pub access_token : String
  pub refresh_token : String
  pub token_type : String

pub record MeResponse : Type 0 where
  pub user_id : ℕ
  pub username : String
  pub email : String
  pub role : String
  pub is_active : Bool

abbrev pub me_response : User → MeResponse
me_response user = record {
  user_id = user.user_id;
  username = user.username;
  email = user.email;
  role = user.role;
  is_active = user.is_active;
}

-- `TokenResponse(access_token=..., refresh_token=...)`
abbrev pub token_response : String → String → TokenResponse
token_response access refresh = record {
  access_token = access;
  refresh_token = refresh;
  token_type = "bearer";
}

-- The `except` clauses of the handlers; what they do not name is passed on.
abbrev pub on_exists : {A : Type 0} → Outcome A → Outcome A
on_exists (returns a) = returns a
on_exists (raises e) = elim e [
  | user_already_exists ↦ raises (http_exception 409)
  | other ↦ raises other
]

abbrev pub on_invalid : {A : Type 0} → Outcome A → Outcome A
on_invalid (returns a) = returns a
on_invalid (raises e) = elim e [
  | invalid_credentials ↦ raises (http_exception 401)
  | other ↦ raises other
]

abbrev pub on_refused : {A : Type 0} → Outcome A → Outcome A
on_refused (returns a) = returns a
on_refused (raises e) = elim e [
  | invalid_credentials ↦ raises (http_exception 401)
  | user_not_found ↦ raises (http_exception 401)
  | other ↦ raises other
]

abbrev pub on_missing : {A : Type 0} → Outcome A → Outcome A
on_missing (returns a) = returns a
on_missing (raises e) = elim e [
  | user_not_found ↦ raises (http_exception 404)
  | other ↦ raises other
]

-- `try: m except ...`
abbrev pub attempt : {A : Type 0} → (Outcome A → Outcome A) → Exec Accounts A → Exec Accounts A
attempt catch m s = let (r, s') = m s in (catch r, s')

module _ (env : Setup) where
  unfoldable pub register : RegisterRequest → Exec Accounts MeResponse
  register body = do
    user ← attempt on_exists (Service.register env body.username body.email body.password body.role)
    pure (me_response user)

  unfoldable pub login : String → String → Exec Accounts TokenResponse
  login username password = do
    user ← attempt on_invalid (Service.authenticate env username password)
    access_token ← Service.create_access_token env user
    refresh_token ← Service.create_refresh_token env user
    pure (token_response access_token refresh_token)

  unfoldable pub refresh_tokens : String → Exec Accounts TokenResponse
  refresh_tokens refresh_token = do
    tokens ← attempt on_refused (Service.refresh env refresh_token)
    let (access, refresh) = tokens
    pure (token_response access refresh)

unfoldable pub get_me : UserInDb → Exec Accounts MeResponse
get_me current_user = do
  user ← attempt on_missing (Service.get_me current_user.username)
  pure (me_response user)
