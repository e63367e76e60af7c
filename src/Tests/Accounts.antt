-- ===== src/Tests/Accounts.antt =====
-- A user with one refresh token.
use supply_chain_tracker.Prelude.{◌≡◌, refl, none, [], ◌∷◌, ◌+◌, true, false}
use supply_chain_tracker.Outcome.{raises, http_exception}
use supply_chain_tracker.Auth.Repository.{User, RefreshToken, Accounts}
use supply_chain_tracker.Auth.Service.{Setup}
use supply_chain_tracker.Auth.Api
use supply_chain_tracker.Auth.Sessions.{logging_in, refreshing, handle_all, refresh_tokens-once}

-- a hash that is the identity, and tokens that are their subjects
abbrev plain : Setup
plain = record {
  sha256 = λ raw. raw;
  hash_password = λ salt password. password;
  verify_password = λ password hashed. true;
  encode = λ subject role expiry. subject;
  access_span = 60;
  refresh_span = 600;
  violation = λ role. none;
}

abbrev bob : User
bob = record {
  user_id = 1;
  username = "bob";
  email = "bob@depot";
  hashed_password = "pw";
  role = "operator";
  is_active = true;
  created_at = 5;
  updated_at = 5;
}

abbrev token : RefreshToken
token = record {
  token_id = 2;
  user_id = 1;
  token_hash = "first";
  expires_at = 500;
  revoked = false;
  created_at = 6;
}

abbrev accounts : Accounts
accounts = record {
  users = bob ∷ [];
  tokens = token ∷ [];
  clock = λ k. 100 + k;
  ticks = 0;
  uuids = λ k. 50 + k;
  drawn = 0;
  secrets = λ k. "second";
  dealt = 0;
}

refresh_tokens-once_example :
    let s₁ = (Api.refresh_tokens plain "first" accounts).1 in
    let s₂ = (handle_all plain (logging_in "bob" "pw" ∷ refreshing "first" ∷ []) s₁).1 in
    (Api.refresh_tokens plain "first" s₂).0 ≡ raises (http_exception 401)
refresh_tokens-once_example =
    refresh_tokens-once plain "first" (logging_in "bob" "pw" ∷ refreshing "first" ∷ []) accounts
      token refl λ n le. refl
