-- ===== src/Tests/Registration.antt =====
-- A registration on an empty table, and a token that is read back.
use supply_chain_tracker.Prelude.{
  ℕ, String, ◌∙◌, ◌≡◌, refl, none, some, [], ◌+◌, true, leb, if◌then◌else◌,
}
use supply_chain_tracker.Outcome.{returns, raises, jwt_error}
use supply_chain_tracker.Auth.Repository.{Accounts}
use supply_chain_tracker.Auth.Service.{Setup}
use supply_chain_tracker.Auth.Provider.{Libraries, get_current_user}
use supply_chain_tracker.Auth.Api.{RegisterRequest, TokenResponse, register, login}
use supply_chain_tracker.Tests.Fixtures.{codec}
use supply_chain_tracker.Auth.ApiLaws.{stateless, register-get_current_user}

-- a token is its expiry, in unary; the library knows that every token is Eve's
abbrev trusting : Setup
trusting = record {
  sha256 = λ raw. raw;
  hash_password = λ salt password. password;
  verify_password = λ password hashed. true;
  encode = λ subject role expiry. codec.show_time expiry;
  access_span = 60;
  refresh_span = 600;
  violation = λ role. none;
}

abbrev eve : RegisterRequest
eve = record { username = "eve"; email = "eve@home"; password = "pw"; role = "admin" }

abbrev nobody : Accounts
nobody = record {
  users = [];
  tokens = [];
  clock = λ k. 100 + k;
  ticks = 0;
  uuids = λ k. 50 + k;
  drawn = 0;
  secrets = λ k. "secret";
  dealt = 0;
}

abbrev library : Libraries
library = record {
  decode = λ instant token. elim (codec.parse_time token) [
    | none ↦ raises jwt_error
    | some exp ↦
        if leb instant exp
        then returns (record { sub = some "eve"; exp = some exp; role = some "admin" })
        else raises jwt_error
  ];
  verify_password = λ password hashed. true;
}

decode-token :
    (t exp : ℕ) (token : String)
    → codec.parse_time token ≡ some exp
    → library.decode t token ≡ (
        if leb t exp
        then returns (record { sub = some "eve"; exp = some exp; role = some "admin" })
        else raises jwt_error)
decode-token t exp token e = rw (e, library) refl

-- who asks for the role of an administrator gets it
register-get_current_user_example :
    (tokens : TokenResponse) × ((login trusting "eve" "pw" (register trusting eve nobody).1).0
      ≡ returns tokens)
    × (get_current_user library stateless 130 tokens.access_token
        ≡ returns (record { username = "eve"; hashed_password = ""; role = "admin" }))
register-get_current_user_example =
    register-get_current_user trusting eve nobody library 130 refl refl refl refl refl refl
      (λ t exp e. decode-token t exp (codec.show_time exp) (codec.parse-show_time exp) ∙ rw e refl)
      (λ t exp e. decode-token t exp (codec.show_time exp) (codec.parse-show_time exp) ∙ rw e refl)
