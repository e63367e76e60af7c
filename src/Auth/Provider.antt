-- ===== src/Auth/Provider.antt =====
-- libs/libs/auth: the token payload, JWTAuthProvider and require_role. The library that checks a
-- token's signature and expiry (jose) is a parameter.
use supply_chain_tracker.Prelude.{
  ℕ, String, Bool, false, Option, none, some, List, [], ◌∷◌, ◌||◌, str_eq, if◌then◌else◌,
}
use supply_chain_tracker.Outcome.{
  Outcome, returns, raises, require, jwt_error, key_error, http_exception,
}

pub record UserInDb : Type 0 where
  pub username : String
  pub hashed_password : String
  pub role : String

pub record TokenPayload : Type 0 where
  pub sub : String
  pub exp : ℕ
  pub role : String

-- the dictionary that `jose_jwt.decode` gives
pub record Claims : Type 0 where
  pub sub : Option String
  pub exp : Option ℕ
  pub role : Option String

-- `jose_jwt.decode(token, secret_key, algorithms=[algorithm])`, which raises JWTError on a token
-- that is malformed, wrongly signed or expired at the instant of the call; and `bcrypt.checkpw`
pub record Libraries : Type 0 where
  pub decode : ℕ → String → Outcome Claims
  pub verify_password : String → String → Bool

-- `decode_token`, at an instant
unfoldable pub decode_token : Libraries → ℕ → String → Outcome TokenPayload
decode_token libraries instant token = elim (libraries.decode instant token) [
  | raises e ↦ raises e
  | returns payload ↦ elim (require payload.sub key_error) [
    | raises e ↦ raises e
    | returns sub ↦ elim (require payload.exp key_error) [
      | raises e ↦ raises e
      | returns exp ↦ returns (record {
        sub = sub;
        exp = exp;
        role = elim payload.role [ none ↦ "operator" | some role ↦ role ];
      })
    ]
  ]
]

pub record JwtAuthProvider : Type 0 where
  pub users : List (String × UserInDb)
  pub stateless : Bool

-- `self._users.get(username)`, the dictionary as the list of its items
abbrev pub user_named : String → List (String × UserInDb) → Option UserInDb
user_named username [] = none
user_named username ((name, user) ∷ users) =
    if str_eq name username then some user else user_named username users

unfoldable pub authenticate : Libraries → JwtAuthProvider → String → String → Option UserInDb
authenticate libraries provider username password = elim (user_named username provider.users) [
  | none ↦ none
  | some user ↦ if libraries.verify_password password user.hashed_password then some user else none
]

-- `except JWTError: raise credentials_exception`; any other exception is passed on
unfoldable pub catch_jwt_error : Outcome TokenPayload → Outcome TokenPayload
catch_jwt_error (returns payload) = returns payload
catch_jwt_error (raises e) = elim e [
  | jwt_error ↦ raises (http_exception 401)
  | other ↦ raises other
]

-- the user of a payload
unfoldable pub user_of_payload : JwtAuthProvider → TokenPayload → Outcome UserInDb
user_of_payload provider payload =
    if provider.stateless
    then returns (record { username = payload.sub; hashed_password = ""; role = payload.role })
    else require (user_named payload.sub provider.users) (http_exception 401)

-- `_get_current_user`, at an instant
unfoldable pub get_current_user : Libraries → JwtAuthProvider → ℕ → String → Outcome UserInDb
get_current_user libraries provider instant token =
    elim (catch_jwt_error (decode_token libraries instant token)) [
      | raises e ↦ raises e
      | returns payload ↦ user_of_payload provider payload
    ]

-- `role in allowed_roles`
abbrev pub allowed : String → List String → Bool
allowed role [] = false
allowed role (r ∷ rs) = str_eq r role || allowed role rs

-- `require_role(*allowed_roles)`, on the current user
unfoldable pub require_role : List String → UserInDb → Outcome UserInDb
require_role allowed_roles user =
    if allowed user.role allowed_roles then returns user else raises (http_exception 403)
