-- ===== src/Auth/Repository.antt =====
-- services/auth_service/src/domain/entities/user.py, and src/infra/db: the repositories of users
-- and of refresh tokens.
use supply_chain_tracker.Prelude.{
  ℕ, suc, String, Bool, true, false, not, ◌&&◌, ◌||◌, Option, none, some, List, [], ◌∷◌, ◌++◌, ◌==◌,
  ltb, str_eq, if◌then◌else◌,
}
use supply_chain_tracker.Outcome.{Error, returns, raises, unique_violation}
use supply_chain_tracker.Exec.{Exec}
use supply_chain_tracker.Table.{Table, find, upsert, stored}

pub record User : Type 0 where
  pub user_id : ℕ
  pub username : String
  pub email : String
  pub hashed_password : String
  pub role : String
  pub is_active : Bool
  pub created_at : ℕ
  pub updated_at : ℕ

pub record RefreshToken : Type 0 where
  pub token_id : ℕ
  pub user_id : ℕ
  pub token_hash : String
  pub expires_at : ℕ
  pub revoked : Bool
  pub created_at : ℕ

-- `clock`, `uuids` and `secrets` give the readings of the clock, the draws of identifiers and the
-- draws of `secrets.token_urlsafe(32)` to come.
pub record Accounts : Type 0 where
  pub users : Table User
  pub tokens : List RefreshToken
  pub clock : ℕ → ℕ
  pub ticks : ℕ
  pub uuids : ℕ → ℕ
  pub drawn : ℕ
  pub secrets : ℕ → String
  pub dealt : ℕ

-- a reading of the clock, the process's or NOW()
abbrev pub now : Exec Accounts ℕ
now s = (returns (s.clock s.ticks), record s { ticks = suc s.ticks })

abbrev pub uuid4 : Exec Accounts ℕ
uuid4 s = (returns (s.uuids s.drawn), record s { drawn = suc s.drawn })

abbrev pub token_urlsafe : Exec Accounts String
token_urlsafe s = (returns (s.secrets s.dealt), record s { dealt = suc s.dealt })

abbrev pub user_key : User → ℕ
user_key user = user.user_id

-- DO UPDATE SET leaves user_id and created_at
abbrev pub merge_user : User → User → User
merge_user old new = record new { user_id = old.user_id; created_at = old.created_at }

-- the row of the first user that satisfies a condition
abbrev pub first_user : (User → Bool) → Table User → Option User
first_user p [] = none
first_user p (user ∷ users) = if p user then some user else first_user p users

-- UNIQUE: another user has the name or the address
abbrev pub is_taken : User → Table User → Bool
is_taken user [] = false
is_taken user (other ∷ users) =
    (not (other.user_id == user.user_id)
      && (str_eq other.username user.username || str_eq other.email user.email))
    || is_taken user users

-- `violation` is the exception that the CHECK on the role raises, if any.
unfoldable pub save_user : (String → Option Error) → User → Exec Accounts User
save_user violation user s = elim (violation user.role) [
  | some e ↦ (raises e, s)
  | none ↦ if is_taken user s.users then (raises unique_violation, s) else (
    returns (stored user_key merge_user user s.users),
    record s { users = upsert user_key merge_user user s.users },
  )
]

unfoldable pub get_by_id : ℕ → Exec Accounts (Option User)
get_by_id user_id s = (returns (find user_key user_id s.users), s)

unfoldable pub get_by_username : String → Exec Accounts (Option User)
get_by_username username s =
    (returns (first_user (λ user. str_eq user.username username) s.users), s)

unfoldable pub get_by_email : String → Exec Accounts (Option User)
get_by_email email s = (returns (first_user (λ user. str_eq user.email email) s.users), s)

-- a row has the hash
abbrev pub has_hash : String → List RefreshToken → Bool
has_hash token_hash [] = false
has_hash token_hash (row ∷ rows) = str_eq row.token_hash token_hash || has_hash token_hash rows

-- INSERT, with `gen_random_uuid()`, false and NOW() as the other columns
unfoldable pub save_token : ℕ → String → ℕ → Exec Accounts (Unit {0})
save_token user_id token_hash expires_at s =
    if has_hash token_hash s.tokens then (raises unique_violation, s) else (
      returns tt,
      record s {
        tokens =
            s.tokens
            ++ record {
              token_id = s.uuids s.drawn;
              user_id = user_id;
              token_hash = token_hash;
              expires_at = expires_at;
              revoked = false;
              created_at = s.clock s.ticks;
            }
              ∷ [];
        drawn = suc s.drawn;
        ticks = suc s.ticks;
      },
    )

-- WHERE token_hash = $1 AND revoked = false AND expires_at > NOW()
abbrev pub is_valid_at : String → ℕ → RefreshToken → Bool
is_valid_at token_hash t row =
    str_eq row.token_hash token_hash && (not row.revoked && ltb t row.expires_at)

abbrev pub find_valid : String → ℕ → List RefreshToken → Option RefreshToken
find_valid token_hash t [] = none
find_valid token_hash t (row ∷ rows) =
    if is_valid_at token_hash t row then some row else find_valid token_hash t rows

unfoldable pub get_valid : String → Exec Accounts (Option RefreshToken)
get_valid token_hash s =
    (returns (find_valid token_hash (s.clock s.ticks) s.tokens), record s { ticks = suc s.ticks })

-- UPDATE ... SET revoked = true WHERE token_hash = $1
abbrev pub revoke_rows : String → List RefreshToken → List RefreshToken
revoke_rows token_hash [] = []
revoke_rows token_hash (row ∷ rows) =
    let rest = revoke_rows token_hash rows in
    if str_eq row.token_hash token_hash then record row { revoked = true } ∷ rest else row ∷ rest

unfoldable pub revoke : String → Exec Accounts (Unit {0})
revoke token_hash s = (returns tt, record s { tokens = revoke_rows token_hash s.tokens })
