-- ===== src/Auth/Laws.antt =====
-- A refresh token is good for one use.
use supply_chain_tracker.Prelude.{
  ℕ, suc, String, ◌≡◌, refl, false, none, some, List, [], ◌∷◌, ◌++◌, str_eq, Bool-cases,
  Option-cases, inl, inr, ◌+◌,
}
use supply_chain_tracker.Outcome.{raises, invalid_credentials}
use supply_chain_tracker.Exec.Laws.{continue-pure}
use supply_chain_tracker.Table.{find}
use supply_chain_tracker.Auth.Repository.{
  User, RefreshToken, Accounts, user_key, find_valid, is_valid_at, revoke_rows, has_hash, get_valid,
  revoke, get_by_id, save_token,
}
use supply_chain_tracker.Auth.Service.{
  Setup, refresh, renew, create_access_token, create_refresh_token,
}

-- No row with the hash is valid, at any instant.
abbrev pub IsSpent : String → List RefreshToken → Type 0
IsSpent hash rows = (t : ℕ) → find_valid hash t rows ≡ none

pub revoke_rows-IsSpent :
    (hash : String) (rows : List RefreshToken) → IsSpent hash (revoke_rows hash rows)
revoke_rows-IsSpent hash [] t = refl
revoke_rows-IsSpent hash (row ∷ rows) t = elim (Bool-cases (str_eq row.token_hash hash)) [
  | inl e ↦ rw e (rw e (revoke_rows-IsSpent hash rows t))
  | inr e ↦ rw e (rw e (revoke_rows-IsSpent hash rows t))
]

find_valid-append :
    (hash : String) (rows : List RefreshToken) (row : RefreshToken) (t : ℕ)
    → find_valid hash t rows ≡ none
    → str_eq row.token_hash hash ≡ false
    → find_valid hash t (rows ++ row ∷ []) ≡ none
find_valid-append hash [] row t spent other = rw other refl
find_valid-append hash (x ∷ rows) row t spent other = elim (Bool-cases (is_valid_at hash t x)) [
  | inl e ↦ let clash : some x ≡ none = rw e at spent in absurd (cc clash)
  | inr e ↦
      let later : find_valid hash t rows ≡ none = rw e at spent in
      rw e (find_valid-append hash rows row t later other)
]

module _ (env : Setup) (hash : String) where
  save_token-IsSpent :
      (user_id : ℕ) (new : String) (expires_at : ℕ) (s : Accounts)
      → IsSpent hash s.tokens
      → str_eq new hash ≡ false
      → IsSpent hash (save_token user_id new expires_at s).1.tokens
  unfolding save_token
  save_token-IsSpent user_id new expires_at s spent other t =
      elim (Bool-cases (has_hash new s.tokens)) [
        | inl e ↦ rw (e, save_token) (spent t)
        | inr e ↦ rw (e, save_token) (find_valid-append hash s.tokens _ t (spent t) other)
      ]

  pub refresh_token-IsSpent :
      (user : User) (s : Accounts)
      → IsSpent hash s.tokens
      → str_eq (env.sha256 (s.secrets s.dealt)) hash ≡ false
      → IsSpent hash (create_refresh_token env user s).1.tokens
  unfolding create_refresh_token
  refresh_token-IsSpent user s spent other =
      let raw = s.secrets s.dealt in
      let expires_at = s.clock s.ticks + env.refresh_span in
      let s₁ : Accounts = record s { dealt = suc s.dealt; ticks = suc s.ticks } in
      let stored = save_token user.user_id (env.sha256 raw) expires_at s₁ in
      rw (continue-pure (λ u. raw) stored.0 stored.1)
        (save_token-IsSpent user.user_id (env.sha256 raw) expires_at s₁ spent other)

  renew-IsSpent :
      (user_id : ℕ) (s : Accounts)
      → IsSpent hash s.tokens
      → str_eq (env.sha256 (s.secrets s.dealt)) hash ≡ false
      → IsSpent hash (renew env user_id s).1.tokens
  unfolding renew get_by_id create_access_token
  renew-IsSpent user_id s spent other = elim (Option-cases (find user_key user_id s.users)) [
    | inl e ↦ rw (e, renew, get_by_id) spent
    | inr (user, e) ↦
        let s₁ : Accounts = record s { ticks = suc s.ticks } in
        let access = env.encode user.username user.role (s.clock s.ticks + env.access_span) in
        let made = create_refresh_token env user s₁ in
        rw (e, renew, get_by_id)
          (rw (continue-pure {B = String × String} (λ raw. (access, raw)) made.0 made.1)
            (refresh_token-IsSpent user s₁ spent other))
  ]

-- A refresh token that the service finds valid, where the token that it deals next has another
-- hash: once the token was used, whatever the renewal came to, using it again raises
-- InvalidCredentialsError.
pub refresh-refresh :
    (env : Setup) (raw : String) (s : Accounts) (token : RefreshToken)
    → find_valid (env.sha256 raw) (s.clock s.ticks) s.tokens ≡ some token
    → str_eq (env.sha256 (s.secrets s.dealt)) (env.sha256 raw) ≡ false
    → (refresh env raw (refresh env raw s).1).0 ≡ raises invalid_credentials
unfolding refresh get_valid revoke
refresh-refresh env raw s token valid fresh =
    let hash = env.sha256 raw in
    let s₁ : Accounts = record s { ticks = suc s.ticks; tokens = revoke_rows hash s.tokens } in
    let spent = renew-IsSpent env hash token.user_id s₁ (revoke_rows-IsSpent hash s.tokens) fresh in
    let after = (renew env token.user_id s₁).1 in
    let run : (refresh env raw s).1 ≡ after = rw (valid, refresh, get_valid) refl in
    rw run (rw (spent (after.clock after.ticks), refresh, get_valid) refl)
