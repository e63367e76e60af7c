-- ===== src/Auth/Sessions.antt =====
-- A refresh token is good for one use, whatever requests come in between.
use supply_chain_tracker.Prelude.{
  ℕ, suc, String, true, false, ◌≡◌, ◌≤◌, refl, ◌∙◌, subst, sym, Option, none, some, List, [], ◌∷◌,
  str_eq, Bool-cases, Option-cases, inl, inr, arith,
}
use supply_chain_tracker.Outcome.{
  Error, raises, invalid_credentials, user_not_found, http_exception,
}
use supply_chain_tracker.Exec.{Exec, pure, or_raise, swallow, for_each, ◌>>=◌, ◌>>◌}
use supply_chain_tracker.Exec.Laws.{Preserves, >>=-Preserves, for_each-Preserves, continue-pure}
use supply_chain_tracker.Auth.Repository.{
  User, RefreshToken, Accounts, find_valid, first_user, is_valid_at, is_taken, revoke_rows,
  has_hash, get_valid, revoke, get_by_id, get_by_username, get_by_email, save_token, save_user,
}
use supply_chain_tracker.Auth.Service.{
  Setup, authenticate, refresh, renew, create_access_token, create_refresh_token,
}
use supply_chain_tracker.Auth.Service
use supply_chain_tracker.Auth.Api.{
  RegisterRequest, TokenResponse, token_response, me_response, attempt, on_invalid, on_refused,
  on_exists,
}
use supply_chain_tracker.Auth.Api
use supply_chain_tracker.Auth.Laws.{IsSpent, refresh_token-IsSpent, revoke_rows-IsSpent}

-- A request to the authentication service.
pub data Request : Type 0 where
  registering : RegisterRequest → Request
  logging_in : String → String → Request
  refreshing : String → Request

module _ (env : Setup) where
  abbrev pub handle : Request → Exec Accounts (Unit {0})
  handle (registering body) = do Api.register env body; pure tt
  handle (logging_in username password) = do Api.login env username password; pure tt
  handle (refreshing raw) = do Api.refresh_tokens env raw; pure tt

  -- the service over the requests that it gets, one after the other
  unfoldable pub handle_all : List Request → Exec Accounts (Unit {0})
  handle_all requests = for_each requests (λ request. swallow tt (handle request))

-- No row with the hash is valid, and no token that is still to be dealt has it.
abbrev pub IsGone : Setup → String → Accounts → Type 0
IsGone env hash s =
    IsSpent hash s.tokens × ((n : ℕ) → s.dealt ≤ n → str_eq (env.sha256 (s.secrets n)) hash ≡ false)

-- Revoking a row, of this hash or of another, makes no row valid.
revoke_rows-keeps :
    (hash h : String) (rows : List RefreshToken)
    → IsSpent hash rows
    → IsSpent hash (revoke_rows h rows)
revoke_rows-keeps hash h [] spent t = refl
revoke_rows-keeps hash h (row ∷ rows) spent t =
    let rest : IsSpent hash rows = λ u. elim (Bool-cases (is_valid_at hash u row)) [
      | inl e ↦ let clash : some row ≡ none = rw e at (spent u) in absurd (cc clash)
      | inr e ↦ rw e at (spent u)
    ] in
    elim (Bool-cases (str_eq row.token_hash h)) [
      | inl e ↦ rw e (elim (Bool-cases (str_eq row.token_hash hash)) [
        | inl f ↦ rw f (revoke_rows-keeps hash h rows rest t)
        | inr f ↦ rw f (revoke_rows-keeps hash h rows rest t)
      ])
      | inr e ↦ rw e (elim (Bool-cases (is_valid_at hash t row)) [
        | inl f ↦ let clash : some row ≡ none = rw f at (spent t) in absurd (cc clash)
        | inr f ↦ rw f (revoke_rows-keeps hash h rows rest t)
      ])
    ]

module _ (env : Setup) (hash : String) where
  save_user-IsGone : (user : User) → Preserves (IsGone env hash) (save_user env.violation user)
  unfolding save_user
  save_user-IsGone user s g = elim (Option-cases (env.violation user.role)) [
    | inl e ↦
        rw (e, save_user)
          (elim (Bool-cases (is_taken user s.users)) [ inl f ↦ rw f g | inr f ↦ rw f g ])
    | inr (x, e) ↦ rw (e, save_user) g
  ]

  create_refresh_token-dealt :
      (user : User) (s : Accounts)
      → ((create_refresh_token env user s).1.dealt ≡ suc s.dealt)
        × ((create_refresh_token env user s).1.secrets ≡ s.secrets)
  unfolding create_refresh_token save_token
  create_refresh_token-dealt user s =
      elim (Bool-cases (has_hash (env.sha256 (s.secrets s.dealt)) s.tokens)) [
        | inl e ↦ rw (e, save_token) (refl, refl)
        | inr e ↦ rw (e, save_token) (refl, refl)
      ]

  create_refresh_token-IsGone :
      (user : User) → Preserves (IsGone env hash) (create_refresh_token env user)
  create_refresh_token-IsGone user s (spent, fresh) =
      let (dealt, secrets) = create_refresh_token-dealt user s in
      (
        refresh_token-IsSpent env hash user s spent (fresh s.dealt (omega arith)),
        λ n le. rw secrets (fresh n (omega (arith, dealt))),
      )

  register-IsGone :
      (username email password role : String)
      → Preserves (IsGone env hash) (Service.register env username email password role)
  unfolding Service.register get_by_username get_by_email
  register-IsGone username email password role s (spent, fresh) =
      elim (Option-cases (first_user (λ user. str_eq user.username username) s.users)) [
        | inr (user, e) ↦ rw (e, Service.register, get_by_username) (spent, fresh)
        | inl e ↦
            rw (e, Service.register, get_by_username)
              (elim (Option-cases (first_user (λ user. str_eq user.email email) s.users)) [
                | inr (user, f) ↦ rw (f, get_by_email) (spent, fresh)
                | inl f ↦
                    let s₁ : Accounts = record s {
                      ticks = suc s.ticks;
                      drawn = suc s.drawn;
                      dealt = suc s.dealt;
                    } in
                    let user : User = record {
                      user_id = s.uuids s.drawn;
                      username = username;
                      email = email;
                      hashed_password = env.hash_password (s.secrets s.dealt) password;
                      role = role;
                      is_active = true;
                      created_at = s.clock s.ticks;
                      updated_at = s.clock s.ticks;
                    } in
                    rw (f, get_by_email)
                      (save_user-IsGone user s₁ (spent, λ n le. fresh n (omega (arith, le))))
              ])
      ]

  authenticate_effect :
      (username password : String) (s : Accounts) → (authenticate env username password s).1 ≡ s
  unfolding authenticate get_by_username
  authenticate_effect username password s =
      elim (Option-cases (first_user (λ user. str_eq user.username username) s.users)) [
        | inl e ↦ rw (e, authenticate, get_by_username) refl
        | inr (user, e) ↦
            rw (e, authenticate, get_by_username)
              (elim (Bool-cases (env.verify_password password user.hashed_password)) [
                | inl f ↦ rw f refl
                | inr f ↦ rw f refl
              ])
      ]

  -- the two new tokens, and an answer that is made of them
  abbrev deal : {B : Type 0} → User → (String → String → B) → Exec Accounts B
  deal user answer = do
    access ← create_access_token env user
    raw ← create_refresh_token env user
    pure (answer access raw)

  deal-IsGone :
      {B : Type 0} (user : User) (answer : String → String → B)
      → Preserves (IsGone env hash) (deal user answer)
  unfolding create_access_token
  deal-IsGone {B} user answer =
      >>=-Preserves (IsGone env hash) (create_access_token env user)
        (λ access. create_refresh_token env user >>= λ raw. pure (answer access raw)) (λ s g. g)
        λ access.
          >>=-Preserves (IsGone env hash) (create_refresh_token env user)
            (λ raw. pure (answer access raw)) (create_refresh_token-IsGone user) λ raw s g. g

  login-IsGone :
      (username password : String) → Preserves (IsGone env hash) (Api.login env username password)
  unfolding Api.login
  login-IsGone username password =
      >>=-Preserves (IsGone env hash) (attempt on_invalid (authenticate env username password))
        (λ user. deal user token_response)
        (λ s g. subst (IsGone env hash) (sym (authenticate_effect username password s)) g)
        λ user. deal-IsGone user token_response

  or_raise-IsGone :
      {A : Type 0} (o : Option A) (x : Error) → Preserves (IsGone env hash) (or_raise o x)
  or_raise-IsGone none x s g = g
  or_raise-IsGone (some a) x s g = g

  renew-IsGone : (user_id : ℕ) → Preserves (IsGone env hash) (renew env user_id)
  unfolding renew get_by_id
  renew-IsGone user_id =
      >>=-Preserves (IsGone env hash) (get_by_id user_id)
        (λ found. or_raise found user_not_found >>= λ user. deal user (λ a r. (a, r))) (λ s g. g)
        λ found.
          >>=-Preserves (IsGone env hash) (or_raise found user_not_found)
            (λ user. deal user (λ a r. (a, r))) (or_raise-IsGone found user_not_found)
            λ user. deal-IsGone user (λ a r. (a, r))

  revoke-IsGone : (h : String) → Preserves (IsGone env hash) (revoke h)
  unfolding revoke
  revoke-IsGone h s (spent, fresh) = (revoke_rows-keeps hash h s.tokens spent, fresh)

  refresh-IsGone : (raw : String) → Preserves (IsGone env hash) (refresh env raw)
  unfolding refresh get_valid
  refresh-IsGone raw =
      >>=-Preserves (IsGone env hash) (get_valid (env.sha256 raw))
        (λ valid. or_raise valid invalid_credentials >>= λ token.
          revoke (env.sha256 raw) >> renew env token.user_id)
        (λ s g. g)
        λ valid.
          >>=-Preserves (IsGone env hash) (or_raise valid invalid_credentials)
            (λ token. revoke (env.sha256 raw) >> renew env token.user_id)
            (or_raise-IsGone valid invalid_credentials)
            λ token.
              >>=-Preserves (IsGone env hash) (revoke (env.sha256 raw))
                (λ u. renew env token.user_id) (revoke-IsGone (env.sha256 raw))
                λ u. renew-IsGone token.user_id

  handle-IsGone : (request : Request) → Preserves (IsGone env hash) (handle env request)
  unfolding Api.register Api.refresh_tokens
  handle-IsGone (registering body) =
      >>=-Preserves (IsGone env hash) (Api.register env body) (λ u. pure tt)
        (>>=-Preserves (IsGone env hash)
          (attempt on_exists
            (Service.register env body.username body.email body.password body.role))
          (λ user. pure (me_response user))
          (register-IsGone body.username body.email body.password body.role) λ user s g. g)
        λ u s g. g
  handle-IsGone (logging_in username password) =
      >>=-Preserves (IsGone env hash) (Api.login env username password) (λ u. pure tt)
        (login-IsGone username password) λ u s g. g
  handle-IsGone (refreshing raw) =
      >>=-Preserves (IsGone env hash) (Api.refresh_tokens env raw) (λ u. pure tt)
        (>>=-Preserves (IsGone env hash) (attempt on_refused (refresh env raw))
          (λ tokens. pure (token_response tokens.0 tokens.1)) (refresh-IsGone raw) λ tokens s g. g)
        λ u s g. g

module _ (env : Setup) (raw : String) where
  refresh_tokens_effect : (s : Accounts) → (Api.refresh_tokens env raw s).1 ≡ (refresh env raw s).1
  unfolding Api.refresh_tokens
  refresh_tokens_effect s =
      continue-pure (λ tokens. token_response tokens.0 tokens.1) (on_refused (refresh env raw s).0)
        (refresh env raw s).1

  refresh_tokens-IsGone :
      (s : Accounts) (token : RefreshToken)
      → find_valid (env.sha256 raw) (s.clock s.ticks) s.tokens ≡ some token
      → ((n : ℕ) → s.dealt ≤ n → str_eq (env.sha256 (s.secrets n)) (env.sha256 raw) ≡ false)
      → IsGone env (env.sha256 raw) (Api.refresh_tokens env raw s).1
  unfolding refresh get_valid revoke
  refresh_tokens-IsGone s token valid fresh =
      let hash = env.sha256 raw in
      let s₀ : Accounts = record s { ticks = suc s.ticks; tokens = revoke_rows hash s.tokens } in
      let used : (refresh env raw s).1 ≡ (renew env token.user_id s₀).1 =
        rw (valid, refresh, get_valid) refl in
      subst (IsGone env hash) (sym (refresh_tokens_effect s ∙ used))
        (renew-IsGone env hash token.user_id s₀ (revoke_rows-IsSpent hash s.tokens, fresh))

  refresh_tokens-refuses :
      (s : Accounts)
      → IsGone env (env.sha256 raw) s
      → (Api.refresh_tokens env raw s).0 ≡ raises (http_exception 401)
  unfolding Api.refresh_tokens refresh get_valid
  refresh_tokens-refuses s gone =
      rw (gone.0 (s.clock s.ticks), Api.refresh_tokens, refresh, get_valid) refl

-- A refresh token that the service finds valid, where no token that it deals from then on has the
-- same hash: once the token was used, whatever the renewal came to, and whatever registrations,
-- logins and renewals come in after that, using it again is answered by 401.
pub refresh_tokens-once :
    (env : Setup) (raw : String) (requests : List Request) (s : Accounts) (token : RefreshToken)
    → find_valid (env.sha256 raw) (s.clock s.ticks) s.tokens ≡ some token
    → ((n : ℕ) → s.dealt ≤ n → str_eq (env.sha256 (s.secrets n)) (env.sha256 raw) ≡ false)
    → let s₁ = (Api.refresh_tokens env raw s).1 in
      let s₂ = (handle_all env requests s₁).1 in
      (Api.refresh_tokens env raw s₂).0 ≡ raises (http_exception 401)
unfolding handle_all
refresh_tokens-once env raw requests s token valid fresh =
    let s₁ = (Api.refresh_tokens env raw s).1 in
    refresh_tokens-refuses env raw (handle_all env requests s₁).1 (
      for_each-Preserves (IsGone env (env.sha256 raw)) requests (handle env)
        (handle-IsGone env (env.sha256 raw)) s₁ (refresh_tokens-IsGone env raw s token valid fresh))
