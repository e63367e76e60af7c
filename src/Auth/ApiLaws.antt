-- ===== src/Auth/ApiLaws.antt =====
-- What a user who registers can do afterwards.
use supply_chain_tracker.Prelude.{
  ℕ, suc, ◌≡◌, refl, Bool, true, false, ◌&&◌, ◌||◌, none, some, [], ◌∷◌, ◌+◌, ◌==◌, str_eq,
  Bool-cases, inl, inr, leb, if◌then◌else◌,
}
use supply_chain_tracker.Outcome.{returns, raises, jwt_error, http_exception}
use supply_chain_tracker.Table.{Table, find, upsert, stored}
use supply_chain_tracker.Auth.Repository.{
  User, Accounts, user_key, merge_user, first_user, is_taken, has_hash, save_user, get_by_username,
  get_by_email, save_token,
}
use supply_chain_tracker.Auth.Provider.{
  Libraries, JwtAuthProvider, decode_token, catch_jwt_error, user_of_payload, get_current_user,
}
use supply_chain_tracker.Auth.Service
use supply_chain_tracker.Auth.Service.{
  Setup, authenticate, create_access_token, create_refresh_token,
}
use text.Mathlib.TextPositions.{eq_refl}
use supply_chain_tracker.Auth.Api.{RegisterRequest, TokenResponse, register, login, token_response}

-- A new row with a key that no row has goes to the end, and is the first one to satisfy what no
-- other row satisfies.
first_user-upsert :
    (p : User → Bool) (new : User) (users : Table User)
    → find user_key new.user_id users ≡ none
    → first_user p users ≡ none
    → p new ≡ true
    → first_user p (upsert user_key merge_user new users) ≡ some new
first_user-upsert p new [] free before now = rw now refl
first_user-upsert p new (x ∷ users) free before now = elim (Bool-cases (x.user_id == new.user_id)) [
  | inl e ↦ let clash : some x ≡ none = rw e at free in absurd (cc clash)
  | inr e ↦ elim (Bool-cases (p x)) [
    | inl f ↦ let clash : some x ≡ none = rw f at before in absurd (cc clash)
    | inr f ↦
        let free' : find user_key new.user_id users ≡ none = rw e at free in
        let before' : first_user p users ≡ none = rw f at before in
        rw e (rw f (first_user-upsert p new users free' before' now))
  ]
]

and_false : (b : Bool) → (b && false || false) ≡ false
and_false true = refl
and_false false = refl

-- A name and an address that no row has are not taken.
first_user-is_taken :
    (user : User) (users : Table User)
    → first_user (λ u. str_eq u.username user.username) users ≡ none
    → first_user (λ u. str_eq u.email user.email) users ≡ none
    → is_taken user users ≡ false
first_user-is_taken user [] name email = refl
first_user-is_taken user (x ∷ users) name email =
    elim (Bool-cases (str_eq x.username user.username)) [
      | inl e ↦ let clash : some x ≡ none = rw e at name in absurd (cc clash)
      | inr e ↦ elim (Bool-cases (str_eq x.email user.email)) [
        | inl f ↦ let clash : some x ≡ none = rw f at email in absurd (cc clash)
        | inr f ↦
            let name' : first_user (λ u. str_eq u.username user.username) users ≡ none =
              rw e at name in
            let email' : first_user (λ u. str_eq u.email user.email) users ≡ none = rw f at email in
            rw e (rw f (rw (first_user-is_taken user users name' email') (and_false _)))
      ]
    ]

stored_new :
    (new : User) (users : Table User)
    → find user_key new.user_id users ≡ none
    → stored user_key merge_user new users ≡ new
stored_new new users free = rw (free, stored) refl

-- The provider of the services: no dictionary of users.
abbrev pub stateless : JwtAuthProvider
stateless = record { users = []; stateless = true }

-- the user that `register` makes
abbrev made : Setup → RegisterRequest → Accounts → User
made env body s = record {
  user_id = s.uuids s.drawn;
  username = body.username;
  email = body.email;
  hashed_password = env.hash_password (s.secrets s.dealt) body.password;
  role = body.role;
  is_active = true;
  created_at = s.clock s.ticks;
  updated_at = s.clock s.ticks;
}

module _ (env : Setup) (body : RegisterRequest) (s : Accounts) where
  abbrev after_register : Accounts
  after_register = record s {
    users = upsert user_key merge_user (made env body s) s.users;
    ticks = suc s.ticks;
    drawn = suc s.drawn;
    dealt = suc s.dealt;
  }

  registered :
      first_user (λ u. str_eq u.username body.username) s.users ≡ none
      → first_user (λ u. str_eq u.email body.email) s.users ≡ none
      → find user_key (s.uuids s.drawn) s.users ≡ none
      → env.violation body.role ≡ none
      → Service.register env body.username body.email body.password body.role s
        ≡ (returns (made env body s), after_register)
  unfolding Service.register get_by_username get_by_email save_user
  registered name email free ok =
      rw (name, Service.register)
        (rw (email) (
          rw (ok, save_user)
            (rw (first_user-is_taken (made env body s) s.users name email)
              (rw (stored_new (made env body s) s.users free) refl))))

  -- A registration, then a login: where the name and the address are free, the identifier drawn is
  -- new, and the row with the requested role is accepted, where bcrypt verifies the hash that it
  -- made, where the refresh token's hash is new, and where jose decodes what it encoded up to its
  -- expiry and raises JWTError afterwards: the new user's login returns an access token, and, until
  -- the span of an access token has passed since the login, every service takes its bearer for a
  -- user with the name and with the role that the body of the registration asked for, whatever that
  -- role is; from then on a service answers 401.
  pub register-get_current_user :
      (libraries : Libraries) (instant : ℕ)
      → first_user (λ u. str_eq u.username body.username) s.users ≡ none
      → first_user (λ u. str_eq u.email body.email) s.users ≡ none
      → find user_key (s.uuids s.drawn) s.users ≡ none
      → env.violation body.role ≡ none
      → env.verify_password body.password (env.hash_password (s.secrets s.dealt) body.password)
        ≡ true
      → has_hash (env.sha256 (s.secrets (suc s.dealt))) s.tokens ≡ false
      → ((t exp : ℕ)
          → leb t exp ≡ true
          → libraries.decode t (env.encode body.username body.role exp)
            ≡ returns (record { sub = some body.username; exp = some exp; role = some body.role }))
      → ((t exp : ℕ)
          → leb t exp ≡ false
          → libraries.decode t (env.encode body.username body.role exp) ≡ raises jwt_error)
      → let (registration, s₁) = register env body s in
        (tokens : TokenResponse) × ((login env body.username body.password s₁).0 ≡ returns tokens)
        × (get_current_user libraries stateless instant tokens.access_token ≡ (
            if leb instant (s.clock (suc s.ticks) + env.access_span)
            then returns
                (record { username = body.username; hashed_password = ""; role = body.role })
            else raises (http_exception 401)))
  unfolding register login get_current_user authenticate get_by_username create_access_token
      create_refresh_token save_token decode_token catch_jwt_error user_of_payload
  register-get_current_user libraries instant name email free ok verified new decodes expires =
      let held =
        first_user-upsert (λ u. str_eq u.username body.username) (made env body s) s.users free name
          (eq_refl body.username) in
      rw (registered name email free ok) (
        token_response
            (env.encode body.username body.role (s.clock (suc s.ticks) + env.access_span))
            (s.secrets (suc s.dealt)),
        rw (held, login) (rw verified (rw (new, save_token) refl)),
        elim (Bool-cases (leb instant (s.clock (suc s.ticks) + env.access_span))) [
          | inl e ↦
              rw
                (
                  decodes instant (s.clock (suc s.ticks) + env.access_span) e,
                  e,
                  get_current_user,
                  decode_token,
                )
                refl
          | inr e ↦
              rw
                (
                  expires instant (s.clock (suc s.ticks) + env.access_span) e,
                  e,
                  get_current_user,
                  decode_token,
                )
                refl
        ],
      )
