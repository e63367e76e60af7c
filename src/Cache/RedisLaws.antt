-- ===== src/Cache/RedisLaws.antt =====
-- What the adapter of Redis gives back.
use Prim.Native.String.{◌++◌ as ◌+++◌}
use supply_chain_tracker.Prelude.{
  ℕ, ◌≡◌, refl, ap, String, true, false, Option, none, some, str_eq, if◌then◌else◌,
}
use supply_chain_tracker.Outcome.{Outcome, returns}
use supply_chain_tracker.Exec.{Exec, pure, lift, swallow, ◌>>=◌, ◌>>◌}
use supply_chain_tracker.Cache.Redis.{
  Client, Given, model, older_model, container, other, Json, Loaded, parsed, not_json, breaks, Got,
  plain, raw, Adapter, make_key, serialized, set, decoded, get, expiry,
}

-- What Redis documents of SET and GET: right after a SET of a text with an expiry that returned, GET
-- of its key returns the text.
pub record IsStore {S : Type 0} (client : Client S) : Type 0 where
  pub get-set :
      (key text : String) (ex : ℕ) (s : S)
      → (client.set_value key text ex s).0 ≡ returns tt
      → (client.get_value key (client.set_value key text ex s).1).0 ≡ returns (some text)

-- The text that a value is stored as: JSON of a model, a dictionary or a list, and otherwise
-- `str(value)`.
abbrev pub text_of : {V : Type 0} → Json V → Given V → Outcome String
text_of json (model v) = json.dumps v
text_of json (older_model v) = json.dumps v
text_of json (container v) = json.dumps v
text_of json (other v) = returns (json.show v)

-- The key in Redis of a key of a service.
abbrev pub full_key : String → String → String
full_key prefix key = if str_eq prefix "" then key else (prefix +++ ":") +++ key

-- The seconds after which a key expires.
abbrev pub seconds_of : ℕ → Option ℕ → ℕ
seconds_of default none = default
seconds_of default (some ttl) = ttl

-- What a text that was stored is read as, where no model is asked for: the data that it is JSON of,
-- the text itself where it is no JSON, and None where json breaks on it.
abbrev pub read_back : {V M : Type 0} → Json V → String → Option (Got V M)
read_back json text = elim (json.loads text) [
  | parsed v ↦ some (plain v)
  | not_json ↦ some (raw text)
  | breaks e ↦ none
]

swallow-returns :
    {S A : Type 0} (a b : A) (m : Exec S A) (s s' : S)
    → m s ≡ (returns b, s')
    → swallow a m s ≡ (returns b, s')
swallow-returns a b m s s' e =
    let first : (m s).0 ≡ returns b = ap (λ x. x.0) e in
    rw (first, swallow) (ap (λ x. (returns b, x.1)) e)

module _ {S V : Type 0} (cache : Adapter S) (json : Json V) where
  serialized-text_of : (value : Given V) → serialized cache json value ≡ text_of json value
  unfolding serialized
  serialized-text_of (model v) = refl
  serialized-text_of (older_model v) = refl
  serialized-text_of (container v) = refl
  serialized-text_of (other v) = refl

  expiry-seconds_of : (ttl : Option ℕ) → expiry cache json ttl ≡ seconds_of cache.default_ttl ttl
  expiry-seconds_of none = refl
  expiry-seconds_of (some n) = refl

  make_key-full_key : (key : String) → make_key cache key ≡ full_key cache.prefix key
  unfolding make_key
  make_key-full_key key = refl

  -- SET of a text under a key of the service
  abbrev pub stored_by : String → String → Option ℕ → Exec S (Unit {0})
  stored_by key text ttl =
      cache.client.set_value (full_key cache.prefix key) text (seconds_of cache.default_ttl ttl)

  set_lem :
      (key text : String) (value : Given V) (ttl : Option ℕ) (s : S)
      → text_of json value ≡ returns text
      → (stored_by key text ttl s).0 ≡ returns tt
      → set cache json key value ttl s ≡ (returns true, (stored_by key text ttl s).1)
  unfolding set
  set_lem key text value ttl s written accepted =
      swallow-returns false true
        (do
          text' ← lift (serialized cache json value)
          cache.client.set_value (make_key cache key) text' (expiry cache json ttl)
          pure true)
        s (stored_by key text ttl s).1
        (rw (serialized-text_of value, expiry-seconds_of ttl, make_key-full_key key)
          (rw written (rw accepted refl)))

module _ {S V M : Type 0} (cache : Adapter S) (json : Json V) where
  get_lem :
      (key text : String) (s : S) (loaded : Loaded V)
      → json.loads text ≡ loaded
      → (cache.client.get_value (full_key cache.prefix key) s).0 ≡ returns (some text)
      → (get cache json {M = M} key none s).0 ≡ returns (read_back json text)
  unfolding get decoded
  get_lem key text s (parsed v) e answer =
      rw (make_key-full_key cache json key, get) (rw (answer, swallow) (rw (e, read_back) refl))
  get_lem key text s not_json e answer =
      rw (make_key-full_key cache json key, get) (rw (answer, swallow) (rw (e, read_back) refl))
  get_lem key text s (breaks x) e answer =
      rw (make_key-full_key cache json key, get) (rw (answer, swallow) (rw (e, read_back) refl))

  -- Over a Redis that keeps what is set: where the value has a text, that is JSON of a model, a
  -- dictionary or a list and str(value) of anything else, and SET of it returns: `set` returns True
  -- after the SET of this text under the service's prefix, a colon and the key, or under the key
  -- where the prefix is empty, with the given time to live or else the default; and a `get` right
  -- after it gives the data that json reads in this text, the text itself where it is no JSON, and
  -- None where json breaks on it.
  pub get-set_stored :
      IsStore cache.client
      → (key text : String) (value : Given V) (ttl : Option ℕ) (s : S)
      → text_of json value ≡ returns text
      → (stored_by cache json key text ttl s).0 ≡ returns tt
      → let s' = (set cache json key value ttl s).1 in
        (set cache json key value ttl s ≡ (
          returns true,
          (cache.client.set_value
              (if str_eq cache.prefix "" then key else (cache.prefix +++ ":") +++ key)
              text
              (elim ttl [ none ↦ cache.default_ttl | some seconds ↦ seconds ])
              s).1,
        ))
        × ((get cache json {M = M} key none s').0 ≡ returns (read_back json text))
  get-set_stored store key text value ttl s written accepted =
      rw (set_lem cache json key text value ttl s written accepted) (
        refl,
        get_lem key text _ (json.loads text) refl (
            store.get-set (full_key cache.prefix key) text (seconds_of cache.default_ttl ttl) s
              accepted),
      )
