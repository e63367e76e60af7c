-- ===== src/Cache/Redis.antt =====
-- libs/libs/cache/redis.py: RedisCacheAdapter, and libs/libs/deps/cache.py: CacheProvider
-- The client of Redis works on a state `S` of its own. What json and the classes of the values do is
-- a parameter; logging is left out.
use Prim.Native.String.{◌++◌ as ◌+++◌}
use supply_chain_tracker.Prelude.{
  ℕ, String, Bool, true, false, Option, none, some, ltb, str_eq, if◌then◌else◌,
}
use supply_chain_tracker.Outcome.{Error, Outcome, returns, raises}
use supply_chain_tracker.Exec.{Exec, pure, lift, swallow, ◌>>=◌, ◌>>◌}

-- `redis.asyncio.Redis`, with `decode_responses=True`
pub record Client (S : Type 0) : Type 0 where
  pub get_value : String → Exec S (Option String)
  pub set_value : String → String → ℕ → Exec S (Unit {0})
  pub delete_value : String → Exec S (Unit {0})
  pub count_value : String → Exec S ℕ

-- A value given to `set`: one with `model_dump`, with what this gives; one with `dict`; a dictionary
-- or a list; anything else.
pub data Given (V : Type 0) : Type 0 where
  model older_model container other : V → Given V

-- What `json.loads` comes to: data, JSONDecodeError, or another exception, as for an integer with too
-- many digits or a text that is nested too deep.
pub data Loaded (V : Type 0) : Type 0 where
  parsed : V → Loaded V
  not_json : Loaded V
  breaks : Error → Loaded V

-- `json.dumps(v, default=str)`, `json.loads`, and `str`.
pub record Json (V : Type 0) : Type 0 where
  pub dumps : V → Outcome String
  pub loads : String → Loaded V
  pub show : V → String

-- What `get` gives: data of JSON, a text that is no JSON, or a validated model.
pub data Got (V M : Type 0) : Type 0 where
  plain : V → Got V M
  raw : String → Got V M
  validated : M → Got V M

pub record Adapter (S : Type 0) : Type 0 where
  pub client : Client S
  pub prefix : String
  pub default_ttl : ℕ

module _ {S : Type 0} (cache : Adapter S) where
  -- `if self._prefix`: not empty
  unfoldable pub make_key : String → String
  make_key key = if str_eq cache.prefix "" then key else (cache.prefix +++ ":") +++ key

  unfoldable pub delete : String → Exec S Bool
  delete key = swallow false (do cache.client.delete_value (make_key key); pure true)

  unfoldable pub exists : String → Exec S Bool
  exists key = swallow false (do n ← cache.client.count_value (make_key key); pure (ltb 0 n))

  module _ {V : Type 0} (json : Json V) where
    unfoldable pub serialized : Given V → Outcome String
    serialized (model v) = json.dumps v
    serialized (older_model v) = json.dumps v
    serialized (container v) = json.dumps v
    serialized (other v) = returns (json.show v)

    abbrev pub expiry : Option ℕ → ℕ
    expiry none = cache.default_ttl
    expiry (some ttl) = ttl

    unfoldable pub set : String → Given V → Option ℕ → Exec S Bool
    set key value ttl = swallow false (do
      text ← lift (serialized value)
      cache.client.set_value (make_key key) text (expiry ttl)
      pure true)

    module _ {M : Type 0} where
      -- the data of a text that is there; a model comes with its `model_validate`
      unfoldable pub decoded : Option (V → Outcome M) → String → Outcome (Option (Got V M))
      decoded validate text = elim (json.loads text) [
        | not_json ↦ returns (some (raw text))
        | breaks e ↦ raises e
        | parsed v ↦ elim validate [
          | none ↦ returns (some (plain v))
          | some f ↦ elim (f v) [ returns m ↦ returns (some (validated m)) | raises e ↦ raises e ]
        ]
      ]

      abbrev pub decoded_of : Option (V → Outcome M) → Option String → Outcome (Option (Got V M))
      decoded_of validate none = returns none
      decoded_of validate (some text) = decoded validate text

      unfoldable pub get : String → Option (V → Outcome M) → Exec S (Option (Got V M))
      get key validate =
          swallow none
            (do value ← cache.client.get_value (make_key key); lift (decoded_of validate value))

-- `CacheProvider`: the cache that it has made, and what it makes.
pub data Kind : Type 0 where
  redis_adapter in_memory_adapter : Kind

pub record Provider : Type 0 where
  pub use_redis : Bool
  pub cache_instance : Option Kind

abbrev made : Bool → Kind
made true = redis_adapter
made false = in_memory_adapter

abbrev called : Option Kind → Exec Provider Kind
called (some k) s = (returns k, s)
called none s = (returns (made s.use_redis), record s { cache_instance = some (made s.use_redis) })

-- `__call__`
unfoldable pub get_cache : Exec Provider Kind
get_cache s = called s.cache_instance s
