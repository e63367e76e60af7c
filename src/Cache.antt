-- ===== src/Cache.antt =====
-- libs/libs/cache/memory.py: InMemoryCacheAdapter
pub mod Laws
pub mod Redis
pub mod RedisLaws
use supply_chain_tracker.Prelude.{
  ℤ, pos, negsuc, ◌-◌, ℕ, zero, suc, ◌+◌, String, Bool, true, false, Option, none, some, List, [],
  ◌∷◌, ltb, str_eq, if◌then◌else◌,
}
use supply_chain_tracker.Outcome.{Outcome, returns, key_error}
use supply_chain_tracker.Exec.{Exec, pure, raise, ◌>>=◌, ◌>>◌}

-- A dictionary: its items, at most one for each key.
abbrev pub Dict : Type 0 → Type 0
Dict V = List (String × V)

module _ {V : Type 0} where
  -- `d.get(key)`
  abbrev pub lookup : String → Dict V → Option V
  lookup key [] = none
  lookup key ((k, v) ∷ d) = if str_eq k key then some v else lookup key d

  -- `d[key] = value`
  abbrev pub assign : String → V → Dict V → Dict V
  assign key value [] = (key, value) ∷ []
  assign key value ((k, v) ∷ d) =
      let rest = assign key value d in if str_eq k key then (k, value) ∷ d else (k, v) ∷ rest

  -- what `del d[key]` leaves
  abbrev pub remove : String → Dict V → Dict V
  remove key [] = []
  remove key ((k, v) ∷ d) = let rest = remove key d in if str_eq k key then d else (k, v) ∷ rest

-- `clock` gives the readings of `datetime.now()` to come, in microseconds.
pub record Cache (V : Type 0) : Type 0 where
  pub storage : Dict V
  pub expiry : Dict ℕ
  pub clock : ℕ → ℕ
  pub ticks : ℕ

abbrev pub now : {V : Type 0} → Exec (Cache V) ℕ
now s = (returns (s.clock s.ticks), record s { ticks = suc s.ticks })

-- What the adapter asks of a value: its `model_dump()` where it has one, and otherwise the value;
-- whether it is None, and whether it is a dictionary.
pub record Values (V : Type 0) : Type 0 where
  pub dump : V → V
  pub is_none : V → Bool
  pub is_dict : V → Bool

-- `key in self._expiry and datetime.now() > self._expiry[key]`; the clock is read where the key is
-- in
unfoldable pub is_expired : {V : Type 0} → String → Exec (Cache V) Bool
is_expired key s = elim (lookup key s.expiry) [
  | none ↦ (returns false, s)
  | some e ↦ (do t ← now; pure (ltb e t)) s
]

-- `del self._storage[key]`
unfoldable pub del_storage : {V : Type 0} → String → Exec (Cache V) (Unit {0})
del_storage key s = elim (lookup key s.storage) [
  | none ↦ raise key_error s
  | some v ↦ (returns tt, record s { storage = remove key s.storage })
]

-- `del self._expiry[key]`, where the key is in
unfoldable pub del_expiry : {V : Type 0} → String → Exec (Cache V) (Unit {0})
del_expiry key s = (returns tt, record s { expiry = remove key s.expiry })

module _ {V : Type 0} (values : Values V) where
  -- the value of a key that has not expired; `validate` is `model.model_validate`, if a model with
  -- such a method is given
  unfoldable pub read : String → Option (V → Outcome V) → Exec (Cache V) (Option V)
  read key validate s = elim (lookup key s.storage) [
    | none ↦ (returns none, s)
    | some value ↦ if values.is_none value then (returns none, s) else elim validate [
      | none ↦ (returns (some value), s)
      | some f ↦
          if values.is_dict value
          then (do model ← (λ t. (f value, t)); pure (some model)) s
          else (returns (some value), s)
    ]
  ]

  unfoldable pub get : String → Option (V → Outcome V) → Exec (Cache V) (Option V)
  get key validate = do
    expired ← is_expired key
    if expired then (do del_storage key; del_expiry key; pure none) else read key validate

  abbrev set_expiry : String → ℕ → Exec (Cache V) (Unit {0})
  set_expiry key deadline s = (returns tt, record s { expiry = assign key deadline s.expiry })

  -- `ttl` is the microseconds that an integer of seconds or a `timedelta` comes to, which may be
  -- negative; one of none or of 0 leaves the expiry of the key as it is.
  unfoldable pub expire : String → Option ℤ → Exec (Cache V) (Unit {0})
  expire key none = pure tt
  expire key (some (pos zero)) = pure tt
  expire key (some (pos (suc n))) = do t ← now; set_expiry key (t + suc n)
  expire key (some (negsuc n)) = do t ← now; set_expiry key (t - suc n)

  unfoldable pub set : String → V → Option ℤ → Exec (Cache V) Bool
  set key value ttl = do
    λ s. (returns tt, record s { storage = assign key (values.dump value) s.storage })
    expire key ttl
    pure true

  unfoldable pub delete : String → Exec (Cache V) Bool
  delete key s = elim (lookup key s.storage) [
    | none ↦ (returns false, s)
    | some v ↦
        (returns true, record s { storage = remove key s.storage; expiry = remove key s.expiry })
  ]

  unfoldable pub exists : String → Exec (Cache V) Bool
  exists key = do
    expired ← is_expired key
    if expired then pure false else λ s.
        (returns (elim (lookup key s.storage) [ none ↦ false | some v ↦ true ]), s)

-- The expiries stay.
unfoldable pub close : {V : Type 0} → Exec (Cache V) (Unit {0})
close s = (returns tt, record s { storage = [] })
