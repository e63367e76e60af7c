-- ===== src/Cache/Laws.antt =====
-- What a cache gives back.
use supply_chain_tracker.Prelude.{
  ℤ, pos, negsuc, ◌-◌, ℕ, zero, suc, ◌+◌, ◌≡◌, refl, ◌∙◌, String, false, Option, none, some, [],
  ◌∷◌, ltb, str_eq, if◌then◌else◌, Bool-cases, Option-cases, inl, inr, arith,
}
use supply_chain_tracker.Outcome.{returns}
use supply_chain_tracker.Cache.{
  Dict, lookup, assign, Cache, Values, is_expired, del_storage, del_expiry, read, get, expire, set,
}
use text.Mathlib.TextPositions.{eq_refl}
use text.Mathlib.TextEquality.{eq_iff}

module _ {V : Type 0} where
  pub lookup-assign : (key : String) (v : V) (d : Dict V) → lookup key (assign key v d) ≡ some v
  lookup-assign key v [] = rw (eq_refl key) refl
  lookup-assign key v ((k, w) ∷ d) = elim (Bool-cases (str_eq k key)) [
    | inl e ↦ rw e (rw e refl)
    | inr e ↦ rw e (rw e (lookup-assign key v d))
  ]

module _ {V : Type 0} where
  pub lookup-assign_any :
      (key name : String) (v : V) (d : Dict V)
      → lookup key (assign name v d) ≡ (if str_eq name key then some v else lookup key d)
  lookup-assign_any key name v [] = refl
  lookup-assign_any key name v ((k, w) ∷ d) =
      ground (arith, eq_iff k name, eq_iff k key, eq_iff name key, lookup-assign_any key name v d)

-- the expiry in force after `set`: the new one, where the time to live is not 0, and otherwise the
-- old
abbrev pub deadline : {V : Type 0} → String → Option ℤ → Cache V → Option ℕ
deadline key none s = lookup key s.expiry
deadline key (some (pos zero)) s = lookup key s.expiry
deadline key (some (pos (suc n))) s = some (s.clock s.ticks + suc n)
deadline key (some (negsuc n)) s = some (s.clock s.ticks - suc n)

-- a value, unless the deadline is before an instant
abbrev pub unless_expired : {V : Type 0} → Option ℕ → ℕ → V → Option V
unless_expired none t v = some v
unless_expired (some e) t v = if ltb e t then none else some v

module _ {V : Type 0} (values : Values V) where
  get_lem :
      (key : String) (v : V) (s : Cache V)
      → lookup key s.storage ≡ some v
      → values.is_none v ≡ false
      → (get values key none s).0
        ≡ returns (unless_expired (lookup key s.expiry) (s.clock s.ticks) v)
  unfolding get is_expired del_storage del_expiry read
  get_lem key v s held present = elim (Option-cases (lookup key s.expiry)) [
    | inl e ↦ rw (e, get, is_expired) (rw (held, read) (rw present refl))
    | inr (d, e) ↦ elim (Bool-cases (ltb d (s.clock s.ticks))) [
      | inl f ↦ rw (e, get, is_expired) (rw f (rw (held, del_storage) refl))
      | inr f ↦ rw (e, get, is_expired) (rw f (rw (held, read) (rw present refl)))
    ]
  ]

  -- What `get` gives after `set` of a value that is not None, whatever the cache held: the value,
  -- unless a deadline has passed at the time of the `get`. The deadline is the time of the `set`
  -- and the time to live, where that is given and not 0; otherwise the deadline that an earlier
  -- `set` left, which this `set` does not clear; and none where there is no such deadline.
  pub get-set :
      (key : String) (v : V) (ttl : Option ℤ) (s : Cache V)
      → values.is_none (values.dump v) ≡ false
      → let s₁ = (set values key v ttl s).1 in
        (get values key none s₁).0
        ≡ returns (unless_expired (deadline key ttl s) (s₁.clock s₁.ticks) (values.dump v))
  unfolding set expire
  get-set key v none s present =
      get_lem key (values.dump v) (set values key v none s).1
        (lookup-assign key (values.dump v) s.storage) present
  get-set key v (some (pos zero)) s present =
      get_lem key (values.dump v) (set values key v (some (pos zero)) s).1
        (lookup-assign key (values.dump v) s.storage) present
  get-set key v (some (pos (suc n))) s present =
      get_lem key (values.dump v) (set values key v (some (pos (suc n))) s).1
        (lookup-assign key (values.dump v) s.storage) present
      ∙ rw (lookup-assign key (s.clock s.ticks + suc n) s.expiry) refl
  get-set key v (some (negsuc n)) s present =
      get_lem key (values.dump v) (set values key v (some (negsuc n)) s).1
        (lookup-assign key (values.dump v) s.storage) present
      ∙ rw (lookup-assign key (s.clock s.ticks - suc n) s.expiry) refl
