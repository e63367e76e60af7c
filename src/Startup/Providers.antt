-- ===== src/Startup/Providers.antt =====
-- libs/libs/deps/postgres_pool.py and queue.py: PostgresPoolProvider and EventQueueProvider
-- A pool is the number of the call of `create_pool` that made it. What asyncpg answers is a
-- parameter; printing is left out.
use supply_chain_tracker.Prelude.{
  ℕ, suc, Bool, true, false, not, Option, none, some, List, ◌∷◌, filter, ◌==◌, if◌then◌else◌,
}
use supply_chain_tracker.Outcome.{Outcome, returns, raises}
use supply_chain_tracker.Exec.{Exec, pure, gets, swallow, for_each, ◌>>=◌, ◌>>◌}

-- InMemoryEventQueueAdapter, as far as the provider acts on it
pub record Adapter : Type 0 where
  pub producer_started : Bool

-- `pool` and `adapter` are the fields `_pool` and `_adapter` of the two providers; `open_pools` are
-- the pools that are made and not closed.
pub record Process : Type 0 where
  pub pool : Option ℕ
  pub adapter : Option Adapter
  pub asked : ℕ
  pub open_pools : List ℕ

-- What the n-th call of `create_pool` and the `close` of a pool come to, and the setting of the
-- queue.
pub record Setup : Type 0 where
  pub create_pool : ℕ → Outcome (Unit {0})
  pub close_pool : ℕ → Outcome (Unit {0})
  pub use_kafka : Bool

module _ (env : Setup) where
  -- `await asyncpg.create_pool(...)`
  unfoldable pub create : Exec Process ℕ
  create s = elim (env.create_pool s.asked) [
    | returns a ↦
        (returns s.asked, record s { asked = suc s.asked; open_pools = s.asked ∷ s.open_pools })
    | raises e ↦ (raises e, record s { asked = suc s.asked })
  ]

  -- `await self._pool.close()`
  unfoldable pub close : ℕ → Exec Process (Unit {0})
  close p s = elim (env.close_pool p) [
    | returns a ↦ (returns tt, record s { open_pools = filter (λ q. not (q == p)) s.open_pools })
    | raises e ↦ (raises e, s)
  ]

  abbrev pub set_pool : Option ℕ → Exec Process (Unit {0})
  set_pool p s = (returns tt, record s { pool = p })

  unfoldable pub startup : Exec Process (Unit {0})
  startup s = elim s.pool [ none ↦ (do p ← create; set_pool (some p)) s | some p ↦ (returns tt, s) ]

  unfoldable pub shutdown : Exec Process (Unit {0})
  shutdown s = elim s.pool [ none ↦ (returns tt, s) | some p ↦ (do close p; set_pool none) s ]

  -- `__call__`, by the pool that there is
  abbrev pub get_pool_at : Option ℕ → Exec Process (Option ℕ)
  get_pool_at none = do startup; gets (λ s. s.pool)
  get_pool_at (some p) = pure (some p)

  unfoldable pub get_pool : Exec Process (Option ℕ)
  get_pool s = get_pool_at s.pool s

  abbrev pub set_adapter : Option Adapter → Exec Process (Unit {0})
  set_adapter a s = (returns tt, record s { adapter = a })

  -- `if hasattr(self._adapter, '_get_producer')`: None has no such method
  abbrev pub start_producer : Exec Process (Unit {0})
  start_producer s = elim s.adapter [
    | none ↦ (returns tt, s)
    | some a ↦ (returns tt, record s { adapter = some (record { producer_started = true }) })
  ]

  unfoldable pub queue_startup : Exec Process (Unit {0})
  queue_startup = do
    if env.use_kafka then pure tt else set_adapter (some (record { producer_started = false }))
    start_producer

  -- `close` of the in-memory adapter only clears its flag, and the adapter is dropped.
  unfoldable pub queue_shutdown : Exec Process (Unit {0})
  queue_shutdown s = elim s.adapter [
    | none ↦ (returns tt, s)
    | some a ↦ (returns tt, record s { adapter = none })
  ]

  -- `__call__`, by the adapter that there is
  abbrev pub get_queue_at : Option Adapter → Exec Process (Option Adapter)
  get_queue_at none = do queue_startup; gets (λ s. s.adapter)
  get_queue_at (some a) = pure (some a)

  unfoldable pub get_queue : Exec Process (Option Adapter)
  get_queue s = get_queue_at s.adapter s

-- A call of a provider. An exception goes to the caller, and the process goes on.
pub data Call : Type 0 where
  start stop ask ask_queue : Call

module _ (env : Setup) where
  unfoldable pub perform : Call → Exec Process (Unit {0})
  perform start = startup env
  perform stop = shutdown env
  perform ask = do get_pool env; pure tt
  perform ask_queue = do get_queue env; pure tt

  unfoldable pub perform_all : List Call → Exec Process (Unit {0})
  perform_all calls = for_each calls (λ call. swallow tt (perform call))
