-- ===== src/Startup/PoolLaws.antt =====
-- A process has at most one pool open.
use supply_chain_tracker.Prelude.{
  ℕ, ◌≡◌, refl, sym, ap, subst, Option, none, some, List, [], ◌∷◌, ==_refl, inl, inr, Option-cases,
  Bool-cases,
}
use supply_chain_tracker.Outcome.{returns}
use supply_chain_tracker.Exec.{for_each}
use supply_chain_tracker.Exec.Laws.{Outcome-cases, swallow_lem, continue-pure, continue-gets}
use supply_chain_tracker.Startup.Providers.{
  Adapter, Process, Setup, create, close, startup, shutdown, get_pool, get_pool_at, get_queue_at,
  queue_startup, get_queue, Call, start, stop, ask, ask_queue, perform, perform_all,
}

-- the pool that the provider holds, if any
abbrev pub held : Option ℕ → List ℕ
held none = []
held (some p) = p ∷ []

-- The pools that are open are the one that the provider holds.
abbrev pub IsHeld : Process → Type 0
IsHeld s = s.open_pools ≡ held s.pool

module _ (env : Setup) where
  pub startup-IsHeld : (s : Process) → IsHeld s → IsHeld (startup env s).1
  unfolding startup create
  startup-IsHeld s h = elim (Option-cases s.pool) [
    | inl e ↦
        rw (e, startup)
          (elim (Outcome-cases (env.create_pool s.asked)) [
            | inl (a, f) ↦ rw (f, create) (ap (λ l. s.asked ∷ l) (rw e at h))
            | inr (x, f) ↦ rw (f, create) h
          ])
    | inr (p, e) ↦ rw (e, startup) h
  ]

  shutdown-IsHeld : (s : Process) → IsHeld s → IsHeld (shutdown env s).1
  unfolding shutdown close
  shutdown-IsHeld s h = elim (Option-cases s.pool) [
    | inl e ↦ rw (e, shutdown) h
    | inr (p, e) ↦
        rw (e, shutdown)
          (elim (Outcome-cases (env.close_pool p)) [
            | inl (a, f) ↦
                let one : s.open_pools ≡ p ∷ [] = rw e at h in
                rw (f, close) (rw one (rw (==_refl p) refl))
            | inr (x, f) ↦ rw (f, close) h
          ])
  ]

  get_pool_at-IsHeld : (o : Option ℕ) (s : Process) → IsHeld s → IsHeld (get_pool_at env o s).1
  get_pool_at-IsHeld none s h =
      subst IsHeld (sym (continue-gets (λ t. t.pool) (startup env s).0 (startup env s).1))
        (startup-IsHeld s h)
  get_pool_at-IsHeld (some p) s h = h

  -- The calls of the queue's provider do not act on the pool.
  queue_startup-IsHeld : (s : Process) → IsHeld s → IsHeld (queue_startup env s).1
  unfolding queue_startup
  queue_startup-IsHeld s h = elim (Bool-cases env.use_kafka) [
    | inl e ↦ rw e (elim (Option-cases s.adapter) [ inl f ↦ rw f h | inr (a, f) ↦ rw f h ])
    | inr e ↦ rw e h
  ]

  pub queue_startup_returns : (s : Process) → (queue_startup env s).0 ≡ returns tt
  unfolding queue_startup
  queue_startup_returns s = elim (Bool-cases env.use_kafka) [
    | inl e ↦ rw e (elim (Option-cases s.adapter) [ inl f ↦ rw f refl | inr (a, f) ↦ rw f refl ])
    | inr e ↦ rw e refl
  ]

  get_queue_at-IsHeld :
      (o : Option Adapter) (s : Process) → IsHeld s → IsHeld (get_queue_at env o s).1
  get_queue_at-IsHeld none s h = rw (queue_startup_returns s) (queue_startup-IsHeld s h)
  get_queue_at-IsHeld (some a) s h = h

  perform-IsHeld : (call : Call) (s : Process) → IsHeld s → IsHeld (perform env call s).1
  unfolding perform get_pool get_queue
  perform-IsHeld start s h = startup-IsHeld s h
  perform-IsHeld stop s h = shutdown-IsHeld s h
  perform-IsHeld ask s h =
      subst IsHeld (sym (continue-pure (λ o. tt) (get_pool env s).0 (get_pool env s).1))
        (get_pool_at-IsHeld s.pool s h)
  perform-IsHeld ask_queue s h =
      subst IsHeld (sym (continue-pure (λ o. tt) (get_queue env s).0 (get_queue env s).1))
        (get_queue_at-IsHeld s.adapter s h)

  -- Whatever calls the providers of a process get one after the other, and whatever asyncpg answers
  -- to them: where the pools that were open are the one that the provider held, if any, this is so
  -- afterwards; so that a process that starts with none never has two pools open.
  pub perform_all-IsHeld :
      (calls : List Call) (s : Process) → IsHeld s → IsHeld (perform_all env calls s).1
  unfolding perform_all for_each
  perform_all-IsHeld [] s h = h
  perform_all-IsHeld (call ∷ calls) s h =
      rw (swallow_lem (perform env call) s)
        (perform_all-IsHeld calls (perform env call s).1 (perform-IsHeld call s h))
