-- ===== src/Startup/LifespanLaws.antt =====
-- What a service leaves open when it stops.
use supply_chain_tracker.Prelude.{
  ℕ, suc, Bool, true, false, ◌≡◌, refl, ==_refl, Option, none, some, List, [], ◌∷◌, map, Bool-cases,
  inl, inr,
}
use supply_chain_tracker.Outcome.{Outcome, returns, raises, attribute_error}
use supply_chain_tracker.Exec.{for_each, lift, swallow, ◌>>=◌, ◌>>◌}
use supply_chain_tracker.Startup.Providers.{
  Adapter, Process, Setup, create, close, startup, shutdown, queue_startup, queue_shutdown,
  get_pool, get_queue, perform, perform_all,
}
use supply_chain_tracker.Startup.Lifespan.{
  Fate, worker_of, await_worker, Request, of_pool, of_queue, serve, lifespan,
}

-- the adapter of a service that has started: none, where it is set to use Kafka
abbrev pub adapter_of : Bool → Option Adapter
adapter_of true = none
adapter_of false = some (record { producer_started = true })

-- A process that holds nothing, after n calls of `create_pool`.
abbrev pub bare : ℕ → Process
bare n = record { pool = none; adapter = none; asked = n; open_pools = [] }

module _ (env : Setup) (n : ℕ) where
  -- A service that has started: its pool is open, and its adapter is there if it uses no Kafka.
  abbrev pub ready : Process
  ready = record {
    pool = some n;
    adapter = adapter_of env.use_kafka;
    asked = suc n;
    open_pools = n ∷ [];
  }

  request-ready : (r : Request) → swallow tt (perform env (serve r)) ready ≡ (returns tt, ready)
  unfolding perform get_pool get_queue queue_startup
  request-ready of_pool = refl
  request-ready of_queue = elim (Bool-cases env.use_kafka) [ inl e ↦ rw e refl | inr e ↦ rw e refl ]

  requests-ready : (rs : List Request) → perform_all env (map serve rs) ready ≡ (returns tt, ready)
  unfolding perform_all for_each
  requests-ready [] = refl
  requests-ready (r ∷ rs) = rw (request-ready r) (requests-ready rs)

  -- between the two start-ups, and between the two shut-downs
  abbrev half : Process
  half = record { pool = some n; adapter = none; asked = suc n; open_pools = n ∷ [] }

  startup-half : env.create_pool n ≡ returns tt → startup env (bare n) ≡ (returns tt, half)
  unfolding startup create
  startup-half made = rw (made, create) refl

  queue_startup-ready : queue_startup env half ≡ (returns tt, ready)
  unfolding queue_startup
  queue_startup-ready = elim (Bool-cases env.use_kafka) [ inl e ↦ rw e refl | inr e ↦ rw e refl ]

  queue_shutdown-half : queue_shutdown env ready ≡ (returns tt, half)
  unfolding queue_shutdown
  queue_shutdown-half = elim (Bool-cases env.use_kafka) [ inl e ↦ rw e refl | inr e ↦ rw e refl ]

  shutdown-bare : env.close_pool n ≡ returns tt → shutdown env half ≡ (returns tt, bare (suc n))
  unfolding shutdown close
  shutdown-bare closed = rw (closed, close) (rw (==_refl n) refl)

  -- what awaiting the worker's task comes to
  abbrev pub ending : Fate → Outcome (Unit {0})
  ending fate = await_worker (worker_of (adapter_of env.use_kafka) fate)

  -- where the service stops, by what awaiting the worker's task comes to
  abbrev pub stopped : Outcome (Unit {0}) → Outcome (Unit {0}) × Process
  stopped (returns u) = (returns tt, bare (suc n))
  stopped (raises e) = (raises e, ready)

  stopped-lifespan :
      (end : Outcome (Unit {0}))
      → env.close_pool n ≡ returns tt
      → (lift end >>= λ u. queue_shutdown env >> shutdown env) ready ≡ stopped end
  stopped-lifespan (returns u) closed = rw queue_shutdown-half (shutdown-bare closed)
  stopped-lifespan (raises e) closed = refl

  -- A service in a process that holds nothing, where asyncpg makes the pool and closes it, whatever
  -- its requests take from the providers. If awaiting the worker's task does not raise, the service
  -- stops with nothing held and its pool closed. If it raises, because the worker has failed or has
  -- no adapter, so does the lifespan, and the pool is still open.
  pub lifespan_lem :
      (fate : Fate) (requests : List Request)
      → env.create_pool n ≡ returns tt
      → env.close_pool n ≡ returns tt
      → lifespan env fate requests (bare n) ≡ stopped (ending fate)
  unfolding lifespan
  lifespan_lem fate requests made closed = rw (startup-half made) (
      rw queue_startup-ready (rw (requests-ready requests) (stopped-lifespan (ending fate) closed)))

  -- A service that is set to use Kafka never closes its pool: whatever would become of its worker,
  -- it stops with AttributeError, and its pool is still open.
  pub lifespan-AttributeError :
      (fate : Fate) (requests : List Request)
      → env.use_kafka ≡ true
      → env.create_pool n ≡ returns tt
      → env.close_pool n ≡ returns tt
      → (let (result, s) = lifespan env fate requests (bare n) in
          (result ≡ raises attribute_error) × (s.pool ≡ some n) × (s.open_pools ≡ n ∷ []))
  lifespan-AttributeError fate requests kafka made closed =
      let no_adapter : ending fate ≡ raises attribute_error = rw kafka refl in
      rw (lifespan_lem fate requests made closed) (rw no_adapter (refl, refl, refl))
