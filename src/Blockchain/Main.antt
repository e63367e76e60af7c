-- ===== src/Blockchain/Main.antt =====
-- services/blockchain_service/src/main.py: `main`, and the opening and closing of the queue by
-- `async with` (libs/libs/messaging/kafka.py). What the libraries answer, and how the workers and
-- the metrics server end, are parameters. Logging is left out.
use supply_chain_tracker.Prelude.{Bool, true, false, if◌then◌else◌}
use supply_chain_tracker.Outcome.{Outcome, returns, raises}
use supply_chain_tracker.Exec.{Exec, lift, ◌>>◌}

-- What is open: the client of Redis, the pool of the database, and the producer of Kafka.
pub record Open : Type 0 where
  pub redis : Bool
  pub pool : Bool
  pub producer : Bool

-- `make_account` is `Account.from_key`, and `sync` the nonce manager's `sync_from_chain`; `work` is
-- the `gather` of the workers and the metrics server.
pub record Setup : Type 0 where
  pub use_mock : Bool
  pub create_pool : Outcome (Unit {0})
  pub make_account : Outcome (Unit {0})
  pub sync : Outcome (Unit {0})
  pub start_producer : Outcome (Unit {0})
  pub work : Outcome (Unit {0})
  pub stop_producer : Outcome (Unit {0})
  pub close_redis : Outcome (Unit {0})
  pub close_pool : Outcome (Unit {0})

-- `try: m finally: last`; what `last` raises takes the place of what `m` comes to
abbrev pub try_finally : {A : Type 0} → Exec Open A → Exec Open (Unit {0}) → Exec Open A
try_finally m last s = let (r, s') = m s in (do last; lift r) s'

module _ (env : Setup) where
  abbrev pub set_redis : Bool → Exec Open (Unit {0})
  set_redis b s = (returns tt, record s { redis = b })

  abbrev pub set_pool : Bool → Exec Open (Unit {0})
  set_pool b s = (returns tt, record s { pool = b })

  abbrev pub set_producer : Bool → Exec Open (Unit {0})
  set_producer b s = (returns tt, record s { producer = b })

  -- the gateway of the settings
  unfoldable pub prepare : Outcome (Unit {0})
  prepare =
      if env.use_mock
      then returns tt
      else elim env.make_account [ raises e ↦ raises e | returns a ↦ env.sync ]

  -- `async with KafkaEventQueueAdapter(...)`: the producer is kept before it is started, and where
  -- starting it raises, nothing closes it.
  unfoldable pub with_queue : Exec Open (Unit {0}) → Exec Open (Unit {0})
  with_queue body = do
    set_producer true
    lift env.start_producer
    try_finally body (do lift env.stop_producer; set_producer false)

  unfoldable pub main : Exec Open (Unit {0})
  unfolding prepare with_queue
  main = do
    set_redis true
    lift env.create_pool
    set_pool true
    try_finally (do lift prepare; with_queue (lift env.work))
        (do lift env.close_redis; set_redis false; lift env.close_pool; set_pool false)
