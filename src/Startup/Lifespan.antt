-- ===== src/Startup/Lifespan.antt =====
-- `lifespan` of services/warehouse_service/src/main.py; those of the delivery and shipment services
-- and of the saga coordinator differ in the worker only. Logging is left out.
use supply_chain_tracker.Prelude.{Option, none, some, List, map}
use supply_chain_tracker.Outcome.{Error, Outcome, returns, raises, attribute_error}
use supply_chain_tracker.Exec.{Exec, lift, gets, ◌>>=◌, ◌>>◌}
use supply_chain_tracker.Startup.Providers.{
  Adapter, Process, Setup, startup, shutdown, queue_startup, queue_shutdown, Call, ask, ask_queue,
  perform_all,
}

-- What has become of a worker's task when the service shuts down.
pub data Fate : Type 0 where
  running returned : Fate
  failed : Error → Fate

-- A worker without an adapter calls a method of None, as soon as it runs.
abbrev pub worker_of : Option Adapter → Fate → Fate
worker_of none fate = failed attribute_error
worker_of (some a) fate = fate

-- `worker_task.cancel()` and `await worker_task`: a running task is cancelled, which is caught; one
-- that has ended gives back what it ended with.
abbrev pub await_worker : Fate → Outcome (Unit {0})
await_worker running = returns tt
await_worker returned = returns tt
await_worker (failed e) = raises e

-- What a request takes from the providers.
pub data Request : Type 0 where
  of_pool of_queue : Request

abbrev pub serve : Request → Call
serve of_pool = ask
serve of_queue = ask_queue

unfoldable pub lifespan : Setup → Fate → List Request → Exec Process (Unit {0})
lifespan env fate requests = do
  startup env
  queue_startup env
  adapter ← gets (λ s. s.adapter)
  perform_all env (map serve requests)
  lift (await_worker (worker_of adapter fate))
  queue_shutdown env
  shutdown env
