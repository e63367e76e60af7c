-- ===== src/Lib.antt =====
-- Supply Chain Tracker: a saga coordinator, the three services that it rolls back, and
-- the authentication and blockchain services.
--
-- The coordinator (services/saga_coordinator) keeps a saga instance per shipment. Its worker reads
-- failure events from the queue (libs/libs/messaging), marks the saga, publishes compensating
-- commands, and fails the saga. The command workers of the warehouse, delivery and shipment services
-- consume these commands: they release inventory, remove a delivery, and remove a shipment.
--
-- Each service is a state type that holds the tables of its database, the readings of its clock and
-- the draws of `uuid4` to come; a coroutine is a function from the state to a result, a value or an
-- exception, and the state after it (Exec). Each statement of the source commits on its own, so what
-- was written before an exception stays written. Identifiers and instants are native numbers.
--
-- Files, with the code that they model:
-- - Prelude, Outcome, Exec, Table: shared names, exceptions as values, coroutines and tasks that take
--   turns, and a table with a primary key under SELECT, INSERT ... ON CONFLICT and DELETE.
-- - Messaging (libs/libs/messaging/base.py, commands.py, memory.py, events.py, kafka.py, ports.py):
--   `Event.to_dict` is to_dict, the two `from_dict` are event_from_dict and command_from_dict, the
--   `create` of each command class is a function with the command's name; the in-memory adapter is
--   Broker with publish_event, publish_command and one turn of each consumer. Events has the domain
--   events, Converter DomainEventConverter, EventLaws its proofs; Kafka the retries and consumers of the
--   Kafka adapter, KafkaLaws their proofs; Publish the tail that the HTTP handlers share;
--   Consumers the flags that stop the in-memory consumers of commands,
--   ConsumerLaws what they do to one another. Codec is what the standard library does with identifiers and
--   instants, a parameter; its laws are that reading inverts writing.
-- - Saga (services/saga_coordinator): Entity, Repository, Service, Worker (the compensation worker)
--   and Api (DTOs, mapper, handlers), with the methods' names; Laws, Plan, Compensation, Failures,
--   Lifecycle and ApiLaws hold the proofs. Plan states the compensation table on its own.
-- - Warehouse (services/warehouse_service): Entity, Repository, Service (`update_location` of the
--   service is change_location), Worker, Dto (DTOs, mappers), Api (handlers); Laws, ReleaseOne,
--   Release and ApiLaws hold the proofs.
-- - Delivery (services/delivery_service): Entity, Repository, Service, Worker, Dto (DTOs, mappers),
--   Api (handlers); Laws and Status hold the proofs. Status states the transition table on its
--   own.
-- - Shipment (services/shipment_service): Entity, Port (the repository port as a record of
--   operations), Service over any port, Repository
--   (Postgres), Worker; Postgres is about the service over that repository. Items holds the items with their repository, ItemService their service
--   over it, ItemLaws the proofs; weights are a parameter type.
--   Dto and Api hold the DTOs, mapper and handlers of shipments, ItemApi those of items.
-- - Auth (services/auth_service and libs/libs/auth): Repository (users and refresh tokens), Service
--   (AuthService; the end of `refresh`, after the token was revoked, is renew), Provider (decode_token,
--   JWTAuthProvider, require_role), Api (the handlers); Laws, ApiLaws and Sessions hold the proofs.
-- - Blockchain (services/blockchain_service): Entity, Repository, Service (BlockchainService), Workers
--   (BlockchainWorker and one pass of ConfirmationMonitor), Gateway (the mock gateway, the nonce
--   manager, and sending through web3), Tasks (the tasks of one pass of the monitor, in any order of
--   turns), Main (`main` of src/main.py); Laws, GatewayLaws, Interleaving, GatherLaws,
--   Settled and MainLaws hold the proofs.
-- - Cache (libs/libs/cache/memory.py): the in-memory cache on one dictionary of values and one of
--   deadlines, and Redis (libs/libs/cache/redis.py, libs/libs/deps/cache.py) the adapter of Redis; Laws
--   and RedisLaws hold the proofs.
-- - Health (libs/libs/health): Checks and Router (the two probes); Laws holds the proofs.
-- - Startup: Providers (libs/libs/deps/postgres_pool.py, queue.py), Lifespan (`lifespan` of the four
--   services with a worker) and Race (calls of the pool's provider at the same time); PoolLaws and
--   LifespanLaws hold the other proofs.
-- - Observability (libs/libs/observability, libs/libs/middlewares): Middleware and Formatter;
--   MiddlewareLaws and FormatterLaws hold the proofs.
-- - Errors (libs/libs/errors/handlers.py, and the handlers of exceptions in the `create_app` of three
--   services); Errors/Laws holds the proofs.
-- - System: the coordinator on the in-memory queue (Queue), a worker on one compensating command
--   (Workers), and the three workers on what the coordinator has published (Rollback).
-- - Tests: concrete parameters, and the theorems at concrete inputs.
--
-- A handler that publishes makes its change first; the call of the queue is a parameter, an exception
-- or none, since the queue has no part in the service's database.
--
-- Loops are recursions on the list of messages or rows that they go over, so no fuel is needed: a
-- worker's endless loop is its body over the list of the messages that the queue yields. The
-- retries of a Kafka send recurse on the attempts that are left, `max_retries` at the start.
--
-- Parameters: the codec, the length of a stripped text, the JSON of a location, what the database
-- driver makes of a value object, the collation of names, the hashes and
-- the signed tokens of the authentication service, the Kafka client, the node and Redis of the
-- blockchain service, asyncpg's pools, the client of the Redis cache and json, the calls of the health
-- checks, and the exception that the constraints
-- of a table raise for a status, or for a row of items. A table that takes every status is one whose CHECK lists the
-- values that the code writes; the CHECKs of the migrations of sagas, deliveries and shipments list
-- upper-case words instead.
--
-- Not modelled: the calls of the logger, but for those of the logging middleware, since no other part
-- reads the log; the web framework with its checks of a request;
-- configuration; the unique index on active sagas and the triggers of the migrations; the set-up of
-- the Kafka client, which only calls its library; the endless loop of the confirmation monitor with its
-- sleeps, and the signing of a transaction.
pub mod Prelude
pub mod Outcome
pub mod Exec
pub mod Table
pub mod Cache
pub mod Messaging
pub mod Saga
pub mod Warehouse
pub mod Delivery
pub mod Shipment
pub mod Auth
pub mod Blockchain
pub mod Health
pub mod Startup
pub mod Observability
pub mod Errors
pub mod System
pub mod Tests
