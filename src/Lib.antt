-- ===== src/Lib.antt =====
-- The core of node-cqrs: the command side (aggregates and their command handler), the sagas, the
-- projections, the dispatch of events, and the storages, lockers and helpers that these use, in memory and over
-- SQLite, Redis and MongoDB.
--
-- How the parts interact. A command goes over the message bus to the command handler of its aggregate.
-- The handler has the aggregate restored from the event store, lets it handle the command, and dispatches the
-- events that this makes through a pipeline of processors, the event storage first. The storage
-- refuses a version that is taken; then the handler restores the aggregate and tries again.
-- Published events reach the projections, which keep views, and the sagas, which answer with commands.
--
-- Which file models what (paths from the root of the repository):
--   Common, Common/*         texts, maps as association lists in the order of insertion, lists and
--                            Boolean tests, on native numbers
--   Messages                 src/interfaces/IMessage.ts, IEvent.ts, ICommand.ts, ISnapshotEvent.ts,
--                            IDispatchPipelineProcessor.ts, src/errors/ConcurrencyError.ts
--   Utils/SagaId             src/utils/sagaId.ts: makeSagaId is `make_saga_id`, parseSagaId is `parse_saga_id`
--   Utils/MapAssertable      src/utils/MapAssertable.ts
--   Utils/Lock               src/utils/Lock.ts: `acquire` is `enter` and `resume`, its segments between awaits
--   Utils/OneTimeSubscription src/utils/setupOneTimeEmitterSubscription.ts
--   InMemory/EventStorage    src/in-memory/InMemoryEventStorage.ts
--   InMemory/SnapshotStorage src/in-memory/InMemorySnapshotStorage.ts
--   InMemory/MessageBus      src/in-memory/InMemoryMessageBus.ts
--   InMemory/Lock            src/in-memory/InMemoryLock.ts: a task that awaits the lock is listed
--   InMemory/View            src/in-memory/InMemoryView.ts
--   Aggregate                src/AbstractAggregate.ts: the state of an aggregate, `mutate`, `emit`
--   Aggregate/Behaviour      src/AbstractAggregate.ts: `handle`, snapshots
--   CommandHandler           src/AggregateCommandHandler.ts
--   Dispatch/Pipeline        src/EventDispatchPipeline.ts
--   Dispatch/Dispatcher      src/EventDispatcher.ts
--   Dispatch/EventIdAugmentor src/EventIdAugmentor.ts
--   EventStore               src/EventStore.ts: the streams of aggregates and sagas
--   Saga                     src/AbstractSaga.ts
--   Saga/EventHandler        src/SagaEventHandler.ts
--   Projection               src/AbstractProjection.ts
--   Common/Tables            tables of rows under a primary key, with the effect of SQL statements on them
--   Sqlite/Tables            src/sqlite/queries/, src/sqlite/utils/: the tables of locks, `guid`, `getEventId`
--   Sqlite/EventLocker       src/sqlite/SqliteEventLocker.ts
--   Sqlite/ViewLocker        src/sqlite/SqliteViewLocker.ts
--   Sqlite/ObjectStorage     src/sqlite/SqliteObjectStorage.ts
--   Sqlite/ObjectView        src/sqlite/AbstractSqliteView.ts, src/sqlite/SqliteObjectView.ts: a view over them
--   Sqlite/EventStorage      src/sqlite/SqliteEventStorage.ts; its queries are in Sqlite/EventStorage/Queries
--   Redis                    the commands of a Redis server, a parameter, and what their documentation says
--   Redis/EventLocker        src/redis/RedisEventLocker.ts
--   Redis/ViewLocker         src/redis/RedisViewLocker.ts
--   Redis/ObjectStorage      src/redis/RedisObjectStorage.ts
--   Mongo                    the methods of a MongoDB collection, a parameter, and what their documentation says
--   Mongo/EventLocker        src/mongodb/MongoEventLocker.ts
--   Mongo/ViewLocker         src/mongodb/MongoViewLocker.ts
--   Mongo/ObjectStorage      src/mongodb/MongoObjectStorage.ts
--   Mongo/EventStorage       src/mongodb/MongoEventStorage.ts: the collection of events is the list of its documents
--   Workers/ProxyProjection  src/workers/WorkerProxyProjection.ts, src/workers/AbstractWorkerProjection.ts
--   Tests                    each theorem at a concrete input
-- The files below these hold the theorems about them. Functions keep the names of the source in
-- snake case; a private method `#restoreAggregate` is `restore_aggregate`.
--
-- How the code is modelled. State is passed along, and what lies outside a component is a world `W`
-- that its calls take and give back. What is thrown is an `err`. Between two awaits JavaScript is
-- not interrupted: an operation that holds a lock is one step, and the lock itself is modelled by
-- interleavings of steps. A handler of a derived class is the sequence of the calls that it makes on its
-- object. The payload and the context of a message are of a type `A` that the library never looks into.
--
-- The backends. What the source writes in SQL or in Lua is translated like the rest of it: a statement is its effect on the
-- tables, and a transaction or a script is one step. The commands of Redis and the methods of MongoDB are parameters, with
-- their documented behaviour as named hypotheses; Tests/Servers and Tests/Collections have a small server of each kind
-- that satisfies them. Time is a clock in the database, or the time to live that a server counts down. What other
-- processes do between two calls of an operation is a parameter of that operation, or a list of steps.
-- JSON, MD5, UUIDs and the conversion of identifiers to bytes are parameters. A connection is open.
-- The function that an update over MongoDB is given returns; over SQLite and Redis, and in memory, it may throw.
--
-- Fuel. `execute` takes the number of attempts that it may make. One more than the retries that the
-- option allows is enough, since each attempt but the last one is followed by a retry; an option that is a
-- function has no bound of its own.
--
-- The loops of `lock` in the view lockers take the number of attempts that they may make, since another process can
-- hold a lock for ever. The loops of `update` in the storages over Redis and MongoDB count down the attempts that the
-- source allows.
--
-- The default pipeline is that of a container without an augmenter of event identifiers.
--
-- Not modelled: tracing and logging; the container; subscribing; opening connections and creating tables and indexes; the
-- views over Redis and MongoDB that pass their calls on to a locker and a storage; RabbitMQ, whose channels belong
-- to a broker; the start and the end of worker threads; the parallel processing of several batches in one
-- pipeline, and `drain`.
pub mod Common
pub mod Messages
pub mod Utils
pub mod InMemory
pub mod Aggregate
pub mod CommandHandler
pub mod Dispatch
pub mod Saga
pub mod Projection
pub mod EventStore
pub mod Sqlite
pub mod Redis
pub mod Mongo
pub mod Workers
pub mod Tests
