-- ===== src/Lib.antt =====
-- A verification library of Arcana Cloud (Node.js): a user and authentication backend with an event
-- bus, background jobs and a Redis lock.
--
-- Base has what every module shares; Base/Exec.antt models an asynchronous method as an action on a
-- state: `ok a s` for a promise that resolves, `err e s` for one that is rejected, with the state as
-- it is by then in both. Errors is src/utils/exceptions.ts.
--
-- Tasks is src/tasks/distributed-lock.ts: Tasks/Lock.antt the lock and `withLock`,
-- Tasks/Election.antt the leader election, Tasks/Election/Cluster.antt several instances that share
-- one Redis server and interleave their ticks. The server is not code of the repository:
-- Tasks/Redis/Interface.antt has its commands as a record, with the documented laws of SET PX NX,
-- GET, DEL, PEXPIRE and of expiry, and Tasks/Redis/Memory.antt an instance in memory. A command that
-- fails is not modelled there, other than by a server that is not configured. A Lua script is one
-- atomic command. `stop` releases the lock and leaves the office in one step of the cluster; in the
-- code the release is awaited before `isLeader` is set. Timers are steps of the cluster, enabled by
-- the flags `electing` and `renewing`.
--
-- Tasks/Queue.antt is src/tasks/queue.ts over a parameter for BullMQ, and Tasks/Background.antt the
-- jobs of src/tasks/background.tasks.ts, which take their locks from Tasks/Lock.antt.
-- Tasks/Scheduled.antt is src/tasks/scheduled.tasks.ts and src/tasks/index.ts: the jobs that the
-- elected leader puts on their queue.
--
-- Events is src/events/: Events/Domain.antt the events, their payloads and the zod schemas,
-- Events/Store.antt the EventStore (idempotency marks, counters, audit rows, channel),
-- Events/Bus.antt the registration of handlers, Events/Bus/Pipeline.antt `publish` and the delivery
-- to handlers, Events/Bus/Jobs.antt the work on queued events, Events/Audit.antt the log of events
-- in memory, Events/Handlers.antt the handlers of users and of security events, Events/Start.antt
-- the start of the bus. Redis, Prisma and BullMQ behind them are the record of Events/Backend.antt,
-- whose commands may do anything to an abstract world and may throw; handlers are such actions too.
-- A number stands for the identity of a handler function.
--
-- Accounts is src/models/, src/repositories/, src/repository/ and src/services/impl/:
-- Accounts/Models.antt the data, Accounts/TokenDao.antt and Accounts/UserDao.antt the queries of
-- src/repositories/impl/, Accounts/TokenRepository.antt and Accounts/UserRepository.antt the layer
-- of src/repository/impl/, Accounts/Auth.antt and Accounts/Users.antt the two services. The Prisma
-- client is the record of Accounts/Prisma.antt, whose law says what the calls that return have done
-- to the token table, and Accounts/Prisma/Memory.antt an instance; a call may also fail.
-- jsonwebtoken, bcrypt, uuid and the publication of events are the record of Accounts/Platform.antt,
-- with the law that they leave the token table alone: the handlers of src/events/handlers/ log,
-- count and queue jobs. The services' longer methods are cut into steps, from the last to the first.
--
-- Http/Guards.antt is src/middleware/auth.middleware.ts over the authentication service: a
-- middleware answers the request as it leaves it and the argument of its call of `next`.
-- Http/Paging.antt is `validatePagination` of src/middleware/validation.middleware.ts.
-- Http/Controllers.antt is the handlers of src/controllers/, over the record of the communication
-- layer; Http/Controllers/Routes.antt puts the middlewares before them,
-- Http/Controllers/Schemas.antt is src/schemas/, and Http/Responses.antt is src/utils/response.ts
-- and src/middleware/error.middleware.ts.
--
-- Communication is src/communication/, src/grpc/ and `bindCommunicationLayer` of
-- src/di/container.ts: the operations that the controllers call, as a record of actions
-- (Communication/Interfaces.antt), by the services of the process (Communication/Direct.antt), by
-- HTTP (Communication/Http.antt) and by gRPC (Communication/Grpc/Client.antt), with the turns of the
-- clients and the repetition of failed calls (Communication/Pool.antt), and the gRPC services
-- themselves (Communication/Grpc/Server.antt). axios and the stubs are parameters;
-- Communication/Grpc/Channel.antt has what the gRPC library is documented to do with a message
-- between a stub and a handler.
--
-- Loops over lists are structural recursion. `next_middleware` has a depth, which is the number of
-- the middlewares left: each call of `next` raises the shared index, so a call nested as deep as
-- that finds no middleware left. `attempt_lock` recurses on the rounds left.
--
-- Not modelled: logging, the limiters and the other middlewares of the HTTP layer, the other
-- bindings of the container, the metrics of the event store as a whole, the receipt of messages of
-- other instances, the start of the servers in src/index.ts, and timestamps other than as numbers.
pub mod Accounts
pub mod Communication
pub mod Base
pub mod Errors
pub mod Tasks
pub mod Events
pub mod Http
pub mod Tests
