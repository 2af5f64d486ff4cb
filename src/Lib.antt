-- ===== src/Lib.antt =====
-- LiveRelay, a real-time notification and messaging service: WebSocket clients subscribe to rooms,
-- backends send over HTTP, and Redis joins the instances.
--
-- Which file models which part of the repository:
-- - Rooms and its children: src/core/RoomManager.ts. The two JavaScript maps are association lists
--   in insertion order (Base.Dict), the sets are lists without repetition (Base.Sets); a call
--   returns the new state with its answer. `Date.now()` is an argument.
-- - Connections and its children: src/core/ConnectionManager.ts. A WebSocket is its identity, a
--   number; the heap, a function, holds the `UserData` of each (Types, src/types/connection.ts).
--   What a method sends is returned as a list of effects. That connection ids do not repeat
--   follows from nanoid's answers (Ids), and is a hypothesis where it is used.
-- - Limiter and its children: src/core/RateLimiter.ts. `Date.now()` and the random suffix are
--   arguments; a pipeline is taken as run in one piece, and may fail in two ways.
-- - Protocol: src/protocol (messages, error codes, `serialize`); Protocol.Values: what
--   JSON.stringify prints; Protocol.Schema: the schemas of the messages of a client. Client.Wire sets
--   the two sides of the protocol against each other.
-- - PubSub and its children: src/redis/RedisPubSub.ts. A call whose answer Redis gives later is two
--   functions, one for what is asked and one for the answer.
-- - Router and its children: src/core/MessageRouter.ts.
-- - Server and its children: src/transport/WebSocketServer.ts. One state holds the managers, the
--   metrics and the objects of the sockets, to which messages assign; Server.Reach has the states
--   that the handlers can come to. A message that waits for the rate limiter is returned, and handled
--   by a second function when the limiter has answered. Server.Late gives the same callback as a list
--   of changes and calls in their order, and runs it on a closed socket, whose methods throw.
-- - Cluster and its children: MessageRouter of one instance with RedisPubSub of another or of the same;
--   what Redis hands on is a parameter, which may lose messages.
-- - Http and its children: src/transport/HttpServer.ts with src/transport/middleware.
--   A request is given by its headers, the limiter's answer, its body and whether the client is gone.
-- - RoomSync and its children: src/redis/RedisRoomSync.ts. Presence and its children:
--   src/redis/RedisPresence.ts. A flag of a call says whether Redis ran it; a call that
--   awaits two commands is two functions.
-- - Heartbeat and its children: src/core/Heartbeat.ts, one run of the timer's callback, and its runs
--   at times that are an interval and a delay apart at most.
-- - Ids: src/utils/idGenerator.ts. Logger: src/monitoring/logger.ts.
-- - Auth: src/auth/JwtVerifier.ts. Metrics: src/core/MetricsCollector.ts.
-- - Client and its children: client/src/LiveRelayClient.ts. The sockets and timers of the platform are
--   part of the client's state: each socket holds which listeners it has. Client.Connection has a step
--   for each call of the user and each event of a socket or a timer; a call of a handler, an opened
--   socket, a sent text and a started timer are effects.
-- - Shutdown and its children: src/utils/gracefulShutdown.ts. The handler of a signal is cut at each
--   `await`; Shutdown.Trace has runs in which the connections change in between.
-- - Config and its children: src/config. A configuration is its value at each key; Config.Schemas says
--   what the code relies on of zod, and Config.Plain is a parser that does it.
-- - RedisClient: src/redis/RedisClient.ts, with src/monitoring/healthCheck.ts.
-- - Start and its children: src/index.ts, what is made of a configuration.
-- - Redis: the commands of Redis that the sources send, as an interface with the documented laws;
--   Redis.Memory is a store that meets them.
-- - Base: what all share. A string is the list of its code units.
--
-- The parts use one another as in the source: a manager is created with its limit, and each method
-- is a function of its own on the state.
--
-- Recursion is on lists throughout; `decimal` is the one function on fuel, a number having no more
-- digits than its value plus one. What goes on for ever in the program (a client, a server, a timer, a
-- shutdown) is given by the list of the events that come.
--
-- Not modelled: the dashboard, the scripts that demonstrate and test the program, and its tests; what
-- the logger prints. uWebSockets.js, ioredis, zod, jsonwebtoken, pino and nanoid are parameters or
-- hypotheses.
pub mod Base
pub mod Types
pub mod Rooms
pub mod Connections
pub mod Redis
pub mod Limiter
pub mod Protocol
pub mod PubSub
pub mod Metrics
pub mod Auth
pub mod Server
pub mod Router
pub mod Client
pub mod Shutdown
pub mod Config
pub mod RedisClient
pub mod Start
pub mod Ids
pub mod Logger
pub mod Http
pub mod Cluster
pub mod RoomSync
pub mod Presence
pub mod Heartbeat
