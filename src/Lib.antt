-- ===== src/Lib.antt =====
-- The WhatsApp gateway of the repository, baileys/src, as a model with its properties.
--
-- The gateway keeps WhatsApp sessions open, each through a socket of the baileys library, and sends
-- messages over them for clients that hold an API key. A request passes the authentication
-- (auth.ts). A send claims its idempotency key in the table of sent messages
-- (messages/repository.ts), takes the socket of its session from the session manager
-- (sessions/manager.ts), asks whether the number exists, shows that it types, and sends
-- (messages/send.ts). The outcome goes into the row of the key, into the metrics
-- (metrics/registry.ts) and back to the manager, which calls a session unhealthy after a run of
-- faults. The manager also reacts to what sockets report: it reconnects with growing delays, gives up
-- after a budget, and forgets a session that was logged out. Its events go to the subscribers of an
-- event bus (sessions/events.ts): the webhooks, which post them to a consumer with a signature
-- (webhooks), and the stream of a session that is being paired (routes/qr-stream.ts). The process
-- checks its configuration and migrates the database before it listens (index.ts, migrate.ts).
--
-- Files and what they model, with paths below baileys/src:
--   Prelude         equality tests, lists, results, text and dictionaries that the parts share
--   Errors          errors.ts: ErrorCode, ApiError and its constructors; Thrown is what can be thrown
--   Phone           wa/phone.ts: normalisePhoneNumber, toUserJid
--   Timeout         wa/timeout.ts: withTimeout on a promise that settles at a time or never
--   Presence        wa/presence.ts and wa/footer.ts: typingDelayFor, simulateTyping, withJakartaFooter
--   ErrorMapping    wa/error-mapping.ts: mapSendError, mapPairingError, mapAckError
--   Config          config.ts: loadConfig, loadMigrationConfig, on an environment of optional texts
--   Auth            auth.ts: the onRequest hook as a function from a request to an error or none
--   Database        the rows of the tables, from migrations and the row types
--   AuthState       wa/auth-state.ts: credentials and keys of a session
--   Metrics         metrics/registry.ts: MetricsRegistry, seriesKey, formatLabels
--   Sessions        sessions: Repository (repository.ts), Events (events.ts), State and Manager
--                   (manager.ts); below Manager: Awaits (connect, restart, the timers and, in
--                   Updates, the updates of a socket from await to await, with what comes
--                   between), Backoff, Connection (the updates of a socket), Lifecycle (connect,
--                   restart, reset, logout, delete, shutdown, restoreAll, the timers), Sockets
--                   (which socket a request may use); MessageEvents (message-events.ts)
--   Messages        messages: Repository (repository.ts) with Race for two claims whose queries
--                   alternate, and Send (send.ts)
--   Routes          routes/sessions.ts: the routes on sessions, with Owners for whose session it is;
--                   Gauges is routes/metrics.ts
--   QrStream        routes/qr-stream.ts: the stream, with Frames for its text
--   Webhooks        webhooks: dispatcher.ts, and signature.ts with Signing for what a signature binds;
--                   Receiver is scripts/webhook-receiver.ts, beside src
--   Migrations      migrate.ts: runMigrations, over the files of a directory
--   Process         index.ts: main and the signals
--   Server          server.ts and routes/health.ts: toApiError, the error and not-found handlers
--
-- An entry of the manager is an object that the map, the handlers of its sockets and its timers share,
-- so entries stand on a heap and the map gives places on it. Methods are functions from a state to a
-- result and a state; commands, updates of sockets and timers are the constructors of one type, and
-- `run` is a history of them. A send runs over a world of the manager's state, whose database holds
-- the messages, and the wire, which is every call of sendMessage.
--
-- Bounds and choices:
--   - A method of the manager, and a send, run with nothing between their awaits. connect, restart, the
--     timers and the updates of sockets are also modelled in pieces that interleave
--     (Sessions.Manager.Awaits), in which a query that is awaited has its effect in the piece before
--     the await, and two claims as steps of their queries (Messages.Repository.Race).
--   - A delivery of a webhook is two steps, up to its fetch and after it. The digest and the JSON text
--     of an event are parameters, as are what a migration file holds and what its statements do.
--   - Queries are functions on lists of rows, ORDER BY keeps the order of equal rows, and the database
--     and the gateway have one clock in milliseconds. The queries of the manager are taken to succeed
--     and to land in the order in which they are made, those that nothing awaits as well; those that
--     mark a send may fail. The end of a socket counts as closing the manager's side of it whether or
--     not the call throws.
--   - The state has both registries that index.ts makes: the manager's own, in which reconnects are
--     counted, and the server's, in which sends are counted and which /metrics renders.
--   - A run of the migrations starts from the database as it is when the lock is given.
--   - Text is a sequence of Unicode scalar values, and `.length` counts UTF-16 units. Numbers are
--     natural numbers, since nothing here is negative or wraps around.
--   - The random number of the backoff is k parts of 2^53, and the product is rounded exactly.
--   - The codes of DisconnectReason are those that the source's comments give.
--   - What Intl, the URL test, the credentials that the library makes, and the sockets answer is a
--     parameter: an argument of the definitions that use it.
--   - Loops are recursion on lists. Printing a number runs on fuel one above its value, which is more
--     than its digits.
--
-- Not modelled: serialisation and the key cache of the library, logging, the connection pool and a
-- database that fails where it is not said above, the registration of routes with the framework, the
-- console (wa-console), the consumer services in Go (go-consumer) and the Laravel package
-- (wa-laravel).
pub mod Prelude
pub mod Errors
pub mod Phone
pub mod Timeout
pub mod Presence
pub mod ErrorMapping
pub mod Config
pub mod Auth
pub mod Database
pub mod AuthState
pub mod Metrics
pub mod Sessions
pub mod Messages
pub mod Migrations
pub mod Process
pub mod QrStream
pub mod Routes
pub mod Server
pub mod Webhooks
