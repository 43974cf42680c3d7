-- ===== src/Lib.antt =====
-- host-container: a service that runs one Docker container per project for its users.
--
-- The program is a Go server. HTTP handlers check a request and call the container manager, which
-- keeps a row per container in PostgreSQL and drives the Docker daemon; a watcher stops containers
-- after a time; Docker's events lead to a recovery service that restarts crashed containers behind a
-- circuit breaker; notifications go to a table and to an in-memory bus that feeds live connections;
-- single-use tokens back the links sent by e-mail. Users sign in with a password and are known by
-- signed tokens or by API keys; they can join their containers in private networks. A page opens a
-- shell, the output or the use of a container over a WebSocket. main.go builds all of it and puts the
-- middlewares before the handlers.
--
-- Which file models which part:
--   Bus            service/notificationBus.go: Subscribe, Publish, unsubscribe
--   Schema         the tables of migrations/*.up.sql; Tables: the statements on a list of rows
--   World          what the services share: the tables, an open transaction, the bus, the log of
--                  calls; the calls that leave the process; transactions
--   Text, Paths    strings and path/filepath as far as they are used, and the guard of the files
--   Containers     service/hostContainerService.go: Repo (service/repository.go and
--                  service/planService.go), Exec (commands), Create, Lifecycle, Watcher; Rows has lemmas
--   Users          the users of service/repository.go, and service/UserService.go
--   Recovery       service/recoveryService.go
--   Events         service/containerEventsService.go; Loop is the stream of the events
--                  and the goroutines of their handlers
--   Tokens         repository/tokenRepo.go
--   Handlers       service/ContainerHandlers.go; Files has the handlers of files
--   Http           utils/utils.go: the replies, and how the handlers answer
--   Jwt            jwt/helper.go: access and refresh tokens
--   Auth           middlware/auth.go; Plain is middlware/Middlware.go
--   Accounts       service/userHnadler.go; Links has the handlers and the jobs of the e-mails
--   Networks       service/networkService.go; Listing is ListNetworks, Handlers is
--                  service/networkHandler.go
--   ApiKeys        service/apiKeyHandler.go; Listing is List
--   Admin          service/adminHandler.go
--   Notices        service/notificationHandler.go; Stream is the live connection
--   Folder         utils/parser.go: the tree of a container's files
--   Templates      repository/templateRepo.go and service/templateHandler.go
--   Sockets        websocket/: Upgrade (upgrader.go), Terminal, Logs, Metrics
--   Mail           email/mailer.go
--   Entry          main.go: Start (with migrations_runner.go and db_config/db.go), Routes, Serve (the
--                  handlers behind their middlewares), Pages, Stack (with middlware/logging.go and
--                  middlware/recovery.go)
--   Cors           middlware/cors.go
--   RateLimit      middlware/ratelimit.go
--   Tests          a small installation, and one example per theorem
--
-- A method of the source is a definition of the same name in snake case. It is an `Action`: from a
-- world to a result and a world. A call of Docker, the file system, the clock or the random source is
-- an `Event` at the head of the log, and what it answers, an error included, is asked of the parameter
-- `Outside`, which sees the whole log: a theorem for every `Outside` holds whatever fails. A SQL
-- statement has its meaning on the tables, and the database may still refuse it. An open transaction is
-- a copy of the tables that its commit puts in place. Loops are structural recursion: no definition
-- runs on fuel. A goroutine that a handler starts is a `Job` of the world, which runs at a later time.
-- A loop that waits (the notification stream, a terminal) runs on a script of what happens, and a
-- reader's frames are a list. The events of Docker are a step relation on the server's goroutines: a
-- message starts one, any of them may run next, and a crash's handler is left at its sleep and woken
-- later.
--
-- Assumed of the database, where a theorem names it: an id that was cast to a text is read back
-- (`CastLaws`), and the clock does not run backwards (`Monotone`); of the libraries: a token that was
-- signed is read back until it expires (`JwtLaws`), and bcrypt accepts the password that it hashed
-- (`BcryptLaws`). The validator, the hashes, LIKE and LOWER, and the token bucket are parameters.
-- The libraries of JSON, of HTML templates and of durations, the collation of the database and how its
-- driver scans a time are parameters too, and so is what the wrappers of Prometheus make of a writer
-- (`KeepsLacks`: they offer no more than what they wrap).
--
-- Not modelled: interleaving of two handlers or transactions but at a crash's sleep; how the HTTP router matches a path, JSON
-- and multipart parsing, time limits; the profiler, the counters of Prometheus, the listeners and the
-- shutdown of main.go; the audit and the images, which no route uses; the accessors of the connection
-- pool.
pub mod Prelude
pub mod Bus
pub mod Schema
pub mod Tables
pub mod World
pub mod Text
pub mod Paths
pub mod Containers
pub mod Users
pub mod Accounts
pub mod Networks
pub mod ApiKeys
pub mod Admin
pub mod RateLimit
pub mod Notices
pub mod Recovery
pub mod Events
pub mod Tokens
pub mod Jwt
pub mod Http
pub mod Auth
pub mod Handlers
pub mod Cors
pub mod Sockets
pub mod Folder
pub mod Templates
pub mod Mail
pub mod Entry
pub mod Tests
