-- ===== src/Lib.antt =====
-- vpn-backend: the control plane of a VPN service. It keeps users, devices, servers, administrators
-- and access keys in PostgreSQL, and it creates and removes the credentials of those keys on a data
-- plane, an Outline server. The data plane lets in whoever holds a credential that it serves, and
-- knows nothing of the rows; so the program's central task is to keep the two in step.
--
-- The parts, and the files that model them:
--   internal/models            Models, Models/Hooks (the `BeforeCreate` hooks)
--   internal/repositories      Repositories (the pagination), and a child for each table:
--                              AccessKeys, Users, Devices, Servers (with the metrics), Admins, AuditLogs
--   internal/services          Services, and a child for each service: AccessKeys, Users, Devices,
--                              Servers, Admins, Audit, Auth, Usage; a method `FindExpired` is
--                              `find_expired`
--   internal/services/errors.go  Errors, with the sentinels of gorm and of the auth service
--   internal/crypto            Crypto
--   internal/vpn/config.go     Vpn
--   internal/vpn/provider.go   Provider (the interface), Provider/Laws (its contract)
--   internal/vpn/outline_provider.go  Vpn/Outline
--   internal/vpn/system_metrics.go  Vpn/System
--   internal/auth              Auth/Sessions, Auth/Google
--   internal/handlers          Handlers (the helpers, and pkg/response), a child for each handler, and
--                              Router for router.go: an `Endpoint` for each route, its `guard`, and
--                              `serve`, which is the chain of middlewares and the handler
--   internal/middleware        Middleware
--   internal/config            Config
--   internal/database          Database/Migrations, and `connect` of Server
--   cmd/server/main.go         Server
--
-- A Go function that returns a value and an error is an `Action`: a step on a world of any type `W`
-- that answers `ok` or `err`. After an error the world comes back as well, with all that was written
-- until then. A method takes the record of its service, whose fields are those of the Go struct; the
-- repositories of a service are functions of its database.
--
-- Code that is not in the repository is a parameter. Database is what the repositories call of gorm:
-- a condition on a table is a test on its rows. Database/View says what of a world the theorems
-- speak: each table as a partial map from identifiers to rows, and the credentials that the data
-- plane serves. Database/Laws has the documented behaviour of the calls as laws on the view, with
-- nothing assumed of how a call fails but that it then writes nothing; they include the columns that
-- gorm fills and the foreign keys' effect on other tables. Database/Reliable is a database that answers.
-- Platform has the random source, the encodings and AES-GCM with their laws. Provider/Laws allows a
-- call of the data plane that fails to have had its effect, and names what AccessKeys/Success assumes
-- beyond that: that a credential that is served can be revoked.
-- Vpn/Outline/Contract has what is documented of the management API. JSON Web Tokens, HTTP requests,
-- the file system, the parsers of numbers and gin's binding of a request are fields of the records
-- that use them, with their laws beside the theorems; Text has what is used of package strings.
--
-- Database/Backing defines `IsBacked`: each credential that is served has an ACTIVE row. Retire,
-- RetireAll and Selected, below Services, are about the two writes that take a key out of service,
-- the loops of them, and the loops over rows that a condition has selected; Users/KeyLoop,
-- Users/DeviceLoop, Users/Cascade and AccessKeys/Sweep apply them to the code's loops. Every loop of
-- the program runs over a list, and is recursion on it; no fuel is used. Base has the shared names,
-- and Base/Int the signed integers with the wrap-around of 64 bits.
--
-- Requests: a handler answers a `Response` and leaves a world. Router/Keeps and Router/Views are about
-- the endpoints that every role may call, Router/Access about the way of a request through the limiter,
-- `RequireAuth` and `RequireRole`. Server/Runs has the operations as steps of one relation.
--
-- Testing has a world of lists that runs, with instances of all the laws, and applies the theorems in it.
--
-- Not modelled: which endpoint a request is for (gin), the headers of a response, the request log, the
-- Prometheus collectors and the goroutines of the tickers and of the server, of which a tick is
-- modelled; the metrics page, CORS, TLS with the pinned certificate and the drawing of QR codes, which
-- are libraries'. Requests are served one at a time. A deadline, a log line, a timestamp column that
-- gorm fills, but for those of the audit log and of the health samples, and the order of a list are left
-- out. An instant is a number of nanoseconds from the zero time. The text of a wrapped error is kept without the
-- values that its format inserts, but for a file's name or an issuer. A panic on a nil server in
-- `Rotate` is an error of its own. Floating-point numbers are of any type with the operations used.
pub mod Base
pub mod Errors
pub mod Action
pub mod Models
pub mod Database
pub mod Provider
pub mod Platform
pub mod Crypto
pub mod Text
pub mod Repositories
pub mod Vpn
pub mod Auth
pub mod Services
pub mod Handlers
pub mod Middleware
pub mod Router
pub mod Config
pub mod Server
pub mod Testing
