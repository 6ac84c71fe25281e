-- ===== src/Lib.antt =====
-- The go_cmms server, modelled and proved correct: sessions, passwords, signup and login, the sign-in
-- with OAuth providers, TOTP, invites, the linking of identities, work orders and tasks, the
-- repository and the SQL queries under them, and the middleware that guards the routes.
--
-- How the program is put together. `main` (cmd/server/main.go) opens the database, wraps its queries
-- (internal/db/gen) in a repository (internal/repo), and mounts middleware (internal/middleware) and
-- handlers (internal/auth, internal/handlers). A handler reads the session of its cookie from an
-- in-memory store (internal/session), or the organisation and the user that `RequireAuth` has put
-- into its context, asks the repository, and answers. Here a handler is a state monad over `World`
-- (the database, the session store, pending links, deny lists, rate limiter, clock, sources of
-- randomness) that may stop with a response, as `http.Error(…); return` does.
--
-- Which file models what:
--   Base, Base/*      names of the libraries, lists, sorting, Go maps as association lists, integers
--   Text              byte strings with the used parts of `strings`
--   Models            internal/models/types.go
--   Session           internal/session/store.go; Session/Laws against the live view, Session/Race the
--                     interleavings of its critical sections as a step relation
--   RateLimit         internal/middleware/rate_limiter.go; RateLimit/Calls and Bound the grants
--   Security          internal/security/denylist.go
--   Slug              `slugRE` of internal/auth/local.go
--   Roles             the levels of internal/middleware/require_role.go, `rankRole` and the loop of
--                     `ApplyGroupRoleMappings` in internal/repo
--   Db, Db/*          the tables of database/schema and the queries of internal/db/gen, and the SQL of
--                     the invites in internal/repo/orgs.go; Db/Laws relates them
--   Db/Like           `ILIKE` and the pattern of a search term
--   Db/WorkOrders     internal/db/gen/work_orders.sql.go; Db/WorkOrders/Order and Search the paged
--                     search, Db/WorkOrders/Create and Patch `create_work_order_from_json` and
--                     `update_work_order_from_json` of database/schema/007_functions.up.sql, which
--                     the queries of these names call; Search/Wanted and Sorted describe the filters
--                     and the order, Search/Answers and Rows what a search and its pages hold;
--                     Db/WorkOrders/Apart the unique indexes, Invariant sequences of the statements that write work orders
--   Db/Tasks          internal/db/gen/tasks.sql.go; Db/Tasks/Toggle sequences of toggles
--   Http              requests, responses, the state of the server and the monad
--   Repo, Repo/*      internal/repo/helpers.go, users.go, orgs.go, auth.go, work_orders.go, tasks.go
--   Phc, Phc/*        `phcEncode` and `phcParse` of internal/auth/local.go, with `%d`, `Sscanf` and
--                     base64; Phc/Numbers, Phc/Encoding and Phc/RoundTrip the round trips
--   Auth              internal/auth/session.go, the parameters, and small helpers; Auth/SessionCookie
--                     relates the cookie and the store
--   Auth/Password, Auth/Signup, Auth/Login   internal/auth/local.go
--   Auth/Provider, Auth/OAuth   internal/auth/provider.go and the sign-in of internal/auth/handlers.go
--   Auth/Profile      the profile handlers of internal/auth/handlers.go, internal/handlers/admin/admin.go
--   Auth/Link         internal/auth/linking.go
--   Auth/Invite       internal/auth/invite.go
--   Auth/Account      internal/auth/password.go and profile.go, and the TOTP handlers of local.go
--   Middleware        internal/middleware/auth.go, auth_optional.go, denylist.go, mfa_enforce.go,
--                     require_role.go, rate_limiter.go; Middleware/Server the order of cmd/server/main.go
--   Handlers          internal/handlers/work_orders/work_orders.go and tasks/tasks.go; Handlers/Routes
--                     internal/handlers/router.go, Handlers/Tenants what the routes leave alone
--   Tests, Tests/*    a small server, and the theorems at concrete inputs
-- A function of the source keeps its name in snake_case (`SignupHandler` is `signup`, and the other
-- handlers likewise); its stages are functions of their own, called in the source's order.
--
-- Bounds and conventions. A text is a list of bytes, and letter case and spaces are those of ASCII. A
-- `uuid.UUID` is its 128-bit number and a `time.Time` its nanoseconds since Go's zero time. A token of
-- the rate limiter is 6·10¹⁶ units, so that the rates are whole numbers; the rounding of float64 is not
-- modelled. `%d` prints with a fuel of 20 digits, which is enough below 10²⁰ (and so for 64 bits).
-- The numbering of work orders has the ten attempts of the source as its fuel. An integer of SQL has
-- 4 bytes, with an error beyond them. A request is handled at one reading of the clock. A call of the
-- database fails where the map `faults` says so, and an error of a statement changes no row.
-- `rand.Read` does not fail. argon2, SHA-256, TOTP, URL escaping, the parsing of addresses and UUIDs,
-- and the database's collation and casts are functions of a record of parameters, and the OAuth2 and
-- OIDC libraries, the providers and the API of GitHub of two more, with the hypotheses named where a
-- theorem needs one (`IsKeyed`, `IsOrder`).
--
-- Not modelled: the full list of tasks, the JSON document of a work order (its row stands for it),
-- `SetupProviders` and its discovery cache, the searches of users, teams, locations and assets, the
-- configuration, logging, CORS and static files; the decoding of JSON bodies (a handler is given the
-- decoded body, or none).
pub mod Base
pub mod Text
pub mod Models
pub mod Session
pub mod RateLimit
pub mod Security
pub mod Slug
pub mod Roles
pub mod Db
pub mod Http
pub mod Handlers
pub mod Repo
pub mod Phc
pub mod Auth
pub mod Middleware
pub mod Tests
