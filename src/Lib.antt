-- ===== src/Lib.antt =====
-- shareserver: a model of the Go server that stores client-encrypted archives ("Shares") and gives
-- them out by link, by private key and by password hash.
--
-- Parts, and how they interact. A request passes the middleware (security headers, session, CSRF)
-- and reaches a handler. The handlers ask the upload module to admit and store an archive, the Share
-- store to list and find rows, the integrity module to repair rows and blobs before they show them,
-- and the authentication module about admin logins. All state is in SQLite tables behind the
-- generated Ent client, in a directory of blob files and in one process-wide reservation map.
--
--   * Base: Boolean tests, lists, Go strings as byte lists, and int64 with its wrap-around.
--   * Time: instants as nanoseconds since the year 1, and time.RFC3339Nano both ways. Lemmas on its
--     texts are in Time/Digits, Time/Calendar, Time/RoundTrip, Time/Order and Time/Fraction.
--   * Codec: encoding/base64 and strconv as the program calls them.
--   * World: the state. The rows are those of internal/ent/schema/*.go. World/Db has the calls of the
--     Ent client by what their SQL does, World/Files the calls of os, World/Path those of
--     path/filepath and `absolute` of internal/storage/integrity.go. World/BanTable has lemmas on bans.
--   * Share, Share/Store: internal/share/model.go and internal/share/store.go, a function for each
--     method. Share/Rules, Share/Listing and Share/Rows hold their theorems.
--   * Storage, Storage/Integrity: internal/storage/blobstore.go (UUID, Stage, Commit, UsedBytes) and
--     internal/storage/integrity.go (RemoveShare, Purge, PurgeUnprotected, ClearStaging, Reconcile).
--     Lemmas and theorems on them are in Storage/Removal, Storage/Removed, Storage/Shrinks,
--     Storage/Purged, Storage/Fit and Storage/Reconciled, which rests on Storage/RepairedRows and
--     Storage/Swept.
--   * Auth: internal/auth/auth.go, but for CleanIP, which is `clean_ip` of Http/Middleware. Theorems
--     in Auth/Hashes, Auth/Login and Auth/Bans. Audit: internal/audit/audit.go.
--   * Upload, Upload/Capacity, Upload/Do: internal/upload/upload.go. `validate` is the first half of
--     Do, up to the expiry; `reserve_capacity` and `release_capacity` are the reservation map;
--     `do_upload` is Do, cut where its early returns and deferred calls are. Theorems in
--     Upload/Admission, Upload/Expiry, Upload/Ledger, Upload/Stored, Upload/Success (which rests on
--     Upload/Receipts and Upload/Recorded) and Upload/Lifetime.
--   * Upload/Pool: uploads in parallel. A step is what one upload does under `capMu`, or anything else
--     that adds no stored byte. Upload/Interleaved has its invariant, and Upload/Runs, on
--     Upload/Staging, shows that Do is a sequence of such steps.
--   * Http: internal/http. Sessions is sessions.go, Middleware is middleware.go, Download is
--     download.go, Body, Api and AdminPages are handlers.go, Shares is the pages of router.go. Router
--     is its route table, with `serve` for a request on its way through the middleware to a handler.
--     Cleanup is cleanup.go and the administrator's set-up before it. I18n has the lookup of
--     translated texts of i18n.go and the page context of render.go, Render the titles and the error
--     page of render.go. Theorems in Http/Laws,
--     Http/SessionLaws, Http/Isolation, Http/Ids, Http/Released, Http/AdminGate,
--     Http/Upkeep, Http/SessionLife, Http/Banned, Http/Guessing and Http/Bulk.
--   * Config, Config/Secret: internal/config/config.go. Theorems in Config/Load and Config/Secret.
--   * App: `run` and `execAnubis` of cmd/shareserver and `Open` of internal/db/db.go. Theorem in
--     App/Serving.
--   * Ent: internal/ent, the generated client, written once over the columns of a table. Predicate is
--     where.go with SQL's three-valued logic, Mutation is mutation.go, Create, Update and Query are the
--     builders in *_create.go, *_update.go, *_query.go, *_delete.go and client.go, Queriers has the
--     query and delete builders of each table with their panicking variants, Scan is scanValues and
--     assignValues. Shares, Admins, AuditEvents, IpBans, LoginFailureEvents and Sessions have the columns
--     of each table and what was generated for them; ShareRows, StoreQueries and Builders are the calls
--     that internal/share, internal/auth, internal/http and internal/audit make. Theorems in
--     Ent/Queries, Ent/Inserts, Ent/Gets (with Ent/Tables), Ent/Lists, Ent/Checks, Ent/FieldLaws, Ent/Updates
--     (with Ent/Keyed) and Ent/Saves. The handlers stand on World/Db, which has the same calls by what
--     their SQL does.
--   * Fixtures, Witnesses: concrete inputs, and every theorem with hypotheses at one of them.
--
-- How code becomes definitions. A handler is a function of the world to an answer and a world
-- (`M`). `World.faults` says of each I/O call to come whether it fails; a call takes one entry, and an
-- empty list is a run without failures. A failing call has no effect, and what the code then returns
-- or ignores is written out. A function that holds a Go mutex throughout is one step of the state.
-- Random bytes and clock readings are arguments, in the order in which the code draws them.
--
-- Bounds. Byte counts are Go's int64 where the code adds and subtracts them, with the wrap-around of
-- 2^64 in Base/Int; the theorems on the ledger ask for counts below 2^60. `decimal` in Codec
-- writes a number n on fuel n + 1, which is more than it has digits; every other recursion is on a
-- list or a number. Theorems that read a stored time back ask for instants before the year 10000,
-- which RFC 3339 writes in four digits.
--
-- Parameters, for code outside the repository: bcrypt, SHA-256, HMAC-SHA-256 and Unicode NFC
-- (`Auth.Crypto`, with `IsSound` for what a theorem needs of bcrypt), net.SplitHostPort and
-- net.ParseIP with their address tests (`Http.Net`), and the parsers of media types, queries and JSON
-- (`Http.Parsers`). A multipart body is the list of its parts, each with the way it ends. How chi
-- matches a pattern is an argument of `serve`. Of the database the generated client takes the answers
-- (`Ent.Query.Driver`, `Ent.Update.Updater`), the comparisons (`Comparing`, with `IsBinary` for SQLite's
-- BINARY texts) and Rows.Scan (`Scanning`, with `IsScan`).
--
-- Not modelled. HTML templates and the browser's code only present data, and the files that are served
-- are net/http's to read. Hooks, interceptors, transactions, bulk creation and grouping of the
-- generated client, and the panicking variants of its Save, are not used by the program. What the
-- migration does, the listening of cmd/shareserver and the sleep of StartCleanup are pure I/O.
-- Reading the directory in UsedBytes is taken to succeed; the error texts in audit entries of failed
-- deletions are left out; a session call reads the clock once; instants before the year 1 do not
-- occur. Where SQL leaves an order open (a list without ORDER BY, rows with equal stamps) World/Db
-- takes that of the table; Ent/Lists states the lists of the client for any such order.
pub mod Base
pub mod Time
pub mod World
pub mod Share
pub mod Storage
pub mod Codec
pub mod Auth
pub mod App
pub mod Audit
pub mod Upload
pub mod Http
pub mod Config
pub mod Ent
pub mod Fixtures
mod Witnesses
