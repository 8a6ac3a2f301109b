-- ===== src/Lib.antt =====
-- A model of aardbin, a private paste bin with encrypted records and attachments, and theorems on it.
--
-- The server (src/main.rs) is an axum application over one shared state, `AppState` of src/lib.rs:
-- the configuration, a SQLite database of records and attachments, a directory of attachment files
-- with one of temporary files, the cipher of the records, the session manager, the login limiter, a
-- channel of change events and the template engine. Two middleware functions (src/guard.rs) stand in
-- front of the handlers of src/routes.rs; the JSON API (src/api.rs) has its own key check and calls
-- the same operations.
--
-- Which file models which part:
-- Prelude: numbers, lists, texts as lists of code points, UTF-8, dictionaries, `i64` values, decimals.
-- Ratelimit: src/ratelimit.rs. Window, History and Lockout hold its theorems.
-- Session: src/session.rs. Cookies: how a client writes a Cookie header and how it is split.
-- Db: src/db.rs, one function on the two tables per method. Order, Integrity, Steps and Rows.
-- I18n: src/i18n.rs, with its tables. Render: src/render.rs. Config: src/config.rs.
-- Crypto: src/crypto.rs. Files: src/files.rs. Http: requests and responses.
-- Views: what the handlers give to the templates and to the serializer.
-- App: the shared state, its effects and their failures.
-- Form: `parse_record_form` of src/routes.rs. Guard: src/guard.rs.
-- Login: the login, logout and language handlers of src/routes.rs.
-- Records: the record and attachment handlers. Listing: the record list.
-- Api: src/api.rs, by the operations of Records and Listing with JSON responses.
-- Server: any sequence of requests that change the state.
-- Router: the routes and layers of src/main.rs, and how a request comes to its handler.
-- Start: `main` of src/main.rs up to its listener, with `Db::open` and the migration of src/db.rs,
--   `FileStore::new` and `orphan_scan` of src/files.rs, and `Renderer` of src/render.rs. Volume is what
--   stays of one data directory between two runs; a machine has one for each path.
-- Cli: src/cli/src/main.rs. Host is the system and the crates that it calls, Settings the address and
--   the key, Client the requests and the loop of `send_with_retry`, Commands the commands. Wire joins
--   it with the server's table of routes.
-- Fixtures: a concrete server for the tests; the tests of a part are its module Tests.
--
-- How state and failures are modelled. A handler is a function from the shared state to a response and
-- the next state. The state holds, for each kind of call that may fail, a list of outcomes to come: a
-- theorem that says nothing of the lists holds for all of them. Random names and nonces are functions
-- of a counter in the state; what a theorem needs of them, that names are unused, or that a nonce has
-- twelve bytes, is a hypothesis. Clocks are arguments. Numbers are natural numbers, with the wrap of
-- `u64` and `i64` written out where the code can leave the range. All loops are structural recursion
-- on the list that they consume, but for two: the printing of a decimal runs on fuel, twenty digits,
-- which is enough for a `u64`, and the loop of `send_with_retry` on four rounds, which are enough by
-- Cli.Retry.send_with_retry-IsSent. A start may fail or be stopped in any of its calls.
--
-- What is taken from other crates is a parameter: AES-256-GCM and the JSON of a record (`Cipher`, with
-- `CipherLaws`), the digests (`Digest`), the hex decoder, the guess of a media type, the template
-- engine, the serializer and the time formatter (`Env`, and `Platform` for a start); axum's extractors
-- (`Arrival`); and for the client the system, reqwest, serde_json and toml (`Host`). SQL statements have
-- the meaning of their text.
--
-- Not modelled: records of a log, the streams of events and of file bodies, the static files, the
-- content types that axum adds, the accept loop and the signals of src/main.rs, the parsing of the
-- command line by clap, the tests, templates, scripts and styles.
pub mod Prelude
pub mod Cookies
pub mod Session
pub mod Db
pub mod Http
pub mod I18n
pub mod Render
pub mod Config
pub mod Crypto
pub mod Files
pub mod App
pub mod Form
pub mod Server
pub mod Start
pub mod Router
pub mod Fixtures
pub mod Views
pub mod Guard
pub mod Login
pub mod Records
pub mod Listing
pub mod Api
pub mod Cli
pub mod Ratelimit
