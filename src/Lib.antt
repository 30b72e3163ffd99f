-- ===== src/Lib.antt =====
-- HiMQTT: an MQTT broker with access control from a PostgreSQL database, an administration API and a
-- monitor. The broker proper is a copy of a library in crates/rumqttd; this development is about the
-- program around it, under src/, and about the hooks that the project added to the library.
--
-- The parts and how they interact. The access control service (src/acl) keeps a cache of the users,
-- the registered topics and the rules, which it reads from the database (src/db); the broker asks it
-- at each login, publish and subscription, by hooks in its router. The administration API (src/admin)
-- writes to the database and then has the service reload its cache. The monitor (src/monitor) follows
-- all messages through a link of the broker and shows recent ones, counts and connections to the
-- administration.
--
-- The modules and what they model:
--   Prelude            shared types, tests, lists, texts as code points, rows of a table, maps as
--                      association lists, the splitting of texts; Prelude.Exec is an action on a
--                      state that may fail and keeps what was written before the failure
--   Db.Schema          the rows of src/db/mod.rs and the tables of migrations/
--   Db.Query           one statement sent to the server; Db.Query.Laws
--   Db.Categories, Db.Users, Db.Topics, Db.Acls, Db.Admins, Db.Defaults
--                      each function of src/db/mod.rs (`create_mqtt_user`, ...) as `run` of the SQL
--                      statement it sends (`insert_user`, ...), an operation on the tables
--   Db.Migrations      what migrations/ leave on a new server; Db.Defaults.Applied what the templates
--                      leave in the tables
--   Db.Invariants      the interface of the tables: the statements that write, and what they keep;
--                      Db.Writes: one of them as a relation
--   Db.Constraints     the keys and references of migrations/ as a predicate on the tables; its
--                      children about the statements. Db.Table: any table with an id and a key;
--                      Db.Integrity about the table of the users
--   Acl.Matcher        src/acl/matcher.rs; Acl.Levels, Acl.Coverage and Acl.Registered about it
--   Acl.Cache          the cache of src/acl/mod.rs and `check_acl`; Acl.Decision about it
--   Acl.Service        `reload`, `verify_mqtt_password`, `ensure_seed_data`; its children about them
--   Acl.Interleaving   a reload as steps, among others and among writers; Quiet, Mixed and Stale
--                      about runs
--   Monitor.State      the state of src/monitor/mod.rs; Recent, Ranking, Listing and History about it
--   Monitor.Collector  `collector_loop`, a round at a time; Loop about all rounds, Stop about its end
--   Monitor.Web        src/monitor/web.rs
--   Monitor.System     the choice of the disk in src/monitor/system.rs; Snapshot the whole collection
--   Admin.Server       the state of the handlers, and how an error becomes a status
--   Admin.Auth         src/admin/auth.rs and the middleware `require_auth`
--   Admin.Login, Admin.Users, Admin.Batch, Admin.Categories, Admin.Topics, Admin.Acls
--                      the handlers of src/admin/mod.rs
--   Admin.Router       `serve`: the routes and the handlers of the monitor
--   Admin.Revocation, Admin.Accounts, Admin.Provisioning, Admin.Grants, Admin.Disabling, Admin.Rules
--                      what the handlers mean for the broker
--   Admin.Invariants   what the statements keep, the handlers keep; Admin.Cache: what the handlers
--                      make of the cache
--   Startup            src/main.rs: the check of the TLS paths, the handler of the listeners, and the
--                      start of the access control; Settings the settings with their defaults, Main
--                      `main` with `load_config`, its children about what runs in the end
--   Hooks              `check_acl`, `validate_subscription`, `append_to_commitlog`,
--                      `append_will_message` and the snapshots of `send_meters` in
--                      crates/rumqttd/src/router/routing.rs; Access and Snapshots about them;
--                      Hooks.Login: `handle_auth` of crates/rumqttd/src/link/remote.rs
--   Program            the program as a step relation: requests, logins, refreshes and the collector
--                      in any order, and among them single statements and stores of the cache, by
--                      those that others overtake; Start about its first state, Tables, Sessions and
--                      Tokens about the states it reaches, Whole about those since `main`
--   Tests              a sample server, and the theorems at concrete inputs
--
-- Parameters. The link to the database says for each statement, by its number, what time it is at
-- the server and whether the statement was answered, did not arrive, or was executed and its answer
-- lost; every theorem about the database holds for all links. bcrypt, serde_json, the generator of
-- tokens, `String::from_utf8_lossy`, the parsing of a peer's address and the broker's `matches` are
-- parameters too. Where a theorem relies on one, its documented behaviour is a hypothesis: `IsBcrypt`
-- (a password verifies against its hashes), `IsRoundTrip` (what serde_json writes it reads back),
-- `IsTopicMatch` (a topic matches a filter level by level, MQTT 4.7) and `IsUnrepeated` (the generator
-- gives no value twice). In Startup.Main what the libraries and the machine answer is a parameter; in
-- Monitor.System.Snapshot the floats are.
--
-- Bounds. An `i32` id and a time are natural numbers and do not run over; the sequence of an id
-- column advances on failed inserts too. The counters of messages, in all and of each
-- topic, wrap at 2^64, as in a release build. No loop runs on
-- fuel, except the digits of a number, which are no more than one more than the number.
--
-- What is not modelled: the broker library but for the hooks, where the log of messages is the
-- parameter `Datalog`; connecting, and which migrations have run; the parsing of the command line, of
-- paths, bodies and configuration; the logs and the waiting for tasks. The theorems about
-- what one handler does hold while no other comes in between; in Program and in Acl.Interleaving
-- others do. The locks of the program are never poisoned, since no holder can panic.
pub mod Prelude
pub mod Db
pub mod Acl
pub mod Monitor
pub mod Admin
pub mod Startup
pub mod Hooks
pub mod Program
pub mod Tests
