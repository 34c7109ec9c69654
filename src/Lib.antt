-- ===== src/Lib.antt =====
-- Verification of Simply IP Vault (src/), a service that keeps IP ban lists and white lists, with
-- delegated API keys.
--
-- The parts, and the files that model them:
-- - `Entities`, `Error`: the rows of src/entities, the errors of src/error.rs. A UUID is a number
--   and a time counts seconds; a message is a constructor for each format string.
-- - `Outside`: what comes from other crates and from the machine, as one record of parameters.
-- - `Store`: the database as a record of tables (src/migration), and a request handler as an
--   `Action`, which returns or fails and passes the tables on. `Store.Tables` has the statements
--   with their constraints and cascades; `Store.Spec` and `Store.Chain` are a logic of total
--   correctness for actions.
-- - `Guards` (src/api/guards.rs), `Support` (src/api/support.rs), `Crypto` (src/crypto.rs).
-- - `Keys` (src/api/keys.rs): `Subtree`, `Listing`, `Create`, `Update`, `Rotate`, `Grants` and
--   `Delete` have the handlers of the same names; the files below each have its theorems.
-- - `Groups` (src/api/groups.rs).
-- - `Authority`: sections 4 and 5 and rule R4 of RBAC_MODEL.md as a relation between the tables
--   before and after a request, and the statements on the table of keys against it.
-- - `Service` (src/lib.rs, `create_app`): the routes on keys, groups, records and webhooks, and runs
--   of requests; `Service.Safety` states them against `Authority`.
-- - `Replay` (src/replay.rs), `MasterPin` (src/master.rs), `ClientIp` (src/config.rs), and
--   `Middleware` (src/middleware.rs), which composes them with `Crypto`.
-- - `Config` (src/config.rs): the settings from the environment, and `Config.Proxies` the entries of
--   `TRUSTED_PROXIES`.
-- - `Dispatch` (src/dispatch.rs): `Modes` and `Templates`, `Prepare` for `prepare_dispatch`,
--   `Delivery` for the retries, `Screen` for `is_blocked_address` and `is_url_safe`.
-- - `Records` (src/api/records.rs): deletion, restoration and purge of IP records; `Retention`
--   (src/retention.rs): the windows and the purges. `Store.Aged` has their statements,
--   `Store.Transaction` the transaction of `delete_ip`.
-- - `Webhooks` (src/api/webhooks.rs): `Edit` has `update_webhook`, `Manage` the other endpoints.
-- - `Examples`: a small vault and runs of the model on it.
--
-- How a handler is modelled: every `?` is a step of a `do` block, in the order of the source, and
-- every statement may fail, as `Outside.failure` decides by its number. Of the handlers
-- modelled here only `delete_ip` opens a transaction; in the others what is written before a failure
-- stays written. Requests do not interleave: a run is a sequence of requests, each from a key as the
-- middleware hands it over.
-- Warnings that the code logs are left out. A `HashMap` or `HashSet` is a list; the order in which
-- the source walks one only decides which of several refusals is reported.
--
-- Fuel: `collect_key_subtree` loops on one unit a round more than the table of keys has rows, which
-- is enough since each round but the last visits a new row (`Keys.Subtree.Reach`).
-- The loops over a template have one unit for each of its characters, of which every round reads at
-- least one; the loop of `dispatch_with_retries_config` has one for each attempt that the limit on
-- retries allows.
--
-- Not modelled: of src/api/records.rs the upsert, the listing and the batch; of src/api/webhooks.rs
-- the test dispatch and the listing of executions; the queue and the workers of src/dispatch.rs
-- and the rows they write, and the timers of src/retention.rs; the resolution of proxies' host
-- names; the set-up of the database, the start of the program and the extractors. Of the HTTP client and of the URL
-- parser the model takes the answers. Two threads in one request path do not arise in the code above
-- but for the replay guard, whose steps a lock makes atomic, and the pin, which src/main.rs sets
-- before it accepts connections.
pub mod Prelude
pub mod Entities
pub mod Error
pub mod Outside
pub mod Store
pub mod Guards
pub mod Support
pub mod Crypto
pub mod Authority
pub mod Keys
pub mod Groups
pub mod Service
pub mod Replay
pub mod ClientIp
pub mod MasterPin
pub mod Middleware
pub mod Config
pub mod Dispatch
pub mod Retention
pub mod Webhooks
pub mod Records
pub mod Examples
