-- ===== src/Lib.antt =====
-- The invoice and payment service: invoices with a state machine, payments under an Idempotency-Key
-- against an external payment service provider, and webhook events through an outbox.
--
-- The program's parts, and the files that model them (paths from the repository's root):
--   StateMachine.antt          invoice-service/src/state_machine.rs
--   Error.antt                 invoice-service/src/error.rs, and reject_invalid_transition
--   Models.antt                invoice-service/src/models, and the tables of migrations/0001_init.sql
--   Invoices.antt, Invoices/   invoice-service/src/handlers/invoices.rs
--                              Create: create_invoice; Read: get_invoice, list_invoices;
--                              Transition: transition and its three handlers
--   Idempotency.antt           invoice-service/src/idempotency.rs
--   PspClient.antt             invoice-service/src/psp_client.rs
--   Payments.antt, Payments/   invoice-service/src/handlers/payments.rs
--                              Claim: claim_payment_attempt, fetch_total_cents; Settle:
--                              finalize_payment_attempt; Pay: try_claim_and_pay, pay_invoice;
--                              Attempts: get_payment_attempt
--   Webhooks.antt              invoice-service/src/webhook_dispatcher.rs, enqueue_event
--   Webhooks/Dispatch.antt     invoice-service/src/webhook_dispatcher.rs, sign and run_dispatcher, with
--                              dispatch_due_batch and send_and_record
--   Webhooks/Register.antt     invoice-service/src/handlers/webhooks.rs
--   Auth.antt                  invoice-service/src/auth.rs, the extractor of the business
--   Auth/Secret.antt           invoice-service/src/auth.rs, hash_secret and verify_secret
--   Business.antt              invoice-service/src/handlers/business.rs, and generate_api_key of auth.rs
--   Customers.antt             invoice-service/src/handlers/customers.rs
--   Config.antt                invoice-service/src/config.rs
--   Startup.antt               invoice-service/src/lib.rs, connect_with_retry
--   Router.antt                invoice-service/src/lib.rs, build_router, with the extractors
--   Main.antt                  invoice-service/src/main.rs, and PspClient::new of psp_client.rs
--   MockPsp.antt               mock-psp/src/main.rs
--   Boot.antt                  how a process starts: what both main functions are written in
--   Json.antt, Db.antt         what the handlers use of serde_json, and of sqlx and Postgres
-- Base.antt holds the shared names, and Base/Decimal what format! and str::parse do with a number.
-- Lifecycle.antt states the contract: what one transaction may do to the invoices, the attempts and
-- the spawned tasks; Lifecycle/Invariant, Safety and Paths say what any sequence of such changes
-- keeps, and Lifecycle/Refines that the handlers make no other changes. History.antt is the service
-- over time. Router/Runs is the whole service over time: requests, payment tasks and ticks of the
-- dispatcher, each a History. Db/Keeps has the rules for what an action keeps; Router/Rules says
-- which statements have to keep a property of the tables and the tasks, and Router/Statements,
-- Paying, Requests and Ticks carry it from there to every handler and every run. Router/Unseen gives
-- the rule of a statement that writes to no table of the property, and Router/Deliveries all rules of
-- one that looks at the deliveries only. Router/Terms, Bills, Final, Keys, Waits, Polls, Answers,
-- Billing and Orphans are about such properties. Samples.antt and Witnesses.antt are runs of the
-- code.
--
-- A handler is an action on a world that holds the tables (lists of rows, the newest first), the
-- clock, the ids that gen_random_uuid will return, and the spawned tasks. Each statement may fail:
-- `faults` says which ones do, and every such failure is the error that `?` makes of an sqlx::Error.
-- A transaction whose body or commit fails leaves the tables as they were. An INSERT checks the
-- primary key, the CHECKs and the partial unique index of its table. Transactions are atomic: the
-- handlers lock the invoice row (FOR UPDATE), and the unique index decides between two claims.
-- Between the transactions of a payment others may run: they are a parameter, one action on the world
-- for each gap, and where a theorem needs it a hypothesis says what they keep. In History and
-- Router/Runs these others are whole requests again, nested in the gap; the contract of Lifecycle is
-- about single transactions, in any order.
--
-- The dispatcher is a sequence of ticks; all that happens before a tick is a parameter. A batch reads
-- the due deliveries, posts them and records each outcome in one transaction. `sent` holds the
-- requests; no rollback takes them back. The clock stands still during a batch, so the timestamps of
-- its signatures are the time of the transaction. The rows that other replicas hold locked are a
-- parameter, and so is what a receiver answers. A panic of the indexing of the backoff table is an
-- error with the status 0, which ends the task.
--
-- Bounds: i64 is an integer that is wrapped after each operation, as in the release build (the
-- Dockerfile builds with --release, and the profile sets no overflow checks). Times are whole
-- seconds, dates are days, ids are numbers; the attempt count of a delivery is an i32. The loop of
-- reserve_or_get has its 15 rounds, and that of connect_with_retry runs on fuel, of which its 11
-- rounds are enough; a number n is printed on fuel n + 1, since each digit divides it by ten.
-- run_dispatcher loops for ever: the model is its first n ticks, for any n. How the race against
-- psp_sync_wait ends is a parameter.
--
-- Not under verification, and parameters: the replies of the payment service provider and of the
-- receivers of webhooks, SHA-256, HMAC, hex, the text of a JSON value, the random secrets, the crate
-- argon2 and its salts, the environment, and whether a connection to the database, the migrations,
-- the build of an HTTP client and the bind of a port succeed. Also parameters: what uuid, serde_json
-- and axum make of an id, a query and a body. Of the choice of a route only what axum documents is
-- written down; requests of other methods than GET and POST are left out, and of a response the
-- router keeps the status only. Not modelled: foreign keys (nothing is deleted), logging and dotenv,
-- what the migrations do, the two routes of the mock provider, the panic of a failed hash inside
-- create_business, and the integration tests.
pub mod Base
pub mod Boot
pub mod Main
pub mod Json
pub mod Config
pub mod Startup
pub mod StateMachine
pub mod Error
pub mod Models
pub mod Db
pub mod Webhooks
pub mod Auth
pub mod Customers
pub mod Business
pub mod Invoices
pub mod PspClient
pub mod MockPsp
pub mod Idempotency
pub mod Payments
pub mod Lifecycle
pub mod History
pub mod Router
mod Samples
mod Witnesses
