-- ===== src/Main.antt =====
-- invoice-service/src/main.rs: `main`, with `PspClient::new` of psp_client.rs and the AppState of lib.rs. Whether
-- a connection, the migrations, the builders of the HTTP clients and the bind succeed is a parameter.
pub mod Starts
use Prim.Native.String.{◌++◌ as str_append}
use dodo_invoice_service.Boot.{
  bound, dispatcher_spawned, migrated, Boot, Ended, pure, panic, expect, expect_step, ◌>>=◌, ◌>>◌,
  log, stuck, done,
}
use dodo_invoice_service.Startup.{Connected, pool, panicked, connect_with_retry}
use dodo_invoice_service.Base.{show, some, Bool, String, ℕ, Option}
use dodo_invoice_service.Config.{Env, from_env}
use mathlib.Core.Bool.{false, true}
use mathlib.Core.Option.{none}

pub record PspClient : Type 0 where
  -- The timeout of its HTTP client, in milliseconds.
  pub timeout : ℕ
  pub base_url : String

-- `format!("{}/charges", self.base_url)`
abbrev pub charges_url : PspClient → String
charges_url client = str_append client.base_url "/charges"

-- The pool is the number of the connection that it was opened with.
pub record AppState : Type 0 where
  pub db : ℕ
  pub psp : PspClient
  pub psp_sync_wait : ℕ

-- What the calls of other crates answer: the connection to an address in each round, the migrations over a
-- connection, the builders of the two HTTP clients, and the bind of a port.
pub record Outside : Type 0 where
  pub connects : String → ℕ → Bool
  pub migrates : ℕ → Bool
  pub builds_psp_client : Bool
  pub builds_dispatcher_client : Bool
  pub binds : ℕ → Bool

-- `.build().expect(…)`
abbrev pub build : Bool → String → Boot (Unit {0})
build true message = pure tt
build false message = panic message

-- `PspClient::new`
abbrev pub new : Bool → String → ℕ → Boot PspClient
new builds base_url hard_timeout = do
  build builds "failed to build PSP http client"
  pure (record { timeout = hard_timeout; base_url = base_url })

-- How `connect_with_retry` ends, as a step of the start. Its panic also has the text of the last error.
abbrev pub pool_of : Option Connected → Boot ℕ
pool_of none steps = (stuck, steps)
pool_of (some (pool k)) steps = (done k, steps)
pool_of (some (panicked attempts)) steps = (
  Ended.panicked
      (str_append "failed to connect to database after " (str_append (show attempts) " attempts")),
  steps,
)

-- `main`: the state and the port that it serves the router with, from then on.
unfoldable pub main : Env → Outside → Boot (AppState × ℕ)
unfolding from_env connect_with_retry
main env o = do
  config ← expect (from_env env) "DATABASE_URL must be set"
  db ← pool_of (connect_with_retry (o.connects config.database_url))
  expect_step (o.migrates db) (migrated db) "failed to run migrations"
  psp ← new o.builds_psp_client config.psp_base_url config.psp_hard_timeout
  let state : AppState = record { db = db; psp = psp; psp_sync_wait = config.psp_sync_wait }
  build o.builds_dispatcher_client "failed to build webhook dispatcher http client"
  log (dispatcher_spawned db)
  expect_step (o.binds config.port) (bound config.port) "failed to bind listener"
  pure (state, config.port)
