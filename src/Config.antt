-- ===== src/Config.antt =====
-- invoice-service/src/config.rs: `Config::from_env`. The environment is a function: what
-- `std::env::var` gives for a name, none where that is an error.
pub mod Numbers
use dodo_invoice_service.Base.{ℕ, ◌-◌, ◌^◌, String, Option, none, some, parse_unsigned}

pub record Config : Type 0 where
  pub database_url : String
  pub port : ℕ
  pub psp_base_url : String
  pub psp_sync_wait : ℕ
  pub psp_hard_timeout : ℕ

abbrev pub Env : Type 0
Env = String → Option String

-- `.ok().and_then(|v| v.parse().ok()).unwrap_or(default)`, for an unsigned type up to `max`.
abbrev pub parsed_or : Option ℕ → ℕ → ℕ
parsed_or none default = default
parsed_or (some n) default = n

abbrev pub and_parse : ℕ → Option String → Option ℕ
and_parse max none = none
and_parse max (some v) = parse_unsigned max v

abbrev pub number : Env → String → ℕ → ℕ → ℕ
number env name max default = parsed_or (and_parse max (env name)) default

abbrev pub text_or : Option String → String → String
text_or none default = default
text_or (some v) default = v

abbrev pub max_u16 : ℕ
max_u16 = 2 ^ 16 - 1

abbrev pub max_u64 : ℕ
max_u64 = 2 ^ 64 - 1

-- The panic of `expect`, if there is no DATABASE_URL, is none. Durations are milliseconds.
unfoldable pub from_env : Env → Option Config
from_env env = elim (env "DATABASE_URL") [
  | none ↦ none
  | some database_url ↦ some (record {
    database_url = database_url;
    port = number env "PORT" max_u16 8080;
    psp_base_url = text_or (env "PSP_BASE_URL") "http://localhost:9000";
    psp_sync_wait = number env "PSP_SYNC_WAIT_MS" max_u64 3_000;
    psp_hard_timeout = number env "PSP_HARD_TIMEOUT_MS" max_u64 35_000;
  })
]
