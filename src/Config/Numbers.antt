-- ===== src/Config/Numbers.antt =====
-- What `from_env` makes of the numbers in the environment.
use dodo_invoice_service.Base.{ℕ, ◌≤◌, String, ◌≡◌, some, arith, show, parse_unsigned-show}
use dodo_invoice_service.Config.{Env, from_env, max_u16, max_u64}

-- Numbers that fit and stand in the environment as decimal text are the numbers of the configuration, as are
-- the texts of its two addresses.
pub from_env-show :
    (env : Env) (url base : String) (port wait timeout : ℕ)
    → port ≤ max_u16
    → wait ≤ max_u64
    → timeout ≤ max_u64
    → env "DATABASE_URL" ≡ some url
    → env "PORT" ≡ some (show port)
    → env "PSP_BASE_URL" ≡ some base
    → env "PSP_SYNC_WAIT_MS" ≡ some (show wait)
    → env "PSP_HARD_TIMEOUT_MS" ≡ some (show timeout)
    → from_env env
      ≡ some (record {
        database_url = url;
        port = port;
        psp_base_url = base;
        psp_sync_wait = wait;
        psp_hard_timeout = timeout;
      })
unfolding from_env
from_env-show env url base port wait timeout hp hw ht eu ep eb ew et = ground (
  arith,
  parse_unsigned-show max_u16 port hp,
  parse_unsigned-show max_u64 wait hw,
  parse_unsigned-show max_u64 timeout ht,
)
