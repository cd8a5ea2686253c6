-- ===== src/MockPsp.antt =====
-- mock-psp/src/main.rs: the stand-in for the payment service provider. The text of the fresh psp_ref, the
-- environment and whether the port can be bound are parameters.
pub mod Charges
pub mod Detaches
use Prim.Native.String.{◌++◌ as str_append}
use dodo_invoice_service.Base.{Bool, ℕ, String, Option, none, some, str_eq, leb, if◌then◌else◌}
use dodo_invoice_service.Boot.{Boot, pure, expect_step, bound, ◌>>=◌, ◌>>◌}
use dodo_invoice_service.Config.{Env, number, max_u16, max_u64}
use dodo_invoice_service.Json.{Json, text, obj, end, field}
use dodo_invoice_service.Error.{StatusCode}
use dodo_invoice_service.PspClient.{Psp, Reply, send_failed, responded, parsed, get, string_value}

pub record AppState : Type 0 where
  -- Milliseconds.
  pub timeout_delay : ℕ

pub data ChargeResponse : Type 0 where
  succeeded : String → String → ChargeResponse
  failed : String → String → ChargeResponse

-- Untagged: the fields of the variant.
abbrev pub response_json : ChargeResponse → Json
response_json (succeeded status psp_ref) =
    obj (field "status" (text status) (field "psp_ref" (text psp_ref) end))
response_json (failed status code) =
    obj (field "status" (text status) (field "code" (text code) end))

-- The milliseconds that the handler sleeps, the status and the body that it answers.
pub record Charged : Type 0 where
  pub delay : ℕ
  pub status : StatusCode
  pub body : Json

abbrev pub answered : ℕ → ChargeResponse → Charged
answered delay r = record { delay = delay; status = 200; body = response_json r }

abbrev pub refused : StatusCode → String → Charged
refused status error = record {
  delay = 0;
  status = status;
  body = obj (field "error" (text error) end);
}

-- `charge`, by the card_token of the request.
unfoldable pub charge : ℕ → String → String → Charged
charge timeout_delay psp_ref card_token =
    if str_eq card_token "tok_success"
    then answered 100 (succeeded "succeeded" psp_ref)
    else if str_eq card_token "tok_insufficient_funds"
    then answered 100 (failed "failed" "insufficient_funds")
    else if str_eq card_token "tok_card_declined"
    then answered 100 (failed "failed" "card_declined")
    else if str_eq card_token "tok_timeout"
    then answered timeout_delay (succeeded "succeeded" psp_ref)
    else if str_eq card_token "tok_network_error"
    then refused 500 "simulated_network_error"
    else refused 422 "invalid_token"

abbrev pub health : String
health = "ok"

-- MOCK_PSP_TIMEOUT_MS, or the 30 seconds of the default.
abbrev pub state_of : Env → AppState
state_of env =
    let timeout_ms = number env "MOCK_PSP_TIMEOUT_MS" max_u64 30_000 in
    record { timeout_delay = timeout_ms }

-- `main`: the state and the port that it serves `charge` and `health` with.
unfoldable pub main : Env → (ℕ → Bool) → Boot (AppState × ℕ)
main env binds = do
  let port = number env "PORT" max_u16 9_000
  expect_step (binds port) (bound port) "failed to bind mock-psp listener"
  pure (state_of env, port)
