-- ===== src/PspClient.antt =====
-- invoice-service/src/psp_client.rs: one charge, and how every answer of the payment service
-- provider becomes an outcome. The provider and the HTTP client are not under verification: what
-- they answer to a request is a parameter.
pub mod Approval
use Prim.Native.String.{◌++◌ as str_append}
use dodo_invoice_service.Base.{
  String, Bool, ◌&&◌, Option, none, some, ℤ, str_eq, leb, if◌then◌else◌,
}
use dodo_invoice_service.Json.{Json, int, text, obj, Fields, end, field}
use dodo_invoice_service.Error.{StatusCode}

pub data PspOutcome : Type 0 where
  succeeded : String → PspOutcome
  declined : String → PspOutcome
  unavailable : String → PspOutcome

-- The body of a response: a JSON value with the message that the client gives if the value does not
-- fit the type that is asked for, or its message that the body is no JSON.
pub data Body : Type 0 where
  parsed : Json → String → Body
  unparseable : String → Body

-- What `send` and the reading of the body give: reqwest's message for a request that failed, or a
-- response, with its status and the text of that status.
pub data Reply : Type 0 where
  send_failed : String → Reply
  responded : StatusCode → String → Body → Reply

abbrev pub Psp : Type 0
Psp = Json → Reply

abbrev pub charge_request : ℤ → String → Json
charge_request amount_cents card_token = obj (
    field "amount_cents" (int amount_cents)
      (field "currency" (text "USD") (field "card_token" (text card_token) end)))

unfoldable pub get_field : String → Fields → Option Json
get_field name end = none
get_field name (field other value rest) =
    if str_eq other name then some value else get_field name rest

-- `Value::get`
abbrev pub get : String → Json → Option Json
get name (obj fields) = get_field name fields
get name _ = none

abbrev pub string_value : Option Json → Option String
string_value (some (text s)) = some s
string_value _ = none

abbrev pub or_else : Option Json → Option Json → Option Json
or_else none other = other
or_else (some v) _ = some v

abbrev pub unwrap_or : Option String → String → String
unwrap_or none s = s
unwrap_or (some s) _ = s

-- The code that a client error carries, under "code" or else under "error".
unfoldable pub rejection_code : Body → String
unfolding get_field
rejection_code (parsed body _) =
    unwrap_or (string_value (or_else (get "code" body) (get "error" body))) "psp_rejected_request"
rejection_code (unparseable _) = "psp_rejected_request"

abbrev pub unparseable_body : String → PspOutcome
unparseable_body e = unavailable (str_append "psp returned an unparseable body: " e)

abbrev pub first_variant : Option String → Option String → Option String → String → PspOutcome
first_variant (some status) (some psp_ref) code e = succeeded psp_ref
first_variant (some status) none (some code) e = declined code
first_variant _ _ _ e = unparseable_body e

-- `ChargeResponse` is untagged: the first variant whose fields are all there.
unfoldable pub charge_response : Body → PspOutcome
unfolding get_field
charge_response (parsed body e) =
    first_variant (string_value (get "status" body)) (string_value (get "psp_ref" body))
      (string_value (get "code" body)) e
charge_response (unparseable e) = unparseable_body e

abbrev pub is_server_error : StatusCode → Bool
is_server_error status = leb 500 status && leb status 599

abbrev pub is_client_error : StatusCode → Bool
is_client_error status = leb 400 status && leb status 499

unfoldable pub outcome_of : Reply → PspOutcome
unfolding rejection_code charge_response
outcome_of (send_failed e) = unavailable (str_append "psp request failed: " e)
outcome_of (responded status shown body) =
    if is_server_error status
    then unavailable (str_append "psp returned HTTP " shown)
    else if is_client_error status
    then declined (rejection_code body)
    else charge_response body

unfoldable pub charge : Psp → ℤ → String → PspOutcome
unfolding outcome_of
charge psp amount_cents card_token = outcome_of (psp (charge_request amount_cents card_token))
