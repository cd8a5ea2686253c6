-- ===== src/Error.antt =====
-- invoice-service/src/error.rs: the error of a handler, its constructors, and its HTTP response.
-- Also `reject_invalid_transition` of invoice-service/src/state_machine.rs, which builds one.
use Prim.Native.String.{◌++◌ as str_append}
use dodo_invoice_service.Base.{ℕ, String}
use dodo_invoice_service.Json.{Json, text, obj, end, field}
use dodo_invoice_service.StateMachine.{InvoiceState, as_str}

-- An `axum::http::StatusCode`, by its number.
abbrev pub StatusCode : Type 0
StatusCode = ℕ

pub record AppError : Type 0 where
  pub status : StatusCode
  pub code : String
  pub message : String

abbrev pub new : StatusCode → String → String → AppError
new status code message = record { status = status; code = code; message = message }

abbrev pub not_found : String → String → AppError
not_found = new 404

abbrev pub bad_request : String → String → AppError
bad_request = new 400

abbrev pub conflict : String → String → AppError
conflict = new 409

abbrev pub unauthorized : String → String → AppError
unauthorized = new 401

abbrev pub unprocessable : String → String → AppError
unprocessable = new 422

abbrev pub internal : String → AppError
internal = new 500 "internal_error"

-- The error that every `sqlx::Error` becomes under `?`.
abbrev pub database_error : AppError
database_error = internal "a database error occurred"

-- { "error": { "code": …, "message": … } }
abbrev pub error_body : AppError → Json
error_body e =
    obj
      (field "error" (obj (field "code" (text e.code) (field "message" (text e.message) end))) end)

-- An HTTP response, by its status and its JSON body.
pub record Response : Type 0 where
  pub status : StatusCode
  pub body : Json

abbrev pub into_response : AppError → Response
into_response e = record { status = e.status; body = error_body e }

unfoldable pub reject_invalid_transition : String → InvoiceState → AppError
reject_invalid_transition action current = new 409 "invalid_state_transition" (
    str_append "cannot " (
      str_append action
        (str_append " invoice while it is in state '" (str_append (as_str current) "'"))))
