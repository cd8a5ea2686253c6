-- ===== src/MockPsp/Charges.antt =====
-- The service against the mock provider: what `PspClient::charge` makes of its answers.
use Prim.Native.String.{◌++◌ as str_append}
use dodo_invoice_service.Base.{Bool, ℕ, String, ◌≡◌, false, str_eq, leb, ℤ, arith, if◌then◌else◌}
use dodo_invoice_service.Error.{StatusCode}
use dodo_invoice_service.PspClient.{
  Psp, Reply, PspOutcome, succeeded as approved, declined, unavailable, send_failed, responded,
  parsed, get, string_value, unwrap_or, charge as client_charge, outcome_of, rejection_code,
  charge_response, get_field,
}
use dodo_invoice_service.MockPsp.{Charged, charge}

-- What the client's request meets: reqwest gives up after `hard_timeout` milliseconds with the message
-- `timed_out`; `shown` is its text of a status.
abbrev pub answer_of : ℕ → String → (StatusCode → String) → Charged → Reply
answer_of hard_timeout timed_out shown c =
    if leb hard_timeout c.delay
    then send_failed timed_out
    else responded c.status (shown c.status) (parsed c.body "")

abbrev pub mock_psp : ℕ → String → (StatusCode → String) → ℕ → String → Psp
mock_psp hard_timeout timed_out shown timeout_delay psp_ref request =
    answer_of hard_timeout timed_out shown
      (charge timeout_delay psp_ref (unwrap_or (string_value (get "card_token" request)) ""))

-- The outcome of each test token; `gives_up` says that the client does not wait as long as tok_timeout takes.
abbrev pub expected : Bool → String → (StatusCode → String) → String → String → PspOutcome
expected gives_up timed_out shown psp_ref token =
    if str_eq token "tok_success"
    then approved psp_ref
    else if str_eq token "tok_insufficient_funds"
    then declined "insufficient_funds"
    else if str_eq token "tok_card_declined"
    then declined "card_declined"
    else if str_eq token "tok_timeout"
    then (if gives_up
        then unavailable (str_append "psp request failed: " timed_out)
        else approved psp_ref)
    else if str_eq token "tok_network_error"
    then unavailable (str_append "psp returned HTTP " (shown 500))
    else declined "invalid_token"

-- If the client waits longer than 100 ms, then each token has its outcome: approved, declined with the
-- provider's code, or the provider counts as unavailable, and tok_timeout is approved exactly if the client
-- waits longer than it takes.
pub charge_table :
    (hard_timeout timeout_delay : ℕ) (timed_out psp_ref token : String)
    (shown : StatusCode → String) (amount_cents : ℤ)
    → leb hard_timeout 100 ≡ false
    → client_charge (mock_psp hard_timeout timed_out shown timeout_delay psp_ref) amount_cents token
      ≡ expected (leb hard_timeout timeout_delay) timed_out shown psp_ref token
unfolding client_charge charge outcome_of rejection_code charge_response get_field
charge_table hard_timeout timeout_delay timed_out psp_ref token shown amount_cents long =
    ground arith
