-- ===== src/PspClient/Approval.antt =====
-- When a reply of the provider counts as a successful charge.
use dodo_invoice_service.Base.{String, ◌≡◌, ◌↔◌, false, some, arith}
use dodo_invoice_service.PspClient.{
  Reply, send_failed, responded, parsed, unparseable, succeeded, outcome_of, get, string_value,
  is_server_error, is_client_error, charge_response,
}

-- A response that is no HTTP error, whose body has a textual status and the reference `ref`.
abbrev pub Approves : Reply → String → Type 0
Approves (send_failed e) ref = ⊥
Approves (responded status shown (unparseable e)) ref = ⊥
Approves (responded status shown (parsed body e)) ref =
    (is_server_error status ≡ false)
    × (is_client_error status ≡ false)
    × ((text : String) × (string_value (get "status" body) ≡ some text))
    × (string_value (get "psp_ref" body) ≡ some ref)

-- A charge counts as successful, with a reference, exactly if the reply is a response that is no HTTP
-- error and whose JSON body has a textual status and that reference.
pub succeeded_iff : (r : Reply) (ref : String) → (outcome_of r ≡ succeeded ref) ↔ Approves r ref
unfolding outcome_of charge_response
succeeded_iff (send_failed e) ref = (λ h. cc, λ h. absurd h)
succeeded_iff (responded status shown (unparseable e)) ref = (λ h. ground arith, λ h. absurd h)
succeeded_iff (responded status shown (parsed body e)) ref = (λ h. ground arith, λ h. ground arith)
