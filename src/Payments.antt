-- ===== src/Payments.antt =====
-- invoice-service/src/handlers/payments.rs: what its parts share. A payment is claimed in one
-- transaction (Payments/Claim.antt), charged, and settled in another by a spawned task
-- (Payments/Settle.antt); Payments/Pay.antt puts these together under the Idempotency-Key.
pub mod Claim
pub mod Settle
pub mod Pay
pub mod Attempts
pub mod Tame
pub mod Replay
pub mod Waiting
pub mod Decision
use dodo_invoice_service.Base.{ℕ, String, Bool, ◌&&◌, List, str_eq, ◌==◌, any}
use dodo_invoice_service.Models.{Uuid, PaymentAttemptRow}

abbrev pub has_status : String → PaymentAttemptRow → Bool
has_status status a = str_eq a.status status

-- The rows that the partial unique index covers.
abbrev pub is_pending_for : Uuid → PaymentAttemptRow → Bool
is_pending_for invoice_id a = a.invoice_id == invoice_id && has_status "pending" a
