-- ===== src/Payments/Waiting.antt =====
-- A key whose row has no answer, in the loop of `reserve_or_get` and in `pay_invoice`.
use dodo_invoice_service.Payments.Replay.{IsQuiet, IsRespectful, others-IsQuiet, pay_invoice-steps}
use dodo_invoice_service.Payments.Pay.{pay_invoice, request_hash, Race}
use dodo_invoice_service.Idempotency.{
  in_progress, reserve_from, reserve_or_get, Others, Crypto, before_select,
}
use dodo_invoice_service.Models.{IdempotencyRow, Uuid}
use dodo_invoice_service.PspClient.{Psp}
use dodo_invoice_service.Base.{
  refl, arith, suc, some, ℕ, none, false, true, str_eq, ◌≡◌, is_blank, String,
}
use dodo_invoice_service.Db.{later, err, World}
use Prim.Native.Nat.{zero}

module _ (others : Others) (b : Uuid) (key request_hash : String)
    (respect : IsRespectful others b key) (row : IdempotencyRow)
    (same : str_eq row.request_hash request_hash ≡ true)
    (open_row : row.response_status ≡ none) where
  reserve_from-waits :
      (n r : ℕ) (w : World)
      → IsQuiet b key row w
      → let (result, u) = reserve_from others b key request_hash n r w in
        (result ≡ err in_progress) × IsQuiet b key row u
  unfolding reserve_from
  reserve_from-waits zero r w q = (refl, q)
  reserve_from-waits (suc n) r w q =
      let v = others (before_select r) w in
      let quiet = others-IsQuiet others b key respect row (before_select r) w q in
      let v' = record v { faults = later v.faults } in
      let rest =
        reserve_from-waits n (suc r) v'
          (record { faults = ground (arith, quiet.faults); has_row = quiet.has_row }) in
      ground (arith, quiet.faults, quiet.has_row, same, open_row, rest)

  pub reserve_or_get-waits :
      (w : World)
      → IsQuiet b key row w
      → let (result, u) = reserve_or_get others b key request_hash w in
        (result ≡ err in_progress) × IsQuiet b key row u
  unfolding reserve_or_get
  reserve_or_get-waits w q = reserve_from-waits 15 0 w q

module _ (psp : Psp) (others : Others) (c : Crypto) (race : Race) (b i : Uuid)
    (key card_token : String) (given : is_blank card_token ≡ false)
    (respect : IsRespectful others b key) (row : IdempotencyRow) where
  -- A request whose key is reserved for it without an answer gets an error in the end.
  pub pay_waits :
      (w : World)
      → IsQuiet b key row w
      → str_eq row.request_hash (request_hash c i card_token) ≡ true
      → row.response_status ≡ none
      → let (result, u) = pay_invoice psp others c race b i (some key) card_token w in
        (result ≡ err in_progress) × IsQuiet b key row u
  pay_waits w q same open_row =
      let waits =
        reserve_or_get-waits others b key (request_hash c i card_token) respect row same open_row w
          q in
      let steps = pay_invoice-steps psp others c race b i key card_token given respect w in
      rw (steps, waits.0) (refl, waits.1)
