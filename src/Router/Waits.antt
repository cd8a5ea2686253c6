-- ===== src/Router/Waits.antt =====
-- A key that is reserved for a request which will not answer any more, over the runs of the service: after a crash,
-- or where the UPDATE of its row has failed.
use dodo_invoice_service.Payments.Waiting.{pay_waits}
use dodo_invoice_service.Payments.Replay.{IsRespectful}
use dodo_invoice_service.Payments.Pay.{pay_invoice, request_hash, Race}
use dodo_invoice_service.Idempotency.{reserved_row, Point, in_progress, stored, Others, Crypto}
use dodo_invoice_service.Router.Keys.{Stored-rules}
use dodo_invoice_service.Router.Runs.{Run-Keeps, Run}
use dodo_invoice_service.PspClient.{Psp}
use dodo_invoice_service.Models.{Uuid}
use dodo_invoice_service.Base.{refl, eq_refl, [], none, some, false, ◌≡◌, is_blank, String}
use dodo_invoice_service.Db.{err, World}

module _ (psp psp' : Psp) (others others' : Others) (c : Crypto) (race race' : Race) (b i : Uuid)
    (key card_token : String) (given : is_blank card_token ≡ false)
    (respect' : IsRespectful others' b key) where
  -- If a payment under an unused key, during which others leave the row of the key alone, has ended, but has left
  -- its reservation of the key without an answer, then after any run of the service that follows, the same request
  -- gets the error that it is still in progress, and the row still has no answer. The request has a card token,
  -- and for the second one others fail no statement of it and leave the row of its key alone, and the database
  -- fails none of its statements.
  pub unanswered_for_ever :
      (w v : World)
      → stored b key w.db ≡ none
      → ((p : Point) (x : World) → stored b key (others p x).db ≡ stored b key x.db)
      → let u = (pay_invoice psp others c race b i (some key) card_token w).1 in
        let row = reserved_row b key (request_hash c i card_token) in
        stored b key u.db ≡ some row
        → Run u v
        → v.faults ≡ []
        → let (result, x) = pay_invoice psp' others' c race' b i (some key) card_token v in
          (result ≡ err in_progress) × (stored b key x.db ≡ some row)
  unanswered_for_ever w v unused alone left run f =
      let row = reserved_row b key (request_hash c i card_token) in
      let (result, quiet) =
        pay_waits psp' others' c race' b i key card_token given respect' row v
          (record { faults = f; has_row = Run-Keeps (Stored-rules b key row) run left })
          (eq_refl (request_hash c i card_token)) refl in
      (result, quiet.has_row)
