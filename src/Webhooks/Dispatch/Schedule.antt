-- ===== src/Webhooks/Dispatch/Schedule.antt =====
-- What one delivery becomes: the retry schedule of DESIGN.md section 4.
use dodo_invoice_service.Base.{
  refl, ◌∷◌, ℕ, suc, zero, ◌+◌, ◌*◌, ◌<◌, ◌≡◌, String, Option, none, some, pos, ◌+ℤ◌, wrap_i32,
  arith, ◌==◌, if◌then◌else◌,
}
use dodo_invoice_service.Models.{WebhookPost, DateTime, WebhookDeliveryRow}
use dodo_invoice_service.Webhooks.Dispatch.{
  outcome, post_of, send_and_record, update, Answer, DueDelivery, record_outcome, Signer,
  set_succeeded, set_exhausted, set_retry, backoff,
}
use dodo_invoice_service.Db.{World}

-- The wait after the failure number `n + 1`: 30s, 5min, 30min, 2h, 12h, 24h.
abbrev pub schedule : ℕ → ℕ
schedule zero = 30
schedule (suc zero) = 5 * 60
schedule (suc (suc zero)) = 30 * 60
schedule (suc (suc (suc zero))) = 2 * 3600
schedule (suc (suc (suc (suc zero)))) = 12 * 3600
schedule _ = 24 * 3600

-- A delivery that has failed `n` times before.
abbrev pub recorded : DateTime → ℕ → Option String → WebhookDeliveryRow → WebhookDeliveryRow
recorded now n none wd = set_succeeded now wd
recorded now n (some e) wd =
    if n == 6 then set_exhausted now (pos 7) e wd else set_retry now (pos (n + 1)) (schedule n) e wd

-- The UPDATE that follows a delivery which had failed `n` times before, and whose outcome is `o`.
pub record_outcome_lem :
    (d : DueDelivery) (n : ℕ) (o : Option String) (w : World)
    → d.attempt_count ≡ pos n
    → n < 7
    → record_outcome d o w ≡ update d.id (λ now. recorded now n o) w
unfolding record_outcome ◌+ℤ◌ wrap_i32 backoff
record_outcome_lem d n none w e h = refl
record_outcome_lem d zero (some m) w e h = rw e refl
record_outcome_lem d (suc zero) (some m) w e h = rw e refl
record_outcome_lem d (suc (suc zero)) (some m) w e h = rw e refl
record_outcome_lem d (suc (suc (suc zero))) (some m) w e h = rw e refl
record_outcome_lem d (suc (suc (suc (suc zero)))) (some m) w e h = rw e refl
record_outcome_lem d (suc (suc (suc (suc (suc zero))))) (some m) w e h = rw e refl
record_outcome_lem d (suc (suc (suc (suc (suc (suc zero)))))) (some m) w e h = rw e refl
record_outcome_lem d (suc (suc (suc (suc (suc (suc (suc n))))))) (some m) w e h =
    absurd (omega arith)

module _ (s : Signer) (receiver : WebhookPost → Answer) where
  pub send_and_record_lem :
      (d : DueDelivery) (n : ℕ) (w : World)
      → d.attempt_count ≡ pos n
      → n < 7
      → let post = post_of s receiver w.now d in
        let o = outcome (receiver post) in
        let sent = record w { sent = post ∷ w.sent } in
        send_and_record s receiver d w ≡ update d.id (λ now. recorded now n o) sent
  unfolding send_and_record
  send_and_record_lem d n w e h =
      let post = post_of s receiver w.now d in
      record_outcome_lem d n (outcome (receiver post)) (record w { sent = post ∷ w.sent }) e h
