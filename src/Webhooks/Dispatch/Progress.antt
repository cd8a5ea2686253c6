-- ===== src/Webhooks/Dispatch/Progress.antt =====
-- The health of the deliveries, and the attempts left to them, from batch to batch.
use dodo_invoice_service.Base.{
  none, some, ◌+◌, ◌≤◌, ◌<◌, ◌≡◌, refl, Bool, true, false, not, List, [], ◌∷◌, str_eq, str_ne,
  arith, ◌==◌, any, count, length, All,
}
use dodo_invoice_service.Models.{
  Uuid, DateTime, WebhookEndpointRow, WebhookDeliveryRow, WebhookPost,
}
use dodo_invoice_service.Webhooks.Dispatch.{
  Signer, DueDelivery, Answer, due_of, endpoint_of, join_endpoints, is_due, outcome, post_of,
}
use dodo_invoice_service.Webhooks.Dispatch.Batch.{can_retry, can_retry-pos, record_one, record_all}
use dodo_invoice_service.Webhooks.Dispatch.Health.{
  is_well, delivery_has_id, all_left, fits, Distinct, one-id, one-fits, one-left, one-is_well,
}

-- The deliveries of a service: well formed, and each id once.
pub record IsHealthy (rows : List WebhookDeliveryRow) : Type 0 where
  pub well : count (λ wd. not (is_well wd)) rows ≡ 0
  pub unique : (k : Uuid) → count (delivery_has_id k) rows ≤ 1

-- What a batch needs of the deliveries that it has read.
pub record IsReady (ds : List DueDelivery) (rows : List WebhookDeliveryRow) : Type 0 where
  pub retries : All (λ (d : DueDelivery). can_retry d.attempt_count ≡ true) ds
  pub fit : All (λ d. 0 < count (fits d) rows) ds
  pub distinct : Distinct ds

module _ (s : Signer) (receiver : WebhookPost → Answer) (now : DateTime) where
  fits-step :
      (d : DueDelivery) (ds : List DueDelivery) (rows : List WebhookDeliveryRow)
      → any (λ e. e.id == d.id) ds ≡ false
      → All (λ e. 0 < count (fits e) rows) ds
      → All (λ e. 0 < count (fits e) (record_one s receiver now d rows)) ds
  fits-step d [] rows h f = tt
  fits-step d (e ∷ ds) rows h (f, fs) =
      let o = outcome (receiver (post_of s receiver now d)) in
      (ground (arith, one-fits d now o e rows), fits-step d ds rows (ground arith) fs)

  pub record_all-IsHealthy :
      (ds : List DueDelivery) (rows : List WebhookDeliveryRow)
      → IsHealthy rows
      → IsReady ds rows
      → IsHealthy (record_all s receiver now ds rows)
        × (all_left (record_all s receiver now ds rows) + length ds ≤ all_left rows)
  record_all-IsHealthy [] rows h r = (h, omega arith)
  record_all-IsHealthy (d ∷ ds) rows h r =
      let o = outcome (receiver (post_of s receiver now d)) in
      let less = (can_retry-pos d.attempt_count r.retries.0).1 in
      let rows' = record_one s receiver now d rows in
      let healthy : IsHealthy rows' = record {
        well = one-is_well d now o rows less (h.unique d.id) r.fit.0 h.well;
        unique = λ k. omega (arith, one-id d now o k rows, h.unique k);
      } in
      let ready : IsReady ds rows' = record {
        retries = r.retries.1;
        fit = fits-step d ds rows r.distinct.0 r.fit.1;
        distinct = r.distinct.1;
      } in
      let (later, fewer) = record_all-IsHealthy ds rows' healthy ready in
      (later, omega (arith, fewer, one-left d now o rows less (h.unique d.id) r.fit.0))

-- A selected row that is due and well formed.
pub row-can_retry :
    (wd : WebhookDeliveryRow)
    → str_eq wd.status "pending" ≡ true
    → is_well wd ≡ true
    → can_retry wd.attempt_count ≡ true
row-can_retry wd p w = ground (
  arith,
  str_ne wd.status "pending" "succeeded" refl,
  str_ne wd.status "pending" "failed_exhausted" refl,
)

module _ (locked : Uuid → Bool) (now : DateTime) (endpoints : List WebhookEndpointRow)
    (table : List WebhookDeliveryRow) where
  join-no_id :
      (k : Uuid) (rows : List WebhookDeliveryRow)
      → count (delivery_has_id k) rows ≡ 0
      → any (λ e. e.id == k) (join_endpoints endpoints rows) ≡ false
  unfolding join_endpoints
  join-no_id k [] h = refl
  join-no_id k (wd ∷ rows) h = ground (arith, join-no_id k rows)

  pub join-IsReady :
      (rows : List WebhookDeliveryRow)
      → ((p : WebhookDeliveryRow → Bool) → count p rows ≤ count p table)
      → count (λ wd. not (is_due locked now endpoints wd)) rows ≡ 0
      → IsHealthy table
      → IsReady (join_endpoints endpoints rows) table
  unfolding join_endpoints
  join-IsReady [] sub selected h = record { retries = tt; fit = tt; distinct = tt }
  join-IsReady (wd ∷ rows) sub selected h =
      let rest = join-IsReady rows (λ p. omega (arith, sub p)) (omega arith) h in
      elim (endpoint_of wd endpoints)
        as (λ o.
          IsReady
            (elim o [
              | none ↦ join_endpoints endpoints rows
              | some we ↦ due_of wd we ∷ join_endpoints endpoints rows
            ])
            table) [
              | none ↦ rest
              | some we ↦ record {
                retries = (
                  row-can_retry wd (ground arith)
                      (ground (arith, sub (λ x. not (is_well x)), h.well)),
                  rest.retries,
                );
                fit = (ground (arith, sub (fits (due_of wd we))), rest.fit);
                distinct = (
                  join-no_id wd.id rows
                      (ground (arith, sub (delivery_has_id wd.id), h.unique wd.id)),
                  rest.distinct,
                );
              }
            ]
