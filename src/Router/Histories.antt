-- ===== src/Router/Histories.antt =====
-- A request of the API as a step of the history of the invoices, attempts and tasks, by route and handler.
use dodo_invoice_service.Base.{String, List}
use dodo_invoice_service.Idempotency.{Point}
use dodo_invoice_service.Router.{
  post_webhook_endpoints, get_payment_attempt_id, post_pay, post_mark_uncollectible, post_void,
  post_finalize, get_invoice_id, get_invoices, post_invoices, get_customer_id, get_customers,
  post_customers, two_ids, post_businesses, one_id, get_health, method_not_allowed, of_business,
  no_route, build_router, handled_by, matched, BusinessHandler, answer, Request, Handler, handle,
  handle_as, serve, Matched, Services, Extractors,
}
use dodo_invoice_service.Db.{World}
use dodo_invoice_service.History.{pay, write_off, void, finalize, create, History}
use dodo_invoice_service.Router.Aside.{
  register_webhook-Keeps, create_customer-Keeps, create_business-Keeps,
}
use dodo_invoice_service.Models.{Uuid}
use dodo_invoice_service.Business.{create_business}
use dodo_invoice_service.Customers.{get_customer, list_customers, create_customer}
use dodo_invoice_service.Auth.{from_request_parts}
use dodo_invoice_service.Router.Reads.{
  get_payment_attempt-Keeps, get_invoice-Keeps, list_invoices-Keeps, get_customer-Keeps,
  list_customers-Keeps, from_request_parts-Keeps,
}
use dodo_invoice_service.Invoices.Read.{get_invoice, list_invoices}
use dodo_invoice_service.Router.Goes.{
  as_ok-Goes, At-IsBlind, aside-Goes, with_status-Goes, ok_or-Goes, bind-Goes, pure-Goes, Goes,
}
use dodo_invoice_service.Payments.Attempts.{get_payment_attempt}
use dodo_invoice_service.Webhooks.Register.{register_webhook}
use dodo_invoice_service.Invoices.Create.{create_invoice}
use dodo_invoice_service.Invoices.Transition.{mark_uncollectible, void_invoice, finalize_invoice}
use dodo_invoice_service.Payments.Pay.{pay_invoice}

module _ (x : Extractors) (s : Services)
    (steady : (p : Point) (v : World) → History v (s.others p v)) where
  handle_as-Goes :
      (b : Uuid) (h : BusinessHandler) (ids : List String) (req : Request)
      → Goes (handle_as x s b h ids req)
  unfolding handle_as
  handle_as-Goes b post_customers ids req =
      bind-Goes _ _ (ok_or-Goes (x.customer req.body) _) (λ body.
        with_status-Goes _
          (aside-Goes (create_customer b body) (λ t. create_customer-Keeps (At-IsBlind t) b body)))
  handle_as-Goes b get_customers ids req =
      as_ok-Goes _ (aside-Goes (list_customers b) (λ t. list_customers-Keeps b))
  handle_as-Goes b get_customer_id ids req =
      bind-Goes _ _ (ok_or-Goes (one_id x ids) _)
        (λ id. as_ok-Goes _ (aside-Goes (get_customer b id) (λ t. get_customer-Keeps b id)))
  handle_as-Goes b post_invoices ids req =
      bind-Goes _ _ (ok_or-Goes (x.invoice req.body) _) (λ body.
        with_status-Goes (create_invoice b body) (record { goes = λ past. create b body past }))
  handle_as-Goes b get_invoices ids req =
      bind-Goes _ _ (ok_or-Goes (x.state_filter req.query) _) (λ state_filter.
        as_ok-Goes _
          (aside-Goes (list_invoices b state_filter) (λ t. list_invoices-Keeps b state_filter)))
  handle_as-Goes b get_invoice_id ids req =
      bind-Goes _ _ (ok_or-Goes (one_id x ids) _)
        (λ id. as_ok-Goes _ (aside-Goes (get_invoice b id) (λ t. get_invoice-Keeps b id)))
  handle_as-Goes b post_finalize ids req =
      bind-Goes _ _ (ok_or-Goes (one_id x ids) _)
        (λ id. as_ok-Goes (finalize_invoice b id) (record { goes = λ past. finalize b id past }))
  handle_as-Goes b post_void ids req =
      bind-Goes _ _ (ok_or-Goes (one_id x ids) _)
        (λ id. as_ok-Goes (void_invoice b id) (record { goes = λ past. void b id past }))
  handle_as-Goes b post_mark_uncollectible ids req =
      bind-Goes _ _ (ok_or-Goes (one_id x ids) _)
        (λ id. as_ok-Goes (mark_uncollectible b id) (record { goes = λ past. write_off b id past }))
  handle_as-Goes b post_pay ids req = bind-Goes _ _ (ok_or-Goes (one_id x ids) _) (λ id.
      bind-Goes _ _ (ok_or-Goes (x.card_token req.body) _) (λ card_token.
        with_status-Goes
          (pay_invoice s.psp s.others s.crypto s.race b id req.idempotency_key card_token)
          (record {
            goes = λ past.
                pay s.psp s.others s.crypto s.race b id req.idempotency_key card_token steady past;
          })))
  handle_as-Goes b get_payment_attempt_id ids req =
      bind-Goes _ _ (ok_or-Goes (two_ids x ids) _) (λ both. as_ok-Goes _ (
        aside-Goes (get_payment_attempt b both.0 both.1)
          (λ t. get_payment_attempt-Keeps b both.0 both.1)))
  handle_as-Goes b post_webhook_endpoints ids req =
      bind-Goes _ _ (ok_or-Goes (x.webhook req.body) _) (λ body. with_status-Goes _ (
        aside-Goes (register_webhook s.secret_hex b body)
          (λ t. register_webhook-Keeps (At-IsBlind t) s.secret_hex b body)))

  handle-Goes : (h : Handler) (ids : List String) (req : Request) → Goes (handle x s h ids req)
  unfolding handle
  handle-Goes get_health ids req = pure-Goes 200
  handle-Goes post_businesses ids req =
      bind-Goes _ _ (ok_or-Goes (x.business_name req.body) _) (λ name. with_status-Goes _ (
        aside-Goes (create_business s.hash_secret s.secret_hex name)
          (λ t. create_business-Keeps (At-IsBlind t) s.hash_secret s.secret_hex name)))
  handle-Goes (of_business h) ids req =
      bind-Goes _ _
        (aside-Goes (from_request_parts s.verify_secret req.authorization)
          (λ t. from_request_parts-Keeps s.verify_secret req.authorization))
        (λ b. handle_as-Goes b h ids req)

  answer-Goes : (m : Matched) (req : Request) → Goes (answer x s m req)
  answer-Goes no_route req = pure-Goes 404
  answer-Goes method_not_allowed req = pure-Goes 405
  answer-Goes (handled_by h ids) req = handle-Goes h ids req

  pub serve-History : {w u : World} (req : Request) → History w u → History w (serve x s req u).1
  unfolding serve
  serve-History req past = (answer-Goes (matched build_router req.method req.path) req).goes past
