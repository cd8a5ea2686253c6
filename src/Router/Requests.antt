-- ===== src/Router/Requests.antt =====
-- A request of the API, by route and handler.
use dodo_invoice_service.Router.Rules.{Rules}
use dodo_invoice_service.Base.{String, List}
use dodo_invoice_service.Idempotency.{Point}
use dodo_invoice_service.Router.{
  post_webhook_endpoints, get_payment_attempt_id, post_pay, post_mark_uncollectible, post_void,
  post_finalize, get_invoice_id, get_invoices, post_invoices, get_customer_id, get_customers,
  post_customers, two_ids, post_businesses, one_id, get_health, method_not_allowed, of_business,
  no_route, build_router, handled_by, matched, BusinessHandler, answer, Request, Handler, handle,
  handle_as, serve, Matched, Services, Extractors,
}
use dodo_invoice_service.Db.{Task, Db, World}
use dodo_invoice_service.Router.Aside.{
  register_webhook-Keeps, create_customer-Keeps, create_business-Keeps,
}
use dodo_invoice_service.Db.Keeps.{ok_or-Keeps, bind-Keeps, pure-Keeps, Keeps}
use dodo_invoice_service.Router.Statements.{
  mark_uncollectible-Keeps, void_invoice-Keeps, finalize_invoice-Keeps, create_invoice-Keeps,
}
use dodo_invoice_service.Models.{Uuid}
use dodo_invoice_service.Router.Reads.{
  get_payment_attempt-Keeps, get_invoice-Keeps, list_invoices-Keeps, get_customer-Keeps,
  list_customers-Keeps, from_request_parts-Keeps,
}
use dodo_invoice_service.Router.Goes.{as_ok-Keeps, with_status-Keeps}
use dodo_invoice_service.Router.Paying.{pay_invoice-Keeps}

module _ {P : Db → List Task → Type 0} {NewInvoice NewAttempt : Uuid → Type 0}
    {Reserved : Uuid → String → Type 0} (rules : Rules P NewInvoice NewAttempt Reserved) where
  module _ (x : Extractors) (s : Services)
      (steady : (p : Point) (v : World)
        → P v.db v.tasks
        → P (s.others p v).db (s.others p v).tasks) where
    handle_as-Keeps :
        (b : Uuid) (h : BusinessHandler) (ids : List String) (req : Request)
        → Keeps P (handle_as x s b h ids req)
    unfolding handle_as
    handle_as-Keeps b post_customers ids req =
        bind-Keeps _ _ (ok_or-Keeps (x.customer req.body) _)
          (λ body. with_status-Keeps _ (create_customer-Keeps rules.blind b body))
    handle_as-Keeps b get_customers ids req = as_ok-Keeps _ (list_customers-Keeps b)
    handle_as-Keeps b get_customer_id ids req =
        bind-Keeps _ _ (ok_or-Keeps (one_id x ids) _)
          (λ id. as_ok-Keeps _ (get_customer-Keeps b id))
    handle_as-Keeps b post_invoices ids req =
        bind-Keeps _ _ (ok_or-Keeps (x.invoice req.body) _)
          (λ body. with_status-Keeps _ (create_invoice-Keeps rules b body))
    handle_as-Keeps b get_invoices ids req =
        bind-Keeps _ _ (ok_or-Keeps (x.state_filter req.query) _)
          (λ state_filter. as_ok-Keeps _ (list_invoices-Keeps b state_filter))
    handle_as-Keeps b get_invoice_id ids req =
        bind-Keeps _ _ (ok_or-Keeps (one_id x ids) _) (λ id. as_ok-Keeps _ (get_invoice-Keeps b id))
    handle_as-Keeps b post_finalize ids req =
        bind-Keeps _ _ (ok_or-Keeps (one_id x ids) _)
          (λ id. as_ok-Keeps _ (finalize_invoice-Keeps rules b id))
    handle_as-Keeps b post_void ids req =
        bind-Keeps _ _ (ok_or-Keeps (one_id x ids) _)
          (λ id. as_ok-Keeps _ (void_invoice-Keeps rules b id))
    handle_as-Keeps b post_mark_uncollectible ids req =
        bind-Keeps _ _ (ok_or-Keeps (one_id x ids) _)
          (λ id. as_ok-Keeps _ (mark_uncollectible-Keeps rules b id))
    handle_as-Keeps b post_pay ids req = bind-Keeps _ _ (ok_or-Keeps (one_id x ids) _) (λ id.
        bind-Keeps _ _ (ok_or-Keeps (x.card_token req.body) _) (λ card_token. with_status-Keeps _ (
          pay_invoice-Keeps rules s.others steady s.psp s.crypto s.race b id req.idempotency_key
            card_token)))
    handle_as-Keeps b get_payment_attempt_id ids req =
        bind-Keeps _ _ (ok_or-Keeps (two_ids x ids) _)
          (λ both. as_ok-Keeps _ (get_payment_attempt-Keeps b both.0 both.1))
    handle_as-Keeps b post_webhook_endpoints ids req =
        bind-Keeps _ _ (ok_or-Keeps (x.webhook req.body) _)
          (λ body. with_status-Keeps _ (register_webhook-Keeps rules.blind s.secret_hex b body))

    handle-Keeps :
        (h : Handler) (ids : List String) (req : Request) → Keeps P (handle x s h ids req)
    unfolding handle
    handle-Keeps get_health ids req = pure-Keeps 200
    handle-Keeps post_businesses ids req =
        bind-Keeps _ _ (ok_or-Keeps (x.business_name req.body) _) (λ name.
          with_status-Keeps _ (create_business-Keeps rules.blind s.hash_secret s.secret_hex name))
    handle-Keeps (of_business h) ids req =
        bind-Keeps _ _ (from_request_parts-Keeps s.verify_secret req.authorization)
          (λ b. handle_as-Keeps b h ids req)

    answer-Keeps : (m : Matched) (req : Request) → Keeps P (answer x s m req)
    answer-Keeps no_route req = pure-Keeps 404
    answer-Keeps method_not_allowed req = pure-Keeps 405
    answer-Keeps (handled_by h ids) req = handle-Keeps h ids req

    pub serve-Keeps :
        (req : Request) (w : World)
        → P w.db w.tasks
        → P (serve x s req w).1.db (serve x s req w).1.tasks
    unfolding serve
    serve-Keeps req w h = (answer-Keeps (matched build_router req.method req.path) req).keeps w h
