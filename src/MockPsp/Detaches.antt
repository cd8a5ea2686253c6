-- ===== src/MockPsp/Detaches.antt =====
-- The service as it starts against the mock provider as it starts: which charges outlast its wait.
use dodo_invoice_service.PspClient.{charge as client_charge}
use dodo_invoice_service.Main.{AppState, Outside}
use dodo_invoice_service.Main.Starts.{main_iff}
use dodo_invoice_service.MockPsp.{charge}
use dodo_invoice_service.MockPsp.Charges.{mock_psp, expected, charge_table}
use dodo_invoice_service.Boot.{done}
use dodo_invoice_service.Base.{
  refl, ◌∙◌, sym, ap, ℤ, ◌≤◌, eq_iff, Bool-cases, false, inr, inl, Option-cases, arith, [], str_eq,
  some, none, ltb, ◌<◌, ◌≡◌, String, Bool, ℕ,
}
use dodo_invoice_service.Config.{text_or, max_u16, number, Config, from_env, Env}
use dodo_invoice_service.Error.{StatusCode}
use dodo_invoice_service.Main as Service
use dodo_invoice_service.MockPsp as Mock

default_waits :
    (env : Env) (config : Config)
    → env "PSP_SYNC_WAIT_MS" ≡ none
    → env "PSP_HARD_TIMEOUT_MS" ≡ none
    → from_env env ≡ some config
    → (config.psp_sync_wait ≡ 3_000) × (config.psp_hard_timeout ≡ 35_000)
unfolding from_env
default_waits env config no_wait no_timeout h = elim (Option-cases (env "DATABASE_URL")) [
  | inl unset ↦ absurd (ground (arith, h, unset))
  | inr (url, is_set) ↦
      let c : from_env env
          ≡ some (record {
            database_url = url;
            port = number env "PORT" max_u16 8080;
            psp_base_url = text_or (env "PSP_BASE_URL") "http://localhost:9000";
            psp_sync_wait = 3_000;
            psp_hard_timeout = 35_000;
          }) =
        ground (arith, is_set, no_wait, no_timeout) in
      (cc (h, c), cc (h, c))
]

default_delay :
    (env : Env) (binds : ℕ → Bool) (mock : Mock.AppState) (port : ℕ)
    → env "MOCK_PSP_TIMEOUT_MS" ≡ none
    → (Mock.main env binds []).0 ≡ done (mock, port)
    → mock.timeout_delay ≡ 30_000
unfolding Mock.main
default_delay env binds mock port unset h = ground (arith, unset, h)

at_once :
    (delay : ℕ) (psp_ref token : String)
    → str_eq token "tok_timeout" ≡ false
    → (charge delay psp_ref token).delay ≤ 100
unfolding charge
at_once delay psp_ref token other = elim (Bool-cases (str_eq token "tok_success")) [
  | inl hit ↦ rw hit (omega arith)
  | inr miss1 ↦ elim (Bool-cases (str_eq token "tok_insufficient_funds")) [
    | inl hit ↦ rw (miss1, hit) (omega arith)
    | inr miss2 ↦ elim (Bool-cases (str_eq token "tok_card_declined")) [
      | inl hit ↦ rw (miss1, miss2, hit) (omega arith)
      | inr miss3 ↦ elim (Bool-cases (str_eq token "tok_network_error")) [
        | inl hit ↦ rw (miss1, miss2, miss3, other, hit) (omega arith)
        | inr miss4 ↦ rw (miss1, miss2, miss3, other, miss4) (omega arith)
      ]
    ]
  ]
]

outlasts :
    (delay : ℕ) (psp_ref token : String)
    → 3_000 < delay
    → ltb 3_000 (charge delay psp_ref token).delay ≡ str_eq token "tok_timeout"
unfolding charge
outlasts delay psp_ref token long = elim (Bool-cases (str_eq token "tok_timeout")) [
  | inl hit ↦ rw ((eq_iff token "tok_timeout").0 hit) (ground (arith, long))
  | inr miss ↦ ground (arith, at_once delay psp_ref token miss, miss)
]

-- If neither environment sets a duration, then a charge by the service that started against the provider that
-- started outlasts the time for which a request waits exactly if its token is tok_timeout, and none outlasts the
-- timeout of the client: each token has the outcome of its answer.
pub only_timeout_detaches :
    (env env' : Env) (o : Outside) (binds : ℕ → Bool) (state : AppState) (mock : Mock.AppState)
    (port port' : ℕ) (amount_cents : ℤ) (timed_out psp_ref token : String)
    (shown : StatusCode → String)
    → env "PSP_SYNC_WAIT_MS" ≡ none
    → env "PSP_HARD_TIMEOUT_MS" ≡ none
    → env' "MOCK_PSP_TIMEOUT_MS" ≡ none
    → (Service.main env o []).0 ≡ done (state, port)
    → (Mock.main env' binds []).0 ≡ done (mock, port')
    → (ltb state.psp_sync_wait (charge mock.timeout_delay psp_ref token).delay
        ≡ str_eq token "tok_timeout")
      × (client_charge
            (mock_psp state.psp.timeout timed_out shown mock.timeout_delay psp_ref)
            amount_cents
            token
          ≡ expected false timed_out shown psp_ref token)
only_timeout_detaches env env' o binds state mock port port' amount_cents timed_out psp_ref token
      shown no_wait no_timeout no_delay h h' =
    let s = ((main_iff env o state port).0 h).0 in
    let (wait, timeout) = default_waits env s.config no_wait no_timeout s.reads in
    let wait' : state.psp_sync_wait ≡ 3_000 = ap (λ x. x.psp_sync_wait) (sym s.state_is) ∙ wait in
    let timeout' : state.psp.timeout ≡ 35_000 =
      ap (λ x. x.psp.timeout) (sym s.state_is) ∙ timeout in
    let delay = default_delay env' binds mock port' no_delay h' in
    (
      rw (wait', delay) (outlasts 30_000 psp_ref token (omega arith)),
      rw (timeout', delay)
          (charge_table 35_000 30_000 timed_out psp_ref token shown amount_cents refl),
    )
