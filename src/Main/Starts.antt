-- ===== src/Main/Starts.antt =====
-- When the service starts, and with what.
use dodo_invoice_service.Boot.{Step, Ended, done, migrated, dispatcher_spawned, bound}
use dodo_invoice_service.Main.{AppState, Outside, main}
use dodo_invoice_service.Startup.Ends.{Ending, first, all_fail, connect_with_retry-ends}
use dodo_invoice_service.Startup.{Connected, pool, panicked, connect_with_retry}
use dodo_invoice_service.Config.{Config, Env, from_env}
use dodo_invoice_service.Base.{
  refl, ◌↔◌, ◌∙◌, sym, ap, ltb, Bool-cases, inr, arith, inl, Option-cases, ◌∷◌, true, some, ◌≡◌,
  Bool, [], List, ℕ,
}

abbrev pub state_of : Config → ℕ → AppState
state_of config db = record {
  db = db;
  psp = record { timeout = config.psp_hard_timeout; base_url = config.psp_base_url };
  psp_sync_wait = config.psp_sync_wait;
}

-- All that has to be there, and what the service then runs with.
pub record Starts (env : Env) (o : Outside) (state : AppState) (port : ℕ) : Type 0 where
  pub config : Config
  pub reads : from_env env ≡ some config
  pub connects : Ending (o.connects config.database_url) (pool state.db)
  pub migrates : o.migrates state.db ≡ true
  pub builds_psp_client : o.builds_psp_client ≡ true
  pub builds_dispatcher_client : o.builds_dispatcher_client ≡ true
  pub state_is : state_of config state.db ≡ state
  pub port_is : config.port ≡ port
  pub binds : o.binds config.port ≡ true

-- What the start leaves behind, the last step first.
abbrev pub all_steps : ℕ → ℕ → List Step
all_steps db port = bound port ∷ dispatcher_spawned db ∷ migrated db ∷ []

abbrev at_end : AppState → ℕ → List Step → Ended (AppState × ℕ) × List Step
at_end state port steps = (done (state, port), steps)

Ending-unique : (connect : ℕ → Bool) (c d : Connected) → Ending connect c → Ending connect d → c ≡ d
Ending-unique connect c d (first k hk s early) (first j hj t earlier) =
    elim (Bool-cases (ltb k j)) [
      | inl lt ↦ cc (earlier k (ground (arith, lt)), s)
      | inr not_lt ↦ elim (Bool-cases (ltb j k)) [
        | inl lt ↦ cc (early j (ground (arith, lt)), t)
        | inr not_gt ↦ let same : k ≡ j = ground (arith, not_lt, not_gt) in ap pool same
      ]
    ]
Ending-unique connect c d (first k hk s before) (all_fail none_did) = cc (none_did k hk)
Ending-unique connect c d (all_fail none_did) (first k hk s before) = cc (none_did k hk)
Ending-unique connect c d (all_fail none_did) (all_fail none_did') = refl

connected-Starts :
    (env : Env) (o : Outside) (state : AppState) (port : ℕ) (steps : List Step) (config : Config)
    (c : Connected)
    → from_env env ≡ some config
    → connect_with_retry (o.connects config.database_url) ≡ some c
    → Ending (o.connects config.database_url) c
    → main env o [] ≡ (done (state, port), steps)
    → Starts env o state port
unfolding main
connected-Starts env o state port steps config (panicked n) reads e ending h =
    absurd (ground (arith, h, e, reads))
connected-Starts env o state port steps config (pool k) reads e ending h =
    elim (Bool-cases (o.migrates k)) [
      | inr fails ↦ absurd (ground (arith, h, e, reads, fails))
      | inl migrates ↦ elim (Bool-cases o.builds_psp_client) [
        | inr fails ↦ absurd (ground (arith, h, e, reads, fails, migrates))
        | inl builds ↦ elim (Bool-cases o.builds_dispatcher_client) [
          | inr fails ↦ absurd (ground (arith, h, e, reads, fails, migrates, builds))
          | inl builds' ↦ elim (Bool-cases (o.binds config.port)) [
            | inr fails ↦ absurd (ground (arith, h, e, reads, fails, migrates, builds, builds'))
            | inl binds ↦
                let served : at_end (state_of config k) config.port (all_steps k config.port)
                    ≡ at_end state port steps =
                  ground (arith, h, e, reads, migrates, builds, builds', binds) in
                let state_is : state_of config k ≡ state = cc served in
                let port_is : config.port ≡ port = cc served in
                let db : k ≡ state.db = ap (λ x. x.db) state_is in
                record {
                  config = config;
                  reads = reads;
                  connects = rw (sym db) ending;
                  migrates = rw (sym db) migrates;
                  builds_psp_client = builds;
                  builds_dispatcher_client = builds';
                  state_is = ap (state_of config) (sym db) ∙ state_is;
                  port_is = port_is;
                  binds = binds;
                }
          ]
        ]
      ]
    ]

starts :
    (env : Env) (o : Outside) (state : AppState) (port : ℕ) (steps : List Step)
    → main env o [] ≡ (done (state, port), steps)
    → Starts env o state port
unfolding main
starts env o state port steps h = elim (Option-cases (from_env env)) [
  | inl unset ↦ absurd (ground (arith, h, unset))
  | inr (config, reads) ↦
      let (c, e, ending) = connect_with_retry-ends (o.connects config.database_url) in
      connected-Starts env o state port steps config c reads e ending h
]

runs :
    (env : Env) (o : Outside) (state : AppState) (port : ℕ)
    → Starts env o state port
    → main env o [] ≡ (done (state, port), all_steps state.db port)
unfolding main
runs env o state port s =
    let (c, e, ending) = connect_with_retry-ends (o.connects s.config.database_url) in
    let same =
      Ending-unique (o.connects s.config.database_url) c (pool state.db) ending s.connects in
    ground (
      arith, e, same, s.reads, s.migrates, s.builds_psp_client, s.builds_dispatcher_client, s.binds,
      s.state_is, s.port_is,
    )

-- The service gets to serve a state at a port exactly if the environment has the configuration, one of the first
-- 11 connections succeeds, the migrations run over the first that does, both HTTP clients can be built and the
-- port of the configuration can be bound; the state has that connection, the provider's address and the two
-- durations of the configuration. The migrations have then run before the dispatcher was spawned, and that
-- before the port was bound.
pub main_iff :
    (env : Env) (o : Outside) (state : AppState) (port : ℕ)
    → ((main env o []).0 ≡ done (state, port))
      ↔ (Starts env o state port × ((main env o []).1 ≡ all_steps state.db port))
main_iff env o state port = (
  λ h.
      let s = starts env o state port (main env o []).1 (λ i. (h i, (main env o []).1)) in
      (s, ap (λ x. x.1) (runs env o state port s)),
  λ (s, _). ap (λ x. x.0) (runs env o state port s),
)
