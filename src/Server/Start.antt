-- ===== src/Server/Start.antt =====
-- cmd/server/main.go: what the program does from its start to its end. Each thing that it asks of the
-- world is an action; which of them fail is arbitrary. `log.Fatal` ends the process at once, without
-- the deferred calls. What is only built, and can neither fail nor be seen, is left out here.
pub mod Plan
use aelora.Prelude.{
  ℕ, String, ◌==◌, Bool, true, false, Option, none, some, List, [], ◌∷◌, ◌++◌, if◌then◌else◌,
}
use aelora.Domain.{Error, other, Result, ok, err}
use aelora.Call.{Call, pure, fail, handle, lift, ◌>>=◌, ◌>>◌}
use aelora.Config.{Config}
use aelora.Server.{frontend_backend_url}

-- `start_…` begins a goroutine. `await_signal` ends with SIGINT or SIGTERM; `stop_server` is the
-- graceful shutdown, whose error is dropped. The goroutines of the frontend and of the server call
-- `log.Fatal` where their listener fails: from their start on, an action also fails where such a call
-- ends the process while the action runs, up to the last of the closings.
pub data Action : Type 0 where
  migrate : Action
  connect_valkey connect_postgres : Action
  start_realtime start_relay : Action
  find_frontend : Action
  parse_backend : String → Action
  start_frontend start_server : Action
  await_signal stop_server : Action
  close_repository close_pool close_valkey cancel_context : Action

-- What was done, in its order.
pub record World : Type 0 where
  pub done : List Action

abbrev outcome : Option Error → Result (Unit {0})
outcome none = ok tt
outcome (some e) = err e

module _ (fails : Action → Option Error) where
  unfoldable pub act : Action → Call World (Unit {0})
  act a w = (outcome (fails a), record w { done = w.done ++ a ∷ [] })

-- An action that has no error, or whose error is dropped.
unfoldable pub always : Action → Call World (Unit {0})
always a w = (ok tt, record w { done = w.done ++ a ∷ [] })

-- `log.Fatal`
abbrev fatal : String → Call World (Unit {0})
fatal text = fail (other text)

abbrev or_fatal : Call World (Unit {0}) → String → Call World (Unit {0})
or_fatal m text = handle m (λ e. fatal text) pure

module _ (fails : Action → Option Error) (parse_addr_port : String → Option (String × ℕ)) where
  -- The text of the address, or the process ends.
  backend_url : Config → Call World String
  backend_url cfg =
      handle (lift (frontend_backend_url parse_addr_port cfg.http_addr))
        (λ e. fail (other "failed to derive frontend backend url")) pure

  sidecar : Config → Call World (Unit {0})
  unfolding act always backend_url
  sidecar cfg =
      if cfg.frontend_addr == cfg.http_addr
      then fatal "frontend addr must differ from api addr"
      else do
        or_fatal (act fails find_frontend) "failed to locate frontend assets"
        backend ← backend_url cfg
        or_fatal (act fails (parse_backend backend)) "failed to configure frontend helper"
        always start_frontend

  -- The migrations, where they are asked for, and the two stores.
  open_stores : Config → Call World (Unit {0})
  unfolding act
  open_stores cfg = do
    if cfg.run_migrations_on_start
        then or_fatal (act fails migrate) "startup migrations failed"
        else pure tt
    or_fatal (act fails connect_valkey) "failed to connect valkey"
    or_fatal (act fails connect_postgres) "failed to connect postgres"

  unfoldable pub run_server : Config → Call World (Unit {0})
  unfolding act always open_stores sidecar
  run_server cfg = do
    open_stores cfg
    always start_realtime
    always start_relay
    if cfg.frontend_sidecar_enabled then sidecar cfg else pure tt
    if cfg.frontend_sidecar_enabled then act fails start_server else always start_server
    act fails await_signal
    act fails stop_server
    act fails close_repository
    act fails close_pool
    act fails close_valkey

  -- `mode` is the first argument, where the program has one.
  abbrev mode_or_default : Option String → String
  mode_or_default none = "serve"
  mode_or_default (some mode) = mode

  unfoldable pub main : Option String → Config → Call World (Unit {0})
  unfolding run_server act always
  main mode cfg =
      if mode_or_default mode == "migrate"
      then or_fatal (act fails migrate) "migration command failed" >> always cancel_context
      else if mode_or_default mode == "serve"
      then run_server cfg >> act fails cancel_context
      else fatal "unsupported mode"
