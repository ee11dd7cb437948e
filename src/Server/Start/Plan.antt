-- ===== src/Server/Start/Plan.antt =====
-- main.go: in which order the program opens, serves and closes.
use aelora.Prelude.{
  ℕ, ◌≡◌, refl, sym, ap, ◌∙◌, String, ◌==◌, Bool, true, false, Option, none, some, List, [], ◌∷◌,
  ◌++◌, if◌then◌else◌,
}
use mathlib.Core.Path.{subst}
use mathlib.Core.List.{append_assoc, append-nil}
use aelora.Domain.{Error, other, Result, ok, err}
use aelora.Call.{Call, pure, fail, handle, lift, ◌>>=◌, ◌>>◌}
use aelora.Call.Post.{Post, Post-pure, Post-fail, Post-handle, Post-then, Post-weaken}
use aelora.Config.{Config}
use aelora.Server.{frontend_backend_url}
use aelora.Server.Start.{
  Action, migrate, connect_valkey, connect_postgres, start_realtime, start_relay, find_frontend,
  parse_backend, start_frontend, start_server, await_signal, stop_server, close_repository,
  close_pool, close_valkey, cancel_context, World, act, always, or_fatal, fatal, backend_url,
  sidecar, open_stores, run_server, main, outcome,
}

-- A part of the plan was carried out: all of it, or its beginning, within `may_fail`, up to an action
-- that failed.
abbrev pub Ends : List Action → List Action → World → Result (Unit {0}) → World → Type 0
Ends may_fail all w (ok done) w' = w'.done ≡ w.done ++ all
Ends may_fail all w (err e) w' =
    (made : List Action) × (rest : List Action) × (w'.done ≡ w.done ++ made)
    × (made ++ rest ≡ may_fail)

Ends-after :
    (xs ys zs : List Action) (w w1 : World) (r : Result (Unit {0})) (w2 : World)
    → w1.done ≡ w.done ++ xs
    → Ends ys zs w1 r w2
    → Ends (xs ++ ys) (xs ++ zs) w r w2
Ends-after xs ys zs w w1 (ok done) w2 e h = h ∙ ap (λ l. l ++ zs) e ∙ append_assoc w.done xs zs
Ends-after xs ys zs w w1 (err x) w2 e (made, rest, h, k) = (
  xs ++ made,
  rest,
  h ∙ ap (λ l. l ++ made) e ∙ append_assoc w.done xs made,
  append_assoc xs made rest ∙ ap (λ l. xs ++ l) k,
)

abbrev Runs : List Action → List Action → Call World (Unit {0}) → Type 0
Runs may_fail all m = (w : World) → Post (Ends may_fail all w) m w

Runs-then :
    (xs ys zs : List Action) {m k : Call World (Unit {0})}
    → Runs xs xs m
    → Runs ys zs k
    → Runs (xs ++ ys) (xs ++ zs) (m >> k)
Runs-then xs ys zs {m} {k} f g w =
    Post-then (f w)
      (λ e w1 (made, rest, h, p).
        (made, rest ++ ys, h, sym (append_assoc made rest ys) ∙ ap (λ l. l ++ ys) p))
      (λ a w1 q e. Post-weaken (λ r w2 h. Ends-after xs ys zs w w1 r w2 e h) (g w1))

Runs-nothing : Runs [] [] (pure tt)
Runs-nothing w = Post-pure (sym (append-nil w.done))

Runs-fatal : (plan : List Action) (text : String) → Runs plan plan (fatal text)
Runs-fatal plan text w = Post-fail ([], plan, sym (append-nil w.done), refl)

Runs-always : (a : Action) → Runs (a ∷ []) (a ∷ []) (always a)
unfolding always
Runs-always a w = record { holds = refl }

Runs-if :
    (b : Bool) (xs : List Action) {m : Call World (Unit {0})}
    → Runs xs xs m
    → Runs (if b then xs else []) (if b then xs else []) (if b then m else pure tt)
Runs-if true xs f = f
Runs-if false xs f = Runs-nothing

Runs-either :
    (b : Bool) (xs ys : List Action) {m k : Call World (Unit {0})}
    → Runs xs ys m
    → Runs xs ys k
    → Runs xs ys (if b then m else k)
Runs-either true xs ys f g = f
Runs-either false xs ys f g = g

abbrev url_or_empty : Result String → String
url_or_empty (ok url) = url
url_or_empty (err e) = ""

-- What is done once a signal has come.
abbrev pub closing : List Action
closing = stop_server ∷ close_repository ∷ close_pool ∷ close_valkey ∷ cancel_context ∷ []

module _ (parse_addr_port : String → Option (String × ℕ)) (cfg : Config) where
  abbrev frontend : List Action
  frontend =
      if cfg.frontend_sidecar_enabled
      then find_frontend
        ∷ parse_backend (url_or_empty (frontend_backend_url parse_addr_port cfg.http_addr))
        ∷ start_frontend
        ∷ []
      else []

  abbrev stores : List Action
  stores =
      (if cfg.run_migrations_on_start then migrate ∷ [] else [])
      ++ (connect_valkey ∷ connect_postgres ∷ [])

  -- What is done before requests are served, and `rest` behind it: the migrations, where they are
  -- asked for, then the two stores, the workers, and the frontend, where it is asked for.
  abbrev pub opening : List Action → List Action
  opening rest = stores ++ (start_realtime ∷ start_relay ∷ (frontend ++ rest))

module _ (fails : Action → Option Error) where
  Runs-bare : (a : Action) → Runs (a ∷ []) (a ∷ []) (act fails a)
  unfolding act
  Runs-bare a w = record { holds = by_outcome (fails a) }
    where
      by_outcome :
          (f : Option Error)
          → Ends (a ∷ []) (a ∷ []) w (outcome f) (record w { done = w.done ++ a ∷ [] })
      by_outcome none = refl
      by_outcome (some e) = (a ∷ [], [], refl, refl)

  Runs-act : (a : Action) (text : String) → Runs (a ∷ []) (a ∷ []) (or_fatal (act fails a) text)
  Runs-act a text w =
      Post-handle (act fails a) w (λ e w1 h. Post-fail (rw h at (Runs-bare a w).holds))
        (λ done w1 h. Post-pure (rw h at (Runs-bare a w).holds))

  module _ (parse_addr_port : String → Option (String × ℕ)) (cfg : Config) where
    Runs-backend :
        (url : Result String)
        → Runs
            (parse_backend (url_or_empty url) ∷ start_frontend ∷ [])
            (parse_backend (url_or_empty url) ∷ start_frontend ∷ [])
            (handle (lift url) (λ e. fail (other "failed to derive frontend backend url")) pure
              >>= λ backend.
                  or_fatal (act fails (parse_backend backend)) "failed to configure frontend helper"
                  >> always start_frontend)
    unfolding lift
    Runs-backend (ok url) w = record {
      holds =
          (Runs-then (parse_backend url ∷ []) (start_frontend ∷ []) (start_frontend ∷ [])
            (Runs-act (parse_backend url) "failed to configure frontend helper")
            (Runs-always start_frontend) w).holds;
    }
    Runs-backend (err e) w = record { holds = ([], _, sym (append-nil w.done), refl) }

    Runs-sidecar :
        let url = frontend_backend_url parse_addr_port cfg.http_addr in
        let plan = find_frontend ∷ parse_backend (url_or_empty url) ∷ start_frontend ∷ [] in
        Runs plan plan (sidecar fails parse_addr_port cfg)
    unfolding sidecar backend_url
    Runs-sidecar =
        let url = frontend_backend_url parse_addr_port cfg.http_addr in
        Runs-either (cfg.frontend_addr == cfg.http_addr) _ _ (Runs-fatal _ _) (
          Runs-then (find_frontend ∷ []) _ _
            (Runs-act find_frontend "failed to locate frontend assets") (Runs-backend url))

    Runs-stores :
        Runs
          (stores parse_addr_port cfg)
          (stores parse_addr_port cfg)
          (open_stores fails parse_addr_port cfg)
    unfolding open_stores
    Runs-stores =
        Runs-then _ _ _
          (Runs-if cfg.run_migrations_on_start (migrate ∷ [])
            (Runs-act migrate "startup migrations failed"))
          (Runs-then (connect_valkey ∷ []) _ _ (Runs-act connect_valkey "failed to connect valkey")
            (Runs-act connect_postgres "failed to connect postgres"))

    -- The end of the program, once a signal has come.
    Runs-closing :
        let plan = stop_server ∷ close_repository ∷ close_pool ∷ close_valkey ∷ [] in
        Runs plan plan (
          act fails stop_server
          >> (act fails close_repository >> (act fails close_pool >> act fails close_valkey)))
    Runs-closing = Runs-then (stop_server ∷ []) _ _ (Runs-bare stop_server) (
        Runs-then (close_repository ∷ []) _ _ (Runs-bare close_repository)
          (Runs-then (close_pool ∷ []) _ _ (Runs-bare close_pool) (Runs-bare close_valkey)))

    Runs-server :
        let plan = opening parse_addr_port cfg (
          start_server ∷ await_signal ∷ stop_server ∷ close_repository ∷ close_pool ∷ close_valkey
          ∷ []) in
        Runs plan plan (run_server fails parse_addr_port cfg)
    unfolding run_server
    Runs-server = Runs-then (stores parse_addr_port cfg) _ _ Runs-stores (
        Runs-then (start_realtime ∷ []) _ _ (Runs-always start_realtime) (
          Runs-then (start_relay ∷ []) _ _ (Runs-always start_relay) (
            Runs-then _ _ _ (Runs-if cfg.frontend_sidecar_enabled _ Runs-sidecar) (
              Runs-then (start_server ∷ []) _ _
                (Runs-either cfg.frontend_sidecar_enabled _ _ (Runs-bare start_server)
                  (Runs-always start_server))
                (Runs-then (await_signal ∷ []) _ _ (Runs-bare await_signal) Runs-closing)))))

    opening-append :
        (xs ys : List Action)
        → opening parse_addr_port cfg xs ++ ys ≡ opening parse_addr_port cfg (xs ++ ys)
    opening-append xs ys =
        append_assoc (stores parse_addr_port cfg) _ ys
        ∙ ap (λ l. stores parse_addr_port cfg ++ (start_realtime ∷ start_relay ∷ l))
            (append_assoc (frontend parse_addr_port cfg) xs ys)

    -- Whatever fails, and whenever the goroutine of the server or of the frontend ends the process:
    -- where the program that serves ends normally, it has opened its parts in their order, served, and
    -- closed them, the context last; where it ends by an error, it has carried out a beginning of that
    -- order.
    pub main_serves :
        let (r, w) = main fails parse_addr_port none cfg (record { done = [] }) in
        let plan = opening parse_addr_port cfg (start_server ∷ await_signal ∷ closing) in
        Ends plan plan (record { done = [] }) r w
    unfolding main
    main_serves =
        let (r, w) = main fails parse_addr_port none cfg (record { done = [] }) in
        subst (λ all. Ends all all (record { done = [] }) r w)
          (opening-append _ (cancel_context ∷ []))
          (Runs-then _ (cancel_context ∷ []) (cancel_context ∷ []) Runs-server
            (Runs-bare cancel_context) (record { done = [] })).holds
