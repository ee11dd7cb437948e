-- ===== src/Tests/Server.antt =====
-- Starting and ending the program, and its limiter.
use aelora.Prelude.{
  ℕ, ◌*◌, ◌≤◌, ◌≡◌, refl, String, false, Option, none, some, [], ◌∷◌, arith, if◌then◌else◌,
}
use aelora.Prelude.Int.{pos, is_nonpos, to_nat}
use aelora.Domain.{Error, other, err}
use aelora.Config.{Config, Environment, load}
use aelora.Server.Start.{
  Action, connect_valkey, connect_postgres, start_server, await_signal, stop_server, main,
}
use aelora.Server.Start.Plan.{Ends, opening, closing, main_serves}
use aelora.Server.Limits.{send_limiter, times, sends_per_second}
use aelora.RateLimit.Step.{CallLog, run, passed}

abbrev env : Environment
env name = ""

abbrev cfg : Config
cfg = record (load env) {
  run_migrations_on_start = false;
  frontend_sidecar_enabled = false;
  send_rate_limit_per_second = pos 1;
  send_rate_limit_ttl_seconds = pos 300;
}

abbrev postgres_down : Action → Option Error
postgres_down connect_postgres = some (other "refused")
postgres_down _ = none

abbrev no_parser : String → Option (String × ℕ)
no_parser text = none

-- Where PostgreSQL cannot be reached, the program ends without closing Valkey.
postgres_down_run : main postgres_down no_parser none cfg (record { done = [] }) ≡ (
  err (other "failed to connect postgres"),
  record { done = connect_valkey ∷ connect_postgres ∷ [] },
)
unfolding main
postgres_down_run = refl

-- The listener fails while the server shuts down.
abbrev late_failure : Action → Option Error
late_failure stop_server = some (other "server failed")
late_failure action = none

main_serves_example :
    let (r, w) = main late_failure no_parser none cfg (record { done = [] }) in
    let plan = opening no_parser cfg (start_server ∷ await_signal ∷ closing) in
    Ends plan plan (record { done = [] }) r w
main_serves_example = main_serves late_failure no_parser cfg

-- A time to keep entries that 64 bits do not hold becomes a short one.
wrapped : times (pos 18446744074) 1000000000 ≡ pos 290448384
unfolding times
wrapped = refl

abbrev earlier : CallLog
earlier = ("alice", 5) ∷ []

abbrev log : CallLog
log = ("alice", 10) ∷ ("alice", 11) ∷ ("bob", 12) ∷ ("alice", 13) ∷ []

alice_limited :
    passed "alice" (run (send_limiter cfg) earlier) log
    ≤ 2
      * (if is_nonpos cfg.send_rate_limit_per_second
          then 30
          else to_nat cfg.send_rate_limit_per_second)
alice_limited =
    sends_per_second cfg 10 earlier log "alice" (omega arith) (omega arith) (omega arith)
