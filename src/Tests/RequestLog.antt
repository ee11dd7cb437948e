-- ===== src/Tests/RequestLog.antt =====
-- Two requests with different tokens and query values, and the loggers and the frontend's files.
use aelora.Prelude.{
  ◌≡◌, refl, String, ◌==◌, true, Option, none, some, [], ◌∷◌, concat, if◌then◌else◌,
}
use aelora.Prelude.Int.{pos}
use aelora.Domain.{ok}
use aelora.Http.Logging.{Level, debug_level, info_level, warn_level, error_level, RequestLogPolicy}
use aelora.Http.RequestLog.{LoggedRequest, text, log_request, log_audit}
use aelora.Http.RequestLog.Secrets.{LooksLike, log_request-LooksLike}
use aelora.Http.Frontend.{Files, resolve_frontend_dir}
use aelora.Logger.{Loggers, new, sighup}

abbrev request : String → LoggedRequest
request secret = record {
  method = "GET";
  path = "/v1/rooms/lobby/messages";
  pattern = "/v1/rooms/:room_id/messages";
  remote_addr = "10.0.0.1:5000";
  header = λ name. if name == "Authorization" then secret else "";
  user_agent = "curl";
  content_length = pos 0;
  query = ("limit", "5" ∷ []) ∷ ("before", secret ∷ []) ∷ [];
  body = secret;
  trace_id = "";
  identity = "alice";
}

abbrev policy : RequestLogPolicy
policy = record {
  default_success_level = info_level;
  default_sample_every = 1;
  health_success_level = debug_level;
  health_sample_every = 25;
  metrics_success_level = debug_level;
  metrics_sample_every = 50;
  message_post_level = info_level;
  message_post_every = 1;
  counters = λ route status. 0;
}

alike : LooksLike (request "a") (request "b")
alike = record {
  method = refl;
  path = refl;
  pattern = refl;
  remote_addr = refl;
  device_id = refl;
  user_agent = refl;
  content_length = refl;
  query_keys = refl;
  trace_id = refl;
  identity = refl;
}

log_request-LooksLike_example :
    (log_request (request "a") 200 17 policy ≡ log_request (request "b") 200 17 policy)
    × (log_audit (request "a") warn_level "audit.room_created" (text "room_id" "lobby" ∷ [])
        ≡ log_audit (request "b") warn_level "audit.room_created" (text "room_id" "lobby" ∷ []))
log_request-LooksLike_example =
    log_request-LooksLike (request "a") (request "b") 200 17 policy warn_level "audit.room_created"
      (text "room_id" "lobby" ∷ []) alike

abbrev files : Files
files = record {
  join = λ a b. concat a (concat "/" b);
  dir = λ path. "/srv";
  getwd = ok "/srv/aelora";
  is_dir = λ path. path == "/srv/frontend";
}

beside_the_program : resolve_frontend_dir files ≡ ok "/srv/frontend"
unfolding resolve_frontend_dir
beside_the_program = refl

abbrev read_level : String → Option Level
read_level level = if level == "warn" then some warn_level else none

abbrev loggers : Loggers
loggers =
    (new read_level true true "warn"
      (new read_level true true "?"
        (record { built = 0; levels = λ id. error_level; watched = none })).1).1

-- A signal changes the first logger, and leaves the second one alone.
first_level : (sighup read_level "warn" loggers).levels 0 ≡ warn_level
unfolding sighup new
first_level = refl

before_signal : loggers.levels 0 ≡ info_level
unfolding new
before_signal = refl
