-- ===== src/Tests/Config.antt =====
-- The configuration of an environment with a few names, and the frontend's address.
use aelora.Prelude.{◌≡◌, refl, ◌==◌, false, Option, none, some, trim_space, String, if◌then◌else◌}
use aelora.Prelude.Int.{pos, negsuc}
use aelora.Prelude.Parse.{itoa, parse_int}
use aelora.Domain.{ok}
use aelora.Config.{Environment, load}
use aelora.Http.Logging.{
  Level, error_level, debug_level, new_request_log_policy, parse_log_level, normalize_sample_every,
}
use aelora.Server.{frontend_backend_url}

abbrev env : Environment
env name =
    if name == "AELORA_AUTH_ENABLED"
    then "F"
    else if name == "AELORA_WS_READ_LIMIT"
    then "-1"
    else if name == "AELORA_VALKEY_DB"
    then "one"
    else if name == "AELORA_HTTP_REQUEST_LOG_SUCCESS_LEVEL"
    then " error "
    else if name == "AELORA_HTTP_REQUEST_LOG_HEALTH_SAMPLE_EVERY"
    then "0"
    else ""

load_read_limit : (load env).ws_read_limit ≡ negsuc 0
unfolding load parse_int
load_read_limit = refl

load_valkey_db : (load env).valkey_db ≡ pos 0
unfolding load parse_int
load_valkey_db = refl

-- A level that parses replaces the default, and a number below 1 does not.
abbrev unmarshal_text : String → Option Level
unmarshal_text text = if text == "error" then some error_level else none

policy_level :
    (new_request_log_policy unmarshal_text (load env)).default_success_level ≡ error_level
unfolding load new_request_log_policy parse_log_level trim_space
policy_level = refl

policy_fallback :
    (new_request_log_policy unmarshal_text (load env)).health_success_level ≡ debug_level
unfolding load new_request_log_policy parse_log_level trim_space
policy_fallback = refl

policy_every : (new_request_log_policy unmarshal_text (load env)).health_sample_every ≡ 25
unfolding load new_request_log_policy normalize_sample_every parse_int
policy_every = refl

load_auth : (load env).auth_enabled ≡ false
unfolding load
load_auth = refl

url_of_port : frontend_backend_url (λ addr. none) ":8080" ≡ ok "http://127.0.0.1:8080"
unfolding frontend_backend_url
url_of_port = refl

url_of_host : frontend_backend_url (λ addr. none) "api.local:80" ≡ ok "http://api.local:80"
unfolding frontend_backend_url
url_of_host = refl

-- An IPv6 address loses its brackets.
url_of_v6 : frontend_backend_url (λ addr. some ("::1", 8080)) "[::1]:8080" ≡ ok "http://::1:8080"
unfolding frontend_backend_url itoa
url_of_v6 = refl
