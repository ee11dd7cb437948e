-- ===== src/Config.antt =====
-- internal/platform/config/config.go. The environment is a parameter: an unset name is empty.
use aelora.Prelude.{
  ℕ, String, ◌==◌, Bool, true, false, Option, none, some, or_else, contains, [], ◌∷◌, if◌then◌else◌,
}
use aelora.Prelude.Int.{ℤ, pos}
use aelora.Prelude.Parse.{parse_int, parse_uint}

pub record Config : Type 0 where
  pub app_env : String
  pub http_addr : String
  pub log_level : String
  pub service_name : String
  pub frontend_sidecar_enabled : Bool
  pub frontend_addr : String
  pub ws_read_limit : ℤ
  pub ws_check_origin : Bool
  pub request_log_default_success_level : String
  pub request_log_default_sample_every : ℤ
  pub request_log_health_success_level : String
  pub request_log_health_sample_every : ℤ
  pub request_log_metrics_success_level : String
  pub request_log_metrics_sample_every : ℤ
  pub request_log_message_success_level : String
  pub request_log_message_sample_every : ℤ
  pub auth_enabled : Bool
  pub cognito_region : String
  pub cognito_user_pool_id : String
  pub cognito_app_client_id : String
  pub valkey_addr : String
  pub valkey_username : String
  pub valkey_password : String
  pub valkey_db : ℤ
  pub valkey_event_stream_key : String
  pub valkey_room_stream_max_len : ℤ
  pub valkey_event_stream_max_len : ℤ
  pub valkey_room_id_sequence_key : String
  pub room_id_xor_mask : ℕ
  pub postgres_dsn : String
  pub postgres_migrations_dir : String
  pub run_migrations_on_start : Bool
  pub send_rate_limit_per_second : ℤ
  pub send_rate_limit_ttl_seconds : ℤ
  pub push_android_endpoint : String
  pub push_ios_endpoint : String
  pub push_auth_token : String
  pub push_http_timeout_ms : ℤ

-- `os.Getenv`
abbrev pub Environment : Type 0
Environment = String → String

unfoldable pub getenv : Environment → String → String → String
getenv env key fallback = if env key == "" then fallback else env key

-- The helpers that parse: the fallback stands for an empty text and for one that does not parse.
unfoldable pub parsed_or : {A : Type 0} → (String → Option A) → String → A → A
parsed_or parse v fallback = if v == "" then fallback else or_else (parse v) fallback

-- `getenvInt` and `getenvInt64`, since an `int` has 64 bits.
unfoldable pub getenv_int : Environment → String → ℤ → ℤ
unfolding parsed_or
getenv_int env key fallback = parsed_or parse_int (env key) fallback

unfoldable pub getenv_uint : Environment → String → ℕ → ℕ
unfolding parsed_or
getenv_uint env key fallback = parsed_or parse_uint (env key) fallback

-- `strconv.ParseBool`
unfoldable pub parse_bool : String → Option Bool
parse_bool v =
    if contains v ("1" ∷ "t" ∷ "T" ∷ "true" ∷ "TRUE" ∷ "True" ∷ [])
    then some true
    else if contains v ("0" ∷ "f" ∷ "F" ∷ "false" ∷ "FALSE" ∷ "False" ∷ [])
    then some false
    else none

unfoldable pub getenv_bool : Environment → String → Bool → Bool
unfolding parsed_or parse_bool
getenv_bool env key fallback = parsed_or parse_bool (env key) fallback

unfoldable pub load : Environment → Config
unfolding getenv getenv_int getenv_uint getenv_bool
load env = record {
  app_env = getenv env "AELORA_APP_ENV" "dev";
  http_addr = getenv env "AELORA_HTTP_ADDR" ":8080";
  log_level = getenv env "AELORA_LOG_LEVEL" "info";
  service_name = getenv env "AELORA_SERVICE_NAME" "aelora";
  frontend_sidecar_enabled = getenv_bool env "AELORA_FRONTEND_SIDECAR_ENABLED" false;
  frontend_addr = getenv env "AELORA_FRONTEND_ADDR" ":8081";
  ws_read_limit = getenv_int env "AELORA_WS_READ_LIMIT" (pos 4096);
  ws_check_origin = getenv_bool env "AELORA_WS_CHECK_ORIGIN" false;
  request_log_default_success_level = getenv env "AELORA_HTTP_REQUEST_LOG_SUCCESS_LEVEL" "info";
  request_log_default_sample_every =
      getenv_int env "AELORA_HTTP_REQUEST_LOG_SUCCESS_SAMPLE_EVERY" (pos 1);
  request_log_health_success_level = getenv env "AELORA_HTTP_REQUEST_LOG_HEALTH_LEVEL" "debug";
  request_log_health_sample_every =
      getenv_int env "AELORA_HTTP_REQUEST_LOG_HEALTH_SAMPLE_EVERY" (pos 25);
  request_log_metrics_success_level = getenv env "AELORA_HTTP_REQUEST_LOG_METRICS_LEVEL" "debug";
  request_log_metrics_sample_every =
      getenv_int env "AELORA_HTTP_REQUEST_LOG_METRICS_SAMPLE_EVERY" (pos 50);
  request_log_message_success_level = getenv env "AELORA_HTTP_REQUEST_LOG_MESSAGE_LEVEL" "info";
  request_log_message_sample_every =
      getenv_int env "AELORA_HTTP_REQUEST_LOG_MESSAGE_SAMPLE_EVERY" (pos 1);
  auth_enabled = getenv_bool env "AELORA_AUTH_ENABLED" true;
  cognito_region = getenv env "AELORA_COGNITO_REGION" "";
  cognito_user_pool_id = getenv env "AELORA_COGNITO_USER_POOL_ID" "";
  cognito_app_client_id = getenv env "AELORA_COGNITO_APP_CLIENT_ID" "";
  valkey_addr = getenv env "AELORA_VALKEY_ADDR" "127.0.0.1:6379";
  valkey_username = getenv env "AELORA_VALKEY_USERNAME" "";
  valkey_password = getenv env "AELORA_VALKEY_PASSWORD" "";
  valkey_db = getenv_int env "AELORA_VALKEY_DB" (pos 0);
  valkey_event_stream_key =
      getenv env "AELORA_VALKEY_EVENT_STREAM_KEY" "stream:events:message_created";
  valkey_room_stream_max_len = getenv_int env "AELORA_VALKEY_ROOM_STREAM_MAXLEN" (pos 20000);
  valkey_event_stream_max_len = getenv_int env "AELORA_VALKEY_EVENT_STREAM_MAXLEN" (pos 50000);
  valkey_room_id_sequence_key = getenv env "AELORA_VALKEY_ROOM_ID_SEQUENCE_KEY" "seq:room_id";
  room_id_xor_mask = getenv_uint env "AELORA_ROOM_ID_XOR_MASK" 0x7a4bd9f1c3e5;
  postgres_dsn = getenv env "AELORA_POSTGRES_DSN" "";
  postgres_migrations_dir = getenv env "AELORA_POSTGRES_MIGRATIONS_DIR" "migrations/postgres";
  run_migrations_on_start = getenv_bool env "AELORA_RUN_MIGRATIONS_ON_START" false;
  send_rate_limit_per_second = getenv_int env "AELORA_SEND_RATE_LIMIT_PER_SECOND" (pos 30);
  send_rate_limit_ttl_seconds = getenv_int env "AELORA_SEND_RATE_LIMIT_TTL_SECONDS" (pos 300);
  push_android_endpoint = getenv env "AELORA_PUSH_ANDROID_ENDPOINT" "";
  push_ios_endpoint = getenv env "AELORA_PUSH_IOS_ENDPOINT" "";
  push_auth_token = getenv env "AELORA_PUSH_AUTH_TOKEN" "";
  push_http_timeout_ms = getenv_int env "AELORA_PUSH_HTTP_TIMEOUT_MS" (pos 2000);
}
