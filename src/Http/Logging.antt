-- ===== src/Http/Logging.antt =====
-- internal/adapters/inbound/http/request_logging.go, and `requestRoute` and the trace id of
-- observability.go.
pub mod Sampling
use Prim.Native.Char.{code}
use aelora.Prelude.{
  ℕ, ◌+◌, ◌%◌, ◌^◌, ◌≤◌, ◌<◌, ◌≡◌, refl, String, ◌==◌, eq_iff, Bool, true, false, ◌||◌, ◌&&◌, eqb,
  leb, arith, Bool-cases, inl, inr, if◌then◌else◌, Option, or_else, trim_space,
}
use aelora.Config.{Config}
use aelora.Prelude.Int.{ℤ, is_nonpos, to_nat}

-- The levels of zapcore.
pub data Level : Type 0 where
  debug_level info_level warn_level error_level dpanic_level panic_level fatal_level : Level

-- `counters` is the `sync.Map`, by route and status, whose text the source joins with a bar.
pub record RequestLogPolicy : Type 0 where
  pub default_success_level : Level
  pub default_sample_every : ℕ
  pub health_success_level : Level
  pub health_sample_every : ℕ
  pub metrics_success_level : Level
  pub metrics_sample_every : ℕ
  pub message_post_level : Level
  pub message_post_every : ℕ
  pub counters : String → ℕ → ℕ

pub record RequestLogDecision : Type 0 where
  pub level : Level
  pub log : Bool

unfoldable pub request_route : String → String → String
request_route path url_path = if path == "" then url_path else path

unfoldable pub normalize_sample_every : ℤ → ℕ → ℕ
normalize_sample_every v fallback = if is_nonpos v then fallback else to_nat v

-- `UnmarshalText` of zapcore is the parameter `unmarshal_text`, without the texts it refuses.
unfoldable pub parse_log_level : (String → Option Level) → String → Level → Level
parse_log_level unmarshal_text raw fallback = or_else (unmarshal_text (trim_space raw)) fallback

unfoldable pub new_request_log_policy : (String → Option Level) → Config → RequestLogPolicy
new_request_log_policy unmarshal_text cfg = record {
  default_success_level =
      parse_log_level unmarshal_text cfg.request_log_default_success_level info_level;
  default_sample_every = normalize_sample_every cfg.request_log_default_sample_every 1;
  health_success_level =
      parse_log_level unmarshal_text cfg.request_log_health_success_level debug_level;
  health_sample_every = normalize_sample_every cfg.request_log_health_sample_every 25;
  metrics_success_level =
      parse_log_level unmarshal_text cfg.request_log_metrics_success_level debug_level;
  metrics_sample_every = normalize_sample_every cfg.request_log_metrics_sample_every 50;
  message_post_level =
      parse_log_level unmarshal_text cfg.request_log_message_success_level info_level;
  message_post_every = normalize_sample_every cfg.request_log_message_sample_every 1;
  counters = λ _ _. 0;
}

abbrev counted : (String → ℕ → ℕ) → String → ℕ → ℕ → String → ℕ → ℕ
counted counters route status n r s = if (route == r) && eqb status s then n else counters r s

unfoldable pub should_sample : RequestLogPolicy → String → ℕ → ℕ → Bool × RequestLogPolicy
should_sample p route status sample_every =
    if leb sample_every 1
    then (true, p)
    else let n = (p.counters route status + 1) % 2 ^ 64 in
      (eqb (n % sample_every) 1, record p { counters = counted p.counters route status n })

abbrev pub decided : Level → Bool × RequestLogPolicy → RequestLogDecision × RequestLogPolicy
decided level (log, p) = (record { level = level; log = log }, p)

-- `route` is the request's route.
unfoldable pub decide : RequestLogPolicy → String → ℕ → RequestLogDecision × RequestLogPolicy
unfolding should_sample
decide p route status =
    if leb 500 status
    then (record { level = error_level; log = true }, p)
    else if leb 400 status
    then (record { level = warn_level; log = true }, p)
    else if (route == "GET /livez") || (route == "GET /readyz") || (route == "GET /healthz")
    then decided p.health_success_level (should_sample p route status p.health_sample_every)
    else if route == "GET /metrics"
    then decided p.metrics_success_level (should_sample p route status p.metrics_sample_every)
    else if route == "POST /v1/rooms/:room_id/messages"
    then decided p.message_post_level (should_sample p route status p.message_post_every)
    else decided p.default_success_level (should_sample p route status p.default_sample_every)

-- `withTraceID`: the three headers, and what the context holds under "trace_id" afterwards. The
-- inner `traceID` is another variable, whose value the last `Set` overwrites.
unfoldable pub trace_id : String → String → String → String
trace_id request_id trace_header response_id = if request_id == "" then trace_header else request_id

-- A text that begins with a slash, as every path does.
abbrev pub IsPath : String → Type 0
IsPath String.[] = ⊥
IsPath (String.◌∷◌ c rest) = code c ≡ 47

differs : (route text : String) → IsPath route → (IsPath text → ⊥) → (route == text) ≡ false
differs route text path bad = elim (Bool-cases (route == text)) [
  | inl same ↦ absurd (bad (rw (← (eq_iff route text).0 same) path))
  | inr unlike ↦ unlike
]

-- A request whose route begins with a slash is logged by the default policy when it succeeds, also a
-- health check, a metrics scrape or a posted message; when it fails it is always logged, with a warning
-- below 500 and as an error from there, and no counter moves.
pub decide_by_status :
    (p : RequestLogPolicy) (route : String) (status : ℕ)
    → IsPath route
    → (status < 400
        → decide p route status
          ≡ decided p.default_success_level (should_sample p route status p.default_sample_every))
      × (400 ≤ status
          → decide p route status ≡ (
            record { level = if leb 500 status then error_level else warn_level; log = true },
            p,
          ))
unfolding decide
decide_by_status p route status path = (
  λ fine.
      let below500 : leb 500 status ≡ false = ground arith in
      let below400 : leb 400 status ≡ false = ground arith in
      rw
        (
          below500,
          below400,
          differs route "GET /livez" path (λ h. omega arith),
          differs route "GET /readyz" path (λ h. omega arith),
          differs route "GET /healthz" path (λ h. omega arith),
          differs route "GET /metrics" path (λ h. omega arith),
          differs route "POST /v1/rooms/:room_id/messages" path (λ h. omega arith),
        )
        refl,
  λ failed. elim (Bool-cases (leb 500 status)) [
    | inl server ↦ rw server refl
    | inr client ↦
        let client400 : leb 400 status ≡ true = ground arith in rw (client, client400) refl
  ],
)
