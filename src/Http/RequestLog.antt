-- ===== src/Http/RequestLog.antt =====
-- internal/adapters/inbound/http/observability.go and audit.go: what is logged of a request. How long
-- the handler took is left out, and writing the line is zap's affair.
pub mod Secrets
use aelora.Prelude.{
  ℕ, String, ◌==◌, Bool, true, false, not, Option, none, some, List, [], ◌∷◌, ◌++◌, is_nil, ltb,
  sort_texts, trim_space, if◌then◌else◌,
}
use aelora.Prelude.Int.{ℤ, is_nonpos}
use aelora.Http.Logging.{
  Level, info_level, warn_level, error_level, debug_level, RequestLogPolicy, RequestLogDecision,
  decide, request_route,
}

-- A field of zap.
pub data Field : Type 0 where
  text : String → String → Field
  int : String → ℤ → Field
  nat : String → ℕ → Field
  texts : String → List String → Field

-- `query` is the map that `URL.Query()` answers; `trace_id` is what the context holds under
-- "trace_id", and `identity` what it holds under `identityKey`, empty where it holds nothing.
pub record LoggedRequest : Type 0 where
  pub method : String
  pub path : String
  pub pattern : String
  pub remote_addr : String
  pub header : String → String
  pub user_agent : String
  pub content_length : ℤ
  pub query : List (String × List String)
  pub body : String
  pub trace_id : String
  pub identity : String

pub record LogLine : Type 0 where
  pub level : Level
  pub message : String
  pub fields : List Field

abbrev pub keys_of : List (String × List String) → List String
keys_of [] = []
keys_of ((key, values) ∷ rest) = key ∷ keys_of rest

-- The keys of a map, each once, in the order of texts.
unfoldable pub request_query_keys : LoggedRequest → List String
request_query_keys r = sort_texts (keys_of r.query)

abbrev text_if : String → String → List Field
text_if name value = if value == "" then [] else text name value ∷ []

abbrev texts_if : String → List String → List Field
texts_if name values = if is_nil values then [] else texts name values ∷ []

-- The fields, for a status and a size of the response.
unfoldable pub log_fields : LoggedRequest → ℕ → ℕ → List Field
unfolding request_query_keys
log_fields r status size =
    (text "method" r.method
      ∷ text "path" r.path
      ∷ text "route" (request_route r.pattern r.path)
      ∷ text "remote_addr" r.remote_addr
      ∷ nat "status" status
      ∷ nat "response_bytes" size
      ∷ [])
    ++ text_if "trace_id" r.trace_id
    ++ text_if "user_agent" r.user_agent
    ++ (if is_nonpos r.content_length then [] else int "content_length" r.content_length ∷ [])
    ++ text_if "user_id" r.identity
    ++ text_if "device_id" (trim_space (r.header "X-Device-ID"))
    ++ texts_if "query_keys" (request_query_keys r)

-- The levels that the switch names; every other one is logged as information.
abbrev logged_level : Level → Level
logged_level error_level = error_level
logged_level warn_level = warn_level
logged_level debug_level = debug_level
logged_level level = info_level

abbrev line_if : Bool → Level → List Field → Option LogLine
line_if true level fields =
    some (record { level = level; message = "http request completed"; fields = fields })
line_if false level fields = none

-- `withHTTPLogging` behind the handler, which has answered with a status and a size.
unfoldable pub log_request :
    LoggedRequest → ℕ → ℕ → RequestLogPolicy → Option LogLine × RequestLogPolicy
unfolding log_fields
log_request r status size p =
    let (d, p') = decide p (request_route r.pattern r.path) status in
    (line_if d.log (logged_level d.level) (log_fields r status size), p')

-- `logAudit`, at the level of a warning or of information.
unfoldable pub log_audit : LoggedRequest → Level → String → List Field → LogLine
log_audit r level event fields = record {
  level = elim level [ warn_level ↦ warn_level | other ↦ info_level ];
  message = event;
  fields =
      (text "method" r.method
        ∷ text "path" r.path
        ∷ text "route" (request_route r.pattern r.path)
        ∷ [])
      ++ text_if "trace_id" r.trace_id
      ++ (text "audit_event" event ∷ fields);
}

unfoldable pub audit_info : LoggedRequest → String → List Field → LogLine
unfolding log_audit
audit_info r event fields = log_audit r info_level event fields

unfoldable pub audit_warn : LoggedRequest → String → List Field → LogLine
unfolding log_audit
audit_warn r event fields = log_audit r warn_level event fields
