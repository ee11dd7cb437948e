-- ===== src/Http/RequestLog/Secrets.antt =====
-- observability.go: what a line of the log does not show.
use aelora.Prelude.{ℕ, ◌≡◌, refl, String, List}
use aelora.Http.Logging.{Level, RequestLogPolicy}
use aelora.Http.RequestLog.{
  Field, LoggedRequest, keys_of, request_query_keys, log_fields, log_request, log_audit,
}

-- Two requests that agree on all that a line is made of. The trace id stands in one of three headers
-- (`trace_id` of Logging), and the user is whom the authentication has put into the context.
pub record LooksLike (a b : LoggedRequest) : Type 0 where
  pub method : a.method ≡ b.method
  pub path : a.path ≡ b.path
  pub pattern : a.pattern ≡ b.pattern
  pub remote_addr : a.remote_addr ≡ b.remote_addr
  pub device_id : a.header "X-Device-ID" ≡ b.header "X-Device-ID"
  pub user_agent : a.user_agent ≡ b.user_agent
  pub content_length : a.content_length ≡ b.content_length
  pub query_keys : keys_of a.query ≡ keys_of b.query
  pub trace_id : a.trace_id ≡ b.trace_id
  pub identity : a.identity ≡ b.identity

log_fields-LooksLike :
    (a b : LoggedRequest) (status size : ℕ)
    → LooksLike a b
    → log_fields a status size ≡ log_fields b status size
unfolding log_fields request_query_keys
log_fields-LooksLike a b status size l =
    rw
      (
        l.method, l.path, l.pattern, l.remote_addr, l.device_id, l.user_agent, l.content_length,
        l.query_keys, l.trace_id, l.identity,
      )
      refl

-- Two requests with the same method, path, route, remote address, X-Device-ID, User-Agent, length of
-- the body, keys of the query, trace id and user, answered with the same status and size, have the
-- same line in the log, the same line of the audit for an event with its fields, and move the counters
-- of the policy alike, whatever the values of their queries, their bodies and their other headers.
pub log_request-LooksLike :
    (a b : LoggedRequest) (status size : ℕ) (p : RequestLogPolicy) (level : Level) (event : String)
    (fields : List Field)
    → LooksLike a b
    → (log_request a status size p ≡ log_request b status size p)
      × (log_audit a level event fields ≡ log_audit b level event fields)
unfolding log_request log_audit
log_request-LooksLike a b status size p level event fields l = (
  rw (log_fields-LooksLike a b status size l, l.pattern, l.path) refl,
  rw (l.method, l.path, l.pattern, l.trace_id) refl,
)
