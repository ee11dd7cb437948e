-- ===== src/Telemetry.antt =====
-- internal/platform/telemetry/telemetry.go: the counters, and the writer that a request is served
-- with. OpenTelemetry's tracer and meters, and the runtime's metrics, are left out.
pub mod Counts
pub mod Page
pub mod Provider
use aelora.Prelude.Parse.{itoa}
use aelora.Prelude.{
  ℕ, ◌+◌, String, ◌==◌, Bool, true, false, not, ◌&&◌, Option, none, some, List, [], ◌∷◌, ◌++◌, eqb,
  lookup, insert, or_else, split, concat, if◌then◌else◌,
}

-- The package's counters. Those of OpenTelemetry count the same.
pub record Counters : Type 0 where
  pub total_requests : ℕ
  pub route_counts : List (String × ℕ)
  pub stream_append_failures : ℕ
  pub event_publish_failures : ℕ
  pub outbox_enqueue_total : ℕ
  pub outbox_enqueue_failure : ℕ

abbrev pub zero_counters : Counters
zero_counters = record {
  total_requests = 0;
  route_counts = [];
  stream_append_failures = 0;
  event_publish_failures = 0;
  outbox_enqueue_total = 0;
  outbox_enqueue_failure = 0;
}

abbrev pub inc_stream_append_failure : Counters → Counters
inc_stream_append_failure c = record c { stream_append_failures = c.stream_append_failures + 1 }

abbrev pub inc_event_publish_failure : Counters → Counters
inc_event_publish_failure c = record c { event_publish_failures = c.event_publish_failures + 1 }

abbrev pub inc_outbox_enqueued : Counters → Counters
inc_outbox_enqueued c = record c { outbox_enqueue_total = c.outbox_enqueue_total + 1 }

abbrev pub inc_outbox_enqueue_failure : Counters → Counters
inc_outbox_enqueue_failure c = record c { outbox_enqueue_failure = c.outbox_enqueue_failure + 1 }

-- What a handler does with its writer. `hijacker` of a writer says whether the writer below it can be
-- hijacked.
pub data WriterCall : Type 0 where
  write_header : ℕ → WriterCall
  write : String → WriterCall
  flush : WriterCall
  hijack : WriterCall

-- `passed_on` is what has reached the writer below.
pub record TimingWriter : Type 0 where
  pub wrote_header : Bool
  pub status_code : ℕ
  pub hijacked : Bool
  pub hijacker : Bool
  pub timed : Bool
  pub passed_on : List WriterCall

abbrev pub new_writer : Bool → TimingWriter
new_writer hijacker = record {
  wrote_header = false;
  status_code = 200;
  hijacked = false;
  hijacker = hijacker;
  timed = false;
  passed_on = [];
}

abbrev pass_on : WriterCall → TimingWriter → TimingWriter
pass_on call w = record w { passed_on = call ∷ w.passed_on }

-- The header Server-Timing goes with the first status.
unfoldable pub set_header : ℕ → TimingWriter → TimingWriter
set_header status w =
    if w.hijacked
    then w
    else if not w.wrote_header
    then pass_on (write_header status)
        (record w { wrote_header = true; status_code = status; timed = true })
    else pass_on (write_header status) w

unfoldable pub write_body : String → TimingWriter → TimingWriter
unfolding set_header
write_body body w = pass_on (write body) (if not w.wrote_header then set_header 200 w else w)

unfoldable pub hijack_conn : TimingWriter → TimingWriter
hijack_conn w =
    if not w.hijacker
    then w
    else if not w.wrote_header
    then pass_on hijack (record w { hijacked = true; wrote_header = true; status_code = 101 })
    else pass_on hijack (record w { hijacked = true })

unfoldable pub step : WriterCall → TimingWriter → TimingWriter
unfolding set_header write_body hijack_conn
step (write_header status) w = set_header status w
step (write body) w = write_body body w
step flush w = pass_on flush w
step hijack w = hijack_conn w

-- A handler is the calls that it makes, in their order.
unfoldable pub serve_http : List WriterCall → TimingWriter → TimingWriter
unfolding step
serve_http [] w = w
serve_http (call ∷ rest) w = serve_http rest (step call w)

-- `pattern` is empty where no route matched.
pub record Request : Type 0 where
  pub method : String
  pub pattern : String
  pub path : String
  pub hijacker : Bool
  pub handler : List WriterCall

unfoldable pub route_key : Request → ℕ → String
unfolding itoa
route_key r status =
    let route = if r.pattern == "" then r.path else r.pattern in
    concat (concat (concat (concat r.method "|") route) "|") (itoa status)

unfoldable pub count_route : String → List (String × ℕ) → List (String × ℕ)
count_route key counts = insert key (or_else (lookup key counts) 0 + 1) counts

-- The writer behind the handler, with a status where it has none.
unfoldable pub served : Request → TimingWriter
unfolding serve_http
served r =
    let w = serve_http r.handler (new_writer r.hijacker) in
    if not w.wrote_header && not w.hijacked then set_header 200 w else w

unfoldable pub with_request_metrics : Request → Counters → Counters
unfolding served route_key count_route
with_request_metrics r c = record c {
  total_requests = c.total_requests + 1;
  route_counts = count_route (route_key r (served r).status_code) c.route_counts;
}
