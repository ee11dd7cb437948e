-- ===== src/Tests/Telemetry.antt =====
-- Three requests: one that is answered with 404, one that writes at once, and one that is hijacked.
use aelora.Prelude.{
  ◌+◌, ◌≡◌, refl, String, true, ◌||◌, List, [], ◌∷◌, some, length, concat, if◌then◌else◌,
}
use aelora.Prelude.Parse.{itoa}
use aelora.Domain.{other, ok, err}
use aelora.Call.{modify}
use aelora.Telemetry.{zero_counters, write_header, write, hijack, Request, route_key, served}
use aelora.Telemetry.Page.{counter_lines, route_line}
use aelora.Telemetry.Page.Shown.{has_bar, route_of, route_shown}
use aelora.Telemetry.Provider.{Otel, new_provider, with_metric_endpoint, new_trace_id}
use aelora.Telemetry.Counts.{serve_all, count_of, requests_of, all_counted}

abbrev request : String → Request
request method = record {
  method = method;
  pattern = "/v1/rooms";
  path = "/v1/rooms";
  hijacker = true;
  handler = write_header 404 ∷ write_header 500 ∷ [];
}

abbrev requests : List Request
requests =
    request "GET"
    ∷ record (request "GET") { handler = write "hello" ∷ write_header 500 ∷ [] }
    ∷ record (request "GET") { handler = hijack ∷ write_header 500 ∷ [] }
    ∷ []

first_key : route_key (request "GET") 404 ≡ "GET|/v1/rooms|404"
unfolding route_key
first_key = refl

hijacked_status : (served (record (request "GET") { handler = hijack ∷ [] })).status_code ≡ 101
unfolding served
hijacked_status = refl

abbrev quote : String → String
quote s = concat "\"" (concat s "\"")

page_run :
    counter_lines quote (("GET|/v1/rooms|404", 1) ∷ ("GET|a|b|200", 2) ∷ [])
    ≡ "aelora_http_route_requests_total{method=\"GET\",route=\"/v1/rooms\",status=\"404\"} 1\n" ∷ []
unfolding counter_lines route_line itoa
page_run = refl

rooms_shown : counter_lines quote ((route_key (request "GET") 404, 3) ∷ []) ≡ (
    if has_bar "GET" || has_bar (route_of (request "GET"))
    then []
    else route_line quote "GET" (route_of (request "GET")) (itoa 404) 3 ∷ [])
rooms_shown = route_shown quote (request "GET") 404 3

-- Without exporters nothing can fail, and what is made is installed.
abbrev otel : Otel (List String) String String String
otel = record {
  trace_exporter = λ endpoint s. (err (other "refused"), s);
  metric_exporter = λ endpoint s. (err (other "refused"), s);
  tracer_provider = λ service exporter. "tracer";
  meter_provider = λ service exporter. "meter";
  shutdown_tracer = λ tp s. (ok tt, "shut down" ∷ s);
  shutdown_meter = λ mp s. (ok tt, s);
  install = λ tp mp s. "installed" ∷ s;
  int64_counter = λ name s. (ok name, s);
}

installed :
    new_provider otel "aelora" [] []
    ≡ (ok (record { tracer_provider = "tracer"; meter_provider = "meter" }), "installed" ∷ [])
unfolding new_provider modify
installed = refl

not_installed :
    new_provider otel "aelora" (with_metric_endpoint "collector:4317" ∷ []) []
    ≡ (err (other "refused"), "shut down" ∷ [])
unfolding new_provider modify
not_installed = refl

random_id : new_trace_id (some (1 ∷ 171 ∷ [])) "0" ≡ "01ab"
unfolding new_trace_id
random_id = refl

all_counted_example :
    ((serve_all requests zero_counters).total_requests ≡ 0 + length requests)
    × ((key : String)
        → count_of key (serve_all requests zero_counters)
          ≡ count_of key zero_counters + requests_of key requests)
all_counted_example = all_counted requests zero_counters
