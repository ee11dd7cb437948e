-- ===== src/Telemetry/Page.antt =====
-- telemetry.go: the page of metrics, and the runtime's metrics that stand on it. Floating-point
-- numbers, package runtime/metrics and the verbs %q and %g are parameters. The counters stand in the
-- order of the list, where `Range` gives them in any.
pub mod Shown
use aelora.Prelude.{ℕ, String, ◌==◌, Bool, List, [], ◌∷◌, ◌++◌, concat, split, if◌then◌else◌}
use aelora.Prelude.Parse.{itoa}
use aelora.Telemetry.{Counters}

-- A value of package runtime/metrics: of the kind Float64, of the kind Uint64, or of another.
pub data Value (F : Type 0) : Type 0 where
  float64 : F → Value F
  uint64 : ℕ → Value F
  other_kind : Value F

-- `read` is `runtimemetrics.Read` of one sample, and `uptime` the seconds since the process began.
pub record Runtime (F : Type 0) : Type 0 where
  pub read : String → Value F
  pub uptime : F
  pub zero_float : F
  pub less_than : F → F → Bool
  pub minus : F → F → F

pub record RuntimeMetricSnapshot (F : Type 0) : Type 0 where
  pub cpu_seconds : F
  pub uptime_seconds : F
  pub goroutines : ℕ
  pub threads : ℕ
  pub gc_cycles : ℕ
  pub heap_objects : ℕ
  pub total_memory : ℕ
  pub gomaxprocs : ℕ

unfoldable pub runtime_metric_uint64 : {F : Type 0} → Value F → ℕ
runtime_metric_uint64 (float64 x) = 0
runtime_metric_uint64 (uint64 n) = n
runtime_metric_uint64 other_kind = 0

module _ {F : Type 0} (runtime : Runtime F) where
  unfoldable pub runtime_metric_float64 : Value F → F
  runtime_metric_float64 (float64 x) = x
  runtime_metric_float64 (uint64 n) = runtime.zero_float
  runtime_metric_float64 other_kind = runtime.zero_float

  -- Each sample has a name of its own, so the loop over them reads each once.
  unfoldable pub read_runtime_metric_snapshot : RuntimeMetricSnapshot F
  unfolding runtime_metric_float64 runtime_metric_uint64
  read_runtime_metric_snapshot =
      let total = runtime_metric_float64 (runtime.read "/cpu/classes/total:cpu-seconds") in
      let idle = runtime_metric_float64 (runtime.read "/cpu/classes/idle:cpu-seconds") in
      record {
        cpu_seconds =
            if runtime.less_than idle total then runtime.minus total idle else runtime.zero_float;
        uptime_seconds = runtime.uptime;
        goroutines = runtime_metric_uint64 (runtime.read "/sched/goroutines:goroutines");
        threads = runtime_metric_uint64 (runtime.read "/sched/threads/total:threads");
        gc_cycles = runtime_metric_uint64 (runtime.read "/gc/cycles/total:gc-cycles");
        heap_objects = runtime_metric_uint64 (runtime.read "/memory/classes/heap/objects:bytes");
        total_memory = runtime_metric_uint64 (runtime.read "/memory/classes/total:bytes");
        gomaxprocs = runtime_metric_uint64 (runtime.read "/sched/gomaxprocs:threads");
      }

-- `fmt.Fprintf(w, name+" %d\n", n)`
abbrev pub number_line : String → ℕ → String
number_line name n = concat name (concat " " (concat (itoa n) "\n"))

module _ (quote : String → String) where
  -- The line of a route's counter.
  unfoldable pub route_line : String → String → String → ℕ → String
  route_line method route status n =
      number_line
        (concat "aelora_http_route_requests_total{method=" (
          concat (quote method) (
            concat ",route="
              (concat (quote route) (concat ",status=" (concat (quote status) "}"))))))
        n

  -- A key is skipped that has not three parts.
  abbrev pub lines_of : List String → ℕ → List String
  lines_of [] n = []
  lines_of (a ∷ []) n = []
  lines_of (a ∷ b ∷ []) n = []
  lines_of (method ∷ route ∷ status ∷ []) n = route_line method route status n ∷ []
  lines_of (a ∷ b ∷ c ∷ d ∷ rest) n = []

  unfoldable pub counter_lines : List (String × ℕ) → List String
  counter_lines [] = []
  counter_lines ((key, n) ∷ rest) = lines_of (split "|" key) n ++ counter_lines rest

  -- `MetricsHandler`: the lines that it writes.
  unfoldable pub metrics_page : {F : Type 0} → (F → String) → Runtime F → Counters → List String
  unfolding counter_lines read_runtime_metric_snapshot
  metrics_page show runtime c =
      let snapshot = read_runtime_metric_snapshot runtime in
      number_line "aelora_http_requests_total" c.total_requests ∷ counter_lines c.route_counts
      ++ (number_line "aelora_stream_append_failures_total" c.stream_append_failures
          ∷ number_line "aelora_event_publish_failures_total" c.event_publish_failures
          ∷ number_line "aelora_outbox_enqueued_total" c.outbox_enqueue_total
          ∷ number_line "aelora_outbox_enqueue_failures_total" c.outbox_enqueue_failure
          ∷ concat "process_cpu_seconds_total " (concat (show snapshot.cpu_seconds) "\n")
          ∷ concat "process_uptime_seconds " (concat (show snapshot.uptime_seconds) "\n")
          ∷ number_line "go_goroutines" snapshot.goroutines
          ∷ number_line "go_threads" snapshot.threads
          ∷ number_line "go_gc_cycles_total" snapshot.gc_cycles
          ∷ number_line "go_memory_heap_objects_bytes" snapshot.heap_objects
          ∷ number_line "go_memory_total_bytes" snapshot.total_memory
          ∷ number_line "go_gomaxprocs" snapshot.gomaxprocs
          ∷ [])
