-- ===== src/Health.antt =====
-- internal/platform/health/service.go: the report over the dependencies' checks.
pub mod Arrival
use aelora.Prelude.{
  ℕ, String, ◌==◌, Bool, true, false, not, Option, none, some, List, [], ◌∷◌, insert, if◌then◌else◌,
}

-- The error of a check: `context.Canceled`, or one with a text.
pub data CheckError : Type 0 where
  canceled : CheckError
  failed : String → CheckError

pub record DependencyStatus : Type 0 where
  pub status : String
  pub duration_ms : ℕ
  pub error : String

pub record Report : Type 0 where
  pub status : String
  pub dependencies : List (String × DependencyStatus)

-- What a check's goroutine found: the check's name, how long it ran, and its error.
pub record Outcome : Type 0 where
  pub name : String
  pub duration_ms : ℕ
  pub error : Option CheckError

abbrev pub check_status : Option CheckError → String
check_status (some (failed text)) = "down"
check_status (some canceled) = "ok"
check_status none = "ok"

abbrev check_text : Option CheckError → String
check_text (some (failed text)) = text
check_text (some canceled) = ""
check_text none = ""

-- The result that a goroutine sends.
unfoldable pub status_of : Outcome → DependencyStatus
status_of o = record {
  status = check_status o.error;
  duration_ms = o.duration_ms;
  error = check_text o.error;
}

-- The loop over the results, in the order in which they arrive.
unfoldable pub receive : Report → List Outcome → Report
unfolding status_of
receive report [] = report
receive report (r ∷ rest) =
    receive
      (record {
        status = if not ((status_of r).status == "ok") then "degraded" else report.status;
        dependencies = insert r.name (status_of r) report.dependencies;
      })
      rest

-- `Service.Check`, where the results arrive as they stand in the list.
unfoldable pub check : List Outcome → Report
unfolding receive
check [] = record { status = "ok"; dependencies = [] }
check arrivals = receive (record { status = "ok"; dependencies = [] }) arrivals
