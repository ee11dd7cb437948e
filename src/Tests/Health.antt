-- ===== src/Tests/Health.antt =====
-- Two checks, of which one is down.
use aelora.Prelude.{◌≡◌, refl, String, ◌==◌, none, some, [], ◌∷◌, if◌then◌else◌}
use aelora.Health.{failed, check}
use aelora.Health.Arrival.{Finding, results, Reported, check-Reported}

abbrev found : String → Finding
found name = if name == "valkey" then (3, some (failed "refused")) else (5, none)

check_status_run : (check (results found ("valkey" ∷ "postgres" ∷ []))).status ≡ "degraded"
unfolding check
check_status_run = refl

check-Reported_example :
    Reported found ("valkey" ∷ "postgres" ∷ []) (check (results found ("valkey" ∷ "postgres" ∷ [])))
check-Reported_example = check-Reported found ("valkey" ∷ "postgres" ∷ [])
