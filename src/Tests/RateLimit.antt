-- ===== src/Tests/RateLimit.antt =====
-- The limiter at a concrete log, and at calls that run at once.
use aelora.Prelude.{ℕ, ◌≤◌, ◌+◌, ◌*◌, ◌≡◌, refl, List, [], ◌∷◌, arith}
use aelora.Prelude.Int.{pos}
use aelora.RateLimit.{new_limiter}
use aelora.RateLimit.Step.{CallLog, run, passed}
use aelora.RateLimit.Window.{passed-le}
use aelora.RateLimit.Concurrent
use aelora.RateLimit.Concurrent.{race}
use aelora.RateLimit.Concurrent.Bound.{passed_bound}

abbrev earlier : CallLog
earlier = ("bob", 3) ∷ ("alice", 5) ∷ []

abbrev log : CallLog
log = ("alice", 10) ∷ ("bob", 11) ∷ ("alice", 12) ∷ ("alice", 13) ∷ ("alice", 14) ∷ []

passed-le_example :
    passed "alice" (run (new_limiter (pos 2) (pos 5) (pos 60)) earlier) log
    ≤ 2 * (new_limiter (pos 2) (pos 5) (pos 60)).max
unfolding new_limiter
passed-le_example =
    passed-le (pos 2) (pos 5) (pos 60) 10 earlier log "alice" (omega arith) (ground arith)
      (ground arith)

-- A full window ends: the first call is above the maximum of 2, the second resets the count, and only
-- then does the first take its count back. The two others are let through as well.
abbrev turns : List ℕ
turns = 0 ∷ 0 ∷ 1 ∷ 1 ∷ 1 ∷ 0 ∷ 2 ∷ 2 ∷ 3 ∷ 3 ∷ []

abbrev clocks : List ℕ
clocks = 5 ∷ 10 ∷ 11 ∷ 12 ∷ []

three_pass : (Concurrent.run 2 10 turns (race 0 2 clocks)).passed ≡ 3
unfolding Concurrent.run
three_pass = refl

passed_bound_example :
    (Concurrent.run 2 10 turns (race 0 2 clocks)).passed
    ≤ 2 + (Concurrent.run 2 10 turns (race 0 2 clocks)).over_at_reset
passed_bound_example = passed_bound 2 10 0 2 clocks turns (omega arith) (omega arith)
