-- ===== src/RateLimit/Window.antt =====
-- How often a key is let through in a stretch of time as long as the window.
use aelora.Prelude.{ℕ, ◌*◌, ◌≤◌, String, arith}
use aelora.Prelude.Int.{ℤ}
use aelora.RateLimit.{new_limiter}
use aelora.RateLimit.Step.{CallLog, run, passed, run-window}
use aelora.RateLimit.Budget.{InStretch, passed-left, left-le}
use aelora.RateLimit.Earlier.{IsBefore, run-AreOld, AreOld-Fits, new_limiter-AreOld}

-- Whatever a new limiter was asked before time `t`, in the stretch of one window from `t` on it lets
-- each key through at most twice the maximum, if its entries are kept at least as long as a window.
pub passed-le :
    (max window ttl : ℤ) (t : ℕ) (earlier log : CallLog) (key : String)
    → (new_limiter max window ttl).window ≤ (new_limiter max window ttl).ttl
    → IsBefore t earlier
    → InStretch t (new_limiter max window ttl).window log
    → passed key (run (new_limiter max window ttl) earlier) log
      ≤ 2 * (new_limiter max window ttl).max
passed-le max window ttl t earlier log key long before within =
    let l = new_limiter max window ttl in
    let same = run-window earlier l in
    omega (
      arith,
      passed-left t key log (run l earlier)
          (AreOld-Fits t (run l earlier)
            (run-AreOld t earlier l before (new_limiter-AreOld t max window ttl long)))
          (rw same.0 within),
      left-le t (run l earlier) key,
      same.1,
    )
