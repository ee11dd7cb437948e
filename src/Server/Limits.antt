-- ===== src/Server/Limits.antt =====
-- main.go: the settings that the program gives its rate limiter, its relay and its other parts.
-- Durations are nanoseconds in 64 bits.
use aelora.Prelude.{ℕ, suc, ◌-◌, ◌*◌, ◌%◌, ◌^◌, ◌≤◌, ◌<◌, String, ltb, arith, if◌then◌else◌}
use aelora.Prelude.Int.{ℤ, pos, negsuc, is_nonpos, to_nat}
use aelora.Config.{Config}
use aelora.RateLimit.{FixedWindowLimiter, new_limiter}
use aelora.RateLimit.Step.{CallLog, run, passed}
use aelora.RateLimit.Budget.{InStretch}
use aelora.RateLimit.Earlier.{IsBefore}
use aelora.RateLimit.Window.{passed-le}

-- The integer of a 64-bit pattern.
int64 : ℕ → ℤ
int64 n = if ltb n (2 ^ 63) then pos n else negsuc (2 ^ 64 - n - 1)

-- `time.Duration(n) * unit`, which wraps around.
unfoldable pub times : ℤ → ℕ → ℤ
unfolding int64
times (pos n) unit = int64 (n * unit % 2 ^ 64)
times (negsuc n) unit = int64 ((2 ^ 64 - (suc n) * unit % 2 ^ 64) % 2 ^ 64)

abbrev second : ℕ
second = 1000000000

unfoldable pub send_limiter : Config → FixedWindowLimiter
unfolding times
send_limiter cfg =
    new_limiter cfg.send_rate_limit_per_second (pos second)
      (times cfg.send_rate_limit_ttl_seconds second)

-- The time that a push may take.
unfoldable pub push_timeout : Config → ℤ
unfolding times
push_timeout cfg = times cfg.push_http_timeout_ms 1000000

-- A number of seconds that 64 bits hold as nanoseconds.
abbrev pub InRange : ℤ → Type 0
InRange (pos n) = n ≤ 9223372036
InRange (negsuc n) = n < 9223372036

kept_long :
    (max ttl : ℤ)
    → InRange ttl
    → let l = new_limiter max (pos second) (times ttl second) in l.window ≤ l.ttl
unfolding new_limiter times int64
kept_long max (pos n) h = ground arith
kept_long max (negsuc n) h = ground arith

-- The program's limiter lets each sender through at most twice the configured number of times in any
-- second (twice 30 where that is not positive), whatever came before, if the time for which entries
-- are kept fits 64 bits as nanoseconds.
pub sends_per_second :
    (cfg : Config) (t : ℕ) (earlier log : CallLog) (sender : String)
    → InRange cfg.send_rate_limit_ttl_seconds
    → IsBefore t earlier
    → InStretch t second log
    → passed sender (run (send_limiter cfg) earlier) log
      ≤ 2
        * (if is_nonpos cfg.send_rate_limit_per_second
            then 30
            else to_nat cfg.send_rate_limit_per_second)
unfolding send_limiter new_limiter
sends_per_second cfg t earlier log sender h before within =
    passed-le cfg.send_rate_limit_per_second (pos second)
      (times cfg.send_rate_limit_ttl_seconds second) t earlier log sender
      (kept_long cfg.send_rate_limit_per_second cfg.send_rate_limit_ttl_seconds h) before within
