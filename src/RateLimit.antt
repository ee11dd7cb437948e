-- ===== src/RateLimit.antt =====
-- internal/platform/ratelimit/fixed_window.go. Here calls of `Allow` are taken one after another; the
-- clock is an argument. Times are nanoseconds, which the program holds in an `int64`.
pub mod Step
pub mod Budget
pub mod Earlier
pub mod Window
pub mod Concurrent
use aelora.Prelude.{
  ℕ, ◌+◌, ◌*◌, ◌%◌, ◌^◌, String, ◌==◌, Bool, true, false, Option, none, some, eqb, ltb, leb,
  if◌then◌else◌,
}
use aelora.Prelude.Int.{ℤ, pos, is_nonpos, to_nat}

pub record Entry : Type 0 where
  pub window_start : ℕ
  pub count : ℕ
  pub last_seen : ℕ

-- `entries` is the `sync.Map` from keys.
pub record FixedWindowLimiter : Type 0 where
  pub max : ℕ
  pub window : ℕ
  pub ttl : ℕ
  pub entries : String → Option Entry
  pub calls : ℕ

abbrev positive_or : ℤ → ℕ → ℕ
positive_or v fallback = if is_nonpos v then fallback else to_nat v

unfoldable pub new_limiter : ℤ → ℤ → ℤ → FixedWindowLimiter
new_limiter max window ttl = record {
  max = positive_or max 30;
  window = positive_or window 1000000000;
  ttl = positive_or ttl 300000000000;
  entries = λ key. none;
  calls = 0;
}

new_entry : ℕ → Entry
new_entry now = record { window_start = now; count = 0; last_seen = now }

abbrev load_or_store : Option Entry → ℕ → Entry
load_or_store none now = new_entry now
load_or_store (some e) now = e

abbrev update : (String → Option Entry) → String → Entry → String → Option Entry
update entries key e k = if key == k then some e else entries k

-- An entry that `maybeCleanup` finds: it goes where it was last seen more than `ttl` ago.
abbrev sweep : ℕ → ℕ → Option Entry → Option Entry
sweep ttl now none = none
sweep ttl now (some e) = if ltb (e.last_seen + ttl) now then none else some e

unfoldable pub maybe_cleanup : ℕ → FixedWindowLimiter → FixedWindowLimiter
maybe_cleanup now l =
    let calls = (l.calls + 1) % 2 ^ 64 in
    if eqb (calls % 512) 0
    then record l { calls = calls; entries = λ k. sweep l.ttl now (l.entries k) }
    else record l { calls = calls }

-- The loop's one round: the entry after the call, and the answer.
unfoldable pub decide : ℕ → ℕ → ℕ → Entry → Entry × Bool
decide max window now e =
    if leb (e.window_start + window) now
    then (record { window_start = now; count = 1; last_seen = now }, true)
    else if leb (e.count + 1) max
    then (record { window_start = e.window_start; count = e.count + 1; last_seen = now }, true)
    else (record { window_start = e.window_start; count = e.count; last_seen = now }, false)

unfoldable pub allow : FixedWindowLimiter → String → ℕ → Bool × FixedWindowLimiter
unfolding decide maybe_cleanup new_entry
allow l key now =
    let (e, allowed) = decide l.max l.window now (load_or_store (l.entries key) now) in
    (allowed, maybe_cleanup now (record l { entries = update l.entries key e }))
