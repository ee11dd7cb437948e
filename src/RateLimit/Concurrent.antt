-- ===== src/RateLimit/Concurrent.antt =====
-- fixed_window.go: calls of `Allow` for one key that run at once, atomic operation by atomic operation.
-- The entry stays the same: the clean-up, which only removes what was idle for long, is left out, and
-- so is `lastSeen`, which only it reads. The count is far from the ends of 64 bits.
pub mod Bound
use aelora.Prelude.{
  ℕ, zero, suc, ◌+◌, Bool, true, false, Option, none, some, List, [], ◌∷◌, eqb, leb, if◌then◌else◌,
}
use aelora.Prelude.Int.{ℤ, pos, negsuc}

-- Where a call is: it has read the clock; it has loaded `windowStart`; its `CompareAndSwap` has
-- succeeded; its `Add(1)` was above the maximum; or it has returned.
pub data Caller : Type 0 where
  begun : (now : ℕ) → Caller
  loaded : (now start : ℕ) → Caller
  won : Caller
  over : Caller
  answered : Bool → Caller

-- The entry's two fields that the answer depends on.
pub record Shared : Type 0 where
  pub window_start : ℕ
  pub count : ℤ

abbrev pub inc : ℤ → ℤ
inc (pos n) = pos (suc n)
inc (negsuc zero) = pos 0
inc (negsuc (suc n)) = negsuc n

abbrev pub dec : ℤ → ℤ
dec (pos zero) = negsuc 0
dec (pos (suc n)) = pos n
dec (negsuc n) = negsuc (suc n)

-- `current <= l.max`
abbrev pub at_most : ℤ → ℕ → Bool
at_most (pos n) max = leb n max
at_most (negsuc n) max = true

-- The next atomic operation of a call.
unfoldable pub advance : (max window : ℕ) → Shared → Caller → Shared × Caller
advance max window s (begun now) = (s, loaded now s.window_start)
advance max window s (loaded now start) =
    if leb (start + window) now
    then if eqb s.window_start start then (record s { window_start = now }, won) else (s, begun now)
    else (
      record s { count = inc s.count },
      if at_most (inc s.count) max then answered true else over,
    )
advance max window s won = (record s { count = pos 1 }, answered true)
advance max window s over = (record s { count = dec s.count }, answered false)
advance max window s (answered allowed) = (s, answered allowed)

-- The calls, with two observers: how many were let through since the count was last reset, that one
-- included, and how many had passed the maximum and not yet taken their count back at that moment.
pub record Race : Type 0 where
  pub shared : Shared
  pub callers : List Caller
  pub passed : ℕ
  pub over_at_reset : ℕ

abbrev pub is_over : Caller → ℕ
is_over over = 1
is_over _ = 0

abbrev pub overs : List Caller → ℕ
overs [] = 0
overs (c ∷ rest) = is_over c + overs rest

abbrev pub get_elem? : List Caller → ℕ → Option Caller
get_elem? [] i = none
get_elem? (c ∷ rest) zero = some c
get_elem? (c ∷ rest) (suc i) = get_elem? rest i

abbrev pub set : List Caller → ℕ → Caller → List Caller
set [] i c = []
set (d ∷ rest) zero c = c ∷ rest
set (d ∷ rest) (suc i) c = d ∷ set rest i c

-- What the observers see of an operation, by the call before and behind it.
abbrev pub observe : Caller → Caller → Race → Race
observe won c r = record r { passed = 1; over_at_reset = overs r.callers }
observe (loaded now start) (answered allowed) r = record r { passed = suc r.passed }
observe _ _ r = r

abbrev pub move : (max window : ℕ) → ℕ → Option Caller → Race → Race
move max window i none r = r
move max window i (some c) r =
    let (s, c') = advance max window r.shared c in
    let r' = observe c c' r in record r' { shared = s; callers = set r.callers i c' }

-- The call at a place takes its next operation, if there is one.
unfoldable pub turn : (max window : ℕ) → ℕ → Race → Race
unfolding advance
turn max window i r = move max window i (get_elem? r.callers i) r

-- The turns that the scheduler gives, in their order.
unfoldable pub run : (max window : ℕ) → List ℕ → Race → Race
unfolding turn
run max window [] r = r
run max window (i ∷ rest) r = run max window rest (turn max window i r)

-- Calls that have read the clock, on an entry that is there.
abbrev pub begin : List ℕ → List Caller
begin [] = []
begin (now ∷ rest) = begun now ∷ begin rest

abbrev pub race : ℕ → ℕ → List ℕ → Race
race window_start count clocks = record {
  shared = record { window_start = window_start; count = pos count };
  callers = begin clocks;
  passed = count;
  over_at_reset = 0;
}
