-- ===== src/Prelude/Parse.antt =====
-- `strings.SplitN(s, sep, 2)` at a one-character separator, and `strconv.ParseInt(s, 10, 64)`.
pub mod Digits
use Prim.Native.Nat.{ℕ, zero, suc, ◌/◌, ◌%◌, ◌+◌, ◌-◌, ◌*◌, ◌^◌}
use Prim.Native.Char.{Char, code}
use Prim.Native.String.{String}
use text.Mathlib.Text.{◌==◌}
use mathlib.Core.Bool.{Bool, true, false, ◌&&◌}
use mathlib.Core.Option.{Option, none, some}
use aelora.Prelude.Tests.{eqb, leb, ltb, if◌then◌else◌}
use aelora.Prelude.Texts.{char_at, concat}
use aelora.Prelude.Int.{ℤ, pos, negsuc}

-- What stands before the separator, put before the first part of a split.
abbrev prefix : Char → Option (String × String) → Option (String × String)
prefix c none = none
prefix c (some (a, b)) = some (String.◌∷◌ c a, b)

-- `SplitN(s, sep, 2)` where it has two parts: the texts before and behind the first `sep`.
abbrev pub split2 : Char → String → Option (String × String)
split2 sep String.[] = none
split2 sep (String.◌∷◌ c s) =
    let rest = split2 sep s in
    if eqb (code c) (code sep) then some (String.[], s) else prefix c rest

abbrev parse_digits : ℕ → String → Option ℕ
parse_digits n String.[] = some n
parse_digits n (String.◌∷◌ c s) =
    let rest = parse_digits (n * 10 + (code c - 48)) s in
    if leb 48 (code c) && leb (code c) 57 then rest else none

-- The digits behind a sign: at least one.
abbrev parse_nat : String → Option ℕ
parse_nat s = if s == "" then none else parse_digits 0 s

abbrev to_int : Bool → Option ℕ → Option ℤ
to_int negative none = none
to_int true (some n) =
    if eqb n 0 then some (pos 0) else if leb n (2 ^ 63) then some (negsuc (n - 1)) else none
to_int false (some n) = if ltb n (2 ^ 63) then some (pos n) else none

-- `strconv.ParseInt(s, 10, 64)`: `none` for a syntax error and out of range.
unfoldable pub parse_int : String → Option ℤ
parse_int String.[] = none
parse_int (String.◌∷◌ c s) =
    if eqb (code c) (code "-")
    then to_int true (parse_nat s)
    else if eqb (code c) (code "+")
    then to_int false (parse_nat s)
    else to_int false (parse_nat (String.◌∷◌ c s))

abbrev below_2_64 : Option ℕ → Option ℕ
below_2_64 none = none
below_2_64 (some n) = if ltb n (2 ^ 64) then some n else none

-- `strconv.ParseUint(s, 10, 64)`: `none` for a syntax error and out of range.
unfoldable pub parse_uint : String → Option ℕ
parse_uint s = below_2_64 (parse_nat s)

digit : ℕ → String
digit d = String.◌∷◌ (char_at "0123456789" d) ""

-- The digits of a number, the last `width` of them and without leading zeros.
decimal : ℕ → ℕ → String
unfolding digit
decimal zero n = ""
decimal (suc width) n =
    let front = decimal width (n / 10) in
    if eqb (n / 10) 0 then digit (n % 10) else concat front (digit (n % 10))

-- `strconv.Itoa` of a number that is not negative and below 10 ^ 20.
unfoldable pub itoa : ℕ → String
unfolding decimal
itoa n = decimal 20 n
