-- ===== src/Prelude/Parse/Digits.antt =====
-- What `strconv.Itoa` writes.
use Prim.Native.Nat.{ℕ, zero, suc, ◌/◌, ◌%◌}
use Prim.Native.Char.{code}
use Prim.Native.String.{String}
use text.Mathlib.TextLemmas.{nil-append, cons-append}
use mathlib.Core.Bool.{Bool, true, false, ◌&&◌}
use mathlib.Core.Path.{◌≡◌, refl}
use aelora.Prelude.Tests.{eqb, leb, if◌then◌else◌}
use aelora.Prelude.Texts.{char_at, concat}
use aelora.Prelude.Parse.{digit, decimal, itoa}

abbrev pub AreDigits : String → Type 0
AreDigits String.[] = Unit {0}
AreDigits (String.◌∷◌ c s) = ((leb 48 (code c) && leb (code c) 57) ≡ true) × AreDigits s

AreDigits-concat : (s t : String) → AreDigits s → AreDigits t → AreDigits (concat s t)
AreDigits-concat String.[] t h k = rw (nil-append t) k
AreDigits-concat (String.◌∷◌ c s) t h k = rw (cons-append c s t) (h.0, AreDigits-concat s t h.1 k)

AreDigits-if :
    (b : Bool) (s t : String) → AreDigits s → AreDigits t → AreDigits (if b then s else t)
AreDigits-if true s t h k = h
AreDigits-if false s t h k = k

-- A place in a text of digits, or behind its end.
char_at-IsDigit :
    (s : String) (i : ℕ)
    → AreDigits s
    → (leb 48 (code (char_at s i)) && leb (code (char_at s i)) 57) ≡ true
char_at-IsDigit String.[] i h = refl
char_at-IsDigit (String.◌∷◌ c s) zero h = h.0
char_at-IsDigit (String.◌∷◌ c s) (suc i) h = char_at-IsDigit s i h.1

digit-AreDigits : (d : ℕ) → AreDigits (digit d)
unfolding digit
digit-AreDigits d = (
  char_at-IsDigit "0123456789" d
      (refl, (refl, (refl, (refl, (refl, (refl, (refl, (refl, (refl, (refl, tt)))))))))),
  tt,
)

decimal-AreDigits : (width n : ℕ) → AreDigits (decimal width n)
unfolding decimal
decimal-AreDigits zero n = tt
decimal-AreDigits (suc width) n =
    AreDigits-if (eqb (n / 10) 0) (digit (n % 10))
      (concat (decimal width (n / 10)) (digit (n % 10))) (digit-AreDigits (n % 10))
      (AreDigits-concat (decimal width (n / 10)) (digit (n % 10)) (decimal-AreDigits width (n / 10))
        (digit-AreDigits (n % 10)))

pub itoa-AreDigits : (n : ℕ) → AreDigits (itoa n)
unfolding itoa
itoa-AreDigits n = decimal-AreDigits 20 n
