-- ===== src/Tests/System.antt =====
-- A second id in the same millisecond, with a carry.
use aelora.Prelude.{ℕ, ◌<◌, ◌≡◌, refl, List, [], ◌∷◌, arith}
use aelora.System.{IdGenerator, increment_entropy, new}
use aelora.System.Order.{AllBytes, WellFormed, last_id, Exhausted, new_increases}
use aelora.System.Digits.{decode_id}

abbrev entropy : List ℕ
entropy = 1 ∷ 2 ∷ 3 ∷ 4 ∷ 5 ∷ 6 ∷ 7 ∷ 8 ∷ 9 ∷ 255 ∷ []

abbrev used : IdGenerator
used = record { last_ms = 1469918176385; entropy = entropy }

carry_run : increment_entropy entropy ≡ 1 ∷ 2 ∷ 3 ∷ 4 ∷ 5 ∷ 6 ∷ 7 ∷ 8 ∷ 10 ∷ 0 ∷ []
unfolding increment_entropy
carry_run = refl

new_run : (new 1469918176385 [] used).0 ≡ "05B3VWV4G40G40R40M30E20A00"
unfolding new
new_run = refl

all_bytes : AllBytes entropy
unfolding AllBytes
all_bytes = (
  omega arith,
  (
    omega arith,
    (
      omega arith,
      (
        omega arith,
        (
          omega arith,
          (omega arith, (omega arith, (omega arith, (omega arith, (omega arith, tt))))),
        ),
      ),
    ),
  ),
)

used-WellFormed : WellFormed used
used-WellFormed = record { ten = refl; bytes = all_bytes }

new_increases_example :
    (decode_id (last_id used) < decode_id (new 1469918176385 entropy used).0)
    × (last_id (new 1469918176385 entropy used).1 ≡ (new 1469918176385 entropy used).0)
    × WellFormed (new 1469918176385 entropy used).1
    × ((new 1469918176385 entropy used).1.last_ms ≡ 1469918176385)
unfolding Exhausted
new_increases_example =
    new_increases 1469918176385 entropy used refl all_bytes used-WellFormed (omega arith)
      (omega arith) λ same e. omega arith
