-- ===== src/System.antt =====
-- internal/adapters/outbound/system/id_clock.go: the ids of messages. The clock and the random
-- source are parameters.
pub mod Digits
pub mod Order
use aelora.Prelude.{
  ℕ, zero, suc, ◌+◌, ◌*◌, ◌/◌, ◌%◌, ◌^◌, String, Bool, true, false, ◌≡◌, List, [], ◌∷◌, ◌++◌, eqb,
  char_at, if◌then◌else◌,
}

-- `entropy` is an array of 10 bytes.
pub record IdGenerator : Type 0 where
  pub last_ms : ℕ
  pub entropy : List ℕ

abbrev zeros : List ℕ
zeros = 0 ∷ 0 ∷ 0 ∷ 0 ∷ 0 ∷ 0 ∷ 0 ∷ 0 ∷ 0 ∷ 0 ∷ []

abbrev pub new_id_generator : IdGenerator
new_id_generator = record { last_ms = 0; entropy = zeros }

abbrev bump : ℕ → List ℕ × Bool → List ℕ × Bool
bump b (rest, true) = ((b + 1) % 256 ∷ rest, eqb ((b + 1) % 256) 0)
bump b (rest, false) = (b ∷ rest, false)

-- The loop from the last byte on, and whether it has come past the first.
unfoldable pub increment : List ℕ → List ℕ × Bool
increment [] = ([], true)
increment (b ∷ rest) = bump b (increment rest)

unfoldable pub increment_entropy : List ℕ → List ℕ
unfolding increment
increment_entropy entropy = (increment entropy).0

-- The first six of the sixteen bytes: `byte(ms >> k)`.
unfoldable pub time_bytes : ℕ → List ℕ
time_bytes ms =
    (ms / 2 ^ 40) % 256
    ∷ (ms / 2 ^ 32) % 256
    ∷ (ms / 2 ^ 24) % 256
    ∷ (ms / 2 ^ 16) % 256
    ∷ (ms / 2 ^ 8) % 256
    ∷ ms % 256
    ∷ []

unfoldable pub raw : IdGenerator → List ℕ
unfolding time_bytes
raw g = time_bytes g.last_ms ++ g.entropy

-- The number that bytes spell.
abbrev pub big_endian : ℕ → List ℕ → ℕ
big_endian n [] = n
big_endian n (b ∷ rest) = big_endian (n * 256 + b) rest

abbrev crockford_alphabet : String
crockford_alphabet = "0123456789ABCDEFGHJKMNPQRSTVWXYZ"

write_digits : ℕ → ℕ → String → String
write_digits zero value done = done
write_digits (suc width) value done =
    write_digits width (value / 32) (String.◌∷◌ (char_at crockford_alphabet (value % 32)) done)

-- `crockford.EncodeToString` of 16 bytes: 26 digits of 5 bits, the last of which is filled up with
-- two zero bits.
unfoldable pub encode_to_string : List ℕ → String
unfolding write_digits
encode_to_string bytes = write_digits 26 (big_endian 0 bytes * 4) ""

-- `ms` is the clock's time, and `random` what the random source would fill the array with.
unfoldable pub advance : ℕ → List ℕ → IdGenerator → IdGenerator
unfolding increment_entropy
advance ms random g =
    if eqb ms g.last_ms
    then record g { entropy = increment_entropy g.entropy }
    else record { last_ms = ms; entropy = random }

unfoldable pub new : ℕ → List ℕ → IdGenerator → String × IdGenerator
unfolding advance raw encode_to_string
new ms random g = let g' = advance ms random g in (encode_to_string (raw g'), g')
