-- ===== src/System/Digits.antt =====
-- id_clock.go: the text of an id, read back by the position of each digit in the alphabet.
use Prim.Native.Char.{Char, code}
use native.Mathlib.Nat.{pow-suc}
use aelora.Prelude.{
  ℕ, zero, suc, ◌+◌, ◌*◌, ◌/◌, ◌%◌, ◌^◌, ◌≤◌, ◌<◌, ◌≡◌, refl, sym, ap, ◌∙◌, String, Bool, true,
  ◌&&◌, List, eqb, eqb_iff, Bool-cases, inl, inr, arith, char_at, if◌then◌else◌,
}
use aelora.System.{crockford_alphabet, write_digits, encode_to_string, big_endian}

-- The position of a character in a text; the text's length if it is not there.
index_of : Char → String → ℕ
index_of c String.[] = 0
index_of c (String.◌∷◌ d s) =
    let rest = index_of c s in if eqb (code d) (code c) then 0 else suc rest

-- Reading the digits from the left, with the value so far.
read_from : ℕ → String → ℕ
read_from acc String.[] = acc
read_from acc (String.◌∷◌ c s) = read_from (acc * 32 + index_of c crockford_alphabet) s

-- The number that the 26 digits of an id spell, which is four times that of its sixteen bytes.
pub decode_id : String → ℕ
unfolding read_from index_of
decode_id s = read_from 0 s

-- Every digit from `d` on, as many as `left`, is found where it stands.
digits_ok : ℕ → ℕ → Bool
unfolding index_of
digits_ok d zero = true
digits_ok d (suc left) =
    let higher = digits_ok (d + 1) left in
    eqb (index_of (char_at crockford_alphabet d) crockford_alphabet) d && higher

digit_of :
    (d left wanted : ℕ)
    → d ≤ wanted
    → wanted < d + left
    → digits_ok d left ≡ true
    → eqb (index_of (char_at crockford_alphabet wanted) crockford_alphabet) wanted ≡ true
unfolding digits_ok
digit_of d zero wanted low high all = absurd (omega arith)
digit_of d (suc left) wanted low high all = elim (Bool-cases (eqb d wanted)) [
  | inl here ↦ rw (← (eqb_iff d wanted).0 here) (ground arith)
  | inr further ↦
      digit_of (d + 1) left wanted (ground (arith, eqb_iff d wanted)) (omega arith) (ground arith)
]

digit_table : digits_ok 0 32 ≡ true
unfolding digits_ok index_of
digit_table = refl

index_of-char_at : (d : ℕ) → d < 32 → index_of (char_at crockford_alphabet d) crockford_alphabet ≡ d
index_of-char_at d h = (eqb_iff _ d).0 (digit_of 0 32 d (omega arith) (omega arith) digit_table)

split_digit : (acc p v : ℕ) → (acc * p + v / 32) * 32 + v % 32 ≡ acc * (p * 32) + v
split_digit acc p v = grind arith

read-write_digits :
    (width acc value : ℕ) (done : String)
    → value < 32 ^ width
    → read_from acc (write_digits width value done) ≡ read_from (acc * 32 ^ width + value) done
unfolding write_digits read_from
read-write_digits zero acc value done h =
    ap (λ x. read_from x done) (let e : value ≡ 0 = omega arith in rw e (omega arith))
read-write_digits (suc width) acc value done h =
    read-write_digits width acc (value / 32) _ (omega (arith, pow-suc 32 width))
    ∙ ap (λ x. read_from x done)
        (rw (index_of-char_at (value % 32) (omega arith))
          (split_digit acc (32 ^ width) value ∙ ap (λ p. acc * p + value) (sym (pow-suc 32 width))))

-- The text of sixteen bytes spells their number, followed by two zero bits.
pub decode-encode_to_string :
    (bytes : List ℕ)
    → big_endian 0 bytes < 2 ^ 128
    → decode_id (encode_to_string bytes) ≡ big_endian 0 bytes * 4
unfolding decode_id encode_to_string
decode-encode_to_string bytes h =
    read-write_digits 26 0 (big_endian 0 bytes * 4) "" (omega arith) ∙ omega arith
