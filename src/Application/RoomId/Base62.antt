-- ===== src/Application/RoomId/Base62.antt =====
-- `encodeBase62Fixed`: decoding by the position of each character in the alphabet gives the number
-- back, and every text has the width that was asked for.
use Prim.Native.Char.{Char, code}
use Prim.Native.String.{count}
use native.Mathlib.Nat.{pow-suc}
use text.Mathlib.TextLemmas.{length-cons}
use aelora.Prelude.{
  String, eqb, eqb_iff, arith, Bool-cases, inl, inr, ◌≤◌, if◌then◌else◌, Bool, ◌&&◌, true, ◌≡◌, ◌∙◌,
  ap, sym, refl, ℕ, ◌<◌, ◌^◌, ◌%◌, ◌/◌, ◌*◌, ◌+◌, suc, zero,
}
use aelora.Application.RoomId.{room_id_alphabet, nth, encode_from, encode_base62_fixed}

-- The position of a character in a text; the text's length if it is not there.
index_of : Char → String → ℕ
index_of c String.[] = 0
index_of c (String.◌∷◌ d s) =
    let rest = index_of c s in if eqb (code d) (code c) then 0 else suc rest

-- Reading the digits from the left, with the value so far.
decode_from : ℕ → String → ℕ
decode_from acc String.[] = acc
decode_from acc (String.◌∷◌ c s) = decode_from (acc * 62 + index_of c room_id_alphabet) s

pub decode_base62 : String → ℕ
unfolding decode_from index_of
decode_base62 s = decode_from 0 s

abbrev digit_ok : ℕ → Bool
digit_ok d = eqb (index_of (nth room_id_alphabet d "0") room_id_alphabet) d

Bool_and : {a b : Bool} → a && b ≡ true → (a ≡ true) × (b ≡ true)
Bool_and {a} {b} h = ground arith

-- Every digit from `d` on, as many as `left`, is found where it stands.
digits_ok : ℕ → ℕ → Bool
digits_ok d zero = true
digits_ok d (suc left) = let higher = digits_ok (d + 1) left in digit_ok d && higher

digits_ok-digit_ok :
    (d left wanted : ℕ)
    → d ≤ wanted
    → wanted < d + left
    → digits_ok d left ≡ true
    → digit_ok wanted ≡ true
unfolding digits_ok
digits_ok-digit_ok d zero wanted low high all = absurd (omega arith)
digits_ok-digit_ok d (suc left) wanted low high all = elim (Bool-cases (eqb d wanted)) [
  | inl here ↦ rw (← (eqb_iff d wanted).0 here) (Bool_and all).0
  | inr further ↦
      digits_ok-digit_ok (d + 1) left wanted (ground (arith, eqb_iff d wanted)) (omega arith)
        (Bool_and all).1
]

digit_table : digits_ok 0 62 ≡ true
unfolding digits_ok nth index_of
digit_table = refl

index_of-nth : (d : ℕ) → d < 62 → index_of (nth room_id_alphabet d "0") room_id_alphabet ≡ d
index_of-nth d h =
    (eqb_iff _ d).0 (digits_ok-digit_ok 0 62 d (omega arith) (omega arith) digit_table)

split_digit : (acc p v : ℕ) → (acc * p + v / 62) * 62 + v % 62 ≡ acc * (p * 62) + v
split_digit acc p v = grind arith

fits_rest : (width value : ℕ) → value < 62 ^ suc width → value / 62 < 62 ^ width
fits_rest width value h = omega (arith, pow-suc 62 width)

decode-encode_from :
    (width acc value : ℕ) (done : String)
    → value < 62 ^ width
    → decode_from acc (encode_from width value done) ≡ decode_from (acc * 62 ^ width + value) done
unfolding encode_from decode_from
decode-encode_from zero acc value done h =
    ap (λ x. decode_from x done) (let e : value ≡ 0 = omega arith in rw e (omega arith))
decode-encode_from (suc width) acc value done h =
    decode-encode_from width acc (value / 62) _ (fits_rest width value h)
    ∙ ap (λ x. decode_from x done)
        (rw (index_of-nth (value % 62) (omega arith))
          (split_digit acc (62 ^ width) value ∙ ap (λ p. acc * p + value) (sym (pow-suc 62 width))))

-- Decoding the encoding of a number that fits the width gives the number.
pub decode-encode_base62_fixed :
    (value width : ℕ) → value < 62 ^ width → decode_base62 (encode_base62_fixed value width) ≡ value
unfolding decode_base62 encode_base62_fixed
decode-encode_base62_fixed value width h = decode-encode_from width 0 value "" h ∙ omega arith

count-encode_from :
    (width value : ℕ) (done : String) → count (encode_from width value done) ≡ width + count done
unfolding encode_from
count-encode_from zero value done = omega arith
count-encode_from (suc width) value done =
    count-encode_from width (value / 62) _
    ∙ omega (arith, length-cons (nth room_id_alphabet (value % 62) "0") done)

-- The text has exactly the characters that the width asks for.
pub count-encode_base62_fixed : (value width : ℕ) → count (encode_base62_fixed value width) ≡ width
unfolding encode_base62_fixed
count-encode_base62_fixed value width = count-encode_from width value "" ∙ omega arith
