-- ===== src/Application/RoomId.antt =====
-- internal/application/room_id_generator.go
pub mod Feistel
pub mod Base62
pub mod Unique
pub mod Local
use Prim.Native.Nat.{bit_xor}
use Prim.Native.Char.{Char}
use aelora.Prelude.{ℕ, zero, suc, ◌+◌, ◌-◌, ◌*◌, ◌/◌, ◌%◌, ◌^◌, String, eqb, if◌then◌else◌}
use aelora.Call.{Call, pure, ◌>>=◌}
use aelora.Ports.{RoomIdSequence}

abbrev pub room_id_width : ℕ
room_id_width = 8

abbrev pub room_id_space : ℕ
room_id_space = 218340105584896

abbrev pub room_half_base : ℕ
room_half_base = 14776336

abbrev pub default_room_id_mask : ℕ
default_room_id_mask = 0x7a4bd9f1c3e5

abbrev pub u64 : ℕ
u64 = 2 ^ 64

abbrev pub u32 : ℕ
u32 = 2 ^ 32

abbrev pub room_id_alphabet : String
room_id_alphabet = "0123456789ABCDEFGHIJKLMNOPQRSTUVWXYZabcdefghijklmnopqrstuvwxyz"

pub record SequentialRoomIdGenerator (S : Type 0) : Type 0 where
  pub sequence : RoomIdSequence S
  pub mask : ℕ

unfoldable pub choose_mask : ℕ → ℕ
choose_mask xor_mask =
    let mask = xor_mask % room_half_base in
    if eqb mask 0 then default_room_id_mask % room_half_base else mask

-- A generator with the sequence that it is given; Local has the case of none.
unfoldable pub new_generator : {S : Type 0} → RoomIdSequence S → ℕ → SequentialRoomIdGenerator S
unfolding choose_mask
new_generator sequence xor_mask = record { sequence = sequence; mask = choose_mask xor_mask }

-- `x ^= x >> k` on a `uint64`.
shift_mix : ℕ → ℕ → ℕ
shift_mix k x = bit_xor x (x / 2 ^ k)

unfoldable pub round : ℕ → ℕ → ℕ → ℕ
unfolding shift_mix
round mask right i =
    let x1 = bit_xor right mask in
    let x2 = bit_xor x1 (((i + 1) * 0x9e3779b185ebca87) % u64) in
    let x3 = shift_mix 17 x2 in
    let x4 = (x3 * 0xff51afd7ed558ccd) % u64 in
    let x5 = shift_mix 15 x4 in
    let x6 = (x5 * 0xc4ceb9fe1a85ec53) % u64 in
    let x7 = shift_mix 16 x6 in (x7 % room_half_base) % u32

-- The rounds `i`, `i + 1`, … of the loop on (left, right), `left` of them to go.
rounds : ℕ → ℕ → ℕ → ℕ × ℕ → ℕ × ℕ
rounds mask i zero (left, right) = (left, right)
rounds mask i (suc togo) (left, right) =
    rounds mask (i + 1) togo (right, ((left + round mask right i) % u32) % room_half_base)

abbrev join_halves : ℕ × ℕ → ℕ
join_halves (left, right) = (left * room_half_base + right) % u64

unfoldable pub feistel_obfuscate : ℕ → ℕ → ℕ
unfolding rounds round
feistel_obfuscate mask seq =
    join_halves (rounds mask 0 6 ((seq / room_half_base) % u32, (seq % room_half_base) % u32))

-- `roomIDAlphabet[i]`
nth : String → ℕ → Char → Char
nth String.[] i d = d
nth (String.◌∷◌ c s) zero d = c
nth (String.◌∷◌ c s) (suc i) d = nth s i d

-- The loop writes the buffer from its end: `done` is what stands behind the digits to come.
encode_from : ℕ → ℕ → String → String
encode_from zero value done = done
encode_from (suc width) value done =
    encode_from width (value / 62) (String.◌∷◌ (nth room_id_alphabet (value % 62) "0") done)

unfoldable pub encode_base62_fixed : ℕ → ℕ → String
unfolding encode_from nth
encode_base62_fixed value width = encode_from width value ""

-- The id of the `n`-th draw. `n - 1` wraps at zero.
unfoldable pub room_id_of : ℕ → ℕ → String
unfolding feistel_obfuscate encode_base62_fixed
room_id_of mask n =
    encode_base62_fixed (feistel_obfuscate mask (((n + (u64 - 1)) % u64) % room_id_space))
      room_id_width

unfoldable pub new : {S : Type 0} → SequentialRoomIdGenerator S → Call S String
unfolding room_id_of
new g = do n ← g.sequence.next; pure (room_id_of g.mask n)
