-- ===== src/Application/RoomId/Unique.antt =====
-- The ids that the generator draws: distinct for the draws of one period, eight characters each.
use aelora.Prelude.{ℕ, ◌+◌, ◌-◌, ◌%◌, ◌≤◌, ◌<◌, ◌≡◌, ◌≢◌, sym, ap, ◌∙◌, arith}
use aelora.Application.RoomId.{
  room_id_space, room_id_width, room_half_base, u64, room_id_of, choose_mask,
}
use aelora.Application.RoomId.Feistel.{feistel_obfuscate_inj, feistel_obfuscate-lt}
use aelora.Application.RoomId.Base62.{decode_base62, decode-encode_base62_fixed}

seq_of : ℕ → ℕ
seq_of n = ((n + (u64 - 1)) % u64) % room_id_space

seq_of-lt : (n : ℕ) → seq_of n < room_id_space
unfolding seq_of
seq_of-lt n = omega arith

seq_of_inj :
    (m n : ℕ) → 1 ≤ m → m ≤ n → n < m + room_id_space → n < u64 → seq_of m ≡ seq_of n → m ≡ n
unfolding seq_of
seq_of_inj m n h1 h2 h3 h4 e = omega arith

room_id_of_inj :
    (mask m n : ℕ)
    → 1 ≤ m
    → m ≤ n
    → n < m + room_id_space
    → n < u64
    → room_id_of mask m ≡ room_id_of mask n
    → m ≡ n
unfolding room_id_of seq_of
room_id_of_inj mask m n h1 h2 h3 h4 e = seq_of_inj m n h1 h2 h3 h4 (
    feistel_obfuscate_inj mask (seq_of m) (seq_of n) (seq_of-lt m) (seq_of-lt n) (
      sym (decode-encode_base62_fixed _ room_id_width (feistel_obfuscate-lt mask _ (seq_of-lt m)))
      ∙ ap decode_base62 e
      ∙ decode-encode_base62_fixed _ room_id_width (feistel_obfuscate-lt mask _ (seq_of-lt n))))

-- Two draws less than one period (62 ^ 8 draws) apart have different ids, whatever the mask.
pub room_id_of_differ :
    (mask m n : ℕ)
    → 1 ≤ m
    → m < n
    → n < m + room_id_space
    → n < u64
    → room_id_of mask m ≢ room_id_of mask n
room_id_of_differ mask m n h1 h2 h3 h4 e =
    let same : m ≡ n = room_id_of_inj mask m n h1 (omega arith) h3 h4 e in absurd (omega arith)

-- The mask that a generator uses is below 62 ^ 4 and not zero, whatever it was configured with.
pub choose_mask_bounds :
    (xor_mask : ℕ) → (choose_mask xor_mask < room_half_base) × (choose_mask xor_mask ≢ 0)
unfolding choose_mask
choose_mask_bounds xor_mask = ground arith
