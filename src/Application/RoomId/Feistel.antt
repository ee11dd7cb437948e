-- ===== src/Application/RoomId/Feistel.antt =====
-- `feistelObfuscate` permutes the sequence numbers: it maps them into their own range, and no two
-- to the same number.
use aelora.Prelude.{ℕ, zero, suc, sym, ◌∙◌, ◌+◌, ◌/◌, ◌%◌, ◌<◌, ◌≡◌, ap, arith}
use aelora.Application.RoomId.{
  room_half_base, room_id_space, u32, round, rounds, join_halves, feistel_obfuscate,
}

mod_half_base : (x : ℕ) → (x % room_half_base) % u32 < room_half_base
mod_half_base x = omega arith

round-lt : (mask right i : ℕ) → round mask right i < room_half_base
unfolding round
round-lt mask right i = mod_half_base _

abbrev AreHalves : ℕ × ℕ → Type 0
AreHalves (left, right) = (left < room_half_base) × (right < room_half_base)

step-lt : (l f : ℕ) → ((l + f) % u32) % room_half_base < room_half_base
step-lt l f = omega arith

step_inj :
    (l m f : ℕ)
    → l < room_half_base
    → m < room_half_base
    → f < room_half_base
    → ((l + f) % u32) % room_half_base ≡ ((m + f) % u32) % room_half_base
    → l ≡ m
step_inj l m f hl hm hf e = omega arith

rounds-AreHalves :
    (mask i togo left right : ℕ)
    → AreHalves (left, right)
    → AreHalves (rounds mask i togo (left, right))
unfolding rounds
rounds-AreHalves mask i zero left right h = h
rounds-AreHalves mask i (suc togo) left right h =
    rounds-AreHalves mask (i + 1) togo right _ (h.1, step-lt left (round mask right i))

rounds_inj :
    (mask i togo l r m s : ℕ)
    → AreHalves (l, r)
    → AreHalves (m, s)
    → rounds mask i togo (l, r) ≡ rounds mask i togo (m, s)
    → (l ≡ m) × (r ≡ s)
unfolding rounds
rounds_inj mask i zero l r m s h k e = (ap (λ p. p.0) e, ap (λ p. p.1) e)
rounds_inj mask i (suc togo) l r m s h k e = rejoin (
    rounds_inj mask (i + 1) togo r _ s _ (h.1, step-lt l (round mask r i))
      (k.1, step-lt m (round mask s i)) e)
  where
    rejoin :
        (r ≡ s)
          × (((l + round mask r i) % u32) % room_half_base
              ≡ ((m + round mask s i) % u32) % room_half_base)
        → (l ≡ m) × (r ≡ s)
    rejoin (e0, e1) = (
      step_inj l m (round mask r i) h.0 k.0 (round-lt mask r i)
          (e1 ∙ ap (λ x. ((m + round mask x i) % u32) % room_half_base) (sym e0)),
      e0,
    )

halves_of :
    (seq : ℕ)
    → seq < room_id_space
    → AreHalves ((seq / room_half_base) % u32, (seq % room_half_base) % u32)
halves_of seq h = omega arith

halves_inj :
    (a b : ℕ)
    → a < room_id_space
    → b < room_id_space
    → ((a / room_half_base) % u32 ≡ (b / room_half_base) % u32)
      × ((a % room_half_base) % u32 ≡ (b % room_half_base) % u32)
    → a ≡ b
halves_inj a b ha hb e = omega arith

join_halves-lt : (p : ℕ × ℕ) → AreHalves p → join_halves p < room_id_space
join_halves-lt (l, r) h = omega arith

join_halves_inj : (p q : ℕ × ℕ) → AreHalves p → AreHalves q → join_halves p ≡ join_halves q → p ≡ q
join_halves_inj (l, r) (m, s) h k e = ground arith

-- Whatever the mask, a number of the id space is obfuscated to a number of the id space.
pub feistel_obfuscate-lt :
    (mask seq : ℕ) → seq < room_id_space → feistel_obfuscate mask seq < room_id_space
unfolding feistel_obfuscate
feistel_obfuscate-lt mask seq h =
    join_halves-lt (rounds mask 0 6 (seq / room_half_base % u32, seq % room_half_base % u32))
      (rounds-AreHalves mask 0 6 _ _ (halves_of seq h))

-- Whatever the mask, no two numbers of the id space are obfuscated to the same number.
pub feistel_obfuscate_inj :
    (mask a b : ℕ)
    → a < room_id_space
    → b < room_id_space
    → feistel_obfuscate mask a ≡ feistel_obfuscate mask b
    → a ≡ b
unfolding feistel_obfuscate
feistel_obfuscate_inj mask a b ha hb e = halves_inj a b ha hb (
    rounds_inj mask 0 6 _ _ _ _ (halves_of a ha) (halves_of b hb) (
      join_halves_inj _ _ (rounds-AreHalves mask 0 6 _ _ (halves_of a ha))
        (rounds-AreHalves mask 0 6 _ _ (halves_of b hb)) e))
