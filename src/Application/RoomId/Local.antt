-- ===== src/Application/RoomId/Local.antt =====
-- internal/application/room_id_generator.go: the sequence that the generator counts itself where it is
-- given none. It begins at the clock's time, and no two of its ids in a period are the same.
use aelora.Prelude.{ℕ, zero, suc, ◌+◌, ◌%◌, ◌<◌, ◌≡◌, ◌≢◌, sym, ap, ◌∙◌, String, arith}
use aelora.Domain.{ok}
use aelora.Application.RoomId.{
  RoomIdSequence, SequentialRoomIdGenerator, room_id_space, u64, room_id_of, new_generator, new,
}
use aelora.Application.RoomId.Unique.{room_id_of_differ}

-- The state is the counter, which wraps at 2 ^ 64.
unfoldable pub local_room_id_sequence : RoomIdSequence ℕ
local_room_id_sequence = record {
  next = λ counter. (ok ((counter + 1) % u64), (counter + 1) % u64);
}

-- `sequence == nil`: the generator, and where its counter starts.
unfoldable pub new_local_generator : ℕ → ℕ → SequentialRoomIdGenerator ℕ × ℕ
unfolding new_generator local_room_id_sequence
new_local_generator unix_nano xor_mask =
    (new_generator local_room_id_sequence xor_mask, unix_nano % u64)

-- The counter after so many calls of `New`.
unfoldable pub after : SequentialRoomIdGenerator ℕ → ℕ → ℕ → ℕ
unfolding new
after g zero counter = counter
after g (suc calls) counter = (new g (after g calls counter)).1

ok_inj : {x y : String} → ok x ≡ ok y → x ≡ y
ok_inj e = cc

module _ (unix_nano xor_mask : ℕ) where
  abbrev generator : SequentialRoomIdGenerator ℕ
  generator = (new_local_generator unix_nano xor_mask).0

  abbrev start : ℕ
  start = (new_local_generator unix_nano xor_mask).1

  after-counts :
      (calls : ℕ) → unix_nano + calls < u64 → after generator calls start ≡ unix_nano + calls
  unfolding after new new_local_generator local_room_id_sequence new_generator
  after-counts zero h = omega (arith, h)
  after-counts (suc calls) h = omega (arith, after-counts calls (omega (arith, h)))

  drawn :
      (calls : ℕ)
      → unix_nano + suc calls < u64
      → (after generator calls start + 1) % u64 ≡ suc (unix_nano + calls)
  drawn calls h = omega (arith, after-counts calls (omega (arith, h)), h)

  new_is_drawn :
      (calls : ℕ)
      → unix_nano + suc calls < u64
      → (new generator (after generator calls start)).0
        ≡ ok (room_id_of generator.mask (suc (unix_nano + calls)))
  unfolding new new_local_generator local_room_id_sequence new_generator
  new_is_drawn calls h = ap (λ n. ok (room_id_of generator.mask n)) (drawn calls h)

  -- A generator that counts itself gives different ids to any two calls that are less than one period
  -- apart, whatever the mask, while the counter is below 2 ^ 64.
  pub local_ids_differ :
      (i j : ℕ)
      → i < j
      → j < i + room_id_space
      → unix_nano + suc j < u64
      → (new generator (after generator i start)).0 ≢ (new generator (after generator j start)).0
  local_ids_differ i j before near below same =
      room_id_of_differ generator.mask (suc (unix_nano + i)) (suc (unix_nano + j)) (omega arith)
        (omega (arith, before)) (omega (arith, near)) (omega (arith, below))
        (ok_inj (sym (new_is_drawn i (omega (arith, before, below))) ∙ same ∙ new_is_drawn j below))
