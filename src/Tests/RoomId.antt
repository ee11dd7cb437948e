-- ===== src/Tests/RoomId.antt =====
-- Room ids at concrete draws.
use aelora.Prelude.{◌≡◌, ◌≢◌, ◌<◌, refl, arith}
use aelora.Application.RoomId.{choose_mask, room_half_base, encode_base62_fixed, room_id_of}
use aelora.Application.RoomId.Base62.{decode_base62, decode-encode_base62_fixed}
use aelora.Application.RoomId.{new}
use aelora.Application.RoomId.Local.{new_local_generator, after, local_ids_differ}
use aelora.Application.RoomId.Unique.{room_id_of_differ, choose_mask_bounds}

digits_of_62 : encode_base62_fixed 62 2 ≡ "10"
unfolding encode_base62_fixed
digits_of_62 = refl

default_mask : (choose_mask 0 < room_half_base) × (choose_mask 0 ≢ 0)
default_mask = choose_mask_bounds 0

decoded_62 : decode_base62 (encode_base62_fixed 3843 2) ≡ 3843
decoded_62 = decode-encode_base62_fixed 3843 2 (omega arith)

room_id_of_differ_example : room_id_of 77 3 ≢ room_id_of 77 4
room_id_of_differ_example =
    room_id_of_differ 77 3 4 (omega arith) (omega arith) (omega arith) (omega arith)

-- The second and the fourth id of a generator that was made at time 1000.
second_and_fourth :
    (new
      (new_local_generator 1000 77).0
      (after (new_local_generator 1000 77).0 1 (new_local_generator 1000 77).1)).0
    ≢ (new
        (new_local_generator 1000 77).0
        (after (new_local_generator 1000 77).0 3 (new_local_generator 1000 77).1)).0
second_and_fourth = local_ids_differ 1000 77 1 3 (omega arith) (omega arith) (omega arith)
