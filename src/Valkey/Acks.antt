-- ===== src/Valkey/Acks.antt =====
-- internal/adapters/outbound/valkey/ack_repo.go and room_id_sequence.go
use aelora.Prelude.{ℕ, String, ◌==◌, Option, or_else, if◌then◌else◌}
use aelora.Prelude.Int.{is_nonpos, to_nat}
use aelora.Domain.{other}
use aelora.Call.{Call, pure, fail, given, ◌>>=◌}
use aelora.Ports.{AckRepository, RoomIdSequence}
use aelora.Valkey.{Client, ack_key}

-- Thirty days.
abbrev pub ack_ttl : ℕ
ack_ttl = 2592000

abbrev pub default_room_id_sequence_key : String
default_room_id_sequence_key = "seq:room_id"

abbrev sequence_key : String → String
sequence_key key = if key == "" then default_room_id_sequence_key else key

module _ {S : Type 0} where
  unfoldable pub set_last_ack : Client S → String → String → String → String → Call S (Unit {0})
  set_last_ack client user_id device_id room_id stream_id =
      client.set_ex (ack_key user_id device_id room_id) stream_id ack_ttl

  unfoldable pub get_last_ack : Client S → String → String → String → Call S String
  get_last_ack client user_id device_id room_id = do
    found ← client.get (ack_key user_id device_id room_id)
    pure (or_else found "")

  abbrev pub ack_repository : Client S → AckRepository S
  ack_repository client = record {
    set_last_ack = set_last_ack client;
    get_last_ack = get_last_ack client;
  }

  -- `client` may be nil.
  unfoldable pub next : Option (Client S) → String → Call S ℕ
  next client key = given client (fail (other "valkey client is nil")) λ c. do
    n ← c.incr (sequence_key key)
    if is_nonpos n
        then fail (other "room id sequence returned non-positive value")
        else pure (to_nat n)

  abbrev pub room_id_sequence : Option (Client S) → String → RoomIdSequence S
  room_id_sequence client key = record { next = next client key }
