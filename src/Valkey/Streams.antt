-- ===== src/Valkey/Streams.antt =====
-- internal/adapters/outbound/valkey/stream_repo.go. The JSON codec of a message is a parameter.
use aelora.Prelude.{String, ◌==◌, Option, none, some, List, [], ◌∷◌, lookup, or_else, if◌then◌else◌}
use aelora.Prelude.Int.{ℤ, pos, is_nonpos}
use aelora.Domain.{Message, Result, ok, err}
use aelora.Call.{Call, pure, lift, ◌>>=◌, ◌>>◌}
use aelora.Ports.{StreamMessage, StreamRepository, EventBus}
use aelora.Valkey.{Client, XItem, stream_key}

pub record Repository (S : Type 0) : Type 0 where
  pub client : Client S
  pub event_stream_key : String
  pub room_max_len : ℤ
  pub event_max_len : ℤ
  pub marshal : Message → Result String
  pub unmarshal : String → Result Message

unfoldable pub new_stream_repository :
    {S : Type 0}
    → Client S
    → String
    → ℤ
    → ℤ
    → (Message → Result String)
    → (String → Result Message)
    → Repository S
new_stream_repository client event_stream_key room_max_len event_max_len marshal unmarshal =
    record {
      client = client;
      event_stream_key =
          if event_stream_key == "" then "stream:events:message_created" else event_stream_key;
      room_max_len = if is_nonpos room_max_len then pos 20000 else room_max_len;
      event_max_len = if is_nonpos event_max_len then pos 50000 else event_max_len;
      marshal = marshal;
      unmarshal = unmarshal;
    }

abbrev onto_messages : {A : Type 0} → (Message → A) → Result Message → List A → List A
onto_messages make (err e) rest = rest
onto_messages make (ok msg) rest = make msg ∷ rest

abbrev from_raw :
    {A : Type 0} → (String → Result Message) → (Message → A) → Option String → List A → List A
from_raw unmarshal make none rest = rest
from_raw unmarshal make (some raw) rest = onto_messages make (unmarshal raw) rest

module _ {S : Type 0} (r : Repository S) where
  unfoldable pub append_message : String → Message → Call S String
  append_message room_id msg = do
    payload ← lift (r.marshal msg)
    r.client.xadd (stream_key room_id) r.room_max_len payload

  -- The loop over the items that were read.
  stream_messages : String → List XItem → List StreamMessage
  stream_messages room_id [] = []
  stream_messages room_id (item ∷ rest) =
      from_raw r.unmarshal (λ msg. record { stream_id = item.id; room_id = room_id; message = msg })
        (lookup "message" item.field_values) (stream_messages room_id rest)

  unfoldable pub read_from : String → String → ℤ → Call S (List StreamMessage)
  unfolding stream_messages
  read_from room_id last_ack limit = do
    let count = if is_nonpos limit then pos 100 else limit
    let from = if last_ack == "" then "0" else last_ack
    found ← r.client.xread (stream_key room_id) from count
    pure (stream_messages room_id (or_else (lookup (stream_key room_id) (or_else found [])) []))

  unfoldable pub publish_message_created : Message → Call S (Unit {0})
  publish_message_created msg = do
    payload ← lift (r.marshal msg)
    r.client.xadd r.event_stream_key r.event_max_len payload
    pure tt

  abbrev pub stream_repository : StreamRepository S
  stream_repository = record { append_message = append_message; read_from = read_from }

  abbrev pub event_bus : EventBus S
  event_bus = record { publish_message_created = publish_message_created }
