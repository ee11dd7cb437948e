-- ===== src/Tests/Adapters.antt =====
-- The PostgreSQL repositories and the HTTP layer at concrete inputs.
use aelora.Prelude.{
  ◌≡◌, ◌≢◌, ◌≤◌, ◌<◌, refl, ◌⊎◌, Bool, true, false, String, none, some, [], ◌∷◌, ltb, leb,
  trim_space, arith, if◌then◌else◌,
}
use aelora.Domain.{Message, AppError, app, rate_limited, Result, ok}
use aelora.Ports.{OutboxMessage}
use aelora.Application.SendMessage.{SendMessageUseCase, SendMessageCommand}
use aelora.Application.SendMessage.Direct.{Direct}
use aelora.Postgres.{OutboxRow, Server, exec, transaction}
use aelora.Postgres.Messages.{save, dedup_key}
use aelora.Postgres.Messages.Laws.{Stored, save_all_or_nothing}
use aelora.Postgres.Outbox.{enqueue, outbox_repository}
use aelora.Postgres.Outbox.Enqueue.{enqueue-fails, send_needs_both}
use aelora.Domain.{new_room, has_member, validate}
use aelora.Call.{lift, run}
use aelora.Application.SendMessage.{execute}
use aelora.Postgres.Messages.{exists_by_client_msg_id}
use aelora.Postgres.Messages.{repository as message_repository}
use aelora.Domain.{Room}
use aelora.Postgres.Rooms.{create, get, list_members}
use aelora.Postgres.Rooms.Creation.{Stored as RoomStored, create_all_or_nothing}
use aelora.Postgres.Rooms.{repository as room_repository}
use aelora.Http.Errors.{map_app_error, map_app_error_classes}
use aelora.Http.Logging.{
  debug_level, info_level, warn_level, error_level, RequestLogPolicy, decide, decided,
  should_sample, decide_by_status,
}
use aelora.Tests.World.{alice_hello}

-- A digest without collisions, and the order by time.
abbrev pub digest : String → String
digest text = text

abbrev pub before : Message → Message → Bool
before m n = ltb m.created_at n.created_at

abbrev waiting_row : OutboxRow
waiting_row = record {
  message_id = "m1";
  created_at = 7;
  payload = "m1";
  dispatched = false;
  claimed_by = none;
  claimed_until = none;
}

abbrev pub server : Server
server = record {
  db = record {
    rooms = "lobby" ∷ [];
    room_members = [];
    messages = [];
    message_dedup = [];
    message_outbox = waiting_row ∷ [];
  };
  faults = [];
  server_now = 100;
  app_now = 100;
}

save_all_or_nothing_example :
    let (r, s') = save digest before alice_hello server in
    ((r ≢ ok tt) × (s'.db ≡ server.db))
    ⊎ ((r ≡ ok tt) × Stored digest before alice_hello server.db s'.db)
save_all_or_nothing_example = save_all_or_nothing digest before alice_hello server

abbrev saved_server : Server
saved_server = record server {
  db = record server.db {
    messages = alice_hello ∷ [];
    message_dedup =
        record {
          client_msg_id = dedup_key digest before "alice" "c1";
          room_id = "lobby";
          message_id = "m1";
        }
        ∷ [];
  };
}

-- A codec that knows one message.
abbrev pub marshal : OutboxMessage → Result String
marshal m = ok m.message.id

abbrev pub unmarshal : String → Result OutboxMessage
unmarshal payload = ok (record { message = alice_hello; stream_appended = true })

abbrev pub unmarshal_message : String → Result Message
unmarshal_message payload = ok alice_hello

enqueue_refused :
    let (r, s') = enqueue marshal unmarshal unmarshal_message alice_hello true server in
    (r ≢ ok tt) × (s'.db ≡ server.db)
enqueue_refused = enqueue-fails marshal unmarshal unmarshal_message alice_hello true server

limited_class :
    (400 ≤ (map_app_error (app rate_limited)).0) × ((map_app_error (app rate_limited)).0 < 500)
    ⊎ (map_app_error (app rate_limited) ≡ (500, "internal_error", "internal error"))
      × ((a : AppError) → app rate_limited ≢ app a)
limited_class = map_app_error_classes (app rate_limited)

abbrev policy : RequestLogPolicy
policy = record {
  default_success_level = info_level;
  default_sample_every = 1;
  health_success_level = debug_level;
  health_sample_every = 25;
  metrics_success_level = debug_level;
  metrics_sample_every = 50;
  message_post_level = info_level;
  message_post_every = 1;
  counters = λ route status. 0;
}

livez_by_default :
    (200 < 400
      → decide policy "/livez" 200
        ≡ decided policy.default_success_level (should_sample policy "/livez" 200 1))
    × (400 ≤ 200
        → decide policy "/livez" 200 ≡ (
          record { level = if leb 500 200 then error_level else warn_level; log = true },
          policy,
        ))
livez_by_default = decide_by_status policy "/livez" 200 (omega arith)

-- The text order is not asked of a room with one member.
abbrev text_before : String → String → Bool
text_before a b = true

abbrev server_sends : SendMessageUseCase Server
server_sends = record {
  messages = message_repository digest before;
  rooms = room_repository text_before;
  ids = record { new = λ s. ("m1", s) };
  clock = record { now = λ s. (7, s) };
  stream = record {
    append_message = λ room m s. (ok "7-0", s);
    read_from = λ room last limit s. (ok [], s);
  };
  bus = record { publish_message_created = λ m s. (ok tt, s) };
  outbox = some (outbox_repository marshal unmarshal unmarshal_message);
  limiter = none;
  telemetry = record {
    inc_stream_append_failure = λ s. s;
    inc_event_publish_failure = λ s. s;
    inc_outbox_enqueued = λ s. s;
    inc_outbox_enqueue_failure = λ s. s;
  };
}

abbrev hello : SendMessageCommand
hello = record {
  room_id = "lobby";
  sender_id = "alice";
  content = "hello";
  client_msg_id = "c1";
  reply_to_id = "";
}

abbrev alice_in : Server → Server
alice_in s = record s {
  db = record s.db {
    room_members = record { room_id = "lobby"; user_id = "alice"; role = "owner" } ∷ [];
  };
}

send_needs_both_example : Direct server_sends alice_hello (alice_in saved_server)
unfolding execute exists_by_client_msg_id save exec transaction get list_members new_room has_member
    validate trim_space lift run
send_needs_both_example =
    send_needs_both marshal unmarshal unmarshal_message server_sends refl hello (alice_in server)
      (alice_in saved_server) alice_hello refl

abbrev den : Room
den = record { id = "den"; members = "carol" ∷ "dave" ∷ [] }

create_all_or_nothing_example :
    let (r, s') = create den server in
    ((r ≢ ok tt) × (s'.db ≡ server.db)) ⊎ ((r ≡ ok tt) × RoomStored den server.db s'.db)
create_all_or_nothing_example = create_all_or_nothing den server
