-- ===== src/Tests/World.antt =====
-- An in-memory world that implements the ports of the use cases.
use aelora.Prelude.{
  ℕ, suc, String, ◌==◌, Bool, true, false, ◌&&◌, ◌||◌, Option, none, some, List, [], ◌∷◌, ◌++◌,
  lookup, insert, concat, if◌then◌else◌,
}
use aelora.Domain.{Room, Message, room_not_found, other, Result, ok, err}
use aelora.Call.{Call}
use aelora.Ports.{
  PushToken, StreamMessage, AckRepository, MessageRepository, MessageOutboxRepository,
  RoomRepository, RoomIdGenerator, StreamRepository, MessageRateLimiter,
}
use aelora.Application.SendMessage.{SendMessageUseCase, Telemetry}
use aelora.Application.SyncMessages.{SyncMessagesUseCase}

pub record World : Type 0 where
  pub rooms : List (String × Room)
  pub roles : List (String × String)
  pub saved : List Message
  pub stream : List StreamMessage
  pub published : List Message
  pub queued : List (Message × Bool)
  pub acks : List (String × String)
  pub tokens : List PushToken
  pub pushed : List String
  pub draws : ℕ
  pub stream_up : Bool
  pub bus_up : Bool

abbrev found : {A : Type 0} → Option A → Result A
found none = err room_not_found
found (some a) = ok a

abbrev pub alice_hello : Message
alice_hello = record {
  id = "m1";
  client_msg_id = "c1";
  room_id = "lobby";
  sender_id = "alice";
  content = "hello";
  reply_to_id = "";
  created_at = 7;
}

abbrev pub world : World
world = record {
  rooms = ("lobby", record { id = "lobby"; members = "alice" ∷ "bob" ∷ [] }) ∷ [];
  roles = ("lobby/alice", "owner") ∷ ("lobby/bob", "member") ∷ [];
  saved = [];
  stream = [];
  published = [];
  queued = [];
  acks = [];
  tokens = record { user_id = "bob"; device_id = "d1"; platform = "ios"; token = "t1" } ∷ [];
  pushed = [];
  draws = 0;
  stream_up = true;
  bus_up = true;
}

abbrev members_of : Result Room → Result (List String)
members_of (ok room) = ok room.members
members_of (err e) = err e

abbrev role_of : Option String → Result String
role_of none = err room_not_found
role_of (some role) = ok role

abbrev with_member : Option Room → String → List (String × Room) → List (String × Room)
with_member none user rooms = rooms
with_member (some room) user rooms =
    insert room.id (record { id = room.id; members = room.members ++ user ∷ [] }) rooms

abbrev pub read_role : String → String → Call World String
read_role id user w = (role_of (lookup (concat (concat id "/") user) w.roles), w)

abbrev pub rooms : RoomRepository World
rooms = record {
  get = λ id w. (found (lookup id w.rooms), w);
  create = λ room w. (ok tt, record w { rooms = insert room.id room w.rooms });
  add_member =
      λ id user w. (ok tt, record w { rooms = with_member (lookup id w.rooms) user w.rooms });
  list_members = λ id w. (members_of (found (lookup id w.rooms)), w);
  get_member_role = some read_role;
  set_member_role = some (λ id user role w.
      (ok tt, record w { roles = insert (concat (concat id "/") user) role w.roles }));
}

abbrev pub room_ids : RoomIdGenerator World
room_ids = record { new = λ w. (ok "den", record w { draws = suc w.draws }) }

abbrev pub exists : String → String → List Message → Bool
exists sender client [] = false
exists sender client (m ∷ rest) =
    (m.sender_id == sender) && (m.client_msg_id == client) || exists sender client rest

abbrev pub pick : String → List Message → List (String × Message)
pick id [] = []
pick id (m ∷ rest) = if m.id == id then (id, m) ∷ [] else pick id rest

abbrev pick_all : List String → List Message → List (String × Message)
pick_all [] messages = []
pick_all (id ∷ ids) messages = pick id messages ++ pick_all ids messages

abbrev pub messages : MessageRepository World
messages = record {
  save = λ m w. (ok tt, record w { saved = m ∷ w.saved });
  exists_by_client_msg_id = λ sender client w. (ok (exists sender client w.saved), w);
  list_by_room = λ room since limit w. (ok w.saved, w);
  get_by_ids = λ room ids w. (ok (pick_all ids w.saved), w);
}

abbrev pub append : Bool → String → Message → Call World String
append true room m w = (
  ok "7-0",
  record w { stream = record { stream_id = "7-0"; room_id = room; message = m } ∷ w.stream },
)
append false room m w = (err (other "stream down"), w)

abbrev pub publish : Bool → Message → Call World (Unit {0})
publish true m w = (ok tt, record w { published = m ∷ w.published })
publish false m w = (err (other "bus down"), w)

abbrev pub stream : StreamRepository World
stream = record {
  append_message = λ room m w. append w.stream_up room m w;
  read_from = λ room last limit w. (ok w.stream, w);
}

abbrev pub outbox : MessageOutboxRepository World
outbox = record {
  enqueue = λ m appended w. (ok tt, record w { queued = (m, appended) ∷ w.queued });
  list_pending = λ limit w. (ok [], w);
  claim_pending = λ consumer limit lease w. (ok [], w);
  mark_stream_appended = λ id w. (ok tt, w);
  mark_dispatched = λ id w. (ok tt, w);
  release_claim = λ consumer id w. (ok tt, w);
}

abbrev pub telemetry : Telemetry World
telemetry = record {
  inc_stream_append_failure = λ w. w;
  inc_event_publish_failure = λ w. w;
  inc_outbox_enqueued = λ w. w;
  inc_outbox_enqueue_failure = λ w. w;
}

abbrev pub let_all : MessageRateLimiter World
let_all = record { allow = λ key w. (true, w) }

abbrev pub sends : SendMessageUseCase World
sends = record {
  messages = messages;
  rooms = rooms;
  ids = record { new = λ w. ("m1", record w { draws = suc w.draws }) };
  clock = record { now = λ w. (7, w) };
  stream = stream;
  bus = record { publish_message_created = λ m w. publish w.bus_up m w };
  outbox = some outbox;
  limiter = some let_all;
  telemetry = telemetry;
}

abbrev pub acks : AckRepository World
acks = record {
  set_last_ack = λ user device room id w.
      (ok tt, record w { acks = insert (concat user (concat device room)) id w.acks });
  get_last_ack = λ user device room w. (ok "", w);
}

abbrev pub syncs : SyncMessagesUseCase World
syncs = record { rooms = rooms; stream = stream; ack = acks; msgs = some messages }
