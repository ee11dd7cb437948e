-- ===== src/WebSocket.antt =====
-- internal/adapters/inbound/http/websocket.go: a client's queue, and the answer to each request.
pub mod Answers
pub mod Pump
pub mod Connection
use aelora.Prelude.{
  ℕ, String, ◌==◌, Bool, true, false, not, ◌&&◌, ◌||◌, Option, none, some, List, [], ◌∷◌, ◌++◌,
  length, ltb, if◌then◌else◌,
}
use aelora.Prelude.Int.{ℤ}
use aelora.Domain.{
  Message, Error, app, duplicate_message, rate_limited, room_access_denied, reply_target,
  invalid_ack, invalid_message, invalid_room, Result, ok, err,
}
use aelora.Call.{Call}
use aelora.Ports.{StreamMessage, RoomRepository, AckRepository}
use aelora.Application.SendMessage.{SendMessageUseCase, SendMessageCommand}
use aelora.Application.SendMessage.{execute as execute_send}
use aelora.Application.SyncMessages.{
  SyncMessagesUseCase, SyncMessagesQuery, SyncMessagesResult, AckMessageCommand, acknowledge,
}
use aelora.Application.SyncMessages.{execute as execute_sync}

pub record WsRequest : Type 0 where
  pub kind : String
  pub room_id : String
  pub content : String
  pub client_msg_id : String
  pub reply_to_id : String
  pub stream_id : String
  pub last_ack : String
  pub limit : ℤ

-- What the field `Message` of a response holds.
pub data Body : Type 0 where
  nothing : Body
  created : Message → Body
  accepted : Message → Body
  saved : String → Body
  synced : String → SyncMessagesResult → ℕ → Body

pub record WsResponse : Type 0 where
  pub kind : String
  pub message : Body
  pub error : String

abbrev pub queue_size : ℕ
queue_size = 128

-- `send` holds what the write pump has not taken yet.
pub record WsClient : Type 0 where
  pub user_id : String
  pub device_id : String
  pub send : List WsResponse
  pub closed : Bool

unfoldable pub new_ws_client : String → String → WsClient
new_ws_client user_id device_id = record {
  user_id = user_id;
  device_id = device_id;
  send = [];
  closed = false;
}

unfoldable pub enqueue : WsClient → WsResponse → Bool × WsClient
enqueue c msg =
    if c.closed
    then (false, c)
    else if ltb (length c.send) queue_size
    then (true, record c { send = c.send ++ msg ∷ [] })
    else (false, c)

unfoldable pub close : WsClient → WsClient
close c = record c { closed = true }

abbrev pub failure : String → WsResponse
failure text = record { kind = "error"; message = nothing; error = text }

-- The text of a send's error.
unfoldable pub send_error : Error → String
send_error (app duplicate_message) = "duplicate client_msg_id"
send_error (app rate_limited) = "rate limit exceeded"
send_error (app room_access_denied) = "room access denied"
send_error (app reply_target) = "reply target not found"
send_error invalid_message = "invalid message payload"
send_error e = "internal error"

send_response : Result Message → WsResponse
unfolding send_error
send_response (ok msg) = record { kind = "message_accepted"; message = accepted msg; error = "" }
send_response (err e) = failure (send_error e)

ack_error : Error → String
ack_error (app invalid_ack) = "invalid ack payload"
ack_error e = "ack failed"

ack_response : String → Result (Unit {0}) → WsResponse
unfolding ack_error
ack_response stream_id (ok done) = record {
  kind = "ack_saved";
  message = saved stream_id;
  error = "";
}
ack_response stream_id (err e) = failure (ack_error e)

sync_response : String → Result SyncMessagesResult → WsResponse
sync_response room_id (ok out) = record {
  kind = "sync_result";
  message = synced room_id out (length out.messages);
  error = "";
}
sync_response room_id (err e) = failure "sync failed"

-- Whether `logWSError` warns only.
unfoldable pub is_ws_client_error : Error → Bool
is_ws_client_error (app duplicate_message) = true
is_ws_client_error (app rate_limited) = true
is_ws_client_error (app room_access_denied) = true
is_ws_client_error (app reply_target) = true
is_ws_client_error (app invalid_ack) = true
is_ws_client_error invalid_message = true
is_ws_client_error invalid_room = true
is_ws_client_error e = false

pub record WebSocketHandler (S : Type 0) : Type 0 where
  pub send : SendMessageUseCase S
  pub sync : SyncMessagesUseCase S
  pub ack_rooms : RoomRepository S
  pub acks : AckRepository S

module _ {S : Type 0} (h : WebSocketHandler S) where
  abbrev pub send_command : String → WsRequest → SendMessageCommand
  send_command user_id req = record {
    room_id = req.room_id;
    sender_id = user_id;
    content = req.content;
    client_msg_id = req.client_msg_id;
    reply_to_id = req.reply_to_id;
  }

  handle_send_message : String → WsRequest → S → WsResponse × S
  unfolding send_response
  handle_send_message user_id req s =
      let (r, s') = execute_send h.send (send_command user_id req) s in (send_response r, s')

  handle_ack : String → String → WsRequest → S → WsResponse × S
  unfolding ack_response
  handle_ack user_id device_id req s =
      let (r, s') =
        acknowledge h.ack_rooms h.acks
          (record {
            room_id = req.room_id;
            user_id = user_id;
            device_id = device_id;
            stream_id = req.stream_id;
          })
          s in
      (ack_response req.stream_id r, s')

  handle_sync : String → String → WsRequest → S → WsResponse × S
  unfolding sync_response
  handle_sync user_id device_id req s =
      let (r, s') =
        execute_sync h.sync
          (record {
            room_id = req.room_id;
            user_id = user_id;
            device_id = device_id;
            last_ack = req.last_ack;
            limit = req.limit;
          })
          s in
      (sync_response req.room_id r, s')

  -- The switch on the request's type.
  unfoldable pub answer : String → String → WsRequest → S → WsResponse × S
  unfolding handle_send_message handle_ack handle_sync
  answer user_id device_id req s =
      if req.kind == "send_message"
      then handle_send_message user_id req s
      else if req.kind == "ACK"
      then handle_ack user_id device_id req s
      else if req.kind == "SYNC"
      then handle_sync user_id device_id req s
      else (failure "unsupported type", s)

  -- One round of the loop in `Handle`, for a request that was read.
  unfoldable pub serve : WsClient → WsRequest → S → WsClient × S
  unfolding answer
  serve c req s = let (resp, s') = answer c.user_id c.device_id req s in ((enqueue c resp).1, s')

-- The identity of a connection: `token` is the validator's answer where authentication is on.
pub record Identity : Type 0 where
  pub user_id : String
  pub device_id : String

abbrev first_named : String → String → String
first_named a b = if a == "" then b else a

abbrev validated : Result Identity → Option Identity
validated (ok identity) = some identity
validated (err e) = none

unfoldable pub resolve_identity :
    Option (Result Identity) → String → String → String → Option Identity
resolve_identity (some r) query_user header_user query_device = validated r
resolve_identity none query_user header_user query_device =
    let user_id = first_named query_user header_user in
    if user_id == ""
    then none
    else some (record { user_id = user_id; device_id = first_named query_device "unknown" })
