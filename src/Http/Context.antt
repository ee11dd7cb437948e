-- ===== src/Http/Context.antt =====
-- internal/adapters/inbound/http: what a handler reads of a request, and the responses.
-- echo's context is a parameter: the functions that it answers by are fields.
use aelora.Prelude.{ℕ, String, Bool, true, false, Option, none, some, List}
use aelora.Prelude.Int.{ℤ}
use aelora.Domain.{Error, Message}
use aelora.Health.{Report}
use aelora.Http.Errors.{map_app_error}

pub record CreateRoomRequest : Type 0 where
  pub member_ids : List String

pub record SendMessageRequest : Type 0 where
  pub content : String
  pub client_msg_id : String
  pub reply_to_id : String

pub record RegisterPushTokenRequest : Type 0 where
  pub platform : String
  pub token : String

-- What `c.Bind` answers: the text of an error, or the request that the body holds.
pub data Bound (A : Type 0) : Type 0 where
  refused : String → Bound A
  bound : A → Bound A

-- `identity` is the value under `identityKey`, empty where none was set.
pub record Context : Type 0 where
  pub header : String → String
  pub query : String → String
  pub param : String → String
  pub identity : String
  pub bind_create_room : Bound CreateRoomRequest
  pub bind_send_message : Bound SendMessageRequest
  pub bind_register_push_token : Bound RegisterPushTokenRequest

pub record RoomMembershipResponse : Type 0 where
  pub room_id : String
  pub members : List String
  pub actor : String
  pub added_user_id : String

pub record ItemResponse : Type 0 where
  pub id : String
  pub room_id : String
  pub sender_id : String
  pub content : String
  pub created_at : String

pub record MessageResponse : Type 0 where
  pub message_id : String
  pub client_msg_id : String
  pub room_id : String
  pub sender_id : String
  pub content : String
  pub reply_to_message : String
  pub created_at : ℕ

-- The field `Data` of an envelope.
pub data Payload : Type 0 where
  membership : RoomMembershipResponse → Payload
  item : ItemResponse → Payload
  page : String → List MessageResponse → ℕ → ℤ → Payload
  texts : List (String × String) → Payload
  report : Report → Payload

pub record ErrBody : Type 0 where
  pub code : String
  pub message : String

pub record Envelope : Type 0 where
  pub success : Bool
  pub data_field : Option Payload
  pub error : Option ErrBody

abbrev pub Reply : Type 0
Reply = ℕ × Envelope

abbrev pub write_success : ℕ → Payload → Reply
write_success status payload =
    (status, record { success = true; data_field = some payload; error = none })

abbrev pub write_error : ℕ → String → String → Reply
write_error status code message = (
  status,
  record {
    success = false;
    data_field = none;
    error = some (record { code = code; message = message });
  },
)

unfoldable pub write_app_error : Error → Reply
write_app_error e = let (status, code, message) = map_app_error e in write_error status code message

-- `format` is the format RFC3339Nano of package time.
abbrev pub to_item_response : (ℕ → String) → Message → ItemResponse
to_item_response format msg = record {
  id = msg.id;
  room_id = msg.room_id;
  sender_id = msg.sender_id;
  content = msg.content;
  created_at = format msg.created_at;
}
