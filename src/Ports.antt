-- ===== src/Ports.antt =====
-- internal/ports, and the two interfaces of internal/application: what the use cases call, as
-- records of calls over an arbitrary state `S`.
use aelora.Prelude.{ℕ, String, Bool, Option, List}
use aelora.Prelude.Int.{ℤ}
use aelora.Domain.{Room, Message}
use aelora.Call.{Call}

abbrev pub platform_android : String
platform_android = "android"

abbrev pub platform_ios : String
platform_ios = "ios"

pub record PushToken : Type 0 where
  pub user_id : String
  pub device_id : String
  pub platform : String
  pub token : String

pub record StreamMessage : Type 0 where
  pub stream_id : String
  pub room_id : String
  pub message : Message

pub record OutboxMessage : Type 0 where
  pub message : Message
  pub stream_appended : Bool

module _ (S : Type 0) where
  pub record AckRepository : Type 0 where
    pub set_last_ack : String → String → String → String → Call S (Unit {0})
    pub get_last_ack : String → String → String → Call S String

  pub record PresenceRepository : Type 0 where
    pub set_online : String → String → Call S (Unit {0})
    pub set_offline : String → String → Call S (Unit {0})
    pub is_online : String → Call S Bool

  pub record PushTokenRepository : Type 0 where
    pub upsert : PushToken → Call S (Unit {0})
    pub delete : String → String → Call S (Unit {0})
    pub list_by_user : String → Call S (List PushToken)

  pub record PushNotifier : Type 0 where
    pub notify_message : PushToken → Message → Call S (Unit {0})

  -- `get_by_ids` returns a map from message ids.
  pub record MessageRepository : Type 0 where
    pub save : Message → Call S (Unit {0})
    pub exists_by_client_msg_id : String → String → Call S Bool
    pub list_by_room : String → ℕ → ℤ → Call S (List Message)
    pub get_by_ids : String → List String → Call S (List (String × Message))

  pub record MessageOutboxRepository : Type 0 where
    pub enqueue : Message → Bool → Call S (Unit {0})
    pub list_pending : ℤ → Call S (List OutboxMessage)
    pub claim_pending : String → ℤ → ℤ → Call S (List OutboxMessage)
    pub mark_stream_appended : String → Call S (Unit {0})
    pub mark_dispatched : String → Call S (Unit {0})
    pub release_claim : String → String → Call S (Unit {0})

  -- The last two are `roomRoleReader` and `roomRoleWriter`: `none` where the type assertion on the
  -- repository fails.
  pub record RoomRepository : Type 0 where
    pub get : String → Call S Room
    pub create : Room → Call S (Unit {0})
    pub add_member : String → String → Call S (Unit {0})
    pub list_members : String → Call S (List String)
    pub get_member_role : Option (String → String → Call S String)
    pub set_member_role : Option (String → String → String → Call S (Unit {0}))

  pub record RoomIdGenerator : Type 0 where
    pub new : Call S String

  pub record RoomIdSequence : Type 0 where
    pub next : Call S ℕ

  pub record IdGenerator : Type 0 where
    pub new : S → String × S

  pub record Clock : Type 0 where
    pub now : S → ℕ × S

  pub record StreamRepository : Type 0 where
    pub append_message : String → Message → Call S String
    pub read_from : String → String → ℤ → Call S (List StreamMessage)

  -- Only the publishing half: the subscription's channel is a list of messages in the hub.
  pub record EventBus : Type 0 where
    pub publish_message_created : Message → Call S (Unit {0})

  pub record MessageRateLimiter : Type 0 where
    pub allow : String → S → Bool × S
