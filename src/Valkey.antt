-- ===== src/Valkey.antt =====
-- internal/adapters/outbound/valkey: the commands that the repositories send, and their keys.
-- The server and its client are parameters: a command fails, or is answered; `none` is the nil reply.
pub mod Acks
pub mod Presence
pub mod PushTokens
pub mod Rooms
pub mod Streams
pub mod Subscription
pub mod Breaker
pub mod Connect
use aelora.Prelude.{ℕ, String, ◌==◌, Option, List, concat, if◌then◌else◌}
use aelora.Prelude.Int.{ℤ}
use aelora.Call.{Call}

-- An entry of a stream.
pub record XItem : Type 0 where
  pub id : String
  pub field_values : List (String × String)

-- Expiry times are in seconds. `xadd key max_len value` adds the field `message`; `xread key id
-- count` answers the entries behind `id` by their stream.
pub record Client (S : Type 0) : Type 0 where
  pub set : String → String → Call S (Unit {0})
  pub set_ex : String → String → ℕ → Call S (Unit {0})
  pub get : String → Call S (Option String)
  pub del : String → Call S (Unit {0})
  pub exists : String → Call S ℕ
  pub expire : String → ℕ → Call S (Unit {0})
  pub sadd : String → List String → Call S (Unit {0})
  pub srem : String → String → Call S (Unit {0})
  pub smembers : String → Call S (Option (List String))
  pub hset : String → String → String → Call S (Unit {0})
  pub hdel : String → String → Call S (Unit {0})
  pub hgetall : String → Call S (Option (List (String × String)))
  pub incr : String → Call S ℤ
  pub xadd : String → ℤ → String → Call S String
  pub xread : String → String → ℤ → Call S (Option (List (String × List XItem)))

unfoldable pub presence_key : String → String → String
presence_key user_id device_id = concat (concat (concat "presence:" user_id) ":") device_id

unfoldable pub presence_devices_key : String → String
presence_devices_key user_id = concat "presence_devices:" user_id

unfoldable pub push_token_key : String → String
push_token_key user_id = concat "push_tokens:" user_id

unfoldable pub ack_key : String → String → String → String
ack_key user_id device_id room_id =
    concat (concat (concat (concat (concat "last_ack:" user_id) ":") device_id) ":") room_id

unfoldable pub room_members_key : String → String
room_members_key room_id = concat (concat "room:" room_id) ":members"

unfoldable pub room_meta_key : String → String
room_meta_key room_id = concat (concat "room:" room_id) ":meta"

unfoldable pub stream_key : String → String
stream_key room_id = concat "stream:room:" room_id
