-- ===== src/Application/SendMessage.antt =====
-- internal/application/send_message.go
pub mod Contract
pub mod Admission
pub mod Delivery
pub mod Direct
use aelora.Prelude.{
  ℕ, String, ◌==◌, Bool, true, false, not, Option, none, some, List, [], ◌∷◌, lookup, concat,
  if◌then◌else◌,
}
use aelora.Domain.{
  Message, Error, app, duplicate_message, rate_limited, room_access_denied, reply_target,
  duplicate_client_message, Result, ok, err, has_member, validate,
}
use aelora.Call.{Call, pure, fail, lift, run, modify, handle, given, ◌>>=◌, ◌>>◌}
use aelora.Ports.{
  MessageRepository, RoomRepository, IdGenerator, Clock, StreamRepository, EventBus,
  MessageOutboxRepository, MessageRateLimiter,
}

pub record SendMessageCommand : Type 0 where
  pub room_id : String
  pub sender_id : String
  pub content : String
  pub client_msg_id : String
  pub reply_to_id : String

-- The counters of internal/platform/telemetry that the use case increments.
pub record Telemetry (S : Type 0) : Type 0 where
  pub inc_stream_append_failure : S → S
  pub inc_event_publish_failure : S → S
  pub inc_outbox_enqueued : S → S
  pub inc_outbox_enqueue_failure : S → S

-- `limiter` and `outbox` may be nil.
pub record SendMessageUseCase (S : Type 0) : Type 0 where
  pub messages : MessageRepository S
  pub rooms : RoomRepository S
  pub ids : IdGenerator S
  pub clock : Clock S
  pub stream : StreamRepository S
  pub bus : EventBus S
  pub outbox : Option (MessageOutboxRepository S)
  pub limiter : Option (MessageRateLimiter S)
  pub telemetry : Telemetry S

pub message : SendMessageCommand → String → ℕ → Message
message cmd id now = record {
  id = id;
  client_msg_id = cmd.client_msg_id;
  room_id = cmd.room_id;
  sender_id = cmd.sender_id;
  content = cmd.content;
  reply_to_id = cmd.reply_to_id;
  created_at = now;
}

save_error : Error → Error
save_error duplicate_client_message = app duplicate_message
save_error e = e

module _ {S : Type 0} where
  check_limit : SendMessageUseCase S → SendMessageCommand → Call S (Unit {0})
  check_limit u cmd = given u.limiter (pure tt) λ limiter. do
    allowed ← run (limiter.allow (concat (concat cmd.sender_id ":") cmd.room_id))
    if not allowed then fail (app rate_limited) else pure tt

  check_reply : SendMessageUseCase S → SendMessageCommand → Call S (Unit {0})
  check_reply u cmd =
      if not (cmd.reply_to_id == "")
      then (do
        replies ← u.messages.get_by_ids cmd.room_id (cmd.reply_to_id ∷ [])
        given (lookup cmd.reply_to_id replies) (fail (app reply_target)) (λ reply. pure tt))
      else pure tt

  -- `Execute` up to `msg.Validate()`: the message that may be saved.
  prepare : SendMessageUseCase S → SendMessageCommand → Call S Message
  unfolding check_limit check_reply message
  prepare u cmd = do
    check_limit u cmd
    exists ← u.messages.exists_by_client_msg_id cmd.sender_id cmd.client_msg_id
    if exists then fail (app duplicate_message) else do
      room ← u.rooms.get cmd.room_id
      if not (has_member room cmd.sender_id) then fail (app room_access_denied) else do
        id ← run u.ids.new
        now ← run u.clock.now
        check_reply u cmd
        lift (validate (message cmd id now))
        pure (message cmd id now)

  pub save : SendMessageUseCase S → Message → Call S (Unit {0})
  unfolding save_error
  save u msg = handle (u.messages.save msg) (λ e. fail (save_error e)) (λ done. pure tt)

  -- The fallback for a message that was saved: `failure` is the error of the step that failed.
  enqueue : SendMessageUseCase S → Error → Message → Bool → Call S Message
  enqueue u failure msg appended = given u.outbox (fail failure) λ outbox.
      handle (outbox.enqueue msg appended)
        (λ e. modify u.telemetry.inc_outbox_enqueue_failure >> fail e)
        (λ done. modify u.telemetry.inc_outbox_enqueued >> pure msg)

  -- `Execute` behind `u.messages.Save`.
  pub deliver : SendMessageUseCase S → Message → Call S Message
  unfolding enqueue
  deliver u msg =
      handle (u.stream.append_message msg.room_id msg)
        (λ e. modify u.telemetry.inc_stream_append_failure >> enqueue u e msg false)
        (λ stream_id.
          handle (u.bus.publish_message_created msg)
            (λ e. modify u.telemetry.inc_event_publish_failure >> enqueue u e msg true)
            (λ done. pure msg))

  unfoldable pub execute : SendMessageUseCase S → SendMessageCommand → Call S Message
  unfolding prepare save deliver
  execute u cmd = do msg ← prepare u cmd; save u msg; deliver u msg
