-- ===== src/Application/SyncMessages.antt =====
-- internal/application/sync_messages.go
pub mod Replies
pub mod Recovery
pub mod Sync
pub mod Ack
use aelora.Prelude.{
  ℕ, ◌+◌, ◌-◌, ◌*◌, suc, String, ◌==◌, not, ◌&&◌, ◌||◌, Bool, true, false, Option, none, some, List,
  [], ◌∷◌, ◌++◌, contains, add, is_nil, trim_space, map, if◌then◌else◌,
}
use aelora.Prelude.Int.{ℤ, pos, negsuc, is_nonpos}
use aelora.Prelude.Parse.{split2, parse_int}
use aelora.Domain.{Message, app, room_access_denied, invalid_ack, Result, has_member}
use aelora.Call.{Call, pure, fail, given, ◌>>=◌, ◌>>◌}
use aelora.Ports.{RoomRepository, StreamRepository, AckRepository, MessageRepository, StreamMessage}

pub record SyncMessagesQuery : Type 0 where
  pub room_id : String
  pub user_id : String
  pub device_id : String
  pub last_ack : String
  pub limit : ℤ

-- `msgs` may be nil.
pub record SyncMessagesUseCase (S : Type 0) : Type 0 where
  pub rooms : RoomRepository S
  pub stream : StreamRepository S
  pub ack : AckRepository S
  pub msgs : Option (MessageRepository S)

pub record SyncMessagesResult : Type 0 where
  pub messages : List StreamMessage
  pub replies : List (String × Message)

-- The Unix epoch, in nanoseconds from Go's zero time.
abbrev pub unix_epoch : ℕ
unix_epoch = 62135596800000000000

-- `time.UnixMilli(ms).UTC()`
abbrev pub unix_milli : ℤ → ℕ
unix_milli (pos ms) = unix_epoch + ms * 1000000
unix_milli (negsuc ms) = unix_epoch - suc ms * 1000000

unfoldable pub stream_id_to_time : String → Option ℕ
stream_id_to_time stream_id = elim (split2 "-" stream_id) [
  | none ↦ none
  | some (ms, seq) ↦ elim (parse_int ms) [ none ↦ none | some n ↦ some (unix_milli n) ]
]

-- The zero time where the cursor is "0" or has no time.
unfoldable pub since_of : String → ℕ
unfolding stream_id_to_time
since_of last_ack =
    if not (last_ack == "") && not (last_ack == "0")
    then elim (stream_id_to_time last_ack) [ none ↦ 0 | some t ↦ t ]
    else 0

-- The loop over the messages, on `seen` and `replyIDs`.
collect_reply_ids : List String → List String → List StreamMessage → List String
collect_reply_ids seen ids [] = ids
collect_reply_ids seen ids (m ∷ rest) =
    let r = m.message.reply_to_id in
    let skip = (r == "") || contains r seen in
    collect_reply_ids (if skip then seen else add r seen) (if skip then ids else ids ++ r ∷ []) rest

module _ {S : Type 0} where
  -- The loop that appends each recovered message to the room's stream.
  backfill : StreamRepository S → String → List Message → Call S (List StreamMessage)
  backfill stream room_id [] = pure []
  backfill stream room_id (msg ∷ rest) = do
    stream_id ← stream.append_message room_id msg
    out ← backfill stream room_id rest
    pure (record { stream_id = stream_id; room_id = room_id; message = msg } ∷ out)

  recover_and_backfill :
      StreamRepository S → MessageRepository S → String → String → ℤ → Call S (List StreamMessage)
  unfolding backfill since_of
  recover_and_backfill stream msgs room_id last_ack limit = do
    history ← msgs.list_by_room room_id (since_of last_ack) limit
    if is_nil history then pure [] else backfill stream room_id history

  -- The cursor: the request's, else the stored one, else "0".
  cursor : SyncMessagesUseCase S → SyncMessagesQuery → Call S String
  cursor u q =
      if q.last_ack == ""
      then (do
        stored ← u.ack.get_last_ack q.user_id q.device_id q.room_id
        pure (if stored == "" then "0" else stored))
      else pure q.last_ack

  pub or_recover :
      SyncMessagesUseCase S → String → String → ℤ → List StreamMessage → Call S (List StreamMessage)
  unfolding recover_and_backfill
  or_recover u room_id last_ack limit messages = given u.msgs (pure messages) λ msgs.
      if is_nil messages
      then recover_and_backfill u.stream msgs room_id last_ack limit
      else pure messages

  pub hydrate : SyncMessagesUseCase S → String → List StreamMessage → Call S SyncMessagesResult
  unfolding collect_reply_ids
  hydrate u room_id messages =
      let reply_ids = collect_reply_ids [] [] messages in
      given u.msgs (pure (record { messages = messages; replies = [] })) λ msgs.
        if is_nil reply_ids then pure (record { messages = messages; replies = [] }) else do
          replies ← msgs.get_by_ids room_id reply_ids
          pure (record { messages = messages; replies = replies })

  unfoldable pub execute : SyncMessagesUseCase S → SyncMessagesQuery → Call S SyncMessagesResult
  unfolding cursor or_recover hydrate
  execute u q = do
    room ← u.rooms.get q.room_id
    if not (has_member room q.user_id) then fail (app room_access_denied) else do
      last_ack ← cursor u q
      let limit = if is_nonpos q.limit then pos 100 else q.limit
      read ← u.stream.read_from q.room_id last_ack limit
      messages ← or_recover u q.room_id last_ack limit read
      hydrate u q.room_id messages

pub record AckMessageCommand : Type 0 where
  pub room_id : String
  pub user_id : String
  pub device_id : String
  pub stream_id : String

abbrev is_blank : String → Bool
is_blank s = trim_space s == ""

unfoldable pub acknowledge :
    {S : Type 0} → RoomRepository S → AckRepository S → AckMessageCommand → Call S (Unit {0})
acknowledge rooms ack cmd =
    if is_blank cmd.room_id
      || is_blank cmd.user_id
      || is_blank cmd.device_id
      || is_blank cmd.stream_id
    then fail (app invalid_ack)
    else do
      room ← rooms.get cmd.room_id
      if not (has_member room cmd.user_id)
          then fail (app room_access_denied)
          else ack.set_last_ack cmd.user_id cmd.device_id cmd.room_id cmd.stream_id

unfoldable pub stream_messages_to_domain_messages : List StreamMessage → List Message
stream_messages_to_domain_messages [] = []
stream_messages_to_domain_messages (m ∷ rest) = m.message ∷ stream_messages_to_domain_messages rest
