-- ===== src/Application/ListMessages.antt =====
-- internal/application/list_messages.go
pub mod Laws
use aelora.Prelude.{ℕ, String, Bool, true, false, not, List, ltb, if◌then◌else◌}
use aelora.Prelude.Int.{ℤ, pos, is_nonpos, to_nat}
use aelora.Domain.{Message, app, room_access_denied, has_member}
use aelora.Call.{Call, fail, ◌>>=◌}
use aelora.Ports.{RoomRepository, MessageRepository}

pub record ListMessagesQuery : Type 0 where
  pub room_id : String
  pub user_id : String
  pub since : ℕ
  pub limit : ℤ

pub record ListMessagesUseCase (S : Type 0) : Type 0 where
  pub rooms : RoomRepository S
  pub messages : MessageRepository S

-- The two tests on `q.Limit`, in their order.
unfoldable pub clamp_limit : ℤ → ℤ
clamp_limit limit =
    let limit' = if is_nonpos limit then pos 50 else limit in
    if ltb 500 (to_nat limit') then pos 500 else limit'

module _ {S : Type 0} where
  unfoldable pub execute : ListMessagesUseCase S → ListMessagesQuery → Call S (List Message)
  unfolding clamp_limit
  execute u q = do
    room ← u.rooms.get q.room_id
    if not (has_member room q.user_id)
        then fail (app room_access_denied)
        else u.messages.list_by_room q.room_id q.since (clamp_limit q.limit)
