-- ===== src/Application/JoinRoom/Laws.antt =====
-- Who may add a member to a room.
use aelora.Prelude.{◌≡◌, ◌≢◌, ◌⊎◌, String, true, false, some, List, contains}
use aelora.Domain.{Result, ok, err}
use aelora.Call.{Call, Keeps}
use aelora.Call.Post.{Post}
use aelora.Ports.{RoomRepository}
use aelora.Application.JoinRoom.{JoinRoomCommand}

module _ {S : Type 0} (rooms : RoomRepository S) (cmd : JoinRoomCommand) (s : S) where
  -- The role lookup, begun in `listed`, has found an owner or an admin.
  pub record MayAdd (listed checked : S) : Type 0 where
    pub get_role : String → String → Call S String
    pub role : String
    pub has_roles : rooms.get_member_role ≡ some get_role
    pub role_found : get_role cmd.room_id cmd.actor_id listed ≡ (ok role, checked)
    pub may_add : (role ≡ "owner") ⊎ (role ≡ "admin")

  -- The actor is a member with the role of an owner or an admin, the user is no member yet, and
  -- the call has ended as `add_member` does: with result `r`, in state `s'`.
  pub record Added (r : Result (Unit {0})) (s' : S) : Type 0 where
    pub members : List String
    pub listed : S
    pub checked : S
    pub differ : cmd.actor_id ≢ cmd.user_id
    pub listing : rooms.list_members cmd.room_id s ≡ (ok members, listed)
    pub actor_in : contains cmd.actor_id members ≡ true
    pub user_out : contains cmd.user_id members ≡ false
    pub allowed : MayAdd listed checked
    pub adds : rooms.add_member cmd.room_id cmd.user_id checked ≡ (r, s')

  -- The call has failed, and `P` still stands.
  pub record Refused (P : S → Type 0) (r : Result (Unit {0})) (s' : S) : Type 0 where
    pub fails : r ≢ ok tt
    pub kept : P s'

  module _ (P : S → Type 0) (list_keeps : (room : String) → Keeps P (rooms.list_members room))
      (role_keeps : (get_role : String → String → Call S String)
        → rooms.get_member_role ≡ some get_role
        → (room user : String) → Keeps P (get_role room user))
      (start : P s) where
    abbrev Ends : Result (Unit {0}) → S → Type 0
    Ends r s' = Refused P r s' ⊎ Added r s'

    listed : {s1 : S} {r : Result (List String)} → rooms.list_members cmd.room_id s ≡ (r, s1) → P s1
    listed l = rw l at (list_keeps cmd.room_id s start)

    abbrev Checked : S → Result (Unit {0}) → S → Type 0
    Checked listed (ok done) checked = MayAdd listed checked
    Checked listed (err e) checked = P checked
