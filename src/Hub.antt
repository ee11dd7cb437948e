-- ===== src/Hub.antt =====
-- internal/adapters/inbound/http/hub.go. A client is known by its address, here a number; what the
-- connection and the log do is left out. Broadcasts and registrations are taken one after another.
pub mod Laws
use aelora.Prelude.{
  ℕ, String, ◌==◌, Bool, true, false, not, ◌||◌, Option, none, some, List, [], ◌∷◌, lookup, insert,
  delete, is_nil, eqb, if◌then◌else◌,
}
use aelora.Domain.{Message, Result, ok, err}
use aelora.Ports.{RoomRepository}
use aelora.Application.Push.{NotifyOfflineMembersUseCase, notify_offline}
use aelora.WebSocket.{WsClient, WsResponse, created, enqueue, close}

-- `clients` is the memory that the addresses point to.
pub record Hub : Type 0 where
  pub users : List (String × List ℕ)
  pub clients : ℕ → WsClient

abbrev pub has_id : ℕ → List ℕ → Bool
has_id id [] = false
has_id id (j ∷ rest) = let later = has_id id rest in if eqb j id then true else later

abbrev add_id : ℕ → List ℕ → List ℕ
add_id id ids = if has_id id ids then ids else id ∷ ids

abbrev remove_id : ℕ → List ℕ → List ℕ
remove_id id [] = []
remove_id id (j ∷ rest) = let later = remove_id id rest in if eqb j id then later else j ∷ later

abbrev ids_or_none : Option (List ℕ) → List ℕ
ids_or_none none = []
ids_or_none (some ids) = ids

unfoldable pub clients_for_user : Hub → String → List ℕ
clients_for_user h user_id = ids_or_none (lookup user_id h.users)

unfoldable pub register : ℕ → Hub → Hub
unfolding clients_for_user
register id h =
    let user_id = (h.clients id).user_id in
    record h { users = insert user_id (add_id id (clients_for_user h user_id)) h.users }

abbrev pub set_client : ℕ → WsClient → Hub → Hub
set_client id c h = record h { clients = λ j. if eqb j id then c else h.clients j }

drop_client : ℕ → String → Option (List ℕ) → Hub → Hub
drop_client id user_id none h = h
drop_client id user_id (some ids) h =
    let left = remove_id id ids in
    set_client id (close (h.clients id)) (record h {
      users = if is_nil left then delete user_id h.users else insert user_id left h.users;
    })

-- A user that is not registered is left alone, and the client is not closed.
unfoldable pub unregister : ℕ → Hub → Hub
unfolding drop_client
unregister id h =
    let user_id = (h.clients id).user_id in drop_client id user_id (lookup user_id h.users) h

abbrev pub frame : Message → WsResponse
frame msg = record { kind = "message_created"; message = created msg; error = "" }

-- The frame, offered to one client.
unfoldable pub offer : Message → ℕ → Hub → Hub
unfolding unregister
offer msg id h =
    let (sent, c) = enqueue (h.clients id) (frame msg) in
    let h' = set_client id c h in if sent then h' else unregister id h'

offer_all : Message → List ℕ → Hub → Hub
unfolding offer
offer_all msg [] h = h
offer_all msg (id ∷ rest) h = offer_all msg rest (offer msg id h)

module _ {S : Type 0} (rooms : RoomRepository S)
    (push : Option (NotifyOfflineMembersUseCase S)) where
  push_offline : Option (NotifyOfflineMembersUseCase S) → Message → String → S → S
  push_offline none msg member s = s
  push_offline (some u) msg member s = (notify_offline u msg member s).1

  -- One round of the loop over the members.
  unfoldable pub reach : Message → String → Hub × S → Hub × S
  unfolding offer_all push_offline
  reach msg member (h, s) =
      if member == msg.sender_id
      then (h, s)
      else let clients = clients_for_user h member in
        let h' = offer_all msg clients h in
        if not (is_nil clients) then (h', s) else (h', push_offline push msg member s)

  reach_all : Message → List String → Hub × S → Hub × S
  unfolding reach
  reach_all msg [] w = w
  reach_all msg (member ∷ rest) w = reach_all msg rest (reach msg member w)

  abbrev listed : Message → Hub → Result (List String) × S → Hub × S
  listed msg h (ok members, s) = reach_all msg members (h, s)
  listed msg h (err e, s) = (h, s)

  unfoldable pub broadcast_message_created : Message → Hub × S → Hub × S
  unfolding reach_all
  broadcast_message_created msg (h, s) = listed msg h (rooms.list_members msg.room_id s)

  -- `Run`: the messages that the subscription's channel holds until it is closed.
  unfoldable pub run : List Message → Hub × S → Hub × S
  unfolding broadcast_message_created
  run [] w = w
  run (msg ∷ rest) w = run rest (broadcast_message_created msg w)
