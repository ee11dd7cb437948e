-- ===== src/Domain/Laws.antt =====
-- What `NewRoom` and `Message.Validate` accept.
use aelora.Prelude.{
  ◌≤◌, ◌≡◌, ◌≢◌, ◌↔◌, refl, String, len, eq_iff, false, ◌||◌, List, [], ◌∷◌, arith, contains,
  contains-add, add, trim_space,
}
use aelora.Domain.{Room, Message, ok, collect, new_room, has_member, validate, max_content}

-- What a message must be to pass.
pub record IsSendable (m : Message) : Type 0 where
  pub room : m.room_id ≢ ""
  pub sender : m.sender_id ≢ ""
  pub client : m.client_msg_id ≢ ""
  pub visible : trim_space m.content ≢ ""
  pub short : len m.content ≤ max_content

-- Validation passes exactly the messages that name their room, sender and client id, and whose
-- content is not blank and has at most 4000 bytes.
pub validate_iff : (m : Message) → (validate m ≡ ok tt) ↔ IsSendable m
unfolding validate
validate_iff m = ground (
  arith,
  eq_iff m.room_id "",
  eq_iff m.sender_id "",
  eq_iff m.client_msg_id "",
  eq_iff (trim_space m.content) "",
)

-- What the member loop of `NewRoom` collects: it fails at an empty name, and else keeps exactly
-- the names that it has met.
collect-contains :
    (set members out : List String) (u : String)
    → collect set members ≡ ok out
    → contains u out ≡ contains u set || contains u members
unfolding collect
collect-contains set [] out u h = ground arith
collect-contains set (m ∷ rest) out u h =
    ground (arith, collect-contains (add m set) rest out u, contains-add m u set)

collect-no-empty :
    (set members out : List String) → collect set members ≡ ok out → contains "" members ≡ false
unfolding collect
collect-no-empty set [] out h = refl
collect-no-empty set (m ∷ rest) out h = ground (arith, collect-no-empty (add m set) rest out)

-- A room that `NewRoom` builds has the id that it was given, which is not empty, at least one
-- member, exactly the listed users as members, and the empty name is not one of them.
pub new_room-members :
    (id : String) (members : List String) (room : Room) (u : String)
    → new_room id members ≡ ok room
    → (room.id ≡ id)
      × (id ≢ "")
      × (has_member room u ≡ contains u members)
      × (contains "" members ≡ false)
      × (room.members ≢ [])
unfolding new_room has_member
new_room-members id members room u h = ground (
  arith,
  eq_iff id "",
  collect-contains [] members room.members u,
  collect-no-empty [] members room.members,
)
