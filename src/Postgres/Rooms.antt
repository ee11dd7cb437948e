-- ===== src/Postgres/Rooms.antt =====
-- internal/adapters/outbound/postgres/room_repo.go
pub mod Creation
use aelora.Prelude.{
  String, ◌==◌, Bool, true, false, ◌&&◌, Option, none, some, List, [], ◌∷◌, ◌++◌, contains, is_nil,
  if◌then◌else◌,
}
use aelora.Domain.{Room, room_not_found, room_already_exists, new_room}
use aelora.Call.{Call, pure, fail, lift, ◌>>=◌, ◌>>◌}
use aelora.Ports.{RoomRepository}
use aelora.Postgres.{MemberRow, Db, Server, exec, transaction}

-- SELECT user_id FROM room_members WHERE room_id = $1
abbrev pub members_of : String → List MemberRow → List String
members_of room_id [] = []
members_of room_id (row ∷ rest) =
    let others = members_of room_id rest in
    if row.room_id == room_id then row.user_id ∷ others else others

-- SELECT role FROM room_members WHERE room_id = $1 AND user_id = $2
abbrev pub role_of : String → String → List MemberRow → Option String
role_of room_id user_id [] = none
role_of room_id user_id (row ∷ rest) =
    if (row.room_id == room_id) && (row.user_id == user_id)
    then some row.role
    else role_of room_id user_id rest

-- INSERT INTO rooms (id) VALUES ($1): false is the unique violation 23505.
insert_room : String → Db → Bool × Db
insert_room id db =
    if contains id db.rooms then (false, db) else (true, record db { rooms = db.rooms ++ id ∷ [] })

abbrev pub new_member : String → String → MemberRow
new_member room_id user_id = record { room_id = room_id; user_id = user_id; role = "member" }

-- INSERT INTO room_members … VALUES ($1, $2, 'member')
insert_member : String → String → Db → Unit {0} × Db
insert_member room_id user_id db =
    (tt, record db { room_members = db.room_members ++ new_member room_id user_id ∷ [] })

-- The same with ON CONFLICT (room_id, user_id) DO NOTHING; the column's default role is 'member'.
insert_member_once : String → String → Db → Unit {0} × Db
unfolding insert_member
insert_member_once room_id user_id db =
    if contains user_id (members_of room_id db.room_members)
    then (tt, db)
    else insert_member room_id user_id db

-- UPDATE room_members SET role = $1 WHERE room_id = $2 AND user_id = $3
abbrev pub set_role : String → String → String → List MemberRow → List MemberRow
set_role role room_id user_id [] = []
set_role role room_id user_id (row ∷ rest) =
    (if (row.room_id == room_id) && (row.user_id == user_id)
      then record row { role = role }
      else row)
    ∷ set_role role room_id user_id rest

-- The rows affected, as whether there is one, and the table.
update_role : String → String → String → Db → Bool × Db
update_role role room_id user_id db = (
  contains user_id (members_of room_id db.room_members),
  record db { room_members = set_role role room_id user_id db.room_members },
)

-- `sort.Strings`, as an insertion sort on an order of texts.
insert_sorted : (String → String → Bool) → String → List String → List String
insert_sorted before a [] = a ∷ []
insert_sorted before a (b ∷ rest) =
    let later = b ∷ insert_sorted before a rest in if before b a then later else a ∷ b ∷ rest

pub sort_strings : (String → String → Bool) → List String → List String
unfolding insert_sorted
sort_strings before [] = []
sort_strings before (a ∷ rest) = insert_sorted before a (sort_strings before rest)

-- `before` is the order of texts that `sort.Strings` sorts by: byte by byte.
module _ (before : String → String → Bool) where
  unfoldable pub list_members : String → Call Server (List String)
  unfolding sort_strings
  list_members room_id = do
    members ← exec (λ db. (members_of room_id db.room_members, db))
    if is_nil members then fail room_not_found else pure (sort_strings before members)

  unfoldable pub get : String → Call Server Room
  unfolding list_members
  get room_id = do members ← list_members room_id; lift (new_room room_id members)

-- The loop over the members, each a statement.
insert_members : String → List String → Call Server (Unit {0})
unfolding insert_member
insert_members room_id [] = pure tt
insert_members room_id (member ∷ rest) =
    exec (insert_member room_id member) >> insert_members room_id rest

-- The statements of the transaction in `Create`.
create_body : Room → Call Server (Unit {0})
unfolding insert_room insert_members
create_body room = do
  fresh ← exec (insert_room room.id)
  if fresh then insert_members room.id room.members else fail room_already_exists

unfoldable pub create : Room → Call Server (Unit {0})
unfolding create_body transaction
create room = transaction (create_body room)

unfoldable pub add_member : String → String → Call Server (Unit {0})
unfolding insert_member_once
add_member room_id user_id = do
  exists ← exec (λ db. (contains room_id db.rooms, db))
  if exists then exec (insert_member_once room_id user_id) else fail room_not_found

abbrev found_or_missing : Option String → Call Server String
found_or_missing none = fail room_not_found
found_or_missing (some role) = pure role

unfoldable pub get_member_role : String → String → Call Server String
get_member_role room_id user_id = do
  found ← exec (λ db. (role_of room_id user_id db.room_members, db))
  found_or_missing found

unfoldable pub set_member_role : String → String → String → Call Server (Unit {0})
unfolding update_role
set_member_role room_id user_id role = do
  updated ← exec (update_role role room_id user_id)
  if updated then pure tt else fail room_not_found

abbrev pub repository : (String → String → Bool) → RoomRepository Server
repository before = record {
  get = get before;
  create = create;
  add_member = add_member;
  list_members = list_members before;
  get_member_role = some get_member_role;
  set_member_role = some set_member_role;
}
