-- ===== src/Postgres/Messages.antt =====
-- internal/adapters/outbound/postgres/message_repo.go
pub mod Laws
pub mod Once
use aelora.Prelude.{
  ℕ, String, ◌==◌, Bool, true, false, ◌&&◌, ◌||◌, Option, none, some, List, [], ◌∷◌, ◌++◌, contains,
  insert, take, ltb, is_nil, concat, if◌then◌else◌,
}
use aelora.Prelude.Int.{ℤ, is_nonpos, to_nat}
use aelora.Domain.{Message, Error, Result, ok, err, duplicate_client_message}
use aelora.Call.{Call, pure, fail, ◌>>=◌, ◌>>◌}
use aelora.Ports.{MessageRepository}
use aelora.Postgres.{DedupRow, Db, Server, exec, transaction}

-- SELECT EXISTS (SELECT 1 FROM message_dedup WHERE client_msg_id = $1)
abbrev pub has_key : String → List DedupRow → Bool
has_key key [] = false
has_key key (row ∷ rest) = (row.client_msg_id == key) || has_key key rest

-- WHERE room_id = $1 AND created_at > $2
abbrev pub after : String → ℕ → List Message → List Message
after room_id since [] = []
after room_id since (m ∷ rest) =
    let later = after room_id since rest in
    if (m.room_id == room_id) && ltb since m.created_at then m ∷ later else later

-- ORDER BY created_at ASC, message_id ASC, as an insertion sort on an order of messages.
insert_message : (Message → Message → Bool) → Message → List Message → List Message
insert_message before m [] = m ∷ []
insert_message before m (n ∷ rest) =
    let later = n ∷ insert_message before m rest in if before n m then later else m ∷ n ∷ rest

pub order_by : (Message → Message → Bool) → List Message → List Message
unfolding insert_message
order_by before [] = []
order_by before (m ∷ rest) = insert_message before m (order_by before rest)

-- WHERE room_id = $1 AND message_id = ANY($2), and the loop that fills the map.
abbrev pub by_ids : String → List String → List Message → List (String × Message)
by_ids room_id ids [] = []
by_ids room_id ids (m ∷ rest) =
    let others = by_ids room_id ids rest in
    if (m.room_id == room_id) && contains m.id ids then insert m.id m others else others

abbrev default_limit : ℤ → ℕ
default_limit limit = if is_nonpos limit then 100 else to_nat limit

-- `digest` is the hexadecimal SHA-256 of a text; `before` is the order by creation time and id.
module _ (digest : String → String) (before : Message → Message → Bool) where
  abbrev pub dedup_key : String → String → String
  dedup_key sender_id client_msg_id = digest (concat (concat sender_id "\0") client_msg_id)

  -- INSERT INTO message_dedup … ON CONFLICT DO NOTHING: false where no row was affected.
  insert_dedup : Message → Db → Bool × Db
  insert_dedup msg db =
      let key = dedup_key msg.sender_id msg.client_msg_id in
      if has_key key db.message_dedup then (false, db) else (
        true,
        record db {
          message_dedup =
              db.message_dedup
              ++ record { client_msg_id = key; room_id = msg.room_id; message_id = msg.id } ∷ [];
        },
      )

  insert_row : Message → Db → Unit {0} × Db
  insert_row msg db = (tt, record db { messages = db.messages ++ msg ∷ [] })

  save_body : Message → Call Server (Unit {0})
  unfolding insert_dedup insert_row
  save_body msg = do
    fresh ← exec (insert_dedup msg)
    if fresh then exec (insert_row msg) else fail duplicate_client_message

  unfoldable pub save : Message → Call Server (Unit {0})
  unfolding save_body transaction
  save msg = transaction (save_body msg)

  unfoldable pub exists_by_client_msg_id : String → String → Call Server Bool
  exists_by_client_msg_id sender_id client_msg_id =
      exec (λ db. (has_key (dedup_key sender_id client_msg_id) db.message_dedup, db))

  unfoldable pub list_by_room : String → ℕ → ℤ → Call Server (List Message)
  list_by_room room_id since limit =
      exec
        (λ db. (take (default_limit limit) (order_by before (after room_id since db.messages)), db))

  unfoldable pub get_by_ids : String → List String → Call Server (List (String × Message))
  get_by_ids room_id ids =
      if is_nil ids then pure [] else exec (λ db. (by_ids room_id ids db.messages, db))

  abbrev pub repository : MessageRepository Server
  repository = record {
    save = save;
    exists_by_client_msg_id = exists_by_client_msg_id;
    list_by_room = list_by_room;
    get_by_ids = get_by_ids;
  }
