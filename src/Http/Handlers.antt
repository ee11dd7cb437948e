-- ===== src/Http/Handlers.antt =====
-- internal/adapters/inbound/http/crud.go: the routes' handlers. The audit log is left out.
use aelora.Prelude.{
  ℕ, String, ◌==◌, Bool, not, ◌||◌, Option, none, some, List, [], ◌∷◌, length, if◌then◌else◌,
}
use aelora.Prelude.Int.{ℤ, pos}
use aelora.Prelude.Parse.{parse_int}
use aelora.Domain.{Message, Result, ok, err}
use aelora.Call.{Call}
use aelora.Ports.{RoomRepository, PushTokenRepository}
use aelora.Application.CreateRoom.{CreateRoomUseCase}
use aelora.Application.CreateRoom.{execute as execute_create}
use aelora.Application.JoinRoom.{execute as execute_join}
use aelora.Application.ListMessages.{ListMessagesUseCase}
use aelora.Application.ListMessages.{execute as execute_list}
use aelora.Application.SendMessage.{SendMessageUseCase}
use aelora.Application.SendMessage.{execute as execute_send}
use aelora.Application.Push.{register, delete}
use aelora.Auth.{Identity}
use aelora.Health.{Report}
use aelora.Http.Context.{
  Bound, refused, bound, Context, MessageResponse, membership, item, page, texts, report, Reply,
  write_success, write_error, write_app_error, to_item_response,
}

-- The fields of `app.App` and of the handler that the routes use. `push_tokens` is the repository
-- of RegisterPush and DeletePush, `parse_time` and `format_time` are package time's.
pub record Handler (S : Type 0) : Type 0 where
  pub create_room : CreateRoomUseCase S
  pub join_room : RoomRepository S
  pub send_message : SendMessageUseCase S
  pub list_messages : ListMessagesUseCase S
  pub push_tokens : PushTokenRepository S
  pub hub_rooms : RoomRepository S
  pub auth_enabled : Bool
  pub auth : Option (String → String → Call S Identity)
  pub health : Option (S → Report × S)
  pub parse_time : String → Option ℕ
  pub format_time : ℕ → String

-- A handler: its reply, and the state behind it.
abbrev pub Endpoint : Type 0 → Type 0
Endpoint S = Context → S → Reply × S

-- The identity that was set, else the header.
abbrev pub user_id : Context → String
user_id c = if c.identity == "" then c.header "X-User-ID" else c.identity

abbrev missing_user_identity : Reply
missing_user_identity = write_error 400 "missing_user_identity" "missing user identity"

module _ {S A : Type 0} where
  -- The two ways on from a use case: its error is the reply, or its result makes one.
  abbrev reply_or : (A → S → Reply × S) → Result A × S → Reply × S
  reply_or on_ok (err e, s) = (write_app_error e, s)
  reply_or on_ok (ok a, s) = on_ok a s

  abbrev with_body : Bound A → (A → S → Reply × S) → S → Reply × S
  with_body (refused text) k s = (write_error 400 "invalid_json" text, s)
  with_body (bound req) k s = k req s

abbrev message_response : Message → MessageResponse
message_response msg = record {
  message_id = msg.id;
  client_msg_id = msg.client_msg_id;
  room_id = msg.room_id;
  sender_id = msg.sender_id;
  content = msg.content;
  reply_to_message = msg.reply_to_id;
  created_at = msg.created_at;
}

abbrev message_responses : List Message → List MessageResponse
message_responses [] = []
message_responses (msg ∷ rest) = message_response msg ∷ message_responses rest

-- `limit` of the query: `none` where it is no number.
abbrev query_limit : String → Option ℤ
query_limit raw = if raw == "" then some (pos 50) else parse_int raw

module _ {S : Type 0} (h : Handler S) where
  unfoldable pub create_room : Endpoint S
  create_room c = with_body c.bind_create_room λ req s.
      let user = user_id c in
      if user == ""
      then (missing_user_identity, s)
      else reply_or
          (λ room s. (
            write_success 201 (
                membership (record {
                  room_id = room.id;
                  members = room.members;
                  actor = user;
                  added_user_id = "";
                })),
            s,
          ))
          (execute_create h.create_room (record { creator = user; member_ids = req.member_ids }) s)

  unfoldable pub join_room : Endpoint S
  join_room c s =
      let user = user_id c in
      let target = c.param "user_id" in
      let room_id = c.param "room_id" in
      if user == ""
      then (missing_user_identity, s)
      else if (room_id == "") || (target == "")
      then (write_error 400 "missing_path_param" "missing room_id or user_id in path", s)
      else reply_or
          (λ done s.
            reply_or
              (λ members s. (
                write_success 200 (
                    membership (record {
                      room_id = room_id;
                      members = members;
                      actor = user;
                      added_user_id = target;
                    })),
                s,
              ))
              (h.hub_rooms.list_members room_id s))
          (execute_join h.join_room
            (record { room_id = room_id; actor_id = user; user_id = target }) s)

  unfoldable pub send_message : Endpoint S
  send_message c = with_body c.bind_send_message λ req s.
      let room_id = c.param "room_id" in
      let user = user_id c in
      if (user == "") || (room_id == "")
      then (write_error 400 "missing_field" "missing user identity or room_id", s)
      else reply_or (λ msg s. (write_success 201 (item (to_item_response h.format_time msg)), s))
          (execute_send h.send_message
            (record {
              room_id = room_id;
              sender_id = user;
              content = req.content;
              client_msg_id = req.client_msg_id;
              reply_to_id = req.reply_to_id;
            })
            s)

  -- The page of messages since a time.
  list_since : String → String → ℤ → ℕ → S → Reply × S
  list_since room_id user limit since s =
      reply_or
        (λ messages s. (
          write_success 200 (
              page room_id (message_responses messages) (length (message_responses messages))
                limit),
          s,
        ))
        (execute_list h.list_messages
          (record { room_id = room_id; user_id = user; limit = limit; since = since }) s)

  -- Go's zero time, or the time that the query names.
  abbrev query_since : String → Option ℕ
  query_since raw = if raw == "" then some 0 else h.parse_time raw

  list_limited : String → String → Option ℕ → Option ℤ → S → Reply × S
  unfolding list_since
  list_limited room_id user since none s = (write_error 400 "invalid_limit" "invalid limit", s)
  list_limited room_id user none (some limit) s =
      (write_error 400 "invalid_since" "invalid since timestamp", s)
  list_limited room_id user (some since) (some limit) s = list_since room_id user limit since s

  unfoldable pub list_messages : Endpoint S
  unfolding list_limited
  list_messages c s =
      let user = user_id c in
      if user == ""
      then (missing_user_identity, s)
      else list_limited (c.param "room_id") user (query_since (c.query "since"))
          (query_limit (c.query "limit")) s

  unfoldable pub register_push_token : Endpoint S
  register_push_token c s =
      let user = user_id c in
      let device_id = c.param "device_id" in
      if user == ""
      then (missing_user_identity, s)
      else with_body c.bind_register_push_token
          (λ req s.
            if device_id == ""
            then (write_error 400 "missing_device_id" "missing device_id in path", s)
            else reply_or
                (λ done s. (
                  write_success 200 (
                      texts (
                        ("user_id", user)
                        ∷ ("device_id", device_id)
                        ∷ ("platform", req.platform)
                        ∷ ("action", "registered")
                        ∷ [])),
                  s,
                ))
                (register h.push_tokens
                  (record {
                    user_id = user;
                    device_id = device_id;
                    platform = req.platform;
                    token = req.token;
                  })
                  s))
          s

  unfoldable pub delete_push_token : Endpoint S
  delete_push_token c s =
      let user = user_id c in
      let device_id = c.param "device_id" in
      if user == ""
      then (missing_user_identity, s)
      else if device_id == ""
      then (write_error 400 "missing_device_id" "missing device_id in path", s)
      else reply_or
          (λ done s. (
            write_success 200
                (texts (("user_id", user) ∷ ("device_id", device_id) ∷ ("action", "deleted") ∷ [])),
            s,
          ))
          (delete h.push_tokens (record { user_id = user; device_id = device_id }) s)

  unfoldable pub live : Endpoint S
  live c s = (write_success 200 (texts (("status", "ok") ∷ [])), s)

  ready_reply : Report → Reply
  ready_reply found =
      if not (found.status == "ok")
      then write_error 503 "service_unavailable" "service unavailable"
      else write_success 200 (report found)

  unfoldable pub ready : Endpoint S
  unfolding ready_reply
  ready c s = elim h.health [
    | none ↦ (write_success 200 (texts (("status", "ok") ∷ [])), s)
    | some check ↦ let (found, s') = check s in (ready_reply found, s')
  ]
