-- ===== src/Domain.antt =====
-- internal/domain and internal/application/errors.go: rooms, messages, and the error values.
pub mod Laws
use aelora.Prelude.{
  ℕ, String, len, ◌==◌, Bool, true, ◌||◌, List, [], ◌∷◌, ltb, is_nil, contains, add, trim_space,
  if◌then◌else◌,
}

-- The `*AppError` values of errors.go.
pub data AppError : Type 0 where
  duplicate_message rate_limited room_access_denied reply_target invalid_push_token : AppError
  user_already_exists invalid_ack : AppError

-- An `error`: an `*AppError`, a sentinel of package domain, the sentinels of package auth, or
-- whatever a dependency returned, which wraps none of those.
pub data Error : Type 0 where
  app : AppError → Error
  invalid_room room_not_found room_already_exists : Error
  invalid_message duplicate_client_message : Error
  unauthorized : Error
  other : String → Error

pub data Result (A : Type 0) : Type 0 where
  ok : A → Result A
  err : Error → Result A

pub record Room : Type 0 where
  pub id : String
  pub members : List String

-- `created_at` counts nanoseconds from Go's zero time.
pub record Message : Type 0 where
  pub id : String
  pub client_msg_id : String
  pub room_id : String
  pub sender_id : String
  pub content : String
  pub reply_to_id : String
  pub created_at : ℕ

-- The loop of `NewRoom`: `set` holds the members so far.
collect : List String → List String → Result (List String)
collect set [] = ok set
collect set (member ∷ rest) =
    if member == "" then err invalid_room else collect (add member set) rest

unfoldable pub new_room : String → List String → Result Room
unfolding collect
new_room id members = if id == "" then err invalid_room else elim (collect [] members) [
  | err e ↦ err e
  | ok set ↦ if is_nil set then err invalid_room else ok (record { id = id; members = set })
]

unfoldable pub has_member : Room → String → Bool
has_member r user_id = contains user_id r.members

abbrev pub max_content : ℕ
max_content = 4000

unfoldable pub validate : Message → Result (Unit {0})
validate m =
    if (m.room_id == "") || (m.sender_id == "") || (m.client_msg_id == "")
    then err invalid_message
    else if trim_space m.content == ""
    then err invalid_message
    else if ltb max_content (len m.content)
    then err invalid_message
    else ok tt
