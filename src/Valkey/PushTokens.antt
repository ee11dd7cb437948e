-- ===== src/Valkey/PushTokens.antt =====
-- internal/adapters/outbound/valkey/push_token_repo.go
pub mod Find
pub mod Registered
use aelora.Prelude.{
  ℕ, String, ◌==◌, Bool, true, false, ◌||◌, Option, none, some, List, [], ◌∷◌, or_else, concat,
  if◌then◌else◌,
}
use aelora.Prelude.Parse.{split2}
use aelora.Call.{Call, pure, ◌>>=◌, ◌>>◌}
use aelora.Ports.{PushToken, PushTokenRepository}
use aelora.Valkey.{Client, push_token_key}

-- Ninety days.
abbrev pub push_token_ttl : ℕ
push_token_ttl = 7776000

abbrev both_parts : Option (String × String) → Option (String × String)
both_parts none = none
both_parts (some (platform, token)) =
    if (platform == "") || (token == "") then none else some (platform, token)

-- `none` for an error.
unfoldable pub split_token : String → Option (String × String)
split_token raw = both_parts (split2 "|" raw)

abbrev pub token_value : PushToken → String
token_value token = concat (concat token.platform "|") token.token

abbrev onto : String → String → Option (String × String) → List PushToken → List PushToken
onto user_id device_id none rest = rest
onto user_id device_id (some (platform, token)) rest =
    record { user_id = user_id; device_id = device_id; platform = platform; token = token } ∷ rest

-- The loop over the fields of the hash.
unfoldable pub tokens_of : String → List (String × String) → List PushToken
unfolding split_token
tokens_of user_id [] = []
tokens_of user_id ((device_id, raw) ∷ rest) =
    onto user_id device_id (split_token raw) (tokens_of user_id rest)

module _ {S : Type 0} (client : Client S) where
  unfoldable pub upsert : PushToken → Call S (Unit {0})
  upsert token = do
    client.hset (push_token_key token.user_id) token.device_id (token_value token)
    client.expire (push_token_key token.user_id) push_token_ttl

  unfoldable pub delete : String → String → Call S (Unit {0})
  delete user_id device_id = client.hdel (push_token_key user_id) device_id

  unfoldable pub list_by_user : String → Call S (List PushToken)
  unfolding tokens_of
  list_by_user user_id = do
    fields ← client.hgetall (push_token_key user_id)
    pure (tokens_of user_id (or_else fields []))

  abbrev pub push_token_repository : PushTokenRepository S
  push_token_repository = record { upsert = upsert; delete = delete; list_by_user = list_by_user }
