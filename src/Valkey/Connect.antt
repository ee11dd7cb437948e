-- ===== src/Valkey/Connect.antt =====
-- internal/adapters/outbound/valkey/client.go: the options that the client is made with.
use aelora.Prelude.{String, ◌==◌, List, [], ◌∷◌, if◌then◌else◌}
use aelora.Prelude.Int.{ℤ}
use aelora.Call.{Call}

-- `valkey.ClientOption`, with its defaults for the user.
pub record ClientOption : Type 0 where
  pub init_address : List String
  pub select_db : ℤ
  pub username : String
  pub password : String

abbrev with_username : String → ClientOption → ClientOption
with_username username opts = if username == "" then opts else record opts { username = username }

abbrev with_password : String → ClientOption → ClientOption
with_password password opts = if password == "" then opts else record opts { password = password }

-- `connect` is `valkey.NewClient`.
unfoldable pub new_client :
    {S C : Type 0} → (ClientOption → Call S C) → String → String → String → ℤ → Call S C
new_client connect addr username password db = connect (
    with_password password (
      with_username username
        (record { init_address = addr ∷ []; select_db = db; username = ""; password = "" })))
