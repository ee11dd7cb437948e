-- ===== src/Http/Routes.antt =====
-- internal/adapters/inbound/http/handler.go: the middleware that tells who a request is from, and the
-- routes.
pub mod Callers
use aelora.Prelude.{String, ◌==◌, Bool, true, false, Option, none, some, if◌then◌else◌}
use aelora.Domain.{Result, ok, err}
use aelora.Call.{Call}
use aelora.Auth.{Identity}
use aelora.Http.Context.{Context, Reply, write_error}
use aelora.Http.Handlers.{
  Handler, Endpoint, create_room, join_room, send_message, list_messages, register_push_token,
  delete_push_token, live, ready,
}

-- Where authentication is off: the header, else the query, names the user.
abbrev claimed_user : Context → String
claimed_user c = let user = c.header "X-User-ID" in if user == "" then c.query "user_id" else user

module _ {S : Type 0} where
  -- Where it is on: the reply of the next handler for the identity of the token.
  abbrev pub admit : Endpoint S → Context → Result Identity × S → Reply × S
  admit next c (err e, s) = (write_error 401 "unauthorized" "unauthorized", s)
  admit next c (ok identity, s) = next (record c { identity = identity.user_id }) s

module _ {S : Type 0} (h : Handler S) where
  validator : Option (String → String → Call S Identity)
  validator = if h.auth_enabled then h.auth else none

  unfoldable pub with_auth : Endpoint S → Endpoint S
  unfolding validator
  with_auth next c s = elim validator [
    | none ↦ next (record c { identity = claimed_user c }) s
    | some validate ↦ admit next c (validate (c.header "Authorization") (c.header "X-Device-ID") s)
  ]

-- The routes of `RegisterRoutes` but the web socket's.
pub data Route : Type 0 where
  get_livez get_readyz get_healthz : Route
  post_rooms post_member post_messages get_messages put_push_token delete_push_token_route : Route

module _ {S : Type 0} (h : Handler S) where
  unfoldable pub serve : Route → Endpoint S
  unfolding create_room join_room send_message list_messages register_push_token delete_push_token
      live ready with_auth
  serve get_livez = live h
  serve get_readyz = ready h
  serve get_healthz = ready h
  serve post_rooms = with_auth h (create_room h)
  serve post_member = with_auth h (join_room h)
  serve post_messages = with_auth h (send_message h)
  serve get_messages = with_auth h (list_messages h)
  serve put_push_token = with_auth h (register_push_token h)
  serve delete_push_token_route = with_auth h (delete_push_token h)
