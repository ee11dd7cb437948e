-- ===== src/Http/Routes/Callers.antt =====
-- crud.go and handler.go: where authentication is on, nothing but the token names the user.
use aelora.Prelude.{
  String, ◌==◌, eq_iff, ◌≡◌, ◌≢◌, refl, sym, ◌∙◌, true, some, Bool-cases, arith, inl, inr,
}
use aelora.Domain.{Result, ok, err}
use aelora.Call.{Call}
use aelora.Auth.{Identity, Session, Platform, CognitoValidator, validate_token}
use aelora.Auth.Tokens.{validate_token-Nonempty}
use aelora.Http.Context.{Context}
use aelora.Http.Handlers.{
  Handler, Endpoint, user_id, create_room, join_room, send_message, list_messages,
  register_push_token, delete_push_token, live, ready,
}
use aelora.Http.Routes.{
  with_auth, admit, Route, serve, get_livez, get_readyz, get_healthz, post_rooms, post_member,
  post_messages, get_messages, put_push_token, delete_push_token_route,
}

-- Two contexts of the same user that agree on what the routes read beside the user.
record Alike (c c' : Context) : Type 0 where
  user : user_id c ≡ user_id c'
  param : c.param ≡ c'.param
  limit : c.query "limit" ≡ c'.query "limit"
  since : c.query "since" ≡ c'.query "since"
  create : c.bind_create_room ≡ c'.bind_create_room
  send : c.bind_send_message ≡ c'.bind_send_message
  push : c.bind_register_push_token ≡ c'.bind_register_push_token

-- Two requests that agree on all but what a client may claim without a token.
pub record SameToken (c c' : Context) : Type 0 where
  pub token : c.header "Authorization" ≡ c'.header "Authorization"
  pub device : c.header "X-Device-ID" ≡ c'.header "X-Device-ID"
  pub param : c.param ≡ c'.param
  pub limit : c.query "limit" ≡ c'.query "limit"
  pub since : c.query "since" ≡ c'.query "since"
  pub create : c.bind_create_room ≡ c'.bind_create_room
  pub send : c.bind_send_message ≡ c'.bind_send_message
  pub push : c.bind_register_push_token ≡ c'.bind_register_push_token

named_user :
    (c : Context) (user : String) → user ≢ "" → user_id (record c { identity = user }) ≡ user
named_user c user n = elim (Bool-cases (user == "")) [
  | inl b ↦ ground (arith, eq_iff user "")
  | inr b ↦ rw b refl
]

alike :
    (c c' : Context) (user : String)
    → user ≢ ""
    → SameToken c c'
    → Alike (record c { identity = user }) (record c' { identity = user })
alike c c' user n t = record {
  user = named_user c user n ∙ sym (named_user c' user n);
  param = t.param;
  limit = t.limit;
  since = t.since;
  create = t.create;
  send = t.send;
  push = t.push;
}

module _ {S : Type 0} where
  -- A handler that cannot tell such contexts apart.
  Blind : Endpoint S → Type 0
  Blind next = (c c' : Context) → Alike c c' → (s : S) → next c s ≡ next c' s

  create_room-Blind : (h : Handler S) → Blind (create_room h)
  unfolding create_room Blind
  create_room-Blind h c c' a s = rw (a.user, a.create) refl

  join_room-Blind : (h : Handler S) → Blind (join_room h)
  unfolding join_room Blind
  join_room-Blind h c c' a s = rw (a.user, a.param) refl

  send_message-Blind : (h : Handler S) → Blind (send_message h)
  unfolding send_message Blind
  send_message-Blind h c c' a s = rw (a.user, a.param, a.send) refl

  list_messages-Blind : (h : Handler S) → Blind (list_messages h)
  unfolding list_messages Blind
  list_messages-Blind h c c' a s = rw (a.user, a.param, a.limit, a.since) refl

  register-Blind : (h : Handler S) → Blind (register_push_token h)
  unfolding register_push_token Blind
  register-Blind h c c' a s = rw (a.user, a.param, a.push) refl

  delete-Blind : (h : Handler S) → Blind (delete_push_token h)
  unfolding delete_push_token Blind
  delete-Blind h c c' a s = rw (a.user, a.param) refl

  -- A validator that answers no user without a name.
  NamesUsers : (String → String → Call S Identity) → Type 0
  NamesUsers validate =
      (token device : String) (id : Identity) (s s' : S)
      → validate token device s ≡ (ok id, s')
      → id.user_id ≢ ""

  admit-Blind :
      (next : Endpoint S)
      → Blind next
      → (validate : String → String → Call S Identity) → NamesUsers validate
      → (c c' : Context) → SameToken c c'
      → (s : S) (r : Result Identity) (s' : S)
      → validate (c.header "Authorization") (c.header "X-Device-ID") s ≡ (r, s')
      → admit next c (r, s') ≡ admit next c' (r, s')
  unfolding Blind NamesUsers
  admit-Blind next blind validate names c c' t s (err e) s' h = refl
  admit-Blind next blind validate names c c' t s (ok id) s' h =
      blind _ _ (alike c c' id.user_id (names _ _ id s s' h) t) s'

  with_auth-Blind :
      (h : Handler S) (validate : String → String → Call S Identity)
      → h.auth_enabled ≡ true
      → h.auth ≡ some validate
      → NamesUsers validate
      → (next : Endpoint S) → Blind next
      → (c c' : Context) → SameToken c c'
      → (s : S) → with_auth h next c s ≡ with_auth h next c' s
  unfolding with_auth
  with_auth-Blind h validate on auth names next blind c c' t s =
      rw (on, auth, sym t.token, sym t.device)
        (admit-Blind next blind validate names c c' t s _ _ refl)

  serve-Blind :
      (h : Handler S) (validate : String → String → Call S Identity)
      → h.auth_enabled ≡ true
      → h.auth ≡ some validate
      → NamesUsers validate
      → (r : Route) (c c' : Context) → SameToken c c'
      → (s : S) → serve h r c s ≡ serve h r c' s
  unfolding serve live ready
  serve-Blind h validate on auth names get_livez c c' t s = refl
  serve-Blind h validate on auth names get_readyz c c' t s = refl
  serve-Blind h validate on auth names get_healthz c c' t s = refl
  serve-Blind h validate on auth names post_rooms c c' t s =
      with_auth-Blind h validate on auth names (create_room h) (create_room-Blind h) c c' t s
  serve-Blind h validate on auth names post_member c c' t s =
      with_auth-Blind h validate on auth names (join_room h) (join_room-Blind h) c c' t s
  serve-Blind h validate on auth names post_messages c c' t s =
      with_auth-Blind h validate on auth names (send_message h) (send_message-Blind h) c c' t s
  serve-Blind h validate on auth names get_messages c c' t s =
      with_auth-Blind h validate on auth names (list_messages h) (list_messages-Blind h) c c' t s
  serve-Blind h validate on auth names put_push_token c c' t s =
      with_auth-Blind h validate on auth names (register_push_token h) (register-Blind h) c c' t s
  serve-Blind h validate on auth names delete_push_token_route c c' t s =
      with_auth-Blind h validate on auth names (delete_push_token h) (delete-Blind h) c c' t s

-- Where authentication is on with the pool's validator, two requests with the same Authorization and
-- X-Device-ID, parameters of the path, `limit` and `since` of the query, and the same bodies as echo
-- binds them, have the same effect and the same reply on every route but GET /v1/ws, whatever else
-- their headers and queries claim: X-User-ID and user_id are not read as a user.
pub serve_by_token :
    {W : Type 0} (p : Platform W) (v : CognitoValidator) (h : Handler (Session W))
    → h.auth_enabled ≡ true
    → h.auth ≡ some (validate_token p v)
    → (r : Route) (c c' : Context) → SameToken c c'
    → (s : Session W) → serve h r c s ≡ serve h r c' s
unfolding NamesUsers
serve_by_token p v h on auth r c c' t s =
    serve-Blind h (validate_token p v) on auth (validate_token-Nonempty p v) r c c' t s
