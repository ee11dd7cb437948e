-- ===== src/PushService.antt =====
-- internal/adapters/outbound/push/http_notifier.go and circuitbreaker.go. The HTTP client and the
-- JSON encoder are parameters.
use aelora.Prelude.{ℕ, String, ◌==◌, ◌||◌, Option, none, some, ltb, leb, concat, if◌then◌else◌}
use aelora.Domain.{Message, other, Result}
use aelora.Call.{Call, pure, fail, lift, given, ◌>>=◌}
use aelora.Ports.{PushToken, PushNotifier, platform_android, platform_ios}
use aelora.Valkey.Breaker.{CircuitBreaker}

-- `Authorization` is set where `authorization` holds a text.
pub record Request : Type 0 where
  pub endpoint : String
  pub body : String
  pub authorization : Option String

-- `post` sends a request and answers the status; `marshal` is the JSON payload of a token and a
-- message.
pub record HttpNotifier (S : Type 0) : Type 0 where
  pub post : Request → Call S ℕ
  pub marshal : PushToken → Message → Result String
  pub android_endpoint : String
  pub ios_endpoint : String
  pub auth_token : String

module _ {S : Type 0} (n : HttpNotifier S) where
  -- `none` for an unsupported platform.
  unfoldable pub endpoint_of : PushToken → Option String
  endpoint_of token =
      if token.platform == platform_android
      then some n.android_endpoint
      else if token.platform == platform_ios
      then some n.ios_endpoint
      else none

  unfoldable pub bearer : Option String
  bearer = if n.auth_token == "" then none else some (concat "Bearer " n.auth_token)

  unfoldable pub send_to : String → PushToken → Message → Call S (Unit {0})
  unfolding bearer
  send_to endpoint token message = do
    body ← lift (n.marshal token message)
    status ← n.post (record { endpoint = endpoint; body = body; authorization = bearer })
    if ltb status 200 || leb 300 status
        then fail (other "push provider returned non-success status")
        else pure tt

  unfoldable pub notify_message : PushToken → Message → Call S (Unit {0})
  unfolding endpoint_of send_to
  notify_message token message =
      given (endpoint_of token) (fail (other "unsupported push platform"))
        λ endpoint. if endpoint == "" then pure tt else send_to endpoint token message

  abbrev pub push_notifier : PushNotifier S
  push_notifier = record { notify_message = notify_message }

-- The notifier behind a circuit breaker.
unfoldable pub breaker_notifier : {S : Type 0} → CircuitBreaker S → HttpNotifier S → PushNotifier S
unfolding notify_message
breaker_notifier cb inner = record {
  notify_message = λ token message. cb.execute (notify_message inner token message);
}
