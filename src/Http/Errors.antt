-- ===== src/Http/Errors.antt =====
-- internal/adapters/inbound/http/response_helpers.go, with the statuses of errors.go.
use aelora.Prelude.{ℕ, ◌≤◌, ◌<◌, ◌≡◌, ◌≢◌, refl, ◌⊎◌, inl, inr, String, arith}
use aelora.Domain.{
  AppError, Error, app, duplicate_message, rate_limited, room_access_denied, reply_target,
  invalid_push_token, user_already_exists, invalid_ack, invalid_room, room_not_found,
  room_already_exists, invalid_message, duplicate_client_message, unauthorized, other,
}

-- The fields `HTTPStatus`, `Code` and the text of `Err`.
unfoldable pub app_error : AppError → ℕ × String × String
app_error duplicate_message = (409, "DUPLICATE_MESSAGE", "duplicate client message id")
app_error rate_limited = (429, "RATE_LIMITED", "rate limit exceeded")
app_error room_access_denied = (403, "ROOM_ACCESS_DENIED", "user is not a room member")
app_error reply_target = (400, "REPLY_TARGET_NOT_FOUND", "reply target not found in room")
app_error invalid_push_token = (400, "INVALID_PUSH_TOKEN", "invalid push token payload")
app_error user_already_exists = (409, "USER_ALREADY_EXISTS", "user already exists in this room")
app_error invalid_ack = (400, "INVALID_ACK", "invalid ack payload")

unfoldable pub map_app_error : Error → ℕ × String × String
unfolding app_error
map_app_error (app e) = app_error e
map_app_error room_not_found = (404, "room_not_found", "room not found")
map_app_error room_already_exists = (409, "room_already_exists", "room already exists")
map_app_error invalid_message = (400, "invalid_request", "invalid message")
map_app_error invalid_room = (400, "invalid_request", "invalid room")
map_app_error e = (500, "internal_error", "internal error")

-- A client is blamed (a status from 400 to 499) for each error of the application and for the
-- domain's errors about rooms and messages; every other error is a 500 whose text does not depend on
-- the error.
pub map_app_error_classes :
    (e : Error)
    → (400 ≤ (map_app_error e).0) × ((map_app_error e).0 < 500)
      ⊎ (map_app_error e ≡ (500, "internal_error", "internal error")) × ((a : AppError) → e ≢ app a)
unfolding map_app_error
map_app_error_classes (app duplicate_message) = inl (omega arith, omega arith)
map_app_error_classes (app rate_limited) = inl (omega arith, omega arith)
map_app_error_classes (app room_access_denied) = inl (omega arith, omega arith)
map_app_error_classes (app reply_target) = inl (omega arith, omega arith)
map_app_error_classes (app invalid_push_token) = inl (omega arith, omega arith)
map_app_error_classes (app user_already_exists) = inl (omega arith, omega arith)
map_app_error_classes (app invalid_ack) = inl (omega arith, omega arith)
map_app_error_classes room_not_found = inl (omega arith, omega arith)
map_app_error_classes room_already_exists = inl (omega arith, omega arith)
map_app_error_classes invalid_message = inl (omega arith, omega arith)
map_app_error_classes invalid_room = inl (omega arith, omega arith)
map_app_error_classes duplicate_client_message = inr (refl, λ a h. cc)
map_app_error_classes unauthorized = inr (refl, λ a h. cc)
map_app_error_classes (other text) = inr (refl, λ a h. cc)
