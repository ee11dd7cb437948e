-- ===== src/Tests/Http.antt =====
-- The handler over a pool with one key, and a request that claims another user.
use aelora.Prelude.{ℕ, ◌≡◌, refl, String, ◌==◌, true, none, some, [], trim_space, if◌then◌else◌}
use aelora.Domain.{room_not_found}
use aelora.Call.{pure, fail, read, lift, modify}
use aelora.Ports.{RoomRepository, PushTokenRepository}
use aelora.Application.SendMessage.{SendMessageUseCase, Telemetry}
use aelora.Application.Push.{delete}
use aelora.Auth.{Session, validate_token}
use aelora.Http.Context.{Context, refused}
use aelora.Http.Handlers.{Handler}
use aelora.Http.Routes.{delete_push_token_route, serve}
use aelora.Http.Routes.Callers.{SameToken, serve_by_token}
use aelora.Tests.Auth.{platform, validator, session}

module _ {S : Type 0} where
  -- Repositories that hold nothing.
  abbrev rooms : RoomRepository S
  rooms = record {
    get = λ id. fail room_not_found;
    create = λ room. pure tt;
    add_member = λ id user. fail room_not_found;
    list_members = λ id. fail room_not_found;
    get_member_role = none;
    set_member_role = none;
  }

  abbrev push_tokens : PushTokenRepository S
  push_tokens = record {
    upsert = λ token. pure tt;
    delete = λ user device. pure tt;
    list_by_user = λ user. pure [];
  }

  abbrev telemetry : Telemetry S
  telemetry = record {
    inc_stream_append_failure = λ s. s;
    inc_event_publish_failure = λ s. s;
    inc_outbox_enqueued = λ s. s;
    inc_outbox_enqueue_failure = λ s. s;
  }

  abbrev sends : SendMessageUseCase S
  sends = record {
    messages = record {
      save = λ m. pure tt;
      exists_by_client_msg_id = λ sender client. pure true;
      list_by_room = λ room since limit. pure [];
      get_by_ids = λ room ids. pure [];
    };
    rooms = rooms;
    ids = record { new = λ s. ("m1", s) };
    clock = record { now = λ s. (7, s) };
    stream = record {
      append_message = λ room m. pure "7-0";
      read_from = λ room last limit. pure [];
    };
    bus = record { publish_message_created = λ m. pure tt };
    outbox = none;
    limiter = none;
    telemetry = telemetry;
  }

abbrev handler : Handler (Session ℕ)
handler = record {
  create_room = record { rooms = rooms; ids = record { new = pure "den" } };
  join_room = rooms;
  send_message = sends;
  list_messages = record { rooms = rooms; messages = sends.messages };
  push_tokens = push_tokens;
  hub_rooms = rooms;
  auth_enabled = true;
  auth = some (validate_token platform validator);
  health = none;
  parse_time = λ raw. none;
  format_time = λ time. "";
}

abbrev headers : String → String → String
headers user name =
    if name == "Authorization" then "Bearer x.y.z" else if name == "X-Device-ID" then "d1" else user

abbrev request : String → Context
request user = record {
  header = headers user;
  query = λ name. if name == "user_id" then user else "";
  param = λ name. if name == "device_id" then "d1" else "";
  identity = "";
  bind_create_room = refused "no body";
  bind_send_message = refused "no body";
  bind_register_push_token = refused "no body";
}

same_token : SameToken (request "mallory") (request "")
same_token = record {
  token = refl;
  device = refl;
  param = refl;
  limit = refl;
  since = refl;
  create = refl;
  send = refl;
  push = refl;
}

serve_status :
    (serve handler delete_push_token_route (request "mallory") (session 1000000000000 [] 0)).0.0
    ≡ 200
unfolding serve validate_token trim_space read lift modify delete
serve_status = refl

serve_by_token_example :
    serve handler delete_push_token_route (request "mallory") (session 1000000000000 [] 0)
    ≡ serve handler delete_push_token_route (request "") (session 1000000000000 [] 0)
serve_by_token_example =
    serve_by_token platform validator handler refl refl delete_push_token_route (request "mallory")
      (request "") same_token (session 1000000000000 [] 0)
