-- ===== src/Valkey/Breaker.antt =====
-- internal/adapters/outbound/valkey/cached_repo.go and circuitbreaker.go: each repository behind a
-- circuit breaker of package gobreaker, which is a parameter.
use aelora.Prelude.{none}
use aelora.Call.{Call}
use aelora.Ports.{
  AckRepository, PresenceRepository, PushTokenRepository, RoomRepository, RoomIdSequence,
  StreamRepository, EventBus,
}

-- `execute` is `CircuitBreaker.Execute`: it runs the call, or refuses it.
pub record CircuitBreaker (S : Type 0) : Type 1 where
  pub execute : {A : Type 0} → Call S A → Call S A

module _ {S : Type 0} (cb : CircuitBreaker S) where
  unfoldable pub room_repository : RoomRepository S → RoomRepository S
  room_repository inner = record {
    get = λ room_id. cb.execute (inner.get room_id);
    create = λ room. cb.execute (inner.create room);
    add_member = λ room_id user_id. cb.execute (inner.add_member room_id user_id);
    list_members = λ room_id. cb.execute (inner.list_members room_id);
    get_member_role = none;
    set_member_role = none;
  }

  unfoldable pub ack_repository : AckRepository S → AckRepository S
  ack_repository inner = record {
    set_last_ack = λ user_id device_id room_id stream_id.
        cb.execute (inner.set_last_ack user_id device_id room_id stream_id);
    get_last_ack =
        λ user_id device_id room_id. cb.execute (inner.get_last_ack user_id device_id room_id);
  }

  unfoldable pub presence_repository : PresenceRepository S → PresenceRepository S
  presence_repository inner = record {
    set_online = λ user_id device_id. cb.execute (inner.set_online user_id device_id);
    set_offline = λ user_id device_id. cb.execute (inner.set_offline user_id device_id);
    is_online = λ user_id. cb.execute (inner.is_online user_id);
  }

  unfoldable pub push_token_repository : PushTokenRepository S → PushTokenRepository S
  push_token_repository inner = record {
    upsert = λ token. cb.execute (inner.upsert token);
    delete = λ user_id device_id. cb.execute (inner.delete user_id device_id);
    list_by_user = λ user_id. cb.execute (inner.list_by_user user_id);
  }

  unfoldable pub stream_repository : StreamRepository S → StreamRepository S
  stream_repository inner = record {
    append_message = λ room_id msg. cb.execute (inner.append_message room_id msg);
    read_from = λ room_id last_ack limit. cb.execute (inner.read_from room_id last_ack limit);
  }

  unfoldable pub event_bus : EventBus S → EventBus S
  event_bus inner = record {
    publish_message_created = λ msg. cb.execute (inner.publish_message_created msg);
  }

  unfoldable pub room_id_sequence : RoomIdSequence S → RoomIdSequence S
  room_id_sequence inner = record { next = cb.execute inner.next }

  -- `ping` is the client's, without the breaker.
  unfoldable pub ping : Call S (Unit {0}) → Call S (Unit {0})
  ping inner = cb.execute inner
