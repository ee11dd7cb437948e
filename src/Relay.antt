-- ===== src/Relay.antt =====
-- internal/workers/outbox_relay.go
pub mod Items
pub mod Drain
use aelora.Prelude.{ℕ, zero, suc, String, not, if◌then◌else◌, List, [], ◌∷◌}
use aelora.Prelude.Int.{ℤ, pos, is_nonpos}
use aelora.Domain.{Message}
use aelora.Call.{Call, pure, handle, ◌>>=◌, ◌>>◌}
use aelora.Ports.{OutboxMessage, MessageOutboxRepository, StreamRepository, EventBus}

pub record MessageOutboxRelay (S : Type 0) : Type 0 where
  pub outbox : MessageOutboxRepository S
  pub stream : StreamRepository S
  pub bus : EventBus S
  pub id : String

abbrev pub lease : ℤ
lease = pos 30000000000

unfoldable pub batch_or_default : ℤ → ℤ
batch_or_default batch_size = if is_nonpos batch_size then pos 200 else batch_size

module _ {S : Type 0} (w : MessageOutboxRelay S) where
  -- A failure is only logged.
  pub release_claim : String → Call S (Unit {0})
  release_claim message_id =
      handle (w.outbox.release_claim w.id message_id) (λ e. pure tt) (λ done. pure tt)

  -- One item from `PublishMessageCreated` on.
  pub announce : Message → Call S (Unit {0})
  unfolding release_claim
  announce msg =
      handle (w.bus.publish_message_created msg) (λ e. release_claim msg.id)
        (λ done. handle (w.outbox.mark_dispatched msg.id) (λ e. pure tt) (λ done. pure tt))

  -- One round of the loop over the batch.
  unfoldable pub process : OutboxMessage → Call S (Unit {0})
  unfolding announce release_claim
  process item =
      let msg = item.message in
      if not item.stream_appended
      then handle (w.stream.append_message msg.room_id msg) (λ e. release_claim msg.id)
          (λ stream_id.
            handle (w.outbox.mark_stream_appended msg.id) (λ e. release_claim msg.id)
              (λ done. announce msg))
      else announce msg

  pub process_all : List OutboxMessage → Call S (Unit {0})
  unfolding process
  process_all [] = pure tt
  process_all (item ∷ rest) = process item >> process_all rest

  -- What happens when the ticker fires.
  unfoldable pub tick : ℤ → Call S (Unit {0})
  unfolding process_all batch_or_default
  tick batch_size =
      handle (w.outbox.claim_pending w.id (batch_or_default batch_size) lease) (λ e. pure tt)
        process_all

  -- `Run` until the context is done, which is after the given number of ticks.
  unfoldable pub run : ℤ → ℕ → Call S (Unit {0})
  unfolding tick
  run batch_size zero = pure tt
  run batch_size (suc ticks) = tick batch_size >> run batch_size ticks
