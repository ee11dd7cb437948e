-- ===== src/Application/SendMessage/Contract.antt =====
-- What the use case relies on from its ports, as a client of their contracts.
use aelora.Prelude.{◌≡◌, Bool, some, String}
use aelora.Domain.{Message, ok}
use aelora.Call.{Keeps}
use aelora.Ports.{MessageOutboxRepository}
use aelora.Application.SendMessage.{SendMessageUseCase}

-- The steps that `Execute` may take after a message was saved and appended leave `P` standing.
pub record Survives {S : Type 0} (u : SendMessageUseCase S) (P : S → Type 0) : Type 0 where
  pub publish : (m : Message) → Keeps P (u.bus.publish_message_created m)
  pub enqueue :
      (outbox : MessageOutboxRepository S)
      → u.outbox ≡ some outbox
      → (m : Message) (appended : Bool) → Keeps P (outbox.enqueue m appended)
  pub append_failed : (s : S) → P s → P (u.telemetry.inc_stream_append_failure s)
  pub publish_failed : (s : S) → P s → P (u.telemetry.inc_event_publish_failure s)
  pub enqueued : (s : S) → P s → P (u.telemetry.inc_outbox_enqueued s)
  pub enqueue_failed : (s : S) → P s → P (u.telemetry.inc_outbox_enqueue_failure s)

-- What a port's success promises, and that the later steps do not undo it.
pub record DeliveryContract {S : Type 0} (u : SendMessageUseCase S) : Type 1 where
  pub Saved : Message → S → Type 0
  pub Appended : Message → S → Type 0
  pub Published : Message → S → Type 0
  pub Queued : Message → Bool → S → Type 0
  pub save_ok : (m : Message) (s s' : S) → u.messages.save m s ≡ (ok tt, s') → Saved m s'
  pub append_ok :
      (m : Message) (id : String) (s s' : S)
      → u.stream.append_message m.room_id m s ≡ (ok id, s')
      → Appended m s'
  pub publish_ok :
      (m : Message) (s s' : S) → u.bus.publish_message_created m s ≡ (ok tt, s') → Published m s'
  pub enqueue_ok :
      (outbox : MessageOutboxRepository S)
      → u.outbox ≡ some outbox
      → (m : Message) (appended : Bool) (s s' : S) → outbox.enqueue m appended s ≡ (ok tt, s')
      → Queued m appended s'
  pub append_saved :
      (m n : Message) (room_id : String) → Keeps (Saved m) (u.stream.append_message room_id n)
  pub saved_survives : (m : Message) → Survives u (Saved m)
  pub appended_survives : (m : Message) → Survives u (Appended m)
  pub queued_counted :
      (m : Message) (appended : Bool) (s : S)
      → Queued m appended s
      → Queued m appended (u.telemetry.inc_outbox_enqueued s)

pub Survives-× :
    {S : Type 0} (u : SendMessageUseCase S) {P R : S → Type 0}
    → Survives u P
    → Survives u R
    → Survives u (λ s. P s × R s)
Survives-× u p r = record {
  publish = λ m s h. (p.publish m s h.0, r.publish m s h.1);
  enqueue = λ outbox o m b s h. (p.enqueue outbox o m b s h.0, r.enqueue outbox o m b s h.1);
  append_failed = λ s h. (p.append_failed s h.0, r.append_failed s h.1);
  publish_failed = λ s h. (p.publish_failed s h.0, r.publish_failed s h.1);
  enqueued = λ s h. (p.enqueued s h.0, r.enqueued s h.1);
  enqueue_failed = λ s h. (p.enqueue_failed s h.0, r.enqueue_failed s h.1);
}
