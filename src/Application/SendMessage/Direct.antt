-- ===== src/Application/SendMessage/Direct.antt =====
-- A send whose outbox never takes a message.
use aelora.Prelude.{◌≡◌, ◌≢◌, refl, Bool, true, false, String, some}
use aelora.Domain.{Message, Error, Result, ok, err}
use aelora.Call.Post.{
  Post, Post-pure, Post-fail, Post-handle, Post-given, Post-modify, Post-bind, Post-weaken, Post-at,
}
use aelora.Ports.{MessageOutboxRepository}
use aelora.Application.SendMessage.{
  SendMessageUseCase, SendMessageCommand, prepare, save, enqueue, deliver, execute,
}

module _ {S : Type 0} (u : SendMessageUseCase S) where
  abbrev pub NeverQueues : Type 0
  NeverQueues =
      (outbox : MessageOutboxRepository S)
      → u.outbox ≡ some outbox
      → (m : Message) (appended : Bool) (s : S) → (outbox.enqueue m appended s).0 ≢ ok tt

  -- The message was appended to the stream of its room and then announced, which ended in `s'`.
  pub record Direct (m : Message) (s' : S) : Type 0 where
    pub id : String
    pub ready : S
    pub appended : S
    pub append : u.stream.append_message m.room_id m ready ≡ (ok id, appended)
    pub publish : u.bus.publish_message_created m appended ≡ (ok tt, s')

  abbrev Ends : Message → Result Message → S → Type 0
  Ends m (ok n) s' = (n ≡ m) × Direct m s'
  Ends m (err e) s' = Unit

  module _ (never : NeverQueues) where
    enqueue_never-Post :
        (m : Message) (failure : Error) (appended : Bool) (s : S)
        → Post (Ends m) (enqueue u failure m appended) s
    unfolding enqueue
    enqueue_never-Post m failure appended s =
        Post-given u.outbox (λ missing. Post-fail tt)
          λ outbox o.
            Post-handle (outbox.enqueue m appended) s
              (λ e s' q. Post-modify u.telemetry.inc_outbox_enqueue_failure (Post-fail tt))
              λ done s' q. absurd (never outbox o m appended s (rw q refl))

    deliver_direct-Post : (m : Message) (s : S) → Post (Ends m) (deliver u m) s
    unfolding deliver
    deliver_direct-Post m s =
        Post-handle (u.stream.append_message m.room_id m) s
          (λ e s1 q.
            Post-modify u.telemetry.inc_stream_append_failure (enqueue_never-Post m e false _))
          λ id s1 q.
            Post-handle (u.bus.publish_message_created m) s1
              (λ e s2 p.
                Post-modify u.telemetry.inc_event_publish_failure (enqueue_never-Post m e true _))
              λ done s2 p.
                Post-pure
                  (refl, record { id = id; ready = s; appended = s1; append = q; publish = p })

    abbrev Sends : Result Message → S → Type 0
    Sends (ok m) s' = Direct m s'
    Sends (err e) s' = Unit

    sends : (m : Message) (r : Result Message) (s : S) → Ends m r s → Sends r s
    sends m (ok n) s (e, d) = rw e d
    sends m (err e) s h = tt

    execute_direct-Post : (cmd : SendMessageCommand) (s : S) → Post Sends (execute u cmd) s
    unfolding execute
    execute_direct-Post cmd s =
        Post-bind (prepare u cmd) s (λ e s1 q. tt)
          λ m s1 q.
            Post-bind (save u m) s1 (λ e s2 q. tt)
              λ done s2 q. Post-weaken (sends m) (deliver_direct-Post m s2)

    pub execute-Direct :
        (cmd : SendMessageCommand) (s s' : S) (m : Message)
        → execute u cmd s ≡ (ok m, s')
        → Direct m s'
    execute-Direct cmd s s' m e = Post-at (ok m) s' (execute_direct-Post cmd s) e
