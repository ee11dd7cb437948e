-- ===== src/Application/SendMessage/Delivery.antt =====
-- A message that was accepted is stored, and reaches the room's stream and the event bus or waits
-- in the outbox.
use aelora.Prelude.{◌≡◌, refl, ◌⊎◌, inl, inr, Bool, true, false}
use aelora.Domain.{Message, Error, Result, ok, err}
use aelora.Call.Post.{
  Post, Post-pure, Post-fail, Post-handle, Post-given, Post-modify, Post-bind, Post-then,
  Post-weaken, Post-at,
}
use aelora.Application.SendMessage.{
  SendMessageUseCase, SendMessageCommand, prepare, save, enqueue, deliver, execute,
}
use aelora.Application.SendMessage.Contract.{DeliveryContract, Survives, Survives-×}

module _ {S : Type 0} (u : SendMessageUseCase S) (c : DeliveryContract u) where
  open c use {Saved, Appended, Published, Queued}

  -- In the stream and announced, or in the outbox with what is still to be done.
  abbrev pub Delivered : Message → S → Type 0
  Delivered m s =
      (Appended m s × Published m s) ⊎ Queued m false s ⊎ (Appended m s × Queued m true s)

  abbrev Accepted : Result Message → S → Type 0
  Accepted (ok m) s = Saved m s × Delivered m s
  Accepted (err e) s = Unit

  module _ (m : Message) where
    -- The message went into the outbox, and `P` survived that.
    abbrev InOutbox : (S → Type 0) → Bool → Result Message → S → Type 0
    InOutbox P appended (ok n) s = (n ≡ m) × P s × Queued m appended s
    InOutbox P appended (err e) s = Unit

    enqueue-Post :
        (P : S → Type 0)
        → Survives u P
        → (failure : Error) (appended : Bool) (s : S) → P s
        → Post (InOutbox P appended) (enqueue u failure m appended) s
    unfolding enqueue
    enqueue-Post P survives failure appended s p =
        Post-given u.outbox (λ missing. Post-fail tt)
          λ outbox o.
            Post-handle (outbox.enqueue m appended) s
              (λ e s' q. Post-modify u.telemetry.inc_outbox_enqueue_failure (Post-fail tt))
              λ done s' q. Post-modify u.telemetry.inc_outbox_enqueued (
                Post-pure (
                  refl,
                  survives.enqueued s' (rw q at (survives.enqueue outbox o m appended s p)),
                  c.queued_counted m appended s' (c.enqueue_ok outbox o m appended s s' q),
                ))

    accept_queued : (r : Result Message) (s : S) → InOutbox (Saved m) false r s → Accepted r s
    accept_queued (ok n) s (e, saved, queued) = rw e (saved, inr (inl queued))
    accept_queued (err e) s h = tt

    accept-Appended :
        (r : Result Message) (s : S)
        → InOutbox (λ t. Saved m t × Appended m t) true r s
        → Accepted r s
    accept-Appended (ok n) s (e, both, queued) = rw e (both.0, inr (inr (both.1, queued)))
    accept-Appended (err e) s h = tt

    deliver-Post : (s : S) → Saved m s → Post Accepted (deliver u m) s
    unfolding deliver
    deliver-Post s saved =
        Post-handle (u.stream.append_message m.room_id m) s
          (λ e s1 q. Post-modify u.telemetry.inc_stream_append_failure (
            Post-weaken accept_queued (
              enqueue-Post (Saved m) (c.saved_survives m) e false _ (
                (c.saved_survives m).append_failed s1
                  (rw q at (c.append_saved m m m.room_id s saved))))))
          λ id s1 q.
            Post-handle (u.bus.publish_message_created m) s1
              (λ e s2 p. Post-modify u.telemetry.inc_event_publish_failure (
                Post-weaken accept-Appended (
                  enqueue-Post (λ t. Saved m t × Appended m t) both e true _
                    (both.publish_failed s2 (
                      rw p at (
                        both.publish m s1 (
                          rw q at (c.append_saved m m m.room_id s saved),
                          c.append_ok m id s s1 q,
                        )))))))
              λ done s2 p. Post-pure (
                rw p at (
                    (c.saved_survives m).publish m s1
                      (rw q at (c.append_saved m m m.room_id s saved))),
                inl (
                  rw p at ((c.appended_survives m).publish m s1 (c.append_ok m id s s1 q)),
                  c.publish_ok m s1 s2 p,
                ),
              )
      where
        both : Survives u (λ t. Saved m t × Appended m t)
        both = Survives-× u (c.saved_survives m) (c.appended_survives m)

  abbrev Stored : Message → Result (Unit {0}) → S → Type 0
  Stored m (ok done) s = Saved m s
  Stored m (err e) s = Unit

  save-Post : (m : Message) (s : S) → Post (Stored m) (save u m) s
  unfolding save
  save-Post m s =
      Post-handle (u.messages.save m) s (λ e s' q. Post-fail tt)
        (λ done s' q. Post-pure (c.save_ok m s s' q))

  execute-Post : (cmd : SendMessageCommand) (s : S) → Post Accepted (execute u cmd) s
  unfolding execute
  execute-Post cmd s =
      Post-bind (prepare u cmd) s (λ e s1 q. tt)
        λ m s1 q.
          Post-then (save-Post m s1) (λ e s2 p. tt) λ done s2 p saved. deliver-Post m s2 saved

  -- When `Execute` returns a message, the message is stored, and it is in the room's stream and was
  -- announced, or it is in the outbox: to be appended and announced, or appended and to be announced.
  pub execute-Delivered :
      (cmd : SendMessageCommand) (s s' : S) (m : Message)
      → execute u cmd s ≡ (ok m, s')
      → Saved m s' × Delivered m s'
  execute-Delivered cmd s s' m e = Post-at (ok m) s' (execute-Post cmd s) e
