-- ===== src/Relay/Items.antt =====
-- What becomes of an item, and of a batch of items.
use aelora.Prelude.{◌≡◌, refl, sym, ap, ◌⊎◌, inl, inr, true, not, String, List, [], ◌∷◌, arith}
use aelora.Prelude.Int.{ℤ}
use aelora.Domain.{Message, Result, ok}
use aelora.Call.{Keeps}
use aelora.Call.Post.{Post, Post-pure, Post-if, Post-handle}
use aelora.Ports.{OutboxMessage}
use aelora.Relay.{
  MessageOutboxRelay, release_claim, announce, process, process_all, tick, batch_or_default, lease,
}

module _ {S : Type 0} (w : MessageOutboxRelay S) where
  -- The steps of the relay other than `MarkDispatched` leave `P` standing.
  pub record StepsKeep (P : S → Type 0) : Type 0 where
    pub append : (room : String) (m : Message) → Keeps P (w.stream.append_message room m)
    pub mark_appended : (id : String) → Keeps P (w.outbox.mark_stream_appended id)
    pub publish : (m : Message) → Keeps P (w.bus.publish_message_created m)
    pub release : (id : String) → Keeps P (w.outbox.release_claim w.id id)

  -- Before the message was announced in `ready`, it was in the stream: it came as appended, or the
  -- relay has appended it and marked that.
  abbrev pub InStream : OutboxMessage → S → S → Type 0
  InStream item s ready =
      ((item.stream_appended ≡ true) × (ready ≡ s))
      ⊎ ((id : String) × (a : S) × (w.stream.append_message item.message.room_id item.message s
            ≡ (ok id, a))
          × (w.outbox.mark_stream_appended item.message.id a ≡ (ok tt, ready)))

  -- The message was in the stream, then announced, and only then marked as dispatched, which ended
  -- in `s'`.
  pub record Announced (item : OutboxMessage) (s s' : S) : Type 0 where
    pub ready : S
    pub announced : S
    pub in_stream : InStream item s ready
    pub publish : w.bus.publish_message_created item.message ready ≡ (ok tt, announced)
    pub marked : s' ≡ (w.outbox.mark_dispatched item.message.id announced).1

  module _ (P : S → Type 0) (keep : StepsKeep P) (item : OutboxMessage) (s : S) where
    abbrev Ends : Result (Unit {0}) → S → Type 0
    Ends r s' = P s' ⊎ Announced item s s'

    release-Post : (a : S) → P a → Post Ends (release_claim w item.message.id) a
    unfolding release_claim
    release-Post a p =
        Post-handle (w.outbox.release_claim w.id item.message.id) a
          (λ e b q. Post-pure (inl (rw q at (keep.release item.message.id a p))))
          (λ done b q. Post-pure (inl (rw q at (keep.release item.message.id a p))))

    announce-Post :
        (ready : S) → P ready → InStream item s ready → Post Ends (announce w item.message) ready
    unfolding announce
    announce-Post ready p there =
        Post-handle (w.bus.publish_message_created item.message) ready
          (λ e b q. release-Post b (rw q at (keep.publish item.message ready p)))
          λ done b q.
            Post-handle (w.outbox.mark_dispatched item.message.id) b
              (λ e c m. Post-pure (
                inr (record {
                  ready = ready;
                  announced = b;
                  in_stream = there;
                  publish = q;
                  marked = sym (ap (λ x. x.1) m);
                })))
              (λ done2 c m. Post-pure (
                inr (record {
                  ready = ready;
                  announced = b;
                  in_stream = there;
                  publish = q;
                  marked = sym (ap (λ x. x.1) m);
                })))

    process-Post : P s → Post Ends (process w item) s
    unfolding process
    process-Post p =
        Post-if (not item.stream_appended)
          (λ fresh.
            Post-handle (w.stream.append_message item.message.room_id item.message) s
              (λ e a q.
                release-Post a (rw q at (keep.append item.message.room_id item.message s p)))
              λ id a q.
                let p1 : P a = rw q at (keep.append item.message.room_id item.message s p) in
                Post-handle (w.outbox.mark_stream_appended item.message.id) a
                  (λ e b m. release-Post b (rw m at (keep.mark_appended item.message.id a p1)))
                  λ done b m.
                    announce-Post b (rw m at (keep.mark_appended item.message.id a p1))
                      (inr (id, a, q, m)))
          λ old. announce-Post s p (inl (ground arith, refl))

    -- An item is marked as dispatched only after its message was in the stream and announced; else
    -- it is not marked at all (what the other steps keep still holds).
    pub process_cases : P s → let s' = (process w item s).1 in P s' ⊎ Announced item s s'
    process_cases p = (process-Post p).holds

  -- The state after each item was processed once, in order.
  abbrev pub processed : List OutboxMessage → S → S
  processed [] s = s
  processed (item ∷ rest) s = processed rest (process w item s).1

  abbrev Succeeds : Result (Unit {0}) → S → Type 0
  Succeeds r s' = r ≡ ok tt

  release_ok : (id : String) (s : S) → Post Succeeds (release_claim w id) s
  unfolding release_claim
  release_ok id s =
      Post-handle (w.outbox.release_claim w.id id) s (λ e a q. Post-pure refl)
        (λ done a q. Post-pure refl)

  announce_ok : (m : Message) (s : S) → Post Succeeds (announce w m) s
  unfolding announce
  announce_ok m s =
      Post-handle (w.bus.publish_message_created m) s (λ e a q. release_ok m.id a)
        λ done a q.
          Post-handle (w.outbox.mark_dispatched m.id) a (λ e b p. Post-pure refl)
            (λ done2 b p. Post-pure refl)

  process_ok : (item : OutboxMessage) (s : S) → Post Succeeds (process w item) s
  unfolding process
  process_ok item s =
      Post-if (not item.stream_appended)
        (λ fresh.
          Post-handle (w.stream.append_message item.message.room_id item.message) s
            (λ e a q. release_ok item.message.id a)
            λ id a q.
              Post-handle (w.outbox.mark_stream_appended item.message.id) a
                (λ e b m. release_ok item.message.id b) (λ done b m. announce_ok item.message b))
        λ old. announce_ok item.message s

  process_all-eq :
      (items : List OutboxMessage) (s : S) → process_all w items s ≡ (ok tt, processed items s)
  unfolding process_all
  process_all-eq [] s = refl
  process_all-eq (item ∷ rest) s =
      rw (process_ok item s).holds (process_all-eq rest (process w item s).1)

  -- A tick that claims a batch processes each of its items once, in order, whatever becomes of the
  -- others, and returns normally.
  pub tick_processes :
      (batch_size : ℤ) (items : List OutboxMessage) (s claimed : S)
      → w.outbox.claim_pending w.id (batch_or_default batch_size) lease s ≡ (ok items, claimed)
      → tick w batch_size s ≡ (ok tt, processed items claimed)
  unfolding tick
  tick_processes batch_size items s claimed e = rw e (process_all-eq items claimed)
