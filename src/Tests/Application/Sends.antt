-- ===== src/Tests/Application/Sends.antt =====
-- A send in the in-memory world.
use mathlib.Core.Option.{some-injective}
use aelora.Prelude.{
  arith, trim_space, map, ap, ◌≡◌, refl, ◌⊎◌, inl, Bool, true, false, String, some, List, [], ◌∷◌,
}
use aelora.Domain.{Message, ok, has_member, validate}
use aelora.Call.{lift, run, modify}
use aelora.Call.Post.{err-ne-ok}
use aelora.Ports.{MessageOutboxRepository}
use aelora.Application.SendMessage.{SendMessageCommand, execute}
use aelora.Application.SendMessage.Contract.{Survives, DeliveryContract}
use aelora.Application.SendMessage.Delivery.{Delivered, execute-Delivered}
use aelora.Application.SendMessage.Admission.{ReadsKeep, NotSaved, Attempted, admission}
use aelora.Prelude.Int.{pos}
use aelora.WebSocket.{WsClient, WsRequest, WebSocketHandler, answer, serve}
use aelora.WebSocket.Answers.{Offered, told_accepted, serve-Offered}
use aelora.Tests.World.{
  World, world, rooms, acks, syncs, sends, let_all, outbox, append, publish, alice_hello,
}

abbrev Has : {A : Type 0} → A → List A → Type 0
Has a [] = ⊥
Has a (b ∷ rest) = (b ≡ a) ⊎ Has a rest

-- The ports add to the front of their own lists.
abbrev Streamed : Message → World → Type 0
Streamed m w = Has m (map (λ e. e.message) w.stream)

publish_keeps_saved :
    (m n : Message) (up : Bool) (w : World) → Has m w.saved → Has m (publish up n w).1.saved
publish_keeps_saved m n true w h = h
publish_keeps_saved m n false w h = h

publish_keeps_stream :
    (m n : Message) (up : Bool) (w : World) → Streamed m w → Streamed m (publish up n w).1
publish_keeps_stream m n true w h = h
publish_keeps_stream m n false w h = h

append_keeps_saved :
    (m n : Message) (room : String) (up : Bool) (w : World)
    → Has m w.saved
    → Has m (append up room n w).1.saved
append_keeps_saved m n room true w h = h
append_keeps_saved m n room false w h = h

append_streams :
    (m : Message) (id room : String) (up : Bool) (w w' : World)
    → append up room m w ≡ (ok id, w')
    → Streamed m w'
append_streams m id room true w w' e = rw (← ap (λ x. x.1) e) (inl refl)
append_streams m id room false w w' e = absurd (err-ne-ok _ _ (ap (λ x. x.0) e))

publish_announces :
    (m : Message) (up : Bool) (w w' : World) → publish up m w ≡ (ok tt, w') → Has m w'.published
publish_announces m true w w' e = rw (← ap (λ x. x.1) e) (inl refl)
publish_announces m false w w' e = absurd (err-ne-ok _ _ (ap (λ x. x.0) e))

enqueue_queues :
    (o : MessageOutboxRepository World)
    → sends.outbox ≡ some o
    → (m : Message) (appended : Bool) (w w' : World) → o.enqueue m appended w ≡ (ok tt, w')
    → Has (m, appended) w'.queued
enqueue_queues o e m appended w w' h =
    let same : outbox ≡ o = some-injective _ _ e in
    let h' : outbox.enqueue m appended w ≡ (ok tt, w') = rw (← same) at h in
    rw (← ap (λ x. x.1) h') (inl refl)

module _ (P : World → Type 0)
    (publishing : (m : Message) (w : World) → P w → P (publish w.bus_up m w).1)
    (queueing : (m : Message) (appended : Bool) (w : World)
      → P w
      → P (outbox.enqueue m appended w).1) where
  survives : Survives sends P
  survives = record {
    publish = publishing;
    enqueue = λ o e m appended w p.
        let same : outbox ≡ o = some-injective _ _ e in rw (← same) (queueing m appended w p);
    append_failed = λ w p. p;
    publish_failed = λ w p. p;
    enqueued = λ w p. p;
    enqueue_failed = λ w p. p;
  }

contract : DeliveryContract sends
contract = record {
  Saved = λ m w. Has m w.saved;
  Appended = Streamed;
  Published = λ m w. Has m w.published;
  Queued = λ m appended w. Has (m, appended) w.queued;
  save_ok = λ m w w' e. rw (← ap (λ x. x.1) e) (inl refl);
  append_ok = λ m id w w' e. append_streams m id m.room_id w.stream_up w w' e;
  publish_ok = λ m w w' e. publish_announces m w.bus_up w w' e;
  enqueue_ok = enqueue_queues;
  append_saved = λ m n room w h. append_keeps_saved m n room w.stream_up w h;
  saved_survives = λ m.
      survives (λ w. Has m w.saved) (λ n w h. publish_keeps_saved m n w.bus_up w h) (λ n b w h. h);
  appended_survives =
      λ m. survives (Streamed m) (λ n w h. publish_keeps_stream m n w.bus_up w h) (λ n b w h. h);
  queued_counted = λ m appended w h. h;
}

abbrev hello : SendMessageCommand
hello = record {
  room_id = "lobby";
  sender_id = "alice";
  content = "hello";
  client_msg_id = "c1";
  reply_to_id = "";
}

-- The bus is down: the message goes to the outbox.
abbrev bus_down : World
bus_down = record world { bus_up = false }

abbrev sent : World
sent = record bus_down {
  saved = alice_hello ∷ [];
  stream = record { stream_id = "7-0"; room_id = "lobby"; message = alice_hello } ∷ [];
  queued = (alice_hello, true) ∷ [];
  draws = 1;
}

execute-Delivered_example :
    contract.Saved alice_hello sent × Delivered sends contract alice_hello sent
unfolding execute lift run modify has_member validate trim_space
execute-Delivered_example = execute-Delivered sends contract hello bus_down sent alice_hello refl

abbrev Unqueued : World → Type 0
Unqueued w = w.queued ≡ []

reads_keep : ReadsKeep sends hello Unqueued
reads_keep = record {
  allow = λ limiter e key w p. let same : let_all ≡ limiter = some-injective _ _ e in rw (← same) p;
  exists = λ sender client w p. p;
  get = λ room w p. p;
  get_by_ids = λ room ids w p. p;
  new_id = λ w p. p;
  now = λ w p. p;
}

admission_example :
    let (r, s') = execute sends hello world in
    NotSaved sends hello Unqueued r s' ⊎ Attempted sends hello Unqueued r s'
admission_example = admission sends hello Unqueued reads_keep world refl

abbrev pub sockets : WebSocketHandler World
sockets = record { send = sends; sync = syncs; ack_rooms = rooms; acks = acks }

abbrev hello_request : WsRequest
hello_request = record {
  kind = "send_message";
  room_id = "lobby";
  content = "hello";
  client_msg_id = "c1";
  reply_to_id = "";
  stream_id = "";
  last_ack = "";
  limit = pos 0;
}

told_accepted_example : contract.Saved alice_hello sent × Delivered sends contract alice_hello sent
unfolding answer execute lift run modify has_member validate trim_space
told_accepted_example =
    told_accepted sockets contract "alice" "d1" hello_request bus_down alice_hello refl

abbrev alice_client : WsClient
alice_client = record { user_id = "alice"; device_id = "d1"; send = []; closed = false }

serve-Offered_example :
    Offered alice_client
      (answer sockets "alice" "d1" hello_request world).0
      (serve sockets alice_client hello_request world).0
serve-Offered_example = serve-Offered sockets alice_client hello_request world (omega arith)
