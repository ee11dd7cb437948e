-- ===== src/Tests/Subscription.antt =====
-- A subscription with one place in its channel, over a server that has three events, one of them
-- without a message.
use aelora.Prelude.{◌==◌, ◌≡◌, refl, String, true, none, some, List, [], ◌∷◌, if◌then◌else◌}
use aelora.Prelude.Int.{pos}
use aelora.Domain.{Message, ok}
use aelora.Valkey.{Client, XItem}
use aelora.Valkey.Streams.{Repository}
use aelora.Valkey.Subscription.{
  Subscription, subscribe, advance, give_up, take_one, Steps, here, then_step, advanced, gave_up,
  took, unsubscribed,
}
use aelora.Valkey.Subscription.InOrder.{Ordered, subscribe-Ordered}
use aelora.Tests.Valkey.{Memory, client, empty}

abbrev message : String → Message
message id = record {
  id = id;
  client_msg_id = "c1";
  room_id = "r1";
  sender_id = "alice";
  content = "hi";
  reply_to_id = "";
  created_at = 0;
}

abbrev entries : List XItem
entries =
    record { id = "1"; field_values = ("message", "a") ∷ [] }
    ∷ record { id = "2"; field_values = [] }
    ∷ record { id = "3"; field_values = ("message", "b") ∷ [] }
    ∷ []

abbrev server : Client Memory
server = record client {
  xread = λ key id count m. (ok (if id == "$" then some ((key, entries) ∷ []) else none), m);
}

abbrev repository : Repository Memory
repository = record {
  client = server;
  event_stream_key = "events";
  room_max_len = pos 10;
  event_max_len = pos 10;
  marshal = λ m. ok m.id;
  unmarshal = λ text. ok (message text);
}

abbrev fresh : Subscription Memory
fresh = subscribe (pos 1) empty

-- Up to the second message, which has no place while the first one waits.
abbrev blocked : Subscription Memory
blocked = let go = advance repository in go (go (go (go (go (go (go fresh))))))

abbrev last : Subscription Memory
last = give_up repository (record (take_one repository blocked) { cancelled = true })

last_ends :
    (last.received ≡ message "a" ∷ [])
    × (last.channel ≡ [])
    × (last.lost ≡ message "b" ∷ [])
    × (last.last_id ≡ "3")
unfolding subscribe advance give_up take_one
last_ends = (refl, refl, refl, refl)

to_blocked : Steps repository fresh blocked
to_blocked =
    then_step
      (then_step
        (then_step
          (then_step (then_step (then_step (then_step here advanced) advanced) advanced) advanced)
          advanced)
        advanced)
      advanced

subscribe-Ordered_example : Ordered repository last
subscribe-Ordered_example =
    subscribe-Ordered repository (pos 1) empty last
      (then_step (then_step (then_step to_blocked took) unsubscribed) gave_up)
