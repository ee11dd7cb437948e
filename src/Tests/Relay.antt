-- ===== src/Tests/Relay.antt =====
-- The relay in the in-memory world.
use aelora.Prelude.{◌≡◌, refl, ◌⊎◌, Bool, true, false, String, [], ◌∷◌}
use aelora.Prelude.Int.{pos}
use aelora.Domain.{Message, ok}
use aelora.Ports.{OutboxMessage}
use aelora.Relay.{MessageOutboxRelay, process, tick}
use aelora.Relay.Items.{StepsKeep, Announced, processed, process_cases, tick_processes}
use aelora.Tests.World.{World, world, outbox, sends, stream, append, publish, alice_hello}

abbrev item : OutboxMessage
item = record { message = alice_hello; stream_appended = false }

-- A claim gives the one message that waits.
abbrev relay : MessageOutboxRelay World
relay = record {
  outbox = record outbox { claim_pending = λ consumer limit lease w. (ok (item ∷ item ∷ []), w) };
  stream = stream;
  bus = sends.bus;
  id = "host";
}

abbrev NothingQueued : World → Type 0
NothingQueued w = w.queued ≡ []

append_keeps :
    (up : Bool) (room : String) (m : Message) (w : World)
    → NothingQueued w
    → NothingQueued (append up room m w).1
append_keeps true room m w h = h
append_keeps false room m w h = h

publish_keeps :
    (up : Bool) (m : Message) (w : World) → NothingQueued w → NothingQueued (publish up m w).1
publish_keeps true m w h = h
publish_keeps false m w h = h

steps_keep : StepsKeep relay NothingQueued
steps_keep = record {
  append = λ room m w h. append_keeps w.stream_up room m w h;
  mark_appended = λ id w h. h;
  publish = λ m w h. publish_keeps w.bus_up m w h;
  release = λ id w h. h;
}

process_cases_example :
    let s' = (process relay item world).1 in NothingQueued s' ⊎ Announced relay item world s'
process_cases_example = process_cases relay NothingQueued steps_keep item world refl

tick_processes_example :
    tick relay (pos 2) world ≡ (ok tt, processed relay (item ∷ item ∷ []) world)
tick_processes_example = tick_processes relay (pos 2) (item ∷ item ∷ []) world world refl
