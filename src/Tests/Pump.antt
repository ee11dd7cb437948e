-- ===== src/Tests/Pump.antt =====
-- A client that is offered two frames, of which the socket takes one.
use aelora.Prelude.{◌≡◌, ◌≤◌, suc, refl, true, false, [], ◌∷◌, length}
use aelora.WebSocket.{new_ws_client, enqueue, close, failure}
use aelora.WebSocket.Pump.{
  Pump, offer, shut, frame_round, Steps, here, then_step, offered, was_shut, framed, started,
}
use aelora.WebSocket.Pump.Stops.{reads, pump_stops}
use aelora.WebSocket.Pump.Fifo.{InOrder, started-InOrder}

abbrev fresh : Pump
fresh = started (new_ws_client "bob" "d1")

abbrev last : Pump
last = frame_round false (shut (frame_round true (offer (failure "b") (offer (failure "a") fresh))))

last_written : last.written ≡ failure "a" ∷ []
unfolding new_ws_client offer enqueue frame_round shut close
last_written = refl

run : Steps fresh last
run =
    then_step
      (then_step
        (then_step (then_step (then_step here (offered (failure "a"))) (offered (failure "b")))
          (framed true))
        was_shut)
      (framed false)

started-InOrder_example : InOrder last
started-InOrder_example = started-InOrder "bob" "d1" last run

-- A closed client with one frame that waits: the pump sends it, and returns in the next round.
abbrev closing : Pump
closing = shut (offer (failure "a") fresh)

abbrev emptied : Pump
emptied = frame_round true (frame_round true closing)

abbrev emptying : Steps closing emptied
emptying = then_step (then_step here (framed true)) (framed true)

emptied_stopped : emptied.running ≡ false
unfolding new_ws_client offer enqueue frame_round shut close
emptied_stopped = refl

pump_stops_example :
    (reads emptying ≤ suc (length closing.client.send))
    × (reads emptying ≡ suc (length closing.client.send) → emptied.running ≡ false)
unfolding shut close
pump_stops_example = pump_stops closing emptied emptying refl
