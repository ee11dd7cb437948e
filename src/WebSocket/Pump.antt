-- ===== src/WebSocket/Pump.antt =====
-- websocket.go: the write pump of a client, beside all that offers it frames and closes it. The
-- socket is a parameter of each step: whether a write or a ping succeeds.
pub mod Fifo
pub mod Stops
use aelora.Prelude.{◌≡◌, Bool, true, false, List, [], ◌∷◌, ◌++◌, if◌then◌else◌}
use aelora.WebSocket.{WsClient, WsResponse, new_ws_client, enqueue, close}

-- `written` is what the socket has taken, and `accepted` all that `enqueue` has accepted. The pump
-- runs until it returns.
pub record Pump : Type 0 where
  pub client : WsClient
  pub running : Bool
  pub written : List WsResponse
  pub accepted : List WsResponse

abbrev accept_if : Bool → WsResponse → List WsResponse → List WsResponse
accept_if sent msg accepted = if sent then accepted ++ msg ∷ [] else accepted

-- Anyone offers a frame.
unfoldable pub offer : WsResponse → Pump → Pump
offer msg p =
    let (sent, c) = enqueue p.client msg in
    record p { client = c; accepted = accept_if sent msg p.accepted }

-- Anyone closes the client.
unfoldable pub shut : Pump → Pump
shut p = record p { client = close p.client }

-- What a round of the loop does with the channel: a frame, or its end. `wrote` says whether the
-- socket takes the frame.
abbrev with_frame : Bool → List WsResponse → Pump → Pump
with_frame wrote [] p = if p.client.closed then record p { running = false } else p
with_frame wrote (msg ∷ rest) p =
    let taken = record p { client = record p.client { send = rest } } in
    if wrote
    then record taken { written = p.written ++ msg ∷ [] }
    else record taken { client = close taken.client; running = false }

unfoldable pub frame_round : Bool → Pump → Pump
frame_round wrote p = if p.running then with_frame wrote p.client.send p else p

-- A round of the loop at the ticker.
unfoldable pub ping_round : Bool → Pump → Pump
ping_round pinged p =
    if p.running
    then if pinged then p else record p { client = close p.client; running = false }
    else p

-- The steps, in whatever order the goroutines take them.
pub data Step : Pump → Pump → Type 0 where
  offered : {p : Pump} (msg : WsResponse) → Step p (offer msg p)
  was_shut : {p : Pump} → Step p (shut p)
  framed : {p : Pump} (wrote : Bool) → Step p (frame_round wrote p)
  pinged : {p : Pump} (answered : Bool) → Step p (ping_round answered p)

pub data Steps : Pump → Pump → Type 0 where
  here : {p : Pump} → Steps p p
  then_step : {p q r : Pump} → Steps p q → Step q r → Steps p r

-- A new client, whose pump has just been started.
abbrev pub started : WsClient → Pump
started c = record { client = c; running = true; written = []; accepted = c.send }
