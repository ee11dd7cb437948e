-- ===== src/Tests/Hub.antt =====
-- A hub with one connected client.
use aelora.Prelude.{◌≡◌, ◌<◌, ◌≤◌, refl, ◌⊎◌, true, false, [], ◌∷◌, length}
use aelora.WebSocket.{WsClient}
use aelora.Hub.{Hub, offer}
use aelora.Hub.Laws.{Framed, Gone, offer_cases}
use aelora.Tests.World.{alice_hello}

abbrev bob : WsClient
bob = record { user_id = "bob"; device_id = "d1"; send = []; closed = false }

abbrev hub : Hub
hub = record { users = ("bob", 4 ∷ []) ∷ []; clients = λ id. bob }

offer_cases_example :
    ((bob.closed ≡ false)
      × (length bob.send < 128)
      × Framed alice_hello 4 hub (offer alice_hello 4 hub))
    ⊎ (((bob.closed ≡ true) ⊎ (128 ≤ length bob.send)) × Gone 4 "bob" (offer alice_hello 4 hub))
offer_cases_example = offer_cases alice_hello 4 (4 ∷ []) hub refl
