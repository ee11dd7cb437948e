-- ===== src/Tests/Connection.antt =====
-- A connection of which the ticker fires once more after the user was set offline.
use aelora.Prelude.{◌≡◌, refl, true, false, none, List, [], ◌∷◌, ◌++◌}
use mathlib.Core.Logic.{◌↔◌}
use aelora.Domain.{ok}
use aelora.Ports.{PresenceRepository}
use aelora.WebSocket.{Identity, new_ws_client}
use aelora.Hub.{Hub}
use aelora.WebSocket.Connection.{
  PresenceCall, set_online, set_offline, unauthorized, admit, check_origin,
}
use aelora.WebSocket.Connection.Presence.{IsOver, Left, presence_calls}
use aelora.Tests.World.{World, world}
use aelora.Tests.Application.Sends.{sockets}

abbrev presence : PresenceRepository World
presence = record {
  set_online = λ user device w. (ok tt, record w { pushed = w.pushed ++ user ∷ [] });
  set_offline = λ user device w. (ok tt, record w { pushed = [] });
  is_online = λ user w. (ok false, w);
}

abbrev bob : Identity
bob = record { user_id = "bob"; device_id = "d1" }

abbrev hub : Hub
hub = record { users = []; clients = λ id. new_ws_client "" "" }

abbrev calls : List PresenceCall
calls = set_online ∷ set_offline ∷ set_online ∷ []

presence_calls_example : IsOver sockets presence bob 0 hub world calls ↔ Left calls
presence_calls_example = presence_calls sockets presence bob 0 hub world calls

-- The user is set online once more behind the last call that sets it offline.
online_at_the_end : IsOver sockets presence bob 0 hub world calls
online_at_the_end = (presence_calls sockets presence bob 0 hub world calls).1 (0, 1, refl)

nobody : admit none "" "" "d1" true 0 hub world ≡ unauthorized
unfolding admit
nobody = refl

same_origin : check_origin true "https://aelora.test" "aelora.test" ≡ true
unfolding check_origin
same_origin = refl

other_origin : check_origin true "https://evil.test" "aelora.test" ≡ false
unfolding check_origin
other_origin = refl
