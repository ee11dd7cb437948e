-- ===== src/WebSocket/Connection.antt =====
-- websocket.go: `Handle` and `refreshPresence`, which run side by side, as steps. Upgrading the
-- request is gorilla's affair: whether it succeeds is an argument. Deadlines and pongs are left out.
pub mod Presence
use aelora.Prelude.{
  ℕ, zero, suc, ◌≡◌, String, ◌==◌, Bool, true, false, not, ◌||◌, Option, none, some, List, [], ◌∷◌,
  ◌++◌, concat, eqb, if◌then◌else◌,
}
use aelora.Domain.{Result}
use aelora.Ports.{PresenceRepository}
use aelora.WebSocket.{
  WsClient, WsRequest, WebSocketHandler, Identity, resolve_identity, new_ws_client, serve,
}
use aelora.Hub.{Hub, register, unregister, set_client}

-- `CheckOrigin` of the upgrader, on the headers Origin and Host.
unfoldable pub check_origin : Bool → String → String → Bool
check_origin ws_check_origin origin host =
    if not ws_check_origin
    then true
    else (origin == concat "http://" host) || (origin == concat "https://" host)

-- Where `Handle` is: `leaving` is behind the loop, and then its deferred calls have been made, the
-- last one first.
pub data Phase : Type 0 where
  upgraded registered online refreshing serving leaving offline stopped returned : Phase

-- Where the goroutine of `refreshPresence` is.
pub data Refresher : Type 0 where
  not_started running ended : Refresher

-- The calls of the presence repository that the connection makes.
pub data PresenceCall : Type 0 where
  set_online set_offline : PresenceCall

-- `stop` says whether `stopPresenceRefresh` is closed.
pub record Session (S : Type 0) : Type 0 where
  pub handler : Phase
  pub refresher : Refresher
  pub stop : Bool
  pub hub : Hub
  pub state : S
  pub calls : List PresenceCall

pub data Admission (S : Type 0) : Type 0 where
  unauthorized : Admission S
  not_upgraded : Admission S
  connected : Session S → Admission S

module _ {S : Type 0} (identity : Identity) (id : ℕ) where
  -- The new client stands at the address `id`.
  unfoldable pub start : Hub → S → Session S
  start hub state = record {
    handler = upgraded;
    refresher = not_started;
    stop = false;
    hub = set_client id (new_ws_client identity.user_id identity.device_id) hub;
    state = state;
    calls = [];
  }

module _ {S : Type 0} (presence : PresenceRepository S) (identity : Identity) where
  -- `SetOnline`, of `Handle` and of the ticker: a failure is only logged.
  unfoldable pub call_online : Session S → Session S
  call_online s = record s {
    state = (presence.set_online identity.user_id identity.device_id s.state).1;
    calls = s.calls ++ set_online ∷ [];
  }

  unfoldable pub call_offline : Session S → Session S
  call_offline s = record s {
    state = (presence.set_offline identity.user_id identity.device_id s.state).1;
    calls = s.calls ++ set_offline ∷ [];
  }

module _ {S : Type 0} (h : WebSocketHandler S) (presence : PresenceRepository S)
    (identity : Identity) (id : ℕ) where
  -- One round of the loop, for a request that was read.
  unfoldable pub answer_request : WsRequest → Session S → Session S
  answer_request req s =
      let (c, state) = serve h (s.hub.clients id) req s.state in
      record s { hub = set_client id c s.hub; state = state }

  -- The steps of the two goroutines, in whatever order they take them, and of everyone else, who may
  -- change the hub and the state. Where the channel is closed and the ticker has fired, `select`
  -- takes either case.
  pub data Step : Session S → Session S → Type 0 where
    registers :
        {s : Session S}
        → s.handler ≡ upgraded
        → Step s (record s { handler = registered; hub = register id s.hub })
    goes_online :
        {s : Session S}
        → s.handler ≡ registered
        → Step s (call_online presence identity (record s { handler = online }))
    starts_refresh :
        {s : Session S}
        → s.handler ≡ online
        → Step s (record s { handler = refreshing; refresher = running })
    starts_pump : {s : Session S} → s.handler ≡ refreshing → Step s (record s { handler = serving })
    serves : {s : Session S} (req : WsRequest) → s.handler ≡ serving → Step s (answer_request req s)
    read_fails : {s : Session S} → s.handler ≡ serving → Step s (record s { handler = leaving })
    goes_offline :
        {s : Session S}
        → s.handler ≡ leaving
        → Step s (call_offline presence identity (record s { handler = offline }))
    closes_stop :
        {s : Session S} → s.handler ≡ offline → Step s (record s { handler = stopped; stop = true })
    unregisters :
        {s : Session S}
        → s.handler ≡ stopped
        → Step s (record s { handler = returned; hub = unregister id s.hub })
    refreshes : {s : Session S} → s.refresher ≡ running → Step s (call_online presence identity s)
    refresh_ends :
        {s : Session S}
        → s.refresher ≡ running
        → s.stop ≡ true
        → Step s (record s { refresher = ended })
    others :
        {s : Session S} (hub : Hub) (state : S) → Step s (record s { hub = hub; state = state })

  pub data Steps (s : Session S) : Session S → Type 0 where
    here : Steps s s
    then_step : {t u : Session S} → Steps s t → Step t u → Steps s u

-- `Handle` up to the new client. `token` is the validator's answer where authentication is on.
unfoldable pub admit :
    {S : Type 0}
    → Option (Result Identity)
    → String
    → String
    → String
    → Bool
    → ℕ
    → Hub
    → S
    → Admission S
unfolding resolve_identity
admit token query_user header_user query_device upgrades id hub state =
    let identity = resolve_identity token query_user header_user query_device in
    elim identity [
      | none ↦ unauthorized
      | some who ↦ if upgrades then connected (start who id hub state) else not_upgraded
    ]
