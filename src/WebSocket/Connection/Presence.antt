-- ===== src/WebSocket/Connection/Presence.antt =====
-- websocket.go: in which order a connection calls the presence repository.
use aelora.Prelude.{ℕ, zero, suc, ◌≡◌, refl, sym, ap, ◌∙◌, true, List, [], ◌∷◌, ◌++◌}
use mathlib.Core.Logic.{◌↔◌}
use mathlib.Core.List.{append_assoc, append-nil}
use aelora.Ports.{PresenceRepository}
use aelora.WebSocket.{WebSocketHandler, Identity}
use aelora.Hub.{Hub, register, unregister}
use aelora.WebSocket.Connection.{
  Phase, upgraded, registered, online, refreshing, serving, leaving, offline, stopped, returned,
  Refresher, not_started, running, ended, PresenceCall, set_online, set_offline, Session, start,
  call_online, call_offline, answer_request, Step, registers, goes_online, starts_refresh,
  starts_pump, serves, read_fails, goes_offline, closes_stop, unregisters, refreshes, refresh_ends,
  others, Steps, here, then_step,
}

-- `SetOnline`, so many times.
abbrev pub onlines : ℕ → List PresenceCall
onlines zero = []
onlines (suc n) = set_online ∷ onlines n

onlines-one_more : (n : ℕ) → onlines n ++ set_online ∷ [] ≡ onlines (suc n)
onlines-one_more zero = refl
onlines-one_more (suc n) = ap (λ l. set_online ∷ l) (onlines-one_more n)

data Stage : Type 0 where
  before up down : Stage

stage : Phase → Stage
stage upgraded = before
stage registered = before
stage online = up
stage refreshing = up
stage serving = up
stage leaving = up
stage offline = down
stage stopped = down
stage returned = down

-- The calls of a connection that has been left.
abbrev pub Left : List PresenceCall → Type 0
Left calls = (m : ℕ) × (n : ℕ) × (calls ≡ onlines (suc m) ++ set_offline ∷ onlines n)

-- What has been called by the time that the handler is in a stage.
abbrev Called : Stage → Refresher → List PresenceCall → Type 0
Called before r calls = (r ≡ not_started) × (calls ≡ [])
Called up r calls = (m : ℕ) × (calls ≡ onlines (suc m))
Called down r calls = Left calls

Called-refreshed :
    (g : Stage) (r : Refresher) (calls : List PresenceCall)
    → r ≡ running
    → Called g r calls
    → Called g r (calls ++ set_online ∷ [])
Called-refreshed before r calls e c = cc
Called-refreshed up r calls e (m, c) =
    (suc m, ap (λ l. l ++ set_online ∷ []) c ∙ onlines-one_more (suc m))
Called-refreshed down r calls e (m, n, c) = (
  m,
  suc n,
  ap (λ l. l ++ set_online ∷ []) c
      ∙ append_assoc (onlines (suc m)) (set_offline ∷ onlines n) (set_online ∷ [])
      ∙ ap (λ l. onlines (suc m) ++ set_offline ∷ l) (onlines-one_more n),
)

Called-ended :
    (g : Stage) (r : Refresher) (calls : List PresenceCall)
    → r ≡ running
    → Called g r calls
    → Called g ended calls
Called-ended before r calls e c = cc
Called-ended up r calls e c = c
Called-ended down r calls e c = c

module _ {S : Type 0} (h : WebSocketHandler S) (presence : PresenceRepository S)
    (identity : Identity) (id : ℕ) where
  abbrev Holds : Session S → Type 0
  Holds s = Called (stage s.handler) s.refresher s.calls

  Step-Holds : {s t : Session S} → Step h presence identity id s t → Holds s → Holds t
  unfolding stage call_online call_offline answer_request
  Step-Holds {s} (registers e) c = let c' = rw e at c in c'
  Step-Holds {s} (goes_online e) c = (0, ap (λ l. l ++ set_online ∷ []) (rw e at c).1)
  Step-Holds {s} (starts_refresh e) c = rw e at c
  Step-Holds {s} (starts_pump e) c = rw e at c
  Step-Holds {s} (serves req e) c = c
  Step-Holds {s} (read_fails e) c = rw e at c
  Step-Holds {s} (goes_offline e) c =
      let (m, c') = rw e at c in (m, 0, ap (λ l. l ++ set_offline ∷ []) c')
  Step-Holds {s} (closes_stop e) c = rw e at c
  Step-Holds {s} (unregisters e) c = rw e at c
  Step-Holds {s} (refreshes e) c = Called-refreshed (stage s.handler) s.refresher s.calls e c
  Step-Holds {s} (refresh_ends e e2) c = Called-ended (stage s.handler) s.refresher s.calls e c
  Step-Holds {s} (others hub state) c = c

  Steps-Holds : {s t : Session S} → Steps h presence identity id s t → Holds s → Holds t
  Steps-Holds here c = c
  Steps-Holds (then_step r t) c = Step-Holds t (Steps-Holds r c)

  -- A connection that began with this hub and this state is over, and made these calls.
  pub record IsOver (hub : Hub) (state : S) (calls : List PresenceCall) : Type 0 where
    pub last : Session S
    pub run : Steps h presence identity id (start identity id hub state) last
    pub handler_returned : last.handler ≡ returned
    pub refresher_ended : last.refresher ≡ ended
    pub made : last.calls ≡ calls

  IsOver-Left :
      (hub : Hub) (state : S) (calls : List PresenceCall) → IsOver hub state calls → Left calls
  unfolding stage start
  IsOver-Left hub state calls o =
      let left = rw o.handler_returned at (Steps-Holds o.run (refl, refl)) in rw o.made at left

  -- The refresher's ticker fires so many times.
  abbrev refreshed : ℕ → Session S → Session S
  refreshed zero s = s
  refreshed (suc n) s = call_online presence identity (refreshed n s)

  record SameFields (s t : Session S) : Type 0 where
    handler : t.handler ≡ s.handler
    refresher : t.refresher ≡ s.refresher
    stop : t.stop ≡ s.stop

  refreshed-SameFields : (n : ℕ) (s : Session S) → SameFields s (refreshed n s)
  unfolding call_online
  refreshed-SameFields zero s = record { handler = refl; refresher = refl; stop = refl }
  refreshed-SameFields (suc n) s =
      let f = refreshed-SameFields n s in
      record { handler = f.handler; refresher = f.refresher; stop = f.stop }

  refreshed-calls : (n : ℕ) (s : Session S) → (refreshed n s).calls ≡ s.calls ++ onlines n
  unfolding call_online
  refreshed-calls zero s = sym (append-nil s.calls)
  refreshed-calls (suc n) s =
      ap (λ l. l ++ set_online ∷ []) (refreshed-calls n s)
      ∙ append_assoc s.calls (onlines n) (set_online ∷ [])
      ∙ ap (λ l. s.calls ++ l) (onlines-one_more n)

  run_refreshed :
      (n : ℕ) (s t : Session S)
      → t.refresher ≡ running
      → Steps h presence identity id s t
      → Steps h presence identity id s (refreshed n t)
  run_refreshed zero s t e r = r
  run_refreshed (suc n) s t e r =
      then_step (run_refreshed n s t e r) (refreshes ((refreshed-SameFields n t).refresher ∙ e))

  up_to_serving : Hub → S → Session S
  unfolding call_online start
  up_to_serving hub state =
      let s = call_online presence identity (record (start identity id hub state) {
        handler = online;
        hub = register id (start identity id hub state).hub;
      }) in
      record s { handler = serving; refresher = running }

  run_to_serving :
      (hub : Hub) (state : S)
      → Steps h presence identity id (start identity id hub state) (up_to_serving hub state)
  unfolding up_to_serving call_online start
  run_to_serving hub state =
      then_step
        (then_step (then_step (then_step here (registers refl)) (goes_online refl))
          (starts_refresh refl))
        (starts_pump refl)

  -- The handler leaves a connection that is served, and the ticker fires `n` times more.
  wound_up : ℕ → Session S → Session S
  wound_up n s =
      let t = refreshed n (call_offline presence identity (record s { handler = offline })) in
      record t { handler = returned; refresher = ended; stop = true; hub = unregister id t.hub }

  run_wound_up :
      (n : ℕ) (s t : Session S)
      → t.handler ≡ serving
      → t.refresher ≡ running
      → Steps h presence identity id s t
      → Steps h presence identity id s (wound_up n t)
  unfolding wound_up call_offline
  run_wound_up n s t e r run =
      let left = call_offline presence identity (record t { handler = offline }) in
      let same = refreshed-SameFields n left in
      let gone = then_step (then_step run (read_fails e)) (goes_offline refl) in
      then_step
        (then_step (then_step (run_refreshed n s left r gone) (closes_stop same.handler))
          (unregisters refl))
        (refresh_ends (same.refresher ∙ r) refl)

  Left-IsOver :
      (hub : Hub) (state : S) (m n : ℕ)
      → IsOver hub state (onlines (suc m) ++ set_offline ∷ onlines n)
  unfolding wound_up up_to_serving call_online call_offline start
  Left-IsOver hub state m n =
      let s = up_to_serving hub state in
      let t = refreshed m s in
      let same = refreshed-SameFields m s in
      record {
        last = wound_up n t;
        run =
            run_wound_up n _ t same.handler same.refresher
              (run_refreshed m _ s refl (run_to_serving hub state));
        handler_returned = refl;
        refresher_ended = refl;
        made =
            refreshed-calls n (call_offline presence identity (record t { handler = offline }))
            ∙ ap (λ l. (l ++ set_offline ∷ []) ++ onlines n) (refreshed-calls m s)
            ∙ append_assoc (onlines (suc m)) (set_offline ∷ []) (onlines n);
      }

  -- The calls that a connection can have made once both its goroutines are over are exactly these:
  -- the user is set online at least once, then offline once, and then possibly online again, any
  -- number of times.
  pub presence_calls :
      (hub : Hub) (state : S) (calls : List PresenceCall) → IsOver hub state calls ↔ Left calls
  presence_calls hub state calls =
      (IsOver-Left hub state calls, λ (m, n, made). rw made (Left-IsOver hub state m n))
