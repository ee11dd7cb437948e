-- ===== src/WebSocket/Pump/Stops.antt =====
-- websocket.go: the write pump returns once its client is closed.
use aelora.Prelude.{
  ℕ, suc, ◌+◌, ◌≤◌, ◌≡◌, refl, Bool, true, false, List, [], ◌∷◌, length, arith, if◌then◌else◌,
}
use aelora.WebSocket.{WsResponse, enqueue, close}
use aelora.WebSocket.Pump.{
  Pump, offer, shut, frame_round, with_frame, ping_round, Step, offered, was_shut, framed, pinged,
  Steps, here, then_step,
}

abbrev one_if : Bool → ℕ
one_if b = if b then 1 else 0

-- How many of the steps are rounds of a running pump that read the channel.
abbrev pub reads_in : {p q : Pump} → Step p q → ℕ
reads_in {p} (offered msg) = 0
reads_in {p} was_shut = 0
reads_in {p} (framed wrote) = one_if p.running
reads_in {p} (pinged answered) = 0

abbrev pub reads : {p q : Pump} → Steps p q → ℕ
reads here = 0
reads (then_step s t) = reads s + reads_in t

-- The rounds that a closed client's pump has left: one for each frame that waits, and the last.
abbrev rounds_left : Pump → ℕ
rounds_left p = if p.running then suc (length p.client.send) else 0

-- What a step does to a closed client.
record IsNearer (n : ℕ) (p q : Pump) : Type 0 where
  closed : q.client.closed ≡ true
  nearer : n + rounds_left q ≤ rounds_left p

offer-IsNearer : (msg : WsResponse) (p : Pump) → p.client.closed ≡ true → IsNearer 0 p (offer msg p)
unfolding offer enqueue
offer-IsNearer msg p c = record { closed = ground arith; nearer = ground arith }

framed_by :
    (wrote : Bool) (p : Pump) (send : List WsResponse)
    → p.client.send ≡ send
    → p.client.closed ≡ true
    → p.running ≡ true
    → IsNearer 1 p (with_frame wrote send p)
unfolding close
framed_by wrote p [] s c r = record { closed = ground arith; nearer = ground arith }
framed_by true p (msg ∷ rest) s c r = record { closed = c; nearer = rw (r, s) (omega arith) }
framed_by false p (msg ∷ rest) s c r = record { closed = refl; nearer = rw r (omega arith) }

frame-IsNearer :
    (wrote : Bool) (p : Pump)
    → p.client.closed ≡ true
    → (b : Bool) → p.running ≡ b
    → IsNearer (one_if b) p (if b then with_frame wrote p.client.send p else p)
frame-IsNearer wrote p c true r = framed_by wrote p p.client.send refl c r
frame-IsNearer wrote p c false r = record { closed = c; nearer = omega arith }

ping-IsNearer :
    (answered : Bool) (p : Pump) → p.client.closed ≡ true → IsNearer 0 p (ping_round answered p)
unfolding ping_round close
ping-IsNearer answered p c = record { closed = ground arith; nearer = ground arith }

Step-IsNearer : {p q : Pump} (t : Step p q) → p.client.closed ≡ true → IsNearer (reads_in t) p q
unfolding shut frame_round close
Step-IsNearer {p} (offered msg) c = offer-IsNearer msg p c
Step-IsNearer {p} was_shut c = record { closed = refl; nearer = omega arith }
Step-IsNearer {p} (framed wrote) c = frame-IsNearer wrote p c p.running refl
Step-IsNearer {p} (pinged answered) c = ping-IsNearer answered p c

Steps-IsNearer : {p q : Pump} (s : Steps p q) → p.client.closed ≡ true → IsNearer (reads s) p q
Steps-IsNearer here c = record { closed = c; nearer = omega arith }
Steps-IsNearer (then_step s t) c =
    let before = Steps-IsNearer s c in
    let after = Step-IsNearer t before.closed in
    record { closed = after.closed; nearer = omega (arith, before.nearer, after.nearer) }

-- Once a client is closed, its pump reads the channel at most once for each frame that waits and
-- once more, whatever the goroutines do in whatever order; after so many rounds it has returned.
pub pump_stops :
    (p q : Pump) (s : Steps p q)
    → p.client.closed ≡ true
    → (reads s ≤ suc (length p.client.send))
      × (reads s ≡ suc (length p.client.send) → q.running ≡ false)
pump_stops p q s c =
    let n = (Steps-IsNearer s c).nearer in (ground (arith, n), λ e. ground (arith, n))
