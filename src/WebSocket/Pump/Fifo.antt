-- ===== src/WebSocket/Pump/Fifo.antt =====
-- websocket.go: the socket takes the accepted frames in their order.
use aelora.Prelude.{
  ◌≤◌, ◌≡◌, refl, sym, ap, ◌∙◌, String, Bool, true, false, List, [], ◌∷◌, ◌++◌, length,
  length-append_one, ltb, ltb→lt, Bool-cases, inl, inr, arith, if◌then◌else◌,
}
use mathlib.Core.Path.{subst}
use aelora.WebSocket.{WsResponse, queue_size, new_ws_client, enqueue, close}
use aelora.WebSocket.Pump.{
  Pump, offer, shut, frame_round, ping_round, with_frame, Step, offered, was_shut, framed, pinged,
  Steps, here, then_step, started,
}

append_assoc : (xs ys zs : List WsResponse) → (xs ++ ys) ++ zs ≡ xs ++ (ys ++ zs)
append_assoc [] ys zs = refl
append_assoc (x ∷ xs) ys zs = ap (λ l. x ∷ l) (append_assoc xs ys zs)

-- What the socket has taken, then what was taken out and lost, then what waits, is what was
-- accepted. Nothing is lost while the pump runs, and at most one frame ever is.
pub record InOrder (p : Pump) : Type 0 where
  pub lost : List WsResponse
  pub order : p.accepted ≡ p.written ++ (lost ++ p.client.send)
  pub at_most_one : length lost ≤ 1
  pub none_lost : p.running ≡ true → lost ≡ []
  pub bounded : length p.client.send ≤ queue_size

-- A step that leaves the frames where they are.
kept :
    {p : Pump} (q : Pump)
    → InOrder p
    → q.accepted ≡ p.accepted
    → q.written ≡ p.written
    → q.client.send ≡ p.client.send
    → (q.running ≡ true → p.running ≡ true)
    → InOrder q
kept {p} q i accepted written send running = record {
  lost = i.lost;
  order =
      accepted
      ∙ i.order
      ∙ ap (λ w. w ++ (i.lost ++ p.client.send)) (sym written)
      ∙ ap (λ s. q.written ++ (i.lost ++ s)) (sym send);
  at_most_one = i.at_most_one;
  none_lost = λ r. i.none_lost (running r);
  bounded = subst (λ s. length s ≤ queue_size) (sym send) i.bounded;
}

offer-InOrder : (msg : WsResponse) (p : Pump) → InOrder p → InOrder (offer msg p)
unfolding offer enqueue
offer-InOrder msg p i = elim (Bool-cases p.client.closed) [
  | inl c ↦ rw c (kept _ i refl refl refl λ r. r)
  | inr c ↦ elim (Bool-cases (ltb (length p.client.send) queue_size)) [
    | inl r ↦
        rw (c, r)
          (record {
            lost = i.lost;
            order =
                ap (λ l. l ++ msg ∷ []) i.order
                ∙ append_assoc p.written _ _
                ∙ ap (λ l. p.written ++ l) (append_assoc i.lost _ _);
            at_most_one = i.at_most_one;
            none_lost = i.none_lost;
            bounded = omega (
              arith,
              length-append_one p.client.send msg,
              ltb→lt (length p.client.send) queue_size r,
            );
          })
    | inr r ↦ rw (c, r) (kept _ i refl refl refl λ r. r)
  ]
]

shut-InOrder : (p : Pump) → InOrder p → InOrder (shut p)
unfolding shut close
shut-InOrder p i = kept _ i refl refl refl λ r. r

ping-InOrder : (answered : Bool) (p : Pump) → InOrder p → InOrder (ping_round answered p)
unfolding ping_round close
ping-InOrder answered p i = elim (Bool-cases p.running) [
  | inl r ↦ rw r (when_running answered r)
  | inr r ↦ rw r (kept _ i refl refl refl λ e. cc)
]
  where
    when_running :
        (answered : Bool)
        → p.running ≡ true
        → InOrder (
            if answered
            then record p { running = true }
            else record p { client = close p.client; running = false })
    when_running true r = kept _ i refl refl refl λ e. r
    when_running false r = kept _ i refl refl refl λ e. cc

frame_by :
    (wrote : Bool) (p : Pump) (send : List WsResponse)
    → p.client.send ≡ send
    → p.running ≡ true
    → InOrder p
    → InOrder (with_frame wrote send p)
unfolding close
frame_by wrote p [] s r i = elim (Bool-cases p.client.closed) [
  | inl c ↦ rw c (kept _ i refl refl refl λ e. cc)
  | inr c ↦ rw c (kept _ i refl refl refl λ e. r)
]
frame_by wrote p (msg ∷ rest) s r i = by_write wrote
  where
    shorter : length rest ≤ queue_size
    shorter = let b = subst (λ l. length l ≤ queue_size) s i.bounded in omega arith

    whole : p.accepted ≡ p.written ++ (msg ∷ rest)
    whole =
        i.order
        ∙ ap (λ l. p.written ++ (l ++ p.client.send)) (i.none_lost r)
        ∙ ap (λ l. p.written ++ l) s

    by_write : (wrote : Bool) → InOrder (with_frame wrote (msg ∷ rest) p)
    by_write true = record {
      lost = [];
      order = whole ∙ sym (append_assoc p.written (msg ∷ []) rest);
      at_most_one = omega arith;
      none_lost = λ e. refl;
      bounded = shorter;
    }
    by_write false = record {
      lost = msg ∷ [];
      order = whole;
      at_most_one = omega arith;
      none_lost = λ e. cc;
      bounded = shorter;
    }

frame-InOrder : (wrote : Bool) (p : Pump) → InOrder p → InOrder (frame_round wrote p)
unfolding frame_round
frame-InOrder wrote p i = elim (Bool-cases p.running) [
  | inl r ↦ rw r (
      frame_by wrote (record p { running = true }) p.client.send refl refl
        (kept _ i refl refl refl λ e. r))
  | inr r ↦ rw r (kept _ i refl refl refl λ e. cc)
]

next-InOrder : {p q : Pump} → InOrder p → Step p q → InOrder q
next-InOrder {p} i (offered msg) = offer-InOrder msg p i
next-InOrder {p} i was_shut = shut-InOrder p i
next-InOrder {p} i (framed wrote) = frame-InOrder wrote p i
next-InOrder {p} i (pinged answered) = ping-InOrder answered p i

later-InOrder : {p q : Pump} → InOrder p → Steps p q → InOrder q
later-InOrder i here = i
later-InOrder i (then_step s t) = next-InOrder (later-InOrder i s) t

-- Whatever the goroutines do in whatever order after a client's pump has started: the frames that
-- the socket has taken, at most one that was lost when the pump stopped, and those that wait in
-- the queue are the frames that were accepted, in their order, and the queue is within its places.
pub started-InOrder :
    (user_id device_id : String) (p : Pump)
    → Steps (started (new_ws_client user_id device_id)) p
    → InOrder p
unfolding new_ws_client
started-InOrder user_id device_id p s =
    later-InOrder
      (record {
        lost = [];
        order = refl;
        at_most_one = omega arith;
        none_lost = λ e. refl;
        bounded = omega arith;
      })
      s
