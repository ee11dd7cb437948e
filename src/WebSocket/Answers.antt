-- ===== src/WebSocket/Answers.antt =====
-- What a client is told of its requests.
use aelora.Prelude.{
  ◌≤◌, ◌≡◌, ◌≢◌, refl, ap, ◌⊎◌, inl, inr, String, ◌==◌, true, false, [], ◌∷◌, ◌++◌, length,
  length-append_one, ltb, arith, Bool-cases,
}
use aelora.Domain.{Message, Result, ok, err}
use aelora.Application.SyncMessages.{SyncMessagesResult}
use aelora.Application.SendMessage.{execute as execute_send}
use aelora.Application.SendMessage.Contract.{DeliveryContract}
use aelora.Application.SendMessage.Delivery.{Delivered, execute-Delivered}
use aelora.WebSocket.{
  WsClient, WsRequest, WsResponse, nothing, accepted, WebSocketHandler, send_command, send_response,
  ack_response, sync_response, handle_send_message, handle_ack, handle_sync, answer, serve, enqueue,
  queue_size, failure,
}

-- A client's queue after one more frame was offered.
abbrev pub Offered : WsClient → WsResponse → WsClient → Type 0
Offered c msg c' =
    (length c'.send ≤ queue_size)
    × ((c'.send ≡ c.send) × ((c.closed ≡ true) ⊎ (length c.send ≡ queue_size))
        ⊎ (c'.send ≡ c.send ++ msg ∷ []) × (c.closed ≡ false))

enqueue-Offered :
    (c : WsClient) (msg : WsResponse) → length c.send ≤ queue_size → Offered c msg (enqueue c msg).1
unfolding enqueue
enqueue-Offered c msg bound = elim (Bool-cases (c.closed)) [
  | inl closed ↦ rw closed (bound, inl (refl, inl refl))
  | inr opened ↦ elim (Bool-cases (ltb (length c.send) queue_size)) [
    | inl room ↦ rw (opened, room) (ground (arith, length-append_one c.send msg), inr (refl, refl))
    | inr full ↦ rw (opened, full) (bound, inl (refl, inr (ground arith)))
  ]
]

-- A client's queue stays within its 128 places. Serving a request adds exactly its one answer at the
-- end, or nothing where the client is closed or its queue is full.
pub serve-Offered :
    {S : Type 0} (h : WebSocketHandler S) (c : WsClient) (req : WsRequest) (s : S)
    → length c.send ≤ queue_size
    → Offered c (answer h c.user_id c.device_id req s).0 (serve h c req s).0
unfolding serve
serve-Offered h c req s bound = enqueue-Offered c (answer h c.user_id c.device_id req s).0 bound

nothing_accepted : (m : Message) → nothing ≢ accepted m
nothing_accepted m e = cc

accepted_send :
    (r : Result Message) (m : Message) → (send_response r).message ≡ accepted m → r ≡ ok m
unfolding send_response
accepted_send (ok n) m e = cc
accepted_send (err x) m e = absurd (nothing_accepted m e)

ack_not_accepted :
    (id : String) (r : Result (Unit {0})) (m : Message) → (ack_response id r).message ≢ accepted m
unfolding ack_response
ack_not_accepted id (ok done) m e = cc
ack_not_accepted id (err x) m e = nothing_accepted m e

sync_not_accepted :
    (id : String) (r : Result SyncMessagesResult) (m : Message)
    → (sync_response id r).message ≢ accepted m
unfolding sync_response
sync_not_accepted id (ok out) m e = cc
sync_not_accepted id (err x) m e = nothing_accepted m e

module _ {S : Type 0} (h : WebSocketHandler S) (contract : DeliveryContract h.send)
    (user device : String) (req : WsRequest) (s : S) where
  abbrev Truthful : WsResponse × S → Type 0
  Truthful (resp, s') =
      (m : Message)
      → resp.message ≡ accepted m
      → contract.Saved m s' × Delivered h.send contract m s'

  told_send : Truthful (handle_send_message h user req s)
  unfolding handle_send_message
  told_send m e =
      let sent = execute_send h.send (send_command h user req) s in
      let ends : Result Message → Result Message × S = λ r. (r, sent.1) in
      execute-Delivered h.send contract (send_command h user req) s sent.1 m
        (ap ends (accepted_send sent.0 m e))

  told_ack : Truthful (handle_ack h user device req s)
  unfolding handle_ack
  told_ack m e = absurd (ack_not_accepted req.stream_id _ m e)

  told_sync : Truthful (handle_sync h user device req s)
  unfolding handle_sync
  told_sync m e = absurd (sync_not_accepted req.room_id _ m e)

  told_failure : (text : String) → Truthful (failure text, s)
  told_failure text m e = absurd (nothing_accepted m e)

  told : Truthful (answer h user device req s)
  unfolding answer
  told = elim (Bool-cases (req.kind == "send_message")) [
    | inl send ↦ rw send told_send
    | inr other ↦ elim (Bool-cases (req.kind == "ACK")) [
      | inl ack ↦ rw (other, ack) told_ack
      | inr other2 ↦ elim (Bool-cases (req.kind == "SYNC")) [
        | inl sync ↦ rw (other, other2, sync) told_sync
        | inr other3 ↦ rw (other, other2, other3) (told_failure "unsupported type")
      ]
    ]
  ]

  -- A client is told that a message was accepted only when it is stored, and is in the stream of its
  -- room and was announced, or waits in the outbox.
  pub told_accepted :
      (m : Message)
      → (answer h user device req s).0.message ≡ accepted m
      → let s' = (answer h user device req s).1 in
        contract.Saved m s' × Delivered h.send contract m s'
  told_accepted = told
