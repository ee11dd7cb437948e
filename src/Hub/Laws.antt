-- ===== src/Hub/Laws.antt =====
-- What a broadcast does to a client.
use aelora.Prelude.{
  ℕ, ◌<◌, ◌≤◌, ◌≡◌, refl, ◌⊎◌, arith, inl, inr, String, eq_refl, true, false, some, List, [], ◌∷◌,
  ◌++◌, lookup, insert, delete, lookup-insert, lookup-delete, is_nil, length, ltb, eqb, eqb_iff,
  Bool-cases, if◌then◌else◌,
}
use aelora.Domain.{Message}
use aelora.WebSocket.{WsClient, WsResponse, enqueue, close, queue_size}
use aelora.Hub.{
  Hub, has_id, remove_id, ids_or_none, clients_for_user, set_client, drop_client, unregister, frame,
  offer,
}

has_id-remove_id : (id : ℕ) (ids : List ℕ) → has_id id (remove_id id ids) ≡ false
has_id-remove_id id [] = refl
has_id-remove_id id (j ∷ rest) = elim (Bool-cases (eqb j id)) [
  | inl same ↦ rw same (has_id-remove_id id rest)
  | inr other ↦ rw (other, other) (has_id-remove_id id rest)
]

module _ (id : ℕ) (h : Hub) (ids : List ℕ) (user : String) where
  -- The user's clients once `id` is dropped from them.
  dropped :
      has_id id (
        ids_or_none (
          lookup user (
            if is_nil (remove_id id ids)
            then delete user h.users
            else insert user (remove_id id ids) h.users)))
      ≡ false
  dropped = elim (Bool-cases (is_nil (remove_id id ids))) [
    | inl empty ↦ rw (empty, lookup-delete user user h.users, eq_refl user) refl
    | inr full ↦
        rw (full, lookup-insert user user (remove_id id ids) h.users, eq_refl user)
          (has_id-remove_id id ids)
  ]

eqb_refl : (n : ℕ) → eqb n n ≡ true
eqb_refl n = (eqb_iff n n).1 refl

-- The client is closed, and its user has it no more.
pub record Gone (id : ℕ) (user : String) (h : Hub) : Type 0 where
  pub closed : (h.clients id).closed ≡ true
  pub absent : has_id id (clients_for_user h user) ≡ false

drop_client-Gone :
    (id : ℕ) (user : String) (ids : List ℕ) (h : Hub)
    → Gone id user (drop_client id user (some ids) h)
unfolding drop_client clients_for_user close
drop_client-Gone id user ids h = record {
  closed = rw (eqb_refl id) refl;
  absent = dropped id h ids user;
}

-- A client takes a frame.
Takes : WsClient → Type 0
Takes c = (c.closed ≡ false) × (length c.send < 128)

-- A client is closed, or its queue is full.
Refuses : WsClient → Type 0
Refuses c = (c.closed ≡ true) ⊎ (128 ≤ length c.send)

enqueue_cases :
    (c : WsClient) (msg : WsResponse)
    → (Takes c × (enqueue c msg ≡ (true, record c { send = c.send ++ msg ∷ [] })))
      ⊎ (Refuses c × (enqueue c msg ≡ (false, c)))
unfolding enqueue Takes Refuses
enqueue_cases c msg = elim (Bool-cases (c.closed)) [
  | inl closed ↦ inr (inl closed, rw closed refl)
  | inr opened ↦ elim (Bool-cases (ltb (length c.send) queue_size)) [
    | inl room ↦ inl ((opened, ground arith), rw (opened, room) refl)
    | inr full ↦ inr (inr (ground arith), rw (opened, full) refl)
  ]
]

-- The frame stands at the end of the client's queue, which goes on as it was otherwise, and the
-- registrations are as before.
pub record Framed (msg : Message) (id : ℕ) (h h' : Hub) : Type 0 where
  pub queued : (h'.clients id).send ≡ (h.clients id).send ++ frame msg ∷ []
  pub open_still : (h'.clients id).closed ≡ (h.clients id).closed
  pub registered : h'.users ≡ h.users

-- A client that is registered for its user and is offered a frame: where it is open and fewer than
-- 128 frames wait, the frame stands at the end of its queue and it stays open and registered; where
-- it is closed or 128 frames wait, it is closed and registered no more.
pub offer_cases :
    (msg : Message) (id : ℕ) (ids : List ℕ) (h : Hub)
    → lookup (h.clients id).user_id h.users ≡ some ids
    → (((h.clients id).closed ≡ false)
        × (length (h.clients id).send < 128)
        × Framed msg id h (offer msg id h))
      ⊎ ((((h.clients id).closed ≡ true) ⊎ (128 ≤ length (h.clients id).send))
          × Gone id (h.clients id).user_id (offer msg id h))
unfolding offer unregister Takes Refuses
offer_cases msg id ids h known = elim (enqueue_cases (h.clients id) (frame msg)) [
  | inl (takes, taken) ↦ inl (
    takes.0,
    takes.1,
    rw taken (record {
      queued = rw (eqb_refl id) refl;
      open_still = rw (eqb_refl id) refl;
      registered = refl;
    }),
  )
  | inr (refuses, refused) ↦ inr (
    refuses,
    rw (refused, eqb_refl id, known)
        (drop_client-Gone id (h.clients id).user_id ids (set_client id (h.clients id) h)),
  )
]
