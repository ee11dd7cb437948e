-- ===== src/Application/ListMessages/Laws.antt =====
-- Who may list a room's messages, and how many are asked for.
use aelora.Prelude.{ℕ, ◌≤◌, ◌≡◌, ◌≢◌, ◌⊎◌, inl, inr, true, not, List, arith}
use aelora.Prelude.Int.{ℤ, pos, negsuc, to_nat}
use aelora.Domain.{Message, Room, Result, ok, has_member}
use aelora.Call.{Keeps}
use aelora.Call.Post.{Post-fail, Post-call, Post-bind, Post-if, err-ne-ok}
use aelora.Application.ListMessages.{ListMessagesUseCase, ListMessagesQuery, clamp_limit, execute}

-- The limit is between 1 and 500; within that range it is the one that was asked for.
clamp_limit_range :
    (limit : ℤ) (k : ℕ)
    → clamp_limit limit ≡ pos k
    → (1 ≤ k) × (k ≤ 500) × ((n : ℕ) → limit ≡ pos n → 1 ≤ n → n ≤ 500 → k ≡ n)
unfolding clamp_limit
clamp_limit_range (pos n) k e = (ground arith, ground arith, λ m p a b. ground arith)
clamp_limit_range (negsuc n) k e = (ground arith, ground arith, λ m p a b. ground arith)

clamp_limit_pos : (limit : ℤ) → (k : ℕ) × (clamp_limit limit ≡ pos k)
unfolding clamp_limit
clamp_limit_pos limit = (to_nat (clamp_limit limit), ground arith)

module _ {S : Type 0} (u : ListMessagesUseCase S) (q : ListMessagesQuery) (s : S) where
  -- The user is a member of the room, and the result is the repository's answer for a limit
  -- between 1 and 500, which is the query's own where that lies in the range.
  pub record Listed (r : Result (List Message)) (s' : S) : Type 0 where
    pub room : Room
    pub found : S
    pub limit : ℕ
    pub lookup_room : u.rooms.get q.room_id s ≡ (ok room, found)
    pub member : has_member room q.user_id ≡ true
    pub at_least : 1 ≤ limit
    pub at_most : limit ≤ 500
    pub own_limit : (n : ℕ) → q.limit ≡ pos n → 1 ≤ n → n ≤ 500 → limit ≡ n
    pub answer : u.messages.list_by_room q.room_id q.since (pos limit) found ≡ (r, s')

  pub record Denied (P : S → Type 0) (r : Result (List Message)) (s' : S) : Type 0 where
    pub fails : (out : List Message) → r ≢ ok out
    pub kept : P s'

  -- Listing either fails having only looked the room up, or the user is a member of the room and
  -- the answer is the repository's for that room, from that time on, with a limit between 1 and 500
  -- that is the query's own where that lies in the range.
  pub list_cases :
      (P : S → Type 0)
      → Keeps P (u.rooms.get q.room_id)
      → P s
      → let (r, s') = execute u q s in Denied P r s' ⊎ Listed r s'
  unfolding execute
  list_cases P keep p =
      (Post-bind {Q = λ r s'. Denied P r s' ⊎ Listed r s'} (u.rooms.get q.room_id) s
        (λ e s1 h. inl (record { fails = err-ne-ok _; kept = rw h at (keep s p) }))
        λ room s1 h.
          Post-if (not (has_member room q.user_id))
            (λ out. Post-fail (inl (record { fails = err-ne-ok _; kept = rw h at (keep s p) })))
            λ member.
              let (limit, clamped) = clamp_limit_pos q.limit in
              Post-call (u.messages.list_by_room q.room_id q.since (clamp_limit q.limit)) s1
                λ r s' a. inr (record {
                  room = room;
                  found = s1;
                  limit = limit;
                  lookup_room = h;
                  member = ground arith;
                  at_least = (clamp_limit_range q.limit limit clamped).0;
                  at_most = (clamp_limit_range q.limit limit clamped).1;
                  own_limit = (clamp_limit_range q.limit limit clamped).2;
                  answer = rw clamped at a;
                })).holds
