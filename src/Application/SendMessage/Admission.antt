-- ===== src/Application/SendMessage/Admission.antt =====
-- Nothing is written for a message that is not admitted.
use aelora.Prelude.{
  ℕ, ◌≡◌, ◌≢◌, refl, ◌⊎◌, inl, inr, true, false, not, String, ◌==◌, eq_iff, some, List, [], ◌∷◌,
  lookup, concat, arith,
}
use aelora.Domain.{Message, Room, Result, ok, err, has_member, validate}
use aelora.Domain.Laws.{IsSendable, validate_iff}
use aelora.Call.{Keeps, ◌>>◌}
use aelora.Call.Post.{
  Post, Post-pure, Post-fail, Post-call, Post-if, Post-given, Post-bind, Post-run, Post-lift,
  Post-then,
}
use aelora.Ports.{MessageRateLimiter}
use aelora.Application.SendMessage.{
  SendMessageUseCase, SendMessageCommand, message, check_limit, check_reply, prepare, save, deliver,
  execute,
}

module _ {S : Type 0} (u : SendMessageUseCase S) (cmd : SendMessageCommand) where
  -- The limiter, where there is one, has let this sender and room through.
  abbrev pub LimitPassed : Type 0
  LimitPassed =
      (limiter : MessageRateLimiter S)
      → u.limiter ≡ some limiter
      → (a : S) × (b : S) × (limiter.allow (concat (concat cmd.sender_id ":") cmd.room_id) a
          ≡ (true, b))

  -- The message that is answered, where there is one, was found in the room.
  abbrev pub ReplyFound : Type 0
  ReplyFound =
      cmd.reply_to_id ≢ ""
      → (a : S) × (b : S) × (replies : List (String × Message)) × (reply : Message)
        × (u.messages.get_by_ids cmd.room_id (cmd.reply_to_id ∷ []) a ≡ (ok replies, b))
        × (lookup cmd.reply_to_id replies ≡ some reply)

  -- Each check of `Execute` has passed for `m`.
  pub record Admitted (m : Message) : Type 0 where
    pub id : String
    pub now : ℕ
    pub built : m ≡ message cmd id now
    pub sendable : IsSendable m
    pub asked : S
    pub answered : S
    pub fresh :
        u.messages.exists_by_client_msg_id cmd.sender_id cmd.client_msg_id asked
        ≡ (ok false, answered)
    pub room : Room
    pub found : S
    pub lookup_room : u.rooms.get cmd.room_id answered ≡ (ok room, found)
    pub member : has_member room cmd.sender_id ≡ true
    pub limit : LimitPassed
    pub reply : ReplyFound

  -- The steps before the message is saved leave `P` standing.
  pub record ReadsKeep (P : S → Type 0) : Type 0 where
    pub allow :
        (limiter : MessageRateLimiter S)
        → u.limiter ≡ some limiter
        → (key : String) (s : S) → P s
        → P (limiter.allow key s).1
    pub exists :
        (sender client : String) → Keeps P (u.messages.exists_by_client_msg_id sender client)
    pub get : (room : String) → Keeps P (u.rooms.get room)
    pub get_by_ids : (room : String) (ids : List String) → Keeps P (u.messages.get_by_ids room ids)
    pub new_id : (s : S) → P s → P (u.ids.new s).1
    pub now : (s : S) → P s → P (u.clock.now s).1

  module _ (P : S → Type 0) (keep : ReadsKeep P) where
    abbrev Checked : Type 0 → Result (Unit {0}) → S → Type 0
    Checked T (ok done) s = P s × T
    Checked T (err e) s = P s

    limit-Post : (s : S) → P s → Post (Checked LimitPassed) (check_limit u cmd) s
    unfolding check_limit
    limit-Post s p =
        Post-given u.limiter (λ missing. Post-pure (p, λ l o. cc))
          λ limiter o.
            Post-run (limiter.allow (concat (concat cmd.sender_id ":") cmd.room_id)) s
              λ allowed s1 q.
                let p1 : P s1 =
                  rw q at
                    (keep.allow limiter o (concat (concat cmd.sender_id ":") cmd.room_id) s p) in
                Post-if (not allowed) (λ denied. Post-fail p1)
                  λ passed. Post-pure (
                    p1,
                    λ l o'.
                        let same : limiter ≡ l = cc in
                        let let_in : allowed ≡ true = ground arith in
                        rw (← same) (s, s1, rw let_in at q),
                  )

    reply-Post : (s : S) → P s → Post (Checked ReplyFound) (check_reply u cmd) s
    unfolding check_reply
    reply-Post s p =
        Post-if (not (cmd.reply_to_id == ""))
          (λ named.
            Post-bind (u.messages.get_by_ids cmd.room_id (cmd.reply_to_id ∷ [])) s
              (λ e s1 q. rw q at (keep.get_by_ids cmd.room_id (cmd.reply_to_id ∷ []) s p))
              λ replies s1 q.
                Post-given (lookup cmd.reply_to_id replies)
                  (λ missing.
                    Post-fail (rw q at (keep.get_by_ids cmd.room_id (cmd.reply_to_id ∷ []) s p)))
                  λ reply found. Post-pure (
                    rw q at (keep.get_by_ids cmd.room_id (cmd.reply_to_id ∷ []) s p),
                    λ ne. (s, s1, replies, reply, q, found),
                  ))
          λ unnamed. Post-pure (p, λ ne. absurd (ne ((eq_iff _ _).0 (ground arith))))

    abbrev Prepared : Result Message → S → Type 0
    Prepared (ok m) s = P s × Admitted m
    Prepared (err e) s = P s

    prepare-Post : (s : S) → P s → Post Prepared (prepare u cmd) s
    unfolding prepare
    prepare-Post s p =
        Post-then (limit-Post s p) (λ e s1 p1. p1)
          λ done1 s1 q1 (p1, limit).
            Post-bind (u.messages.exists_by_client_msg_id cmd.sender_id cmd.client_msg_id) s1
              (λ e s2 q. rw q at (keep.exists cmd.sender_id cmd.client_msg_id s1 p1))
              λ exists s2 q2.
                let p2 : P s2 = rw q2 at (keep.exists cmd.sender_id cmd.client_msg_id s1 p1) in
                Post-if exists (λ old. Post-fail p2)
                  λ fresh.
                    Post-bind (u.rooms.get cmd.room_id) s2
                      (λ e s3 q. rw q at (keep.get cmd.room_id s2 p2))
                      λ room s3 q3.
                        let p3 : P s3 = rw q3 at (keep.get cmd.room_id s2 p2) in
                        Post-if (not (has_member room cmd.sender_id)) (λ outsider. Post-fail p3)
                          λ member. Post-run u.ids.new s3 λ id s4 q4.
                            Post-run u.clock.now s4 λ now s5 q5.
                              Post-then
                                (reply-Post s5
                                  (rw q5 at (keep.now s4 (rw q4 at (keep.new_id s3 p3)))))
                                (λ e s6 p6. p6)
                                λ done2 s6 q6 (p6, reply).
                                  Post-lift (validate (message cmd id now)) (λ e bad. p6)
                                    λ done3 valid. Post-pure (
                                      p6,
                                      record {
                                        id = id;
                                        now = now;
                                        built = refl;
                                        sendable = (validate_iff (message cmd id now)).0 valid;
                                        asked = s1;
                                        answered = s2;
                                        fresh = rw fresh at q2;
                                        room = room;
                                        found = s3;
                                        lookup_room = q3;
                                        member = ground arith;
                                        limit = limit;
                                        reply = reply;
                                      },
                                    )

  -- The call failed before the message was saved, and `P` still stands.
  pub record NotSaved (P : S → Type 0) (r : Result Message) (s' : S) : Type 0 where
    pub fails : (m : Message) → r ≢ ok m
    pub kept : P s'

  -- An admitted message went on to be saved and delivered, which ended in `r` and `s'`.
  pub record Attempted (P : S → Type 0) (r : Result Message) (s' : S) : Type 0 where
    pub msg : Message
    pub ready : S
    pub kept : P ready
    pub admitted : Admitted msg
    pub ends : (save u msg >> deliver u msg) ready ≡ (r, s')

  -- A send either fails and has written nothing (what the reading steps keep still holds), or
  -- every check has passed (the rate limit, the client message id, the sender's membership, the
  -- answered message, the message's own validity), and only then the message is saved.
  pub admission :
      (P : S → Type 0)
      → ReadsKeep P
      → (s : S) → P s
      → let (r, s') = execute u cmd s in NotSaved P r s' ⊎ Attempted P r s'
  unfolding execute
  admission P keep s p =
      (Post-then {Q = λ r s'. NotSaved P r s' ⊎ Attempted P r s'} (prepare-Post P keep s p)
        (λ e s1 p1. inl (record { fails = λ m q. cc; kept = p1 }))
        λ m s1 q h. Post-call (save u m >> deliver u m) s1 λ r s' ends.
          inr (record { msg = m; ready = s1; kept = h.0; admitted = h.1; ends = ends })).holds
