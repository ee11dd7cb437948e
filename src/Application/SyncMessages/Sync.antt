-- ===== src/Application/SyncMessages/Sync.antt =====
-- What a sync returns.
use aelora.Prelude.{
  ◌≡◌, ◌≢◌, refl, sym, ◌∙◌, true, false, not, String, ◌==◌, eq_iff, List, arith, if◌then◌else◌,
}
use mathlib.Core.Bool.{false≢true}
use aelora.Prelude.Int.{ℤ, pos, is_nonpos}
use aelora.Domain.{Room, Result, ok, err, has_member}
use aelora.Call.Post.{
  Post, Post-pure, Post-fail, Post-bind, Post-then, Post-if, Post-weaken, Post-at,
}
use aelora.Ports.{StreamMessage}
use aelora.Application.SyncMessages.{
  SyncMessagesUseCase, SyncMessagesQuery, SyncMessagesResult, cursor, execute,
}
use aelora.Application.SyncMessages.Replies.{Hydrated, Hydrates, hydrate-Post}
use aelora.Application.SyncMessages.Recovery.{Recovered, or_recover-Post}

module _ {S : Type 0} (u : SyncMessagesUseCase S) where
  module _ (q : SyncMessagesQuery) (s : S) where
    -- The cursor that the sync starts from, read in `a`: the query's own, or else the stored one, or
    -- else "0".
    pub record StartsAt (a : S) (last : String) : Type 0 where
      pub own : q.last_ack ≢ "" → last ≡ q.last_ack
      pub stored :
          q.last_ack ≡ ""
          → (ack : String) × (b : S) × (u.ack.get_last_ack q.user_id q.device_id q.room_id a
              ≡ (ok ack, b))
            × (last ≡ (if ack == "" then "0" else ack))

    abbrev Starts : S → Result String → S → Type 0
    Starts a (ok last) s' = StartsAt a last
    Starts a (err e) s' = Unit

    cursor-Post : (a : S) → Post (Starts a) (cursor u q) a
    unfolding cursor
    cursor-Post a =
        Post-if (q.last_ack == "")
          (λ empty.
            Post-bind (u.ack.get_last_ack q.user_id q.device_id q.room_id) a (λ e b r. tt)
              λ ack b r. Post-pure (record {
                own = λ ne. absurd (ne ((eq_iff _ _).0 empty));
                stored = λ e. (ack, b, r, refl);
              }))
          λ given_. Post-pure (record {
            own = λ ne. refl;
            stored = λ e. absurd (false≢true (sym given_ ∙ (eq_iff _ _).1 e));
          })

    -- A successful sync of `q` from `s`, with the result `out`.
    pub record Synced (out : SyncMessagesResult) : Type 0 where
      pub room : Room
      pub found : S
      pub last : String
      pub limit : ℤ
      pub read : List StreamMessage
      pub a : S
      pub b : S
      pub lookup_room : u.rooms.get q.room_id s ≡ (ok room, found)
      pub member : has_member room q.user_id ≡ true
      pub starts : StartsAt found last
      pub own_limit : is_nonpos q.limit ≡ false → limit ≡ q.limit
      pub no_limit : is_nonpos q.limit ≡ true → limit ≡ pos 100
      pub reading : u.stream.read_from q.room_id last limit a ≡ (ok read, b)
      pub returned : List StreamMessage
      pub messages : Recovered u q.room_id last limit read returned
      pub replies : Hydrated u q.room_id returned out

    abbrev Syncs : Result SyncMessagesResult → S → Type 0
    Syncs (ok out) s' = Synced out
    Syncs (err e) s' = Unit

    sync-Post : Post Syncs (execute u q) s
    unfolding execute
    sync-Post =
        Post-bind (u.rooms.get q.room_id) s (λ e s1 r. tt)
          λ room s1 r.
            Post-if (not (has_member room q.user_id)) (λ out. Post-fail tt)
              λ member.
                Post-then (cursor-Post s1) (λ e s2 p. tt)
                  λ last s2 c starts.
                    let limit = if is_nonpos q.limit then pos 100 else q.limit in
                    Post-bind (u.stream.read_from q.room_id last limit) s2 (λ e s3 p. tt)
                      λ read s3 reading.
                        Post-then (or_recover-Post u q.room_id last limit read s3) (λ e s4 p. tt)
                          λ messages s4 m recovered.
                            Post-weaken
                              (synced room s1 r member last starts s2 read s3 reading messages
                                recovered)
                              (hydrate-Post u q.room_id messages s4)
      where
        synced :
            (room : Room) (s1 : S)
            → u.rooms.get q.room_id s ≡ (ok room, s1)
            → not (has_member room q.user_id) ≡ false
            → (last : String) → StartsAt s1 last
            → (s2 : S) (read : List StreamMessage) (s3 : S)
            → u.stream.read_from q.room_id last (if is_nonpos q.limit then pos 100 else q.limit) s2
              ≡ (ok read, s3)
            → (messages : List StreamMessage)
            → Recovered u q.room_id last
                (if is_nonpos q.limit then pos 100 else q.limit)
                read
                messages
            → (r : Result SyncMessagesResult) (s5 : S) → Hydrates u q.room_id messages r s5
            → Syncs r s5
        synced room s1 r member last starts s2 read s3 reading messages recovered (ok out) s5 h =
            record {
              room = room;
              found = s1;
              last = last;
              limit = if is_nonpos q.limit then pos 100 else q.limit;
              read = read;
              a = s2;
              b = s3;
              lookup_room = r;
              member = ground arith;
              starts = starts;
              own_limit = λ e. rw e;
              no_limit = λ e. rw e;
              reading = reading;
              returned = messages;
              messages = recovered;
              replies = h;
            }
        synced room s1 r member last starts s2 read s3 reading messages recovered (err e) s5 h = tt

    -- A sync that succeeds was asked for by a member; it starts at the query's cursor, else at the
    -- stored one, else at "0", with the query's limit or 100; it returns what the room's stream has
    -- from there, or, if that is nothing and there is a store, the stored history since the cursor,
    -- each message of which was appended to the stream in that order and is returned under the id of
    -- its append; and it fetches exactly the messages that a returned one answers.
    pub sync_ok : (s' : S) (out : SyncMessagesResult) → execute u q s ≡ (ok out, s') → Synced out
    sync_ok s' out e = Post-at (ok out) s' sync-Post e
