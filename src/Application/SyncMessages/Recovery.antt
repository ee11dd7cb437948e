-- ===== src/Application/SyncMessages/Recovery.antt =====
-- What a sync recovers from the store where the stream has nothing.
use aelora.Prelude.{
  ◌≡◌, ◌≢◌, refl, sym, ap, ◌∙◌, true, String, none, some, List, [], ◌∷◌, is_nil, eq_nil_of_is_nil,
}
use mathlib.Core.Bool.{false≢true}
use aelora.Prelude.Int.{ℤ}
use aelora.Domain.{Message, Result, ok, err}
use aelora.Call.Post.{Post, Post-pure, Post-bind, Post-then, Post-if, Post-given, Post-weaken}
use aelora.Ports.{StreamMessage, StreamRepository, MessageRepository}
use aelora.Application.SyncMessages.{
  SyncMessagesUseCase, backfill, recover_and_backfill, or_recover,
  stream_messages_to_domain_messages, since_of,
}

-- Every message is delivered as one of the room.
abbrev pub InRoom : String → List StreamMessage → Type 0
InRoom room [] = Unit
InRoom room (m ∷ rest) = (m.room_id ≡ room) × InRoom room rest

-- Each message of the history was appended to the room's stream, one after another, and is
-- delivered under the id that the append answered.
abbrev pub Appended :
    {S : Type 0} → StreamRepository S → String → List Message → List StreamMessage → S → S → Type 0
Appended stream room [] [] s s' = s' ≡ s
Appended stream room [] (o ∷ out) s s' = ⊥
Appended stream room (m ∷ rest) [] s s' = ⊥
Appended {S} stream room (m ∷ rest) (o ∷ out) s s' =
    (o.message ≡ m)
    × (mid : S) × (stream.append_message room m s ≡ (ok o.stream_id, mid))
    × Appended stream room rest out mid s'

abbrev Returned :
    {S : Type 0}
    → StreamRepository S
    → String
    → List Message
    → S
    → Result (List StreamMessage)
    → S
    → Type 0
Returned stream room history s (ok out) s' =
    (stream_messages_to_domain_messages out ≡ history)
    × InRoom room out
    × Appended stream room history out s s'
Returned stream room history s (err e) s' = Unit

-- What `backfill` returns: the appended messages, in the order of the history.
backfill_lem :
    {S : Type 0} (stream : StreamRepository S) (room : String) (history : List Message) (s : S)
    → Post (Returned stream room history s) (backfill stream room history) s
unfolding backfill stream_messages_to_domain_messages
backfill_lem stream room [] s = Post-pure (refl, tt, refl)
backfill_lem stream room (m ∷ rest) s =
    Post-bind (stream.append_message room m) s (λ e s1 q. tt)
      λ id s1 q.
        Post-then (backfill_lem stream room rest s1) (λ e s2 p. tt)
          λ out s2 q2 (same, room_ok, rest_ok).
            Post-pure (ap (λ l. m ∷ l) same, (refl, room_ok), (refl, s1, q, rest_ok))

module _ {S : Type 0} (u : SyncMessagesUseCase S) where
  -- A read that found messages is returned; an empty one is replaced by the stored history since
  -- the cursor, each message of which was appended to the stream in that order.
  pub record Recovered (room last : String) (limit : ℤ) (read out : List StreamMessage)
      : Type 0 where
    pub found : read ≢ [] → out ≡ read
    pub no_store : u.msgs ≡ none → out ≡ read
    pub history :
        (repo : MessageRepository S)
        → u.msgs ≡ some repo
        → read ≡ []
        → (stored : List Message) × (a : S) × (b : S) × (c : S) × (repo.list_by_room room
              (since_of last)
              limit
              a
            ≡ (ok stored, b))
          × (stream_messages_to_domain_messages out ≡ stored)
          × InRoom room out
          × Appended u.stream room stored out b c

  abbrev pub Recovers :
      String → String → ℤ → List StreamMessage → Result (List StreamMessage) → S → Type 0
  Recovers room last limit read (ok out) s = Recovered room last limit read out
  Recovers room last limit read (err e) s = Unit

  abbrev History :
      MessageRepository S → String → String → ℤ → Result (List StreamMessage) → S → Type 0
  History repo room last limit (ok out) s =
      (stored : List Message) × (a : S) × (b : S) × (c : S) × (repo.list_by_room room
          (since_of last) limit a
        ≡ (ok stored, b))
      × (stream_messages_to_domain_messages out ≡ stored)
      × InRoom room out
      × Appended u.stream room stored out b c
  History repo room last limit (err e) s = Unit

  recover-Post :
      (repo : MessageRepository S) (room last : String) (limit : ℤ) (s : S)
      → Post (History repo room last limit) (recover_and_backfill u.stream repo room last limit) s
  unfolding recover_and_backfill stream_messages_to_domain_messages
  recover-Post repo room last limit s =
      Post-bind (repo.list_by_room room (since_of last) limit) s (λ e s1 q. tt)
        λ stored s1 q.
          Post-if (is_nil stored)
            (λ empty. Post-pure (none_stored stored s1 q (eq_nil_of_is_nil stored empty)))
            (λ full. Post-weaken (appended stored s1 q) (backfill_lem u.stream room stored s1))
    where
      none_stored :
          (stored : List Message) (s1 : S)
          → repo.list_by_room room (since_of last) limit s ≡ (ok stored, s1)
          → stored ≡ []
          → History repo room last limit (ok []) s1
      none_stored [] s1 q e = ([], s, s1, s1, q, refl, tt, refl)
      none_stored (m ∷ rest) s1 q e = cc

      appended :
          (stored : List Message) (s1 : S)
          → repo.list_by_room room (since_of last) limit s ≡ (ok stored, s1)
          → (r : Result (List StreamMessage)) (s2 : S) → Returned u.stream room stored s1 r s2
          → History repo room last limit r s2
      appended stored s1 q (ok out) s2 (same, room_ok, all) =
          (stored, s, s1, s2, q, same, room_ok, all)
      appended stored s1 q (err e) s2 h = tt

  pub or_recover-Post :
      (room last : String) (limit : ℤ) (read : List StreamMessage) (s : S)
      → Post (Recovers room last limit read) (or_recover u room last limit read) s
  unfolding or_recover
  or_recover-Post room last limit read s =
      Post-given u.msgs
        (λ missing.
          Post-pure (record { found = λ h. refl; no_store = λ h. refl; history = λ repo h e. cc }))
        λ repo o.
          Post-if (is_nil read)
            (λ empty. Post-weaken (recovered repo o empty) (recover-Post repo room last limit s))
            λ full. Post-pure (record {
              found = λ h. refl;
              no_store = λ h. refl;
              history = λ repo' h e. absurd (false≢true (sym full ∙ ap is_nil e));
            })
    where
      recovered :
          (repo : MessageRepository S)
          → u.msgs ≡ some repo
          → is_nil read ≡ true
          → (r : Result (List StreamMessage)) (s' : S) → History repo room last limit r s'
          → Recovers room last limit read r s'
      recovered repo o empty (ok out) s' h = record {
        found = λ full. absurd (full (eq_nil_of_is_nil read empty));
        no_store = λ missing. cc;
        history = λ repo' o' e. let same : repo ≡ repo' = cc in rw (← same) h;
      }
      recovered repo o empty (err e) s' h = tt
