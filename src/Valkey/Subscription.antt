-- ===== src/Valkey/Subscription.antt =====
-- internal/adapters/outbound/valkey/stream_repo.go, SubscribeMessageCreated: the goroutine that reads
-- the events and its channel, beside the hub that takes from the channel and whoever unsubscribes.
-- The rest of the world may change between any two steps.
pub mod InOrder
use aelora.Prelude.{
  ℕ, String, Bool, true, false, Option, none, some, List, [], ◌∷◌, ◌++◌, length, ltb, lookup,
  or_else, if◌then◌else◌,
}
use aelora.Prelude.Int.{ℤ, pos, is_nonpos, to_nat}
use aelora.Domain.{Message, Result, ok, err}
use aelora.Valkey.{Client, XItem}
use aelora.Valkey.Streams.{Repository}

-- Where the goroutine is: at the top of its loop; before the read; in the loop over the items; before
-- the channel with a message; or behind its return, where the channel is closed.
pub data Phase : Type 0 where
  checking : Phase
  reading : Phase
  handling : List XItem → Phase
  sending : Message → List XItem → Phase
  returned : Phase

-- `received`, `read` and `lost` are observers: the messages that the hub took, the items that the
-- reads answered, and the messages of the items that a return left.
pub record Subscription (S : Type 0) : Type 0 where
  pub phase : Phase
  pub last_id : String
  pub buffer : ℕ
  pub channel : List Message
  pub cancelled : Bool
  pub world : S
  pub received : List Message
  pub read : List XItem
  pub lost : List Message

abbrev pub room_for : ℤ → ℕ
room_for buffer = if is_nonpos buffer then 128 else to_nat buffer

unfoldable pub subscribe : {S : Type 0} → ℤ → S → Subscription S
subscribe buffer world = record {
  phase = checking;
  last_id = "$";
  buffer = room_for buffer;
  channel = [];
  cancelled = false;
  world = world;
  received = [];
  read = [];
  lost = [];
}

-- The message of an item, where it has one.
abbrev parsed : Result Message → Option Message
parsed (ok msg) = some msg
parsed (err e) = none

module _ {S : Type 0} (r : Repository S) where
  abbrev decoded : Option String → Option Message
  decoded none = none
  decoded (some raw) = parsed (r.unmarshal raw)

  abbrev pub message_of : XItem → Option Message
  message_of item = decoded (lookup "message" item.field_values)

  abbrev pub cons_message : Option Message → List Message → List Message
  cons_message none rest = rest
  cons_message (some msg) rest = msg ∷ rest

  abbrev pub messages : List XItem → List Message
  messages [] = []
  messages (item ∷ rest) = cons_message (message_of item) (messages rest)

  abbrev pub with_answer :
      Result (Option (List (String × List XItem))) × S → Subscription S → Subscription S
  with_answer (err e, s) p = record p { phase = checking; world = s }
  with_answer (ok none, s) p = record p { phase = checking; world = s }
  with_answer (ok (some data_), s) p =
      let items = or_else (lookup r.event_stream_key data_) [] in
      record p { phase = handling items; world = s; read = p.read ++ items }

  abbrev pub send_or_skip : Option Message → List XItem → Phase
  send_or_skip none rest = handling rest
  send_or_skip (some msg) rest = sending msg rest

  -- The goroutine's next operation, by where it is; before the channel it waits for a place.
  abbrev pub go : Phase → Subscription S → Subscription S
  go checking p =
      if p.cancelled then record p { phase = returned } else record p { phase = reading }
  go reading p = with_answer (r.client.xread r.event_stream_key p.last_id (pos 100) p.world) p
  go (handling []) p = record p { phase = checking }
  go (handling (item ∷ rest)) p = record p {
    phase = send_or_skip (message_of item) rest;
    last_id = item.id;
  }
  go (sending msg rest) p =
      if ltb (length p.channel) p.buffer
      then record p { phase = handling rest; channel = p.channel ++ msg ∷ [] }
      else p
  go returned p = p

  unfoldable pub advance : Subscription S → Subscription S
  advance p = go p.phase p

  -- The other case of the `select` before the channel.
  abbrev pub leave : Phase → Subscription S → Subscription S
  leave (sending msg rest) p =
      if p.cancelled then record p { phase = returned; lost = msg ∷ messages rest } else p
  leave _ p = p

  unfoldable pub give_up : Subscription S → Subscription S
  give_up p = leave p.phase p

  -- The hub takes the first message that waits.
  abbrev pub taken : List Message → Subscription S → Subscription S
  taken [] p = p
  taken (msg ∷ rest) p = record p { channel = rest; received = p.received ++ msg ∷ [] }

  unfoldable pub take_one : Subscription S → Subscription S
  take_one p = taken p.channel p

  pub data Step : Subscription S → Subscription S → Type 0 where
    advanced : {p : Subscription S} → Step p (advance p)
    gave_up : {p : Subscription S} → Step p (give_up p)
    took : {p : Subscription S} → Step p (take_one p)
    unsubscribed : {p : Subscription S} → Step p (record p { cancelled = true })
    elsewhere : {p : Subscription S} (s : S) → Step p (record p { world = s })

  pub data Steps : Subscription S → Subscription S → Type 0 where
    here : {p : Subscription S} → Steps p p
    then_step : {p q q' : Subscription S} → Steps p q → Step q q' → Steps p q'
