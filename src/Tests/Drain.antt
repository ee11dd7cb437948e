-- ===== src/Tests/Drain.antt =====
-- A relay that empties an outbox of two rows, with a codec for their payloads.
use aelora.Prelude.{
  ℕ, zero, suc, ◌≡◌, refl, ap, String, ◌==◌, Bool, true, false, List, [], ◌∷◌, Option, none, some,
  arith, if◌then◌else◌,
}
use aelora.Prelude.Int.{pos}
use Prim.Native.Char.{Char}
use aelora.Domain.{Message, other, Result, ok, err}
use aelora.Ports.{OutboxMessage, StreamRepository, EventBus}
use aelora.Postgres.{OutboxRow, Db, Server}
use aelora.Postgres.Outbox.{decode_outbox_payload}
use aelora.Postgres.Outbox.Quiet.{quiet, JsonLaws, IsStored}
use aelora.Relay.{run, batch_or_default}
use aelora.Relay.Drain.{IsHealthy, IsDrained, relay, run_drains}

-- A text with a sign in front of each character, and a dot behind it.
put_text : String → String → String
put_text String.[] rest = String.◌∷◌ "." rest
put_text (String.◌∷◌ c s) rest = String.◌∷◌ "+" (String.◌∷◌ c (put_text s rest))

grow : Char → Option (String × String) → Option (String × String)
grow c none = none
grow c (some (s, rest)) = some (String.◌∷◌ c s, rest)

get_text : String → Option (String × String)
unfolding grow
get_text String.[] = none
get_text (String.◌∷◌ m String.[]) = if String.◌∷◌ m String.[] == "." then some ("", "") else none
get_text (String.◌∷◌ m (String.◌∷◌ c r)) =
    let later = grow c (get_text r) in
    if String.◌∷◌ m String.[] == "." then some ("", String.◌∷◌ c r) else later

get-put : (s rest : String) → get_text (put_text s rest) ≡ some (s, rest)
unfolding get_text put_text
get-put String.[] String.[] = refl
get-put String.[] (String.◌∷◌ c r) = refl
get-put (String.◌∷◌ c s) rest = rw (get-put s rest) refl

put_number : ℕ → String → String
put_number zero rest = String.◌∷◌ "." rest
put_number (suc n) rest = String.◌∷◌ "+" (put_number n rest)

raise : Option (ℕ × String) → Option (ℕ × String)
raise none = none
raise (some (n, rest)) = some (suc n, rest)

get_number : String → Option (ℕ × String)
unfolding raise
get_number String.[] = none
get_number (String.◌∷◌ m rest) =
    let later = raise (get_number rest) in
    if String.◌∷◌ m String.[] == "." then some (0, rest) else later

get-put_number : (n : ℕ) (rest : String) → get_number (put_number n rest) ≡ some (n, rest)
unfolding get_number put_number
get-put_number zero rest = refl
get-put_number (suc n) rest = rw (get-put_number n rest) refl

abbrev then_with : {A B : Type 0} → Option (A × String) → (A → String → Option B) → Option B
then_with none k = none
then_with (some (a, rest)) k = k a rest

print : OutboxMessage → String
print m = put_text m.message.id (
    put_text m.message.client_msg_id (
      put_text m.message.room_id (
        put_text m.message.sender_id (
          put_text m.message.content (
            put_text m.message.reply_to_id
              (put_number m.message.created_at (if m.stream_appended then "t" else "f")))))))

parse : String → Option OutboxMessage
parse text = then_with (get_text text) λ id r1. then_with (get_text r1) λ client_msg_id r2.
    then_with (get_text r2) λ room_id r3. then_with (get_text r3) λ sender_id r4.
      then_with (get_text r4) λ content r5. then_with (get_text r5) λ reply_to_id r6.
        then_with (get_number r6) λ created_at flag. some (record {
          message = record {
            id = id;
            client_msg_id = client_msg_id;
            room_id = room_id;
            sender_id = sender_id;
            content = content;
            reply_to_id = reply_to_id;
            created_at = created_at;
          };
          stream_appended = flag == "t";
        })

flag_back : (b : Bool) → ((if b then "t" else "f") == "t") ≡ b
flag_back true = refl
flag_back false = refl

parse-print : (m : OutboxMessage) → parse (print m) ≡ some m
unfolding parse print
parse-print m =
    simp (get-put, get-put_number)
      (ap (λ b. some (record { message = m.message; stream_appended = b }))
        (flag_back m.stream_appended))

abbrev decoded : {A : Type 0} → Option A → Result A
decoded none = err (other "unexpected end of JSON input")
decoded (some a) = ok a

abbrev marshal : OutboxMessage → Result String
marshal m = ok (print m)

abbrev unmarshal : String → Result OutboxMessage
unmarshal text = decoded (parse text)

abbrev unmarshal_message : String → Result Message
unmarshal_message text = err (other "not a message")

json : JsonLaws marshal unmarshal
json = record {
  print = print;
  marshal_prints = λ m. refl;
  unmarshal_reads = λ m. ap decoded (parse-print m);
}

-- The stream and the bus hold what they were given; each call takes a second.
abbrev Held : Type 0
Held = List Message × List Message

abbrev later : Server → Server
later s = record s { server_now = suc s.server_now }

abbrev stream : StreamRepository (Server × Held)
stream = record {
  append_message =
      λ room m (s, (appended, published)). (ok "1-0", (later s, (m ∷ appended, published)));
  read_from = λ room cursor limit w. (ok [], w);
}

abbrev bus : EventBus (Server × Held)
bus = record {
  publish_message_created =
      λ m (s, (appended, published)). (ok tt, (later s, (appended, m ∷ published)));
}

healthy : IsHealthy stream bus
healthy = record {
  appends = λ room m db now app x. ("1-0", suc now, app, (m ∷ x.0, x.1), refl);
  publishes = λ m db now app x. (suc now, app, (x.0, m ∷ x.1), refl);
}

abbrev message : String → Message
message id = record {
  id = id;
  client_msg_id = "c";
  room_id = "lobby";
  sender_id = "alice";
  content = "hi";
  reply_to_id = "";
  created_at = 7;
}

abbrev row : String → Bool → OutboxRow
row id appended = record {
  message_id = id;
  created_at = 7;
  payload = print (record { message = message id; stream_appended = appended });
  dispatched = false;
  claimed_by = none;
  claimed_until = none;
}

abbrev db : Db
db = record {
  rooms = [];
  room_members = [];
  messages = [];
  message_dedup = [];
  message_outbox = row "m1" false ∷ row "m2" true ∷ [];
}

stored :
    (id : String) (appended : Bool)
    → (id == "") ≡ false
    → IsStored marshal unmarshal unmarshal_message id (row id appended).payload
unfolding decode_outbox_payload
stored id appended named =
    let m : OutboxMessage = record { message = message id; stream_appended = appended } in
    record {
      message = m;
      decodes = rw (parse-print m, decode_outbox_payload) (rw named refl);
      same_id = refl;
      named = named;
    }

-- Two rows, one at a tick.
run_drains_example :
    IsDrained marshal unmarshal unmarshal_message json stream bus healthy "host" db
      (run (relay marshal unmarshal unmarshal_message json stream bus healthy "host") (pos 1) 2)
      (quiet db 0 0, ([], []))
unfolding batch_or_default
run_drains_example =
    run_drains marshal unmarshal unmarshal_message json stream bus healthy "host" (pos 1) 2 db 0 0
      ([], []) (stored "m1" false refl, (stored "m2" true refl, tt)) (refl, (refl, tt))
      (omega arith)
