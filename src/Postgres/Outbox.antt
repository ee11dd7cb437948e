-- ===== src/Postgres/Outbox.antt =====
-- internal/adapters/outbound/postgres/outbox_repo.go
pub mod Waiting
pub mod Candidates
pub mod Quiet
pub mod Enqueue
pub mod Rows
pub mod Later
pub mod Claims
use aelora.Prelude.{
  ℕ, ◌+◌, String, ◌==◌, Bool, true, false, not, ◌&&◌, Option, none, some, List, [], ◌∷◌, ◌++◌,
  contains, take, length, eqb, ltb, if◌then◌else◌,
}
use aelora.Prelude.Int.{ℤ, is_nonpos, to_nat}
use aelora.Domain.{Message, Error, other, Result, ok, err}
use aelora.Call.{Call, pure, fail, lift, ◌>>=◌, ◌>>◌}
use aelora.Ports.{OutboxMessage, MessageOutboxRepository}
use aelora.Postgres.{OutboxRow, Db, Server, exec}

-- A value of a statement's VALUES list.
pub data Value : Type 0 where
  text : String → Value
  time : ℕ → Value
  bool : Bool → Value

-- What the list of values assigns to a column.
assigned : String → List String → List Value → Option Value
assigned column [] values = none
assigned column (name ∷ names) [] = none
assigned column (name ∷ names) (v ∷ values) =
    let later = assigned column names values in if name == column then some v else later

-- The row that the values of the first four columns make.
row_of : Option Value → Option Value → Option Value → Option Value → Option OutboxRow
row_of (some (text id)) (some (time at)) (some (text payload)) (some (bool dispatched)) =
    some (record {
      message_id = id;
      created_at = at;
      payload = payload;
      dispatched = dispatched;
      claimed_by = none;
      claimed_until = none;
    })
row_of id at payload dispatched = none

has_row : String → List OutboxRow → Bool
has_row id [] = false
has_row id (row ∷ rest) =
    let later = has_row id rest in if row.message_id == id then true else later

-- ON CONFLICT (message_id) DO NOTHING
put_row : Option OutboxRow → Db → Result (Unit {0}) × Db
unfolding has_row
put_row none db = (err (other "42804"), db)
put_row (some row) db =
    if has_row row.message_id db.message_outbox
    then (ok tt, db)
    else (ok tt, record db { message_outbox = db.message_outbox ++ row ∷ [] })

-- INSERT INTO message_outbox (…) VALUES (…): the server refuses a statement whose list of columns
-- is longer than its list of values.
insert_outbox : List String → List Value → Db → Result (Unit {0}) × Db
unfolding assigned row_of put_row
insert_outbox columns values db =
    if not (eqb (length columns) (length values))
    then (err (other "42601"), db)
    else put_row
        (row_of (assigned "message_id" columns values) (assigned "created_at" columns values)
          (assigned "payload" columns values) (assigned "dispatched" columns values))
        db

enqueue_columns : List String
enqueue_columns =
    "message_id" ∷ "created_at" ∷ "payload" ∷ "dispatched" ∷ "claimed_by" ∷ "claimed_until" ∷ []

enqueue_values : Message → String → List Value
enqueue_values msg payload = text msg.id ∷ time msg.created_at ∷ text payload ∷ bool false ∷ []

-- ORDER BY created_at ASC; rows of one time stay in the table's order, which SQL leaves open.
insert_by_time : OutboxRow → List OutboxRow → List OutboxRow
insert_by_time row [] = row ∷ []
insert_by_time row (r ∷ rest) =
    let later = r ∷ insert_by_time row rest in
    if ltb r.created_at row.created_at then later else row ∷ r ∷ rest

pub by_time : List OutboxRow → List OutboxRow
unfolding insert_by_time
by_time [] = []
by_time (r ∷ rest) = insert_by_time r (by_time rest)

abbrev pub waiting : List OutboxRow → List OutboxRow
waiting [] = []
waiting (r ∷ rest) = let later = waiting rest in if r.dispatched then later else r ∷ later

-- claimed_until IS NULL OR claimed_until < NOW()
abbrev pub is_free : ℕ → Option ℕ → Bool
is_free now none = true
is_free now (some until) = ltb until now

-- WHERE dispatched = false AND (claimed_until IS NULL OR claimed_until < NOW())
abbrev pub free_rows : ℕ → List OutboxRow → List OutboxRow
free_rows now [] = []
free_rows now (r ∷ rest) =
    let later = free_rows now rest in
    if not r.dispatched && is_free now r.claimed_until then r ∷ later else later

abbrev pub ids_of : List OutboxRow → List String
ids_of [] = []
ids_of (r ∷ rest) = r.message_id ∷ ids_of rest

-- WITH candidates AS (…)
unfoldable pub candidates : ℕ → ℕ → List OutboxRow → List String
unfolding by_time
candidates limit now rows = ids_of (take limit (by_time (free_rows now rows)))

-- UPDATE … SET claimed_by, claimed_until … WHERE m.message_id = c.message_id
unfoldable pub claim_rows : List String → String → ℕ → List OutboxRow → List OutboxRow
claim_rows ids consumer until [] = []
claim_rows ids consumer until (r ∷ rest) =
    (if contains r.message_id ids
      then record r { claimed_by = some consumer; claimed_until = some until }
      else r)
    ∷ claim_rows ids consumer until rest

-- RETURNING m.payload
pub payloads_of : List String → List OutboxRow → List String
payloads_of ids [] = []
payloads_of ids (r ∷ rest) =
    let later = payloads_of ids rest in
    if contains r.message_id ids then r.payload ∷ later else later

all_payloads : List OutboxRow → List String
all_payloads [] = []
all_payloads (r ∷ rest) = r.payload ∷ all_payloads rest

-- UPDATE … WHERE message_id = $1, with the change `f` of a row.
pub update_rows : (OutboxRow → OutboxRow) → String → List OutboxRow → List OutboxRow
update_rows f id [] = []
update_rows f id (r ∷ rest) = (if r.message_id == id then f r else r) ∷ update_rows f id rest

unfoldable pub dispatch_row : OutboxRow → OutboxRow
dispatch_row r = record r { dispatched = true; claimed_by = none; claimed_until = none }

unfoldable pub dispatch_rows : String → List OutboxRow → List OutboxRow
unfolding update_rows dispatch_row
dispatch_rows id rows = update_rows dispatch_row id rows

pub release_row : String → OutboxRow → OutboxRow
release_row consumer r = elim (r.claimed_by) [
  | none ↦ r
  | some owner ↦
      if owner == consumer then record r { claimed_by = none; claimed_until = none } else r
]

pub payload_of : String → List OutboxRow → Option String
payload_of id [] = none
payload_of id (r ∷ rest) =
    let later = payload_of id rest in if r.message_id == id then some r.payload else later

abbrev pub or_default : ℤ → ℕ → ℕ
or_default n fallback = if is_nonpos n then fallback else to_nat n

abbrev on_rows : (List OutboxRow → List OutboxRow) → Db → Unit {0} × Db
on_rows f db = (tt, record db { message_outbox = f db.message_outbox })

abbrev found : Option String → Result String
found none = err (other "no rows in result set")
found (some payload) = ok payload

-- `marshal` is json.Marshal of an outbox message, `unmarshal` and `unmarshal_message` are
-- json.Unmarshal into an outbox message and into a message.
module _ (marshal : OutboxMessage → Result String) (unmarshal : String → Result OutboxMessage)
    (unmarshal_message : String → Result Message) where
  legacy : Result Message → Result OutboxMessage
  legacy (err e) = err e
  legacy (ok m) = ok (record { message = m; stream_appended = true })

  unfoldable pub decode_outbox_payload : String → Result OutboxMessage
  unfolding legacy
  decode_outbox_payload payload =
      let old = legacy (unmarshal_message payload) in
      elim (unmarshal payload) [
        | ok m ↦ if not (m.message.id == "") then ok m else old
        | err e ↦ old
      ]

  -- The loop over the rows: a payload that does not decode is skipped.
  pub decode_all : List String → List OutboxMessage
  unfolding decode_outbox_payload
  decode_all [] = []
  decode_all (p ∷ rest) =
      let later = decode_all rest in
      elim (decode_outbox_payload p) [ ok m ↦ m ∷ later | err e ↦ later ]

  unfoldable pub enqueue : Message → Bool → Call Server (Unit {0})
  unfolding insert_outbox enqueue_columns enqueue_values
  enqueue msg stream_appended = do
    payload ← lift (marshal (record { message = msg; stream_appended = stream_appended }))
    r ← exec (insert_outbox enqueue_columns (enqueue_values msg payload))
    lift r

  unfoldable pub list_pending : ℤ → Call Server (List OutboxMessage)
  unfolding decode_all all_payloads by_time
  list_pending limit = do
    payloads ← exec (λ db.
        (all_payloads (take (or_default limit 100) (by_time (waiting db.message_outbox))), db))
    pure (decode_all payloads)

  -- The claim of the statement, at the server's time `now` with the lease ending at `until`.
  claim : String → ℕ → ℕ → ℕ → Db → List String × Db
  unfolding candidates claim_rows payloads_of
  claim consumer limit now until db =
      let ids = candidates limit now db.message_outbox in
      (
        payloads_of ids db.message_outbox,
        record db { message_outbox = claim_rows ids consumer until db.message_outbox },
      )

  unfoldable pub claim_pending : String → ℤ → ℤ → Call Server (List OutboxMessage)
  unfolding claim decode_all
  claim_pending consumer limit lease s =
      let until = s.app_now + or_default lease 30000000000 in
      (do
        payloads ← exec (claim consumer (or_default limit 100) s.server_now until)
        pure (decode_all payloads))
        s

  unfoldable pub mark_stream_appended : String → Call Server (Unit {0})
  unfolding payload_of update_rows decode_outbox_payload
  mark_stream_appended id = do
    stored ← exec (λ db. (payload_of id db.message_outbox, db))
    payload ← lift (found stored)
    decoded ← lift (decode_outbox_payload payload)
    next_payload ← lift (marshal (record decoded { stream_appended = true }))
    exec (on_rows (update_rows (λ r. record r { payload = next_payload }) id))

  unfoldable pub mark_dispatched : String → Call Server (Unit {0})
  unfolding dispatch_rows
  mark_dispatched id = exec (on_rows (dispatch_rows id))

  unfoldable pub release_claim : String → String → Call Server (Unit {0})
  unfolding release_row update_rows
  release_claim consumer id = exec (on_rows (update_rows (release_row consumer) id))

  abbrev pub outbox_repository : MessageOutboxRepository Server
  outbox_repository = record {
    enqueue = enqueue;
    list_pending = list_pending;
    claim_pending = claim_pending;
    mark_stream_appended = mark_stream_appended;
    mark_dispatched = mark_dispatched;
    release_claim = release_claim;
  }
