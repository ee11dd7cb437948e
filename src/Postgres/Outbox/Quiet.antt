-- ===== src/Postgres/Outbox/Quiet.antt =====
-- The outbox over a server that answers every statement.
use aelora.Prelude.{
  ℕ, ◌+◌, ◌≡◌, refl, Bool, true, false, String, ◌==◌, eq_iff, some, List, [], ◌∷◌, contains, arith,
  Bool-cases, inl, inr, if◌then◌else◌,
}
use mathlib.Core.Path.{subst}
use aelora.Prelude.Int.{ℤ}
use aelora.Domain.{Message, Result, ok}
use aelora.Call.{lift}
use aelora.Ports.{OutboxMessage}
use aelora.Postgres.{OutboxRow, Db, Server, exec}
use aelora.Postgres.Outbox.{
  ids_of, candidates, claim_rows, payloads_of, update_rows, dispatch_row, dispatch_rows, payload_of,
  or_default, decode_outbox_payload, decode_all, claim, claim_pending, mark_stream_appended,
  mark_dispatched,
}
use aelora.Postgres.Outbox.Waiting.{with_payload}
use aelora.Postgres.Outbox.Candidates.{claimed_ids}

-- No statement fails from here on.
abbrev pub quiet : Db → ℕ → ℕ → Server
quiet db now app = record { db = db; faults = []; server_now = now; app_now = app }

abbrev pub with_outbox : List OutboxRow → Db → Db
with_outbox rows db = record db { message_outbox = rows }

abbrev pub ids_of_items : List OutboxMessage → List String
ids_of_items [] = []
ids_of_items (m ∷ rest) = m.message.id ∷ ids_of_items rest

-- What encoding/json does with a value of the program's own type: it is written, and is read back.
pub record JsonLaws (marshal : OutboxMessage → Result String)
    (unmarshal : String → Result OutboxMessage) : Type 0 where
  pub print : OutboxMessage → String
  pub marshal_prints : (m : OutboxMessage) → marshal m ≡ ok (print m)
  pub unmarshal_reads : (m : OutboxMessage) → unmarshal (print m) ≡ ok m

module _ (marshal : OutboxMessage → Result String) (unmarshal : String → Result OutboxMessage)
    (unmarshal_message : String → Result Message) where
  -- The payload of the row is a message of the row's id, which is not empty.
  pub record IsStored (id payload : String) : Type 0 where
    pub message : OutboxMessage
    pub decodes : decode_outbox_payload marshal unmarshal unmarshal_message payload ≡ ok message
    pub same_id : message.message.id ≡ id
    pub named : (id == "") ≡ false

  abbrev StoredRow : OutboxRow → Type 0
  StoredRow r = IsStored r.message_id r.payload

  abbrev pub AllStored : List OutboxRow → Type 0
  AllStored [] = Unit {0}
  AllStored (r ∷ rest) = StoredRow r × AllStored rest

  StoredRow-if :
      (b : Bool) (x y : OutboxRow)
      → (b ≡ true → StoredRow x)
      → StoredRow y
      → StoredRow (if b then x else y)
  StoredRow-if true x y f s = f refl
  StoredRow-if false x y f s = s

  pub dispatch_rows-AllStored :
      (id : String) (rows : List OutboxRow) → AllStored rows → AllStored (dispatch_rows id rows)
  unfolding dispatch_rows update_rows dispatch_row
  dispatch_rows-AllStored id [] s = tt
  dispatch_rows-AllStored id (r ∷ rest) s = (
    StoredRow-if (r.message_id == id) (dispatch_row r) r (λ b. s.0) s.0,
    dispatch_rows-AllStored id rest s.1,
  )

  pub claim_rows-AllStored :
      (ids : List String) (consumer : String) (until : ℕ) (rows : List OutboxRow)
      → AllStored rows
      → AllStored (claim_rows ids consumer until rows)
  unfolding claim_rows
  claim_rows-AllStored ids consumer until [] s = tt
  claim_rows-AllStored ids consumer until (r ∷ rest) s = (
    StoredRow-if (contains r.message_id ids)
        (record r { claimed_by = some consumer; claimed_until = some until }) r (λ b. s.0) s.0,
    claim_rows-AllStored ids consumer until rest s.1,
  )

  pub decode_all-ids :
      (ids : List String) (rows : List OutboxRow)
      → AllStored rows
      → ids_of_items (decode_all marshal unmarshal unmarshal_message (payloads_of ids rows))
        ≡ claimed_ids ids rows
  unfolding payloads_of decode_all
  decode_all-ids ids [] s = refl
  decode_all-ids ids (r ∷ rest) s = elim (Bool-cases (contains r.message_id ids)) [
    | inl taken ↦
        rw taken
          (rw (s.0.decodes, decode_all) (ground (arith, s.0.same_id, decode_all-ids ids rest s.1)))
    | inr other ↦ rw other (decode_all-ids ids rest s.1)
  ]

  pub claim_pending_quiet :
      (consumer : String) (limit lease : ℤ) (db : Db) (now app : ℕ)
      → let ids = candidates (or_default limit 100) now db.message_outbox in
        claim_pending marshal unmarshal unmarshal_message consumer limit lease (quiet db now app)
        ≡ (
          ok (decode_all marshal unmarshal unmarshal_message (payloads_of ids db.message_outbox)),
          quiet
              (with_outbox
                (claim_rows ids consumer (app + or_default lease 30000000000) db.message_outbox)
                db)
              now
              app,
        )
  unfolding claim_pending exec claim
  claim_pending_quiet consumer limit lease db now app = refl

  pub mark_dispatched_quiet :
      (id : String) (db : Db) (now app : ℕ)
      → mark_dispatched marshal unmarshal unmarshal_message id (quiet db now app)
        ≡ (ok tt, quiet (with_outbox (dispatch_rows id db.message_outbox) db) now app)
  unfolding mark_dispatched exec
  mark_dispatched_quiet id db now app = refl

  module _ (json : JsonLaws marshal unmarshal) where
    print-IsStored :
        (id : String) (m : OutboxMessage)
        → m.message.id ≡ id
        → (id == "") ≡ false
        → IsStored id (json.print m)
    unfolding decode_outbox_payload
    print-IsStored id m same named = record {
      message = m;
      decodes = rw (json.unmarshal_reads m, decode_outbox_payload) (rw (same, named) refl);
      same_id = same;
      named = named;
    }

    pub update_rows-AllStored :
        (id : String) (m : OutboxMessage) (rows : List OutboxRow)
        → m.message.id ≡ id
        → (id == "") ≡ false
        → AllStored rows
        → AllStored (update_rows (with_payload (json.print m)) id rows)
    unfolding update_rows
    update_rows-AllStored id m [] same named s = tt
    update_rows-AllStored id m (r ∷ rest) same named s = (
      StoredRow-if (r.message_id == id) (with_payload (json.print m) r) r
          (λ b.
            let here : r.message_id ≡ id = (eq_iff r.message_id id).0 b in
            rw here (print-IsStored id m same named))
          s.0,
      update_rows-AllStored id m rest same named s.1,
    )

    -- The payload that `MarkStreamAppended` looks for.
    record IsFound (id : String) (rows : List OutboxRow) : Type 0 where
      payload : String
      is_there : payload_of id rows ≡ some payload
      stored : IsStored id payload

    find :
        (id : String) (rows : List OutboxRow)
        → AllStored rows
        → contains id (ids_of rows) ≡ true
        → IsFound id rows
    unfolding payload_of
    find id [] s h = cc
    find id (r ∷ rest) s h = elim (Bool-cases (r.message_id == id)) [
      | inl here ↦ record {
        payload = r.payload;
        is_there = rw here refl;
        stored = subst (λ i. IsStored i r.payload) ((eq_iff r.message_id id).0 here) s.0;
      }
      | inr later ↦
          let i = find id rest s.1 (ground arith) in
          record { payload = i.payload; is_there = rw later i.is_there; stored = i.stored }
    ]

    -- What marking leaves: the payload says that the message was appended.
    pub record IsMarked (id : String) (db : Db) (now app : ℕ) : Type 0 where
      pub message : OutboxMessage
      pub same_id : message.message.id ≡ id
      pub named : (id == "") ≡ false
      pub marks : mark_stream_appended marshal unmarshal unmarshal_message id (quiet db now app) ≡ (
        ok tt,
        quiet
            (with_outbox (update_rows (with_payload (json.print message)) id db.message_outbox) db)
            now
            app,
      )

    pub mark_stream_appended_quiet :
        (id : String) (db : Db) (now app : ℕ)
        → AllStored db.message_outbox
        → contains id (ids_of db.message_outbox) ≡ true
        → IsMarked id db now app
    unfolding mark_stream_appended exec lift
    mark_stream_appended_quiet id db now app s h =
        let f = find id db.message_outbox s h in
        let m = record f.stored.message { stream_appended = true } in
        record {
          message = m;
          same_id = f.stored.same_id;
          named = f.stored.named;
          marks = rw f.is_there (rw f.stored.decodes (rw (json.marshal_prints m) refl));
        }
