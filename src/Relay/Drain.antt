-- ===== src/Relay/Drain.antt =====
-- The relay over the outbox of PostgreSQL, while everything that it calls answers.
use aelora.Prelude.{
  ℕ, zero, suc, ◌+◌, ◌-◌, ◌*◌, ◌≤◌, ◌≡◌, refl, ◌∙◌, String, List, [], ◌∷◌, length, arith,
  Bool-cases, inl, inr,
}
use native.Mathlib.Nat.{le_refl}
use aelora.Prelude.Int.{ℤ, pos, negsuc, to_nat}
use aelora.Domain.{Message, Result, ok}
use aelora.Call.{Call}
use aelora.Ports.{OutboxMessage, MessageOutboxRepository, StreamRepository, EventBus}
use aelora.Postgres.{OutboxRow, Db, Server}
use aelora.Postgres.Outbox.{
  waiting, ids_of, candidates, claim_rows, payloads_of, update_rows, dispatch_rows, decode_all,
  or_default, outbox_repository,
}
use aelora.Postgres.Outbox.Waiting.{
  left, Clear, with_payload, left-dispatch_rows, dispatch_rows-Clear, left-update_rows,
  update_rows-Clear, left-claim_rows, ids_of-dispatch_rows, ids_of-update_rows, ids_of-claim_rows,
  waiting-nil,
}
use aelora.Postgres.Outbox.Candidates.{
  claimed_ids, claim_rows-Clear, left-claimed_ids, Present, claimed_ids-Present, left-waiting,
}
use aelora.Postgres.Outbox.Quiet.{
  quiet, with_outbox, ids_of_items, JsonLaws, AllStored, dispatch_rows-AllStored,
  claim_rows-AllStored, update_rows-AllStored, decode_all-ids, claim_pending_quiet,
  mark_dispatched_quiet, IsMarked, mark_stream_appended_quiet,
}
use aelora.Relay.{
  MessageOutboxRelay, announce, process, process_all, tick, run, batch_or_default, lease,
}

-- A call on a server that stands beside the rest of the world.
abbrev pub beside : {S W A : Type 0} → Call S A → Call (S × W) A
beside m (s, x) = let (r, s') = m s in (r, (s', x))

abbrev pub outbox_beside :
    {S W : Type 0} → MessageOutboxRepository S → MessageOutboxRepository (S × W)
outbox_beside o = record {
  enqueue = λ m appended. beside (o.enqueue m appended);
  list_pending = λ limit. beside (o.list_pending limit);
  claim_pending = λ consumer limit lease. beside (o.claim_pending consumer limit lease);
  mark_stream_appended = λ id. beside (o.mark_stream_appended id);
  mark_dispatched = λ id. beside (o.mark_dispatched id);
  release_claim = λ consumer id. beside (o.release_claim consumer id);
}

-- The stream and the bus answer, and leave the outbox alone; time may pass in between.
pub record IsHealthy {W : Type 0} (stream : StreamRepository (Server × W))
    (bus : EventBus (Server × W)) : Type 0 where
  pub appends :
      (room : String) (m : Message) (db : Db) (now app : ℕ) (x : W)
      → (id : String) × (now' : ℕ) × (app' : ℕ) × (x' : W) × (stream.append_message room m
            (quiet db now app, x)
          ≡ (ok id, (quiet db now' app', x')))
  pub publishes :
      (m : Message) (db : Db) (now app : ℕ) (x : W)
      → (now' : ℕ) × (app' : ℕ) × (x' : W) × (bus.publish_message_created m (quiet db now app, x)
          ≡ (ok tt, (quiet db now' app', x')))

module _ (marshal : OutboxMessage → Result String) (unmarshal : String → Result OutboxMessage)
    (unmarshal_message : String → Result Message) (json : JsonLaws marshal unmarshal) {W : Type 0}
    (stream : StreamRepository (Server × W)) (bus : EventBus (Server × W))
    (healthy : IsHealthy stream bus) (id : String) where
  abbrev pub relay : MessageOutboxRelay (Server × W)
  relay = record {
    outbox = outbox_beside (outbox_repository marshal unmarshal unmarshal_message);
    stream = stream;
    bus = bus;
    id = id;
  }

  -- `all` are the ids of the table's rows, and `ks` those that the batch still holds.
  pub record IsReady (all ks : List String) (rows : List OutboxRow) : Type 0 where
    pub stored : AllStored marshal unmarshal unmarshal_message rows
    pub clear : Clear ks rows
    pub same : ids_of rows ≡ all
    pub present : Present ks all

  -- The call ends well, with at most `n` rows still to do.
  pub record Progress (all ks : List String) (n : ℕ) (m : Call (Server × W) (Unit {0}))
      (s : Server × W) : Type 0 where
    pub db : Db
    pub now : ℕ
    pub app : ℕ
    pub rest : W
    pub ends : m s ≡ (ok tt, (quiet db now app, rest))
    pub ready : IsReady all ks db.message_outbox
    pub remains : left ks db.message_outbox ≤ n

  announce-Progress :
      (all ks : List String) (m : Message) (db : Db) (now app : ℕ) (x : W)
      → IsReady all (m.id ∷ ks) db.message_outbox
      → Progress all ks
          (left (m.id ∷ ks) db.message_outbox)
          (announce relay m)
          (quiet db now app, x)
  unfolding announce
  announce-Progress all ks m db now app x r =
      let (now', app', x', published) = healthy.publishes m db now app x in
      record {
        db = with_outbox (dispatch_rows m.id db.message_outbox) db;
        now = now';
        app = app';
        rest = x';
        ends =
            rw published (
              rw (mark_dispatched_quiet marshal unmarshal unmarshal_message m.id db now' app')
                refl);
        ready = record {
          stored = dispatch_rows-AllStored marshal unmarshal unmarshal_message m.id _ r.stored;
          clear = dispatch_rows-Clear m.id ks db.message_outbox r.clear;
          same = ids_of-dispatch_rows m.id db.message_outbox ∙ r.same;
          present = r.present.1;
        };
        remains = omega (arith, left-dispatch_rows m.id ks db.message_outbox);
      }

  -- A call that comes to another call.
  Progress-by :
      (all ks : List String) (n n' : ℕ) {m m' : Call (Server × W) (Unit {0})} (s s' : Server × W)
      → m s ≡ m' s'
      → n' ≤ n
      → Progress all ks n' m' s'
      → Progress all ks n m s
  Progress-by all ks n n' s s' e le p = record {
    db = p.db;
    now = p.now;
    app = p.app;
    rest = p.rest;
    ends = e ∙ p.ends;
    ready = p.ready;
    remains = omega (arith, p.remains);
  }

  marked-IsReady :
      (all ks : List String) (k : String) (db : Db) (now app : ℕ)
      → (marked : IsMarked marshal unmarshal unmarshal_message json k db now app)
      → IsReady all ks db.message_outbox
      → IsReady all ks (update_rows (with_payload (json.print marked.message)) k db.message_outbox)
  marked-IsReady all ks k db now app marked r = record {
    stored =
        update_rows-AllStored marshal unmarshal unmarshal_message json k marked.message
          db.message_outbox marked.same_id marked.named r.stored;
    clear = update_rows-Clear (json.print marked.message) k ks db.message_outbox r.clear;
    same = ids_of-update_rows (json.print marked.message) k db.message_outbox ∙ r.same;
    present = r.present;
  }

  process-Progress :
      (all ks : List String) (item : OutboxMessage) (db : Db) (now app : ℕ) (x : W)
      → IsReady all (item.message.id ∷ ks) db.message_outbox
      → Progress all ks
          (left (item.message.id ∷ ks) db.message_outbox)
          (process relay item)
          (quiet db now app, x)
  unfolding process
  process-Progress all ks item db now app x r = elim (Bool-cases item.stream_appended) [
    | inl old ↦
        Progress-by all ks _ _ (quiet db now app, x) (quiet db now app, x) (rw old refl) (le_refl _)
          (announce-Progress all ks item.message db now app x r)
    | inr fresh ↦
        let k = item.message.id in
        let (stream_id, now', app', x', appended) =
          healthy.appends item.message.room_id item.message db now app x in
        let marked =
          mark_stream_appended_quiet marshal unmarshal unmarshal_message json k db now' app'
            r.stored (rw r.same r.present.0) in
        let next =
          with_outbox (update_rows (with_payload (json.print marked.message)) k db.message_outbox)
            db in
        Progress-by all ks _ _ (quiet db now app, x) (quiet next now' app', x')
          (rw fresh (rw appended (rw marked.marks refl)))
          (omega (arith, left-update_rows (json.print marked.message) k (k ∷ ks) db.message_outbox))
          (announce-Progress all ks item.message next now' app' x'
            (marked-IsReady all (k ∷ ks) k db now' app' marked r))
  ]

  process_all-Progress :
      (all : List String) (items : List OutboxMessage) (db : Db) (now app : ℕ) (x : W)
      → IsReady all (ids_of_items items) db.message_outbox
      → Progress all []
          (left (ids_of_items items) db.message_outbox)
          (process_all relay items)
          (quiet db now app, x)
  unfolding process_all
  process_all-Progress all [] db now app x r = record {
    db = db;
    now = now;
    app = app;
    rest = x;
    ends = refl;
    ready = r;
    remains = le_refl _;
  }
  process_all-Progress all (item ∷ items) db now app x r =
      let p = process-Progress all (ids_of_items items) item db now app x r in
      Progress-by all [] _ _ (quiet db now app, x) (quiet p.db p.now p.app, p.rest) (rw p.ends refl)
        p.remains (process_all-Progress all items p.db p.now p.app p.rest p.ready)

  abbrev pub batch : ℤ → ℕ
  batch batch_size = to_nat (batch_or_default batch_size)

  batch-positive : (b : ℤ) → or_default (batch_or_default b) 100 ≡ batch b
  unfolding batch_or_default
  batch-positive (pos zero) = refl
  batch-positive (pos (suc n)) = ground arith
  batch-positive (negsuc n) = refl

  tick-Progress :
      (all : List String) (batch_size : ℤ) (db : Db) (now app : ℕ) (x : W)
      → IsReady all [] db.message_outbox
      → Progress all []
          (left [] db.message_outbox - batch batch_size)
          (tick relay batch_size)
          (quiet db now app, x)
  unfolding tick
  tick-Progress all batch_size db now app x r =
      let rows = db.message_outbox in
      let limit = or_default (batch_or_default batch_size) 100 in
      let ids = candidates limit now rows in
      let until = app + 30000000000 in
      let items = decode_all marshal unmarshal unmarshal_message (payloads_of ids rows) in
      let claimed = claim_rows ids id until rows in
      let same_ids = decode_all-ids marshal unmarshal unmarshal_message ids rows r.stored in
      let ready : IsReady all (ids_of_items items) claimed = rw same_ids (record {
        stored =
            claim_rows-AllStored marshal unmarshal unmarshal_message ids id until rows r.stored;
        clear = claim_rows-Clear ids id until rows r.clear;
        same = ids_of-claim_rows ids id until rows ∙ r.same;
        present = rw (← r.same) (claimed_ids-Present ids rows);
      }) in
      Progress-by all [] _ (left (ids_of_items items) claimed) (quiet db now app, x)
        (quiet (with_outbox claimed db) now app, x)
        (rw
          (claim_pending_quiet marshal unmarshal unmarshal_message id (batch_or_default batch_size)
            lease db now app)
          refl)
        (rw (same_ids, left-claim_rows (claimed_ids ids rows) ids id until rows)
          (omega (arith, batch-positive batch_size, left-claimed_ids limit now rows r.clear)))
        (process_all-Progress all items (with_outbox claimed db) now app x ready)

  run-Progress :
      (all : List String) (batch_size : ℤ) (ticks : ℕ) (db : Db) (now app : ℕ) (x : W)
      → IsReady all [] db.message_outbox
      → Progress all []
          (left [] db.message_outbox - ticks * batch batch_size)
          (run relay batch_size ticks)
          (quiet db now app, x)
  unfolding run
  run-Progress all batch_size zero db now app x r = record {
    db = db;
    now = now;
    app = app;
    rest = x;
    ends = refl;
    ready = r;
    remains = omega arith;
  }
  run-Progress all batch_size (suc ticks) db now app x r =
      let p = tick-Progress all batch_size db now app x r in
      Progress-by all [] _ _ (quiet db now app, x) (quiet p.db p.now p.app, p.rest) (rw p.ends refl)
        (grind (arith, p.remains))
        (run-Progress all batch_size ticks p.db p.now p.app p.rest p.ready)

  -- The run ended well, with the same rows in the table and none of them waiting.
  pub record IsDrained (db : Db) (m : Call (Server × W) (Unit {0})) (s : Server × W) : Type 0 where
    pub after : Db
    pub now : ℕ
    pub app : ℕ
    pub rest : W
    pub ends : m s ≡ (ok tt, (quiet after now app, rest))
    pub same_rows : ids_of after.message_outbox ≡ ids_of db.message_outbox
    pub none_waits : waiting after.message_outbox ≡ []

  -- While the server, the stream and the bus answer, a relay empties the outbox: where every row
  -- holds a message of its own id and none is leased, no row waits any more after as many ticks as
  -- there are batches to fill with the rows that wait, and no row was deleted.
  pub run_drains :
      (batch_size : ℤ) (ticks : ℕ) (db : Db) (now app : ℕ) (x : W)
      → AllStored marshal unmarshal unmarshal_message db.message_outbox
      → Clear [] db.message_outbox
      → length (waiting db.message_outbox) ≤ ticks * to_nat (batch_or_default batch_size)
      → IsDrained db (run relay batch_size ticks) (quiet db now app, x)
  run_drains batch_size ticks db now app x stored clear enough =
      let p =
        run-Progress (ids_of db.message_outbox) batch_size ticks db now app x
          (record { stored = stored; clear = clear; same = refl; present = tt }) in
      record {
        after = p.db;
        now = p.now;
        app = p.app;
        rest = p.rest;
        ends = p.ends;
        same_rows = p.ready.same;
        none_waits =
            waiting-nil p.db.message_outbox
              (omega (arith, p.remains, left-waiting db.message_outbox));
      }
