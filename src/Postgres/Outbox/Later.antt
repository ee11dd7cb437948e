-- ===== src/Postgres/Outbox/Later.antt =====
-- outbox_repo.go: what may happen to the outbox in a stretch of time, call by call, and what stays
-- true of the rows of one message.
use aelora.Prelude.{ℕ, ◌+◌, ◌≡◌, refl, sym, ap, Bool, true, false, not, ◌&&◌, String, List, arith}
use aelora.Prelude.Int.{ℤ}
use aelora.Domain.{Message, Result, ok, err}
use aelora.Call.Post.{Post, Post-then, Post-lift, Post-pure, Post-weaken, Post-at}
use aelora.Ports.{OutboxMessage}
use aelora.Postgres.{OutboxRow, Db, Server, exec}
use aelora.Postgres.Statement.{Answered, exec-Post}
use aelora.Postgres.Outbox.{
  is_free, candidates, dispatch_row, dispatch_rows, release_row, or_default, claim, enqueue,
  list_pending, claim_pending, mark_stream_appended, mark_dispatched, release_claim, on_rows, found,
  payload_of, payloads_of, claim_rows, decode_outbox_payload, decode_all, update_rows,
}
use aelora.Postgres.Outbox.Enqueue.{enqueue-fails}
use aelora.Postgres.Outbox.Rows.{AllOf, candidates-AllOf, claim_rows-AllOf, update_rows-AllOf}

released_id :
    (consumer : String) (r : OutboxRow) → (release_row consumer r).message_id ≡ r.message_id
unfolding release_row
released_id consumer r = ground (arith, r.claimed_by)

module _ (active : ℕ → Type 0) (may_release : String → Type 0) where
  -- A fact about a row that the calls of the repository keep, under which the row is not free.
  pub record IsKept (Q : OutboxRow → Type 0) : Type 0 where
    pub payload : (r : OutboxRow) (next : String) → Q r → Q (record r { payload = next })
    pub dispatch : (r : OutboxRow) → Q r → Q (dispatch_row r)
    pub release :
        (consumer : String) (r : OutboxRow)
        → may_release consumer
        → Q r
        → Q (release_row consumer r)
    pub not_free :
        (now : ℕ) (r : OutboxRow)
        → active now
        → Q r
        → (not r.dispatched && is_free now r.claimed_until) ≡ false

module _ (marshal : OutboxMessage → Result String) (unmarshal : String → Result OutboxMessage)
    (unmarshal_message : String → Result Message) where
  -- A call of the repository, by whoever makes it and however it ends; or the rest of the program, time
  -- and the server, which do not touch the outbox.
  pub data Step : Server → Server → Type 0 where
    enqueued :
        {s : Server} (msg : Message) (appended : Bool)
        → Step s (enqueue marshal unmarshal unmarshal_message msg appended s).1
    listed :
        {s : Server} (limit : ℤ)
        → Step s (list_pending marshal unmarshal unmarshal_message limit s).1
    claimed :
        {s : Server} (consumer : String) (limit lease : ℤ)
        → Step s (claim_pending marshal unmarshal unmarshal_message consumer limit lease s).1
    marked_appended :
        {s : Server} (id : String)
        → Step s (mark_stream_appended marshal unmarshal unmarshal_message id s).1
    marked_dispatched :
        {s : Server} (id : String)
        → Step s (mark_dispatched marshal unmarshal unmarshal_message id s).1
    released :
        {s : Server} (consumer id : String)
        → Step s (release_claim marshal unmarshal unmarshal_message consumer id s).1
    elsewhere : {s : Server} (s' : Server) → s'.db.message_outbox ≡ s.db.message_outbox → Step s s'

  pub data Steps : Server → Server → Type 0 where
    here : {s : Server} → Steps s s
    then_step : {s s' s'' : Server} → Steps s s' → Step s' s'' → Steps s s''

  module _ (active : ℕ → Type 0) (may_release : String → Type 0) where
    -- Every claim is made at a time that is `active`, and every release by one who may.
    abbrev pub IsWithin : {s s' : Server} → Step s s' → Type 0
    IsWithin {s} (claimed consumer limit lease) = active s.server_now
    IsWithin {s} (released consumer id) = may_release consumer
    IsWithin {s} (enqueued msg appended) = Unit
    IsWithin {s} (listed limit) = Unit
    IsWithin {s} (marked_appended id) = Unit
    IsWithin {s} (marked_dispatched id) = Unit
    IsWithin {s} (elsewhere s' same) = Unit

    abbrev pub AreWithin : {s s' : Server} → Steps s s' → Type 0
    AreWithin here = Unit
    AreWithin (then_step before t) = AreWithin before × IsWithin t

    module _ (id : String) (Q : OutboxRow → Type 0) (kept : IsKept active may_release Q) where
      Keeps : {A : Type 0} → Result A → Server → Type 0
      Keeps r s = AllOf id Q s.db.message_outbox

      exec-Keeps :
          {A : Type 0} (f : Db → A × Db) (s : Server)
          → AllOf id Q (f s.db).1.message_outbox
          → AllOf id Q s.db.message_outbox
          → Post Keeps (exec f) s
      unfolding Keeps
      exec-Keeps f s after before = Post-weaken (by_answer f s after before) (exec-Post f s)
        where
          by_answer :
              {A : Type 0} (f : Db → A × Db) (s : Server)
              → AllOf id Q (f s.db).1.message_outbox
              → AllOf id Q s.db.message_outbox
              → (r : Result A) (s' : Server) → Answered f s.db r s'
              → Keeps r s'
          by_answer f s after before (ok a) s' h = rw (← ap (λ x. x.1.message_outbox) h) after
          by_answer f s after before (err e) s' h = rw h before

      update-Keeps :
          (f : OutboxRow → OutboxRow) (k : String) (s : Server)
          → ((r : OutboxRow) → (f r).message_id ≡ r.message_id)
          → ((r : OutboxRow) → Q r → Q (f r))
          → AllOf id Q s.db.message_outbox
          → Post Keeps (exec (on_rows (update_rows f k))) s
      update-Keeps f k s same_id by_row all =
          exec-Keeps (on_rows (update_rows f k)) s
            (update_rows-AllOf id Q f k s.db.message_outbox same_id by_row all) all

      claim-Keeps :
          (consumer : String) (limit lease : ℤ) (s : Server)
          → active s.server_now
          → AllOf id Q s.db.message_outbox
          → Post Keeps (claim_pending marshal unmarshal unmarshal_message consumer limit lease) s
      unfolding claim_pending claim Keeps
      claim-Keeps consumer limit lease s now all =
          let n = or_default limit 100 in
          let until = s.app_now + or_default lease 30000000000 in
          let statement = claim marshal unmarshal unmarshal_message consumer n s.server_now until in
          let rows = s.db.message_outbox in
          let out =
            candidates-AllOf id Q n s.server_now rows (λ r q. kept.not_free _ r now q) all in
          record {
            holds =
                (Post-then {R = Keeps} {Q = Keeps}
                  (exec-Keeps statement s
                    (claim_rows-AllOf id Q (candidates n s.server_now rows) consumer until rows out
                      all)
                    all)
                  (λ e s1 h. h) λ payloads s1 p h. Post-pure h).holds;
          }

      appended-Keeps :
          (k : String) (s : Server)
          → AllOf id Q s.db.message_outbox
          → Post Keeps (mark_stream_appended marshal unmarshal unmarshal_message k) s
      unfolding mark_stream_appended Keeps
      appended-Keeps k s all =
          Post-then {R = Keeps} (exec-Keeps (λ db. (payload_of k db.message_outbox, db)) s all all)
            (λ e s1 h. h)
            λ stored s1 p h.
              Post-lift (found stored) (λ e q. h)
                λ payload q.
                  Post-lift (decode_outbox_payload marshal unmarshal unmarshal_message payload)
                    (λ e q. h)
                    λ decoded q.
                      Post-lift (marshal (record decoded { stream_appended = true })) (λ e q. h)
                        λ next q.
                          update-Keeps (λ r. record r { payload = next }) k s1 (λ r. refl)
                            (λ r. kept.payload r next) h

      Step-Keeps :
          {s s' : Server} (t : Step s s')
          → IsWithin t
          → AllOf id Q s.db.message_outbox
          → AllOf id Q s'.db.message_outbox
      unfolding Keeps list_pending mark_dispatched dispatch_rows release_claim dispatch_row
      Step-Keeps {s} (enqueued msg appended) w all =
          rw (enqueue-fails marshal unmarshal unmarshal_message msg appended s).1 all
      Step-Keeps {s} (listed limit) w all =
          (Post-then {R = Keeps} {Q = Keeps} (exec-Keeps _ s all all) (λ e s1 h. h)
            λ payloads s1 p h. Post-pure h).holds
      Step-Keeps {s} (claimed consumer limit lease) w all =
          (claim-Keeps consumer limit lease s w all).holds
      Step-Keeps {s} (marked_appended k) w all = (appended-Keeps k s all).holds
      Step-Keeps {s} (marked_dispatched k) w all =
          (update-Keeps dispatch_row k s (λ r. refl) kept.dispatch all).holds
      Step-Keeps {s} (released consumer k) w all =
          (update-Keeps (release_row consumer) k s (released_id consumer)
            (λ r. kept.release consumer r w) all).holds
      Step-Keeps (elsewhere s' same) w all = rw same all

      pub Steps-Keeps :
          {s s' : Server} (steps : Steps s s')
          → AreWithin steps
          → AllOf id Q s.db.message_outbox
          → AllOf id Q s'.db.message_outbox
      Steps-Keeps here w all = all
      Steps-Keeps (then_step before t) w all = Step-Keeps t w.1 (Steps-Keeps before w.0 all)

  -- A claim answers the payloads of the rows that its statement chose, and marks these.
  pub record IsClaim (consumer : String) (limit lease : ℤ) (s s' : Server)
      (items : List OutboxMessage) : Type 0 where
    pub answered :
        items
        ≡ decode_all marshal unmarshal unmarshal_message (
            payloads_of
              (candidates (or_default limit 100) s.server_now s.db.message_outbox)
              s.db.message_outbox)
    pub marked :
        s'.db.message_outbox
        ≡ claim_rows
            (candidates (or_default limit 100) s.server_now s.db.message_outbox)
            consumer
            (s.app_now + or_default lease 30000000000)
            s.db.message_outbox

  pub claim_pending-IsClaim :
      (consumer : String) (limit lease : ℤ) (s s' : Server) (items : List OutboxMessage)
      → claim_pending marshal unmarshal unmarshal_message consumer limit lease s ≡ (ok items, s')
      → IsClaim consumer limit lease s s' items
  unfolding claim_pending claim
  claim_pending-IsClaim consumer limit lease s s' items e =
      Post-at {Q = Claims}
        {m = claim_pending marshal unmarshal unmarshal_message consumer limit lease} {s = s}
        (ok items) s'
        (record {
          holds =
              (Post-then {R = Answered statement s.db} {Q = Claims} (exec-Post statement s)
                (λ e s1 h. tt)
                λ payloads s1 p h. Post-pure (record {
                  answered =
                      ap (decode_all marshal unmarshal unmarshal_message) (sym (ap (λ x. x.0) h));
                  marked = sym (ap (λ x. x.1.message_outbox) h);
                })).holds;
        })
        e
    where
      statement : Db → List String × Db
      statement =
          claim marshal unmarshal unmarshal_message consumer (or_default limit 100) s.server_now
            (s.app_now + or_default lease 30000000000)

      Claims : Result (List OutboxMessage) → Server → Type 0
      Claims (ok items) s' = IsClaim consumer limit lease s s' items
      Claims (err e) s' = Unit
