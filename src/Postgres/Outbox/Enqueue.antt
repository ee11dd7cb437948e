-- ===== src/Postgres/Outbox/Enqueue.antt =====
-- What `Enqueue` does to the outbox.
use aelora.Prelude.{◌≡◌, ◌≢◌, refl, sym, ap, ◌∙◌, Bool, String, some}
use aelora.Domain.{Message, Result, ok}
use aelora.Call.{lift}
use aelora.Call.Post.{Post, Post-then, Post-lift, err-ne-ok}
use aelora.Ports.{OutboxMessage}
use mathlib.Core.Option.{some-injective}
use aelora.Application.SendMessage.{SendMessageUseCase, SendMessageCommand, execute}
use aelora.Application.SendMessage.Direct.{NeverQueues, Direct, execute-Direct}
use aelora.Postgres.{Server}
use aelora.Postgres.Statement.{exec-Post}
use aelora.Postgres.Outbox.{
  insert_outbox, enqueue_columns, enqueue_values, enqueue, outbox_repository,
}

module _ (marshal : OutboxMessage → Result String) (unmarshal : String → Result OutboxMessage)
    (unmarshal_message : String → Result Message) (msg : Message) (appended : Bool)
    (s : Server) where
  abbrev Fails : Result (Unit {0}) → Server → Type 0
  Fails r s' = (r ≢ ok tt) × (s'.db ≡ s.db)

  enqueue-Post : Post Fails (enqueue marshal unmarshal unmarshal_message msg appended) s
  unfolding enqueue lift insert_outbox enqueue_columns enqueue_values
  enqueue-Post =
      Post-lift (marshal (record { message = msg; stream_appended = appended }))
        (λ e h. (err-ne-ok _ _, refl))
        λ payload h.
          Post-then (exec-Post (insert_outbox enqueue_columns (enqueue_values msg payload)) s)
            (λ e s1 same. (err-ne-ok _ _, same))
            λ r s1 q answer. record {
              holds = rw (← ap (λ x. x.0) answer) (err-ne-ok _ _, sym (ap (λ x. x.1) answer));
            }

  -- `Enqueue` never succeeds, whatever the server answers, and it leaves every table as it was: the
  -- statement names six columns and gives four values.
  pub enqueue-fails :
      let (r, s') = enqueue marshal unmarshal unmarshal_message msg appended s in
      (r ≢ ok tt) × (s'.db ≡ s.db)
  enqueue-fails = enqueue-Post.holds

module _ (marshal : OutboxMessage → Result String) (unmarshal : String → Result OutboxMessage)
    (unmarshal_message : String → Result Message) (u : SendMessageUseCase Server)
    (wired : u.outbox ≡ some (outbox_repository marshal unmarshal unmarshal_message)) where
  never : NeverQueues u
  never outbox o m appended s =
      let same : outbox_repository marshal unmarshal unmarshal_message ≡ outbox =
        some-injective _ _ (sym wired ∙ o) in
      rw (← same) (enqueue-fails marshal unmarshal unmarshal_message m appended s).0

  -- With this repository as its outbox, a send returns a message only when the message was both
  -- appended to the stream and announced: the fallback to the outbox never succeeds.
  pub send_needs_both :
      (cmd : SendMessageCommand) (s s' : Server) (m : Message)
      → execute u cmd s ≡ (ok m, s')
      → Direct u m s'
  send_needs_both = execute-Direct u never
