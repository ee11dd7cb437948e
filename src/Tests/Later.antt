-- ===== src/Tests/Later.antt =====
-- What stays true of the tables over a stretch of calls.
use aelora.Prelude.{◌≡◌, ◌≢◌, refl, true, [], ◌∷◌, arith}
use aelora.Prelude.Int.{pos}
use aelora.Domain.{Message, ok}
use aelora.Call.{lift}
use aelora.Ports.{OutboxMessage}
use aelora.Postgres.{Server, exec, transaction}
use aelora.Postgres.Messages.{save}
use aelora.Postgres.Messages.Once
use aelora.Postgres.Messages.Once.{save_once}
use aelora.Postgres.Outbox.{claim_pending, mark_dispatched, mark_stream_appended}
use aelora.Postgres.Outbox.Later.{Steps, here, then_step, claimed, marked_appended, elsewhere}
use aelora.Postgres.Outbox.Claims.{IsLeftOut, claims_disjoint, dispatched_not_claimed}
use aelora.Tests.World.{alice_hello}
use aelora.Tests.Adapters.{digest, before, server, marshal, unmarshal, unmarshal_message}

abbrev bob_hello : Message
bob_hello = record alice_hello { id = "m2"; sender_id = "bob" }

abbrev saved_server : Server
saved_server = (save digest before alice_hello server).1

abbrev saved_more : Server
saved_more = (save digest before bob_hello saved_server).1

save_once_example :
    let (r, s') = save digest before (record alice_hello { id = "m3" }) saved_more in
    (r ≢ ok tt) × (s'.db ≡ saved_more.db)
unfolding save transaction exec
save_once_example =
    save_once digest before alice_hello (record alice_hello { id = "m3" }) server saved_server
      saved_more refl refl refl (Once.then_step Once.here (Once.saved bob_hello))

-- A lease of 50 from time 100 on.
abbrev leased : Server
leased = (claim_pending marshal unmarshal unmarshal_message "host" (pos 10) (pos 50) server).1

abbrev asked_again : Server
asked_again = (claim_pending marshal unmarshal unmarshal_message "guest" (pos 10) (pos 50) leased).1

abbrev later : Server
later = record asked_again { server_now = 140 }

abbrev hello_out : OutboxMessage
hello_out = record { message = alice_hello; stream_appended = true }

to_later : Steps marshal unmarshal unmarshal_message leased later
to_later = then_step (then_step here (claimed "guest" (pos 10) (pos 50))) (elsewhere later refl)

claims_disjoint_example : IsLeftOut marshal unmarshal unmarshal_message "m1" later []
unfolding claim_pending exec to_later
claims_disjoint_example =
    claims_disjoint marshal unmarshal unmarshal_message "m1" "host" (pos 10) (pos 50) server leased
      later later (hello_out ∷ []) [] "guest" (pos 5) (pos 9) refl refl to_later
      ((tt, omega arith), tt) (omega arith) refl

abbrev dispatched : Server
dispatched = (mark_dispatched marshal unmarshal unmarshal_message "m1" server).1

abbrev appended_again : Server
appended_again = (mark_stream_appended marshal unmarshal unmarshal_message "m1" dispatched).1

dispatched_not_claimed_example :
    IsLeftOut marshal unmarshal unmarshal_message "m1" appended_again []
unfolding mark_dispatched claim_pending exec mark_stream_appended lift
dispatched_not_claimed_example =
    dispatched_not_claimed marshal unmarshal unmarshal_message "m1" "guest" (pos 5) (pos 9) server
      dispatched appended_again appended_again [] refl (then_step here (marked_appended "m1")) refl
