-- ===== src/Tests/Application/Reads.antt =====
-- Listing, syncing, acknowledging and notifying in the in-memory world.
use aelora.Prelude.{◌≡◌, refl, ◌⊎◌, false, [], ◌∷◌}
use aelora.Prelude.Int.{pos, negsuc}
use aelora.Domain.{ok, has_member}
use aelora.Ports.{StreamMessage}
use aelora.Application.ListMessages.{ListMessagesUseCase, ListMessagesQuery, execute}
use aelora.Application.ListMessages.Laws.{Denied, Listed, list_cases}
use aelora.Application.SyncMessages.{
  SyncMessagesQuery, SyncMessagesResult, AckMessageCommand, acknowledge,
}
use aelora.Application.SyncMessages.{execute as execute_sync}
use aelora.Application.SyncMessages.Ack.{NotMoved, Moved, ack_cases}
use aelora.Application.SyncMessages.Sync.{Synced, sync_ok}
use aelora.Application.Push.{NotifyOfflineMembersUseCase, notify_offline}
use aelora.Application.Push.Laws.{Notified, notify_cases}
use aelora.Tests.World.{World, world, rooms, messages, acks, syncs, alice_hello}

abbrev Unqueued : World → Type 0
Unqueued w = w.queued ≡ []

abbrev lists : ListMessagesUseCase World
lists = record { rooms = rooms; messages = messages }

abbrev last_messages : ListMessagesQuery
last_messages = record { room_id = "lobby"; user_id = "bob"; since = 0; limit = pos 20 }

list_cases_example :
    let (r, s') = execute lists last_messages world in
    Denied lists last_messages world Unqueued r s' ⊎ Listed lists last_messages world r s'
list_cases_example = list_cases lists last_messages world Unqueued (λ w p. p) refl

abbrev bob_acks : AckMessageCommand
bob_acks = record { room_id = "lobby"; user_id = "bob"; device_id = "d1"; stream_id = "7-0" }

ack_cases_example :
    let (r, s') = acknowledge rooms acks bob_acks world in
    NotMoved rooms acks bob_acks world Unqueued r s' ⊎ Moved rooms acks bob_acks world r s'
ack_cases_example = ack_cases rooms acks bob_acks world Unqueued (λ w p. p) refl

-- The stream has lost what the store still holds.
abbrev lost : World
lost = record world { saved = alice_hello ∷ [] }

abbrev bob_syncs : SyncMessagesQuery
bob_syncs = record {
  room_id = "lobby";
  user_id = "bob";
  device_id = "d1";
  last_ack = "0";
  limit = negsuc 0;
}

abbrev hello_again : StreamMessage
hello_again = record { stream_id = "7-0"; room_id = "lobby"; message = alice_hello }

abbrev synced : SyncMessagesResult
synced = record { messages = hello_again ∷ []; replies = [] }

sync_ok_example : Synced syncs bob_syncs lost synced
unfolding execute_sync has_member
sync_ok_example =
    sync_ok syncs bob_syncs lost (record lost { stream = hello_again ∷ [] }) synced refl

abbrev notifies : NotifyOfflineMembersUseCase World
notifies = record {
  presence = record {
    set_online = λ user device w. (ok tt, w);
    set_offline = λ user device w. (ok tt, w);
    is_online = λ user w. (ok false, w);
  };
  tokens = record {
    upsert = λ token w. (ok tt, record w { tokens = token ∷ w.tokens });
    delete = λ user device w. (ok tt, record w { tokens = [] });
    list_by_user = λ user w. (ok w.tokens, w);
  };
  notifier = record {
    notify_message = λ target m w. (ok tt, record w { pushed = target.token ∷ w.pushed });
  };
}

notify_cases_example :
    let (r, s') = notify_offline notifies alice_hello "bob" world in
    Unqueued s' ⊎ Notified notifies alice_hello "bob" world r s'
notify_cases_example =
    notify_cases notifies alice_hello "bob" world Unqueued (λ w p. p) (λ w p. p) refl
