-- ===== src/Application/Push.antt =====
-- internal/application/push_notifications.go
pub mod Laws
use aelora.Prelude.{String, ◌==◌, not, ◌&&◌, ◌||◌, Bool, true, false, List, [], ◌∷◌, if◌then◌else◌}
use aelora.Domain.{Message, app, invalid_push_token, Result}
use aelora.Call.{Call, pure, fail, handle, ◌>>=◌, ◌>>◌}
use aelora.Ports.{
  PushToken, PushTokenRepository, PushNotifier, PresenceRepository, platform_android, platform_ios,
}

pub record RegisterPushTokenCommand : Type 0 where
  pub user_id : String
  pub device_id : String
  pub platform : String
  pub token : String

pub record DeletePushTokenCommand : Type 0 where
  pub user_id : String
  pub device_id : String

pub record NotifyOfflineMembersUseCase (S : Type 0) : Type 0 where
  pub presence : PresenceRepository S
  pub tokens : PushTokenRepository S
  pub notifier : PushNotifier S

module _ {S : Type 0} where
  unfoldable pub register : PushTokenRepository S → RegisterPushTokenCommand → Call S (Unit {0})
  register tokens cmd =
      if (cmd.user_id == "") || (cmd.device_id == "") || (cmd.token == "")
      then fail (app invalid_push_token)
      else if not (cmd.platform == platform_android) && not (cmd.platform == platform_ios)
      then fail (app invalid_push_token)
      else tokens.upsert (record {
        user_id = cmd.user_id;
        device_id = cmd.device_id;
        platform = cmd.platform;
        token = cmd.token;
      })

  unfoldable pub delete : PushTokenRepository S → DeletePushTokenCommand → Call S (Unit {0})
  delete tokens cmd =
      if (cmd.user_id == "") || (cmd.device_id == "")
      then fail (app invalid_push_token)
      else tokens.delete cmd.user_id cmd.device_id

  -- The loop over the targets drops each result.
  notify_all : PushNotifier S → Message → List PushToken → Call S (Unit {0})
  notify_all notifier msg [] = pure tt
  notify_all notifier msg (target ∷ rest) =
      handle (notifier.notify_message target msg) (λ e. notify_all notifier msg rest)
        (λ done. notify_all notifier msg rest)

  unfoldable pub notify_offline :
      NotifyOfflineMembersUseCase S → Message → String → Call S (Unit {0})
  unfolding notify_all
  notify_offline u msg user_id =
      if (user_id == "") || (user_id == msg.sender_id) then pure tt else do
        online ← u.presence.is_online user_id
        if online
            then pure tt
            else do targets ← u.tokens.list_by_user user_id; notify_all u.notifier msg targets
