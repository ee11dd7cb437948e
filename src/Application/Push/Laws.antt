-- ===== src/Application/Push/Laws.antt =====
-- Registering a token, and who is notified.
use aelora.Prelude.{
  ◌≡◌, ◌≢◌, refl, sym, ◌∙◌, ◌⊎◌, inl, inr, false, ◌||◌, String, ◌==◌, eq_iff, List, [], ◌∷◌, arith,
}
use aelora.Domain.{Message, Result, ok, err}
use aelora.Call.{Call, Keeps, next}
use aelora.Call.Post.{Post-pure, Post-call, Post-bind, Post-if}
use aelora.Ports.{PushToken, PushNotifier}
use aelora.Application.Push.{NotifyOfflineMembersUseCase, notify_all, notify_offline}

-- The state after each target was notified once, in order, whatever came of it.
abbrev pub notified : {S : Type 0} → PushNotifier S → Message → List PushToken → S → S
notified notifier msg [] s = s
notified notifier msg (t ∷ rest) s = notified notifier msg rest (notifier.notify_message t msg s).1

next-same :
    {S B : Type 0} (k : Call S B) (r : Result (Unit {0})) (s : S)
    → next (λ e. k) (λ done. k) r s ≡ k s
next-same k (ok done) s = refl
next-same k (err e) s = refl

notify_all-eq :
    {S : Type 0} (notifier : PushNotifier S) (msg : Message) (targets : List PushToken) (s : S)
    → notify_all notifier msg targets s ≡ (ok tt, notified notifier msg targets s)
unfolding notify_all
notify_all-eq notifier msg [] s = refl
notify_all-eq notifier msg (t ∷ rest) s =
    next-same (notify_all notifier msg rest) (notifier.notify_message t msg s).0 _
    ∙ notify_all-eq notifier msg rest _

module _ {S : Type 0} (u : NotifyOfflineMembersUseCase S) (msg : Message) (user : String)
    (s : S) where
  -- The user is another than the sender, has no device online, and each of the user's tokens was
  -- sent the message once.
  pub record Notified (r : Result (Unit {0})) (s' : S) : Type 0 where
    pub not_sender : user ≢ msg.sender_id
    pub asked : S
    pub offline : u.presence.is_online user s ≡ (ok false, asked)
    pub targets : List PushToken
    pub listed : S
    pub listing : u.tokens.list_by_user user asked ≡ (ok targets, listed)
    pub sent :
        ◌≡◌ {A = Result (Unit {0}) × S} (ok tt, notified u.notifier msg targets listed) (r, s')

  -- A notification run either sends nothing (what the presence and token lookups keep still holds),
  -- or the user is not the sender and is offline, and then each of the user's tokens is sent the
  -- message once, in order, and the run succeeds whatever the push service answers.
  pub notify_cases :
      (P : S → Type 0)
      → Keeps P (u.presence.is_online user)
      → Keeps P (u.tokens.list_by_user user)
      → P s
      → let (r, s') = notify_offline u msg user s in P s' ⊎ Notified r s'
  unfolding notify_offline
  notify_cases P ask list p =
      (Post-if {Q = λ r s'. P s' ⊎ Notified r s'} ((user == "") || (user == msg.sender_id))
        (λ skip. Post-pure (inl p))
        λ other.
          Post-bind (u.presence.is_online user) s (λ e s1 q. inl (rw q at (ask s p)))
            λ online s1 q.
              Post-if online (λ on. Post-pure (inl (rw q at (ask s p))))
                λ off.
                  Post-bind (u.tokens.list_by_user user) s1
                    (λ e s2 q2. inl (rw q2 at (list s1 (rw q at (ask s p)))))
                    λ targets s2 q2. Post-call (notify_all u.notifier msg targets) s2 λ r s3 q3.
                      inr (record {
                        not_sender = ground (arith, eq_iff user msg.sender_id);
                        asked = s1;
                        offline = rw off at q;
                        targets = targets;
                        listed = s2;
                        listing = q2;
                        sent = sym (notify_all-eq u.notifier msg targets s2) ∙ q3;
                      })).holds
