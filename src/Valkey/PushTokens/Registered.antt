-- ===== src/Valkey/PushTokens/Registered.antt =====
-- push_token_repo.go behind RegisterPushTokenUseCase: a token that was registered is found.
use aelora.Prelude.{
  ℕ, String, ◌==◌, eq_iff, ◌≡◌, ◌≢◌, refl, ap, ◌∙◌, ◌⊎◌, inl, inr, Bool, true, false, not, ◌||◌,
  ◌&&◌, Option, some, List, [], insert, or_else, arith, if◌then◌else◌,
}
use aelora.Domain.{Result, ok, err}
use aelora.Call.Post.{
  Post, Post-if, Post-fail, Post-call, Post-bind, Post-weaken, Post-at, Post-pure,
}
use aelora.Ports.{PushToken, platform_android, platform_ios}
use aelora.Application.Push.{RegisterPushTokenCommand, register}
use aelora.Valkey.{Client, push_token_key}
use aelora.Valkey.PushTokens.{
  push_token_ttl, token_value, tokens_of, upsert, list_by_user, push_token_repository,
}
use aelora.Valkey.PushTokens.Find.{find_device, made, find_inserted, split_value}

-- What Valkey documents of hashes, where `fields s key` is what the hash under a key holds.
pub record HashLaws {S : Type 0} (client : Client S) (fields : S → String → List (String × String))
    : Type 0 where
  pub hset_writes :
      (key field value : String) (s s' : S)
      → client.hset key field value s ≡ (ok tt, s')
      → fields s' key ≡ insert field value (fields s key)
  pub expire_keeps :
      (key : String) (seconds : ℕ) (s s' : S)
      → client.expire key seconds s ≡ (ok tt, s')
      → fields s' key ≡ fields s key
  pub hgetall_reads :
      (key : String) (found : Option (List (String × String))) (s s' : S)
      → client.hgetall key s ≡ (ok found, s')
      → or_else found [] ≡ fields s key

abbrev pub command_token : RegisterPushTokenCommand → PushToken
command_token cmd = record {
  user_id = cmd.user_id;
  device_id = cmd.device_id;
  platform = cmd.platform;
  token = cmd.token;
}

module _ {S : Type 0} (client : Client S) (fields : S → String → List (String × String))
    (laws : HashLaws client fields) where
  Written : PushToken → S → Result (Unit {0}) → S → Type 0
  Written token s (ok u) s' =
      fields s' (push_token_key token.user_id)
      ≡ insert token.device_id (token_value token) (fields s (push_token_key token.user_id))
  Written token s (err e) s' = Unit

  expired :
      (token : PushToken) (s s1 : S)
      → client.hset (push_token_key token.user_id) token.device_id (token_value token) s
        ≡ (ok tt, s1)
      → (r : Result (Unit {0})) (s2 : S)
      → client.expire (push_token_key token.user_id) push_token_ttl s1 ≡ (r, s2)
      → Written token s r s2
  unfolding Written
  expired token s s1 h (ok u) s2 e = laws.expire_keeps _ _ s1 s2 e ∙ laws.hset_writes _ _ _ s s1 h
  expired token s s1 h (err x) s2 e = tt

  upsert-Post : (token : PushToken) (s : S) → Post (Written token s) (upsert client token) s
  unfolding upsert Written
  upsert-Post token s =
      Post-bind (client.hset (push_token_key token.user_id) token.device_id (token_value token)) s
        (λ e s1 h. tt)
        λ u s1 h.
          Post-call (client.expire (push_token_key token.user_id) push_token_ttl) s1
            (expired token s s1 h)

  Registration : RegisterPushTokenCommand → S → Result (Unit {0}) → S → Type 0
  Registration cmd s (ok u) s' =
      (cmd.token ≢ "")
      × ((cmd.platform ≡ "android") ⊎ (cmd.platform ≡ "ios"))
      × Written (command_token cmd) s (ok u) s'
  Registration cmd s (err e) s' = Unit

  registered :
      (cmd : RegisterPushTokenCommand) (s : S)
      → cmd.token ≢ ""
      → (cmd.platform ≡ "android") ⊎ (cmd.platform ≡ "ios")
      → (r : Result (Unit {0})) (s' : S) → Written (command_token cmd) s r s'
      → Registration cmd s r s'
  unfolding Registration
  registered cmd s n o (ok u) s' w = (n, o, w)
  registered cmd s n o (err e) s' w = tt

  one_of :
      {P Q : Type 0} (a b : Bool) → not a && not b ≡ false → (a ≡ true → P) → (b ≡ true → Q) → P ⊎ Q
  one_of true b h f g = inl (f refl)
  one_of false true h f g = inr (g refl)
  one_of false false h f g = cc

  register-Post :
      (cmd : RegisterPushTokenCommand) (s : S)
      → Post (Registration cmd s) (register (push_token_repository client) cmd) s
  unfolding register Registration
  register-Post cmd s =
      Post-if ((cmd.user_id == "") || (cmd.device_id == "") || (cmd.token == ""))
        (λ b. Post-fail tt)
        λ b.
          Post-if (not (cmd.platform == platform_android) && not (cmd.platform == platform_ios))
            (λ q. Post-fail tt)
            λ q.
              Post-weaken
                (registered cmd s (λ e. ground (arith, eq_iff cmd.token ""))
                  (one_of (cmd.platform == platform_android) (cmd.platform == platform_ios) q
                    (eq_iff cmd.platform platform_android).0 (eq_iff cmd.platform platform_ios).0))
                (upsert-Post (command_token cmd) s)

  Listed : String → S → Result (List PushToken) → S → Type 0
  Listed user s (ok tokens) s' = tokens ≡ tokens_of user (fields s (push_token_key user))
  Listed user s (err e) s' = Unit

  list_by_user-Post : (user : String) (s : S) → Post (Listed user s) (list_by_user client user) s
  unfolding list_by_user Listed
  list_by_user-Post user s =
      Post-bind (client.hgetall (push_token_key user)) s (λ e s1 h. tt)
        λ found s1 h. Post-pure (ap (tokens_of user) (laws.hgetall_reads _ found s s1 h))

  -- A token that was registered is found for its device, and the tokens of the user's other devices
  -- are the ones that were found before.
  pub registered_is_found :
      (cmd : RegisterPushTokenCommand) (tokens : List PushToken) (s s1 s2 : S)
      → register (push_token_repository client) cmd s ≡ (ok tt, s1)
      → list_by_user client cmd.user_id s1 ≡ (ok tokens, s2)
      → (device : String)
      → find_device device tokens ≡ (
          if device == cmd.device_id
          then some (command_token cmd)
          else find_device device (tokens_of cmd.user_id (fields s (push_token_key cmd.user_id))))
  unfolding Registration Written Listed
  registered_is_found cmd tokens s s1 s2 done listed device =
      let (n, o, w) = Post-at {Q = Registration cmd s} (ok tt) s1 (register-Post cmd s) done in
      let l =
        Post-at {Q = Listed cmd.user_id s1} (ok tokens) s2 (list_by_user-Post cmd.user_id s1)
          listed in
      ap (find_device device) (l ∙ ap (tokens_of cmd.user_id) w)
      ∙ find_inserted cmd.user_id cmd.device_id (token_value (command_token cmd))
          (command_token cmd)
          (ap (made cmd.user_id cmd.device_id) (split_value cmd.platform cmd.token o n)) refl device
          (fields s (push_token_key cmd.user_id))
