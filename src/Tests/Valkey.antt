-- ===== src/Tests/Valkey.antt =====
-- A server in memory, in which nothing expires, and the repositories over it.
use aelora.Prelude.{
  ℕ, String, ◌==◌, ◌≡◌, refl, ap, sym, ◌∙◌, Bool, true, false, none, some, List, [], ◌∷◌, insert,
  delete, lookup, lookup-insert, add, eq_refl, or_else, ltb, is_some, if◌then◌else◌,
}
use aelora.Prelude.Int.{pos}
use aelora.Domain.{Result, ok}
use aelora.Call.{Call, pure, read}
use aelora.Application.Push.{RegisterPushTokenCommand, register}
use aelora.Valkey.{Client, push_token_key, presence_key, presence_devices_key}
use aelora.Valkey.PushTokens.{list_by_user, push_token_repository, tokens_of, upsert}
use aelora.Valkey.PushTokens.Find.{find_device}
use aelora.Valkey.PushTokens.Registered.{HashLaws, command_token, registered_is_found}
use aelora.Valkey.Presence.{Repository, set_online, is_online}
use aelora.Valkey.Presence.Online.{PresenceLaws, any_live, is_online_any}

pub record Memory : Type 0 where
  pub texts : List (String × String)
  pub sets : List (String × List String)
  pub hashes : List (String × List (String × String))

abbrev set_of : Memory → String → List String
set_of m key = or_else (lookup key m.sets) []

abbrev hash_of : Memory → String → List (String × String)
hash_of m key = or_else (lookup key m.hashes) []

abbrev remove : String → List String → List String
remove a [] = []
remove a (x ∷ rest) = let others = remove a rest in if x == a then others else x ∷ others

abbrev write : (Memory → Memory) → Call Memory (Unit {0})
write f m = (ok tt, f m)

abbrev live : Memory → String → Bool
live m key = is_some (lookup key m.texts)

abbrev count : Bool → ℕ
count true = 1
count false = 0

counted : (b : Bool) → ltb 0 (count b) ≡ b
counted true = refl
counted false = refl

abbrev members_onto : List String → List String → List String
members_onto [] set = set
members_onto (member ∷ rest) set = members_onto rest (add member set)

abbrev pub client : Client Memory
client = record {
  set = λ key value. write λ m. record m { texts = insert key value m.texts };
  set_ex = λ key value seconds. write λ m. record m { texts = insert key value m.texts };
  get = λ key m. (ok (lookup key m.texts), m);
  del = λ key. write λ m. record m { texts = delete key m.texts };
  exists = λ key m. (ok (count (live m key)), m);
  expire = λ key seconds. pure tt;
  sadd = λ key members.
      write λ m. record m { sets = insert key (members_onto members (set_of m key)) m.sets };
  srem =
      λ key member. write λ m. record m { sets = insert key (remove member (set_of m key)) m.sets };
  smembers = λ key m. (ok (lookup key m.sets), m);
  hset = λ key field value.
      write λ m. record m { hashes = insert key (insert field value (hash_of m key)) m.hashes };
  hdel = λ key field.
      write λ m. record m { hashes = insert key (delete field (hash_of m key)) m.hashes };
  hgetall = λ key m. (ok (lookup key m.hashes), m);
  incr = λ key. pure (pos 1);
  xadd = λ key max_len value. pure "1-0";
  xread = λ key id limit. pure none;
}

-- The state and the answer of a run that is known.
state_of : {A : Type 0} {x y : Result A × Memory} → x ≡ y → y.1 ≡ x.1
state_of e = ap (λ x. x.1) (sym e)

hash_laws : HashLaws client hash_of
hash_laws = record {
  hset_writes = λ key field value s s' h.
      let here =
        lookup-insert key key (insert field value (hash_of s key)) s.hashes
        ∙ ap (λ b. if b then some (insert field value (hash_of s key)) else lookup key s.hashes)
            (eq_refl key) in
      ap (λ m. hash_of m key) (state_of h) ∙ ap (λ o. or_else o []) here;
  expire_keeps = λ key seconds s s' h. ap (λ m. hash_of m key) (state_of h);
  hgetall_reads =
      λ key found s s' h. let e : found ≡ lookup key s.hashes = cc in ap (λ o. or_else o []) e;
}

presence_laws : PresenceLaws client live set_of
presence_laws = record {
  smembers_reads = λ key found s s' h.
      let e : found ≡ lookup key s.sets = cc in (ap (λ o. or_else o []) e, ap live (state_of h));
  exists_reads = λ key n s s' h.
      let e : n ≡ count (live s key) = cc in
      (ap (λ n. ltb 0 n) e ∙ counted (live s key), ap live (state_of h));
  srem_keeps = λ key member r s s' h. ap live (state_of h);
}

abbrev command : RegisterPushTokenCommand
command = record { user_id = "bob"; device_id = "d1"; platform = "ios"; token = "t|1" }

abbrev pub empty : Memory
empty = record { texts = []; sets = []; hashes = [] }

abbrev registered : Memory
registered = record empty { hashes = ("push_tokens:bob", ("d1", "ios|t|1") ∷ []) ∷ [] }

register_run : register (push_token_repository client) command empty ≡ (ok tt, registered)
unfolding register upsert push_token_key
register_run = refl

list_run : list_by_user client "bob" registered ≡ (ok (command_token command ∷ []), registered)
unfolding list_by_user push_token_key
list_run = refl

registered_is_found_example :
    find_device "d1" (command_token command ∷ []) ≡ some (command_token command)
unfolding tokens_of
registered_is_found_example =
    registered_is_found client hash_of hash_laws command (command_token command ∷ []) empty
      registered registered register_run list_run "d1"

abbrev presence : Repository Memory
presence = record { client = client; ttl = 30000000000; now_text = λ m. "0" }

abbrev online : Memory
online = record empty {
  texts = ("presence:bob:d1", "0") ∷ [];
  sets = ("presence_devices:bob", "d1" ∷ []) ∷ [];
}

set_online_run : set_online presence "bob" "d1" empty ≡ (ok tt, online)
unfolding set_online presence_key presence_devices_key read
set_online_run = refl

is_online_run : is_online presence "bob" online ≡ (ok true, online)
unfolding is_online presence_key presence_devices_key
is_online_run = refl

is_online_any_example :
    true ≡ any_live (live online) "bob" (set_of online (presence_devices_key "bob"))
is_online_any_example =
    is_online_any presence live set_of presence_laws "bob" true online online is_online_run
