-- ===== src/RoomCache.antt =====
-- internal/adapters/outbound/roomcache/repository.go
pub mod Laws
use aelora.Prelude.{String, Option, none, some, List, [], ◌∷◌}
use aelora.Domain.{Room, Error, room_not_found, room_already_exists, Result, ok, err, new_room}
use aelora.Call.{Call, pure, fail, handle, given, ◌>>=◌, ◌>>◌}
use aelora.Ports.{RoomRepository}

pub record Repository (S : Type 0) : Type 0 where
  pub primary : RoomRepository S
  pub cache : RoomRepository S

module _ {S : Type 0} (r : Repository S) where
  -- The loop of `warmCache` drops each result.
  pub add_members : String → List String → Call S (Unit {0})
  add_members room_id [] = pure tt
  add_members room_id (member ∷ rest) =
      handle (r.cache.add_member room_id member) (λ e. add_members room_id rest)
        (λ done. add_members room_id rest)

  -- After a failed `Create` in the cache: only for a room that is there does the loop run.
  warm_after : Room → Error → Call S (Unit {0})
  unfolding add_members
  warm_after room room_already_exists = add_members room.id room.members
  warm_after room e = pure tt

  pub warm_cache : Room → Call S (Unit {0})
  unfolding warm_after add_members
  warm_cache room =
      handle (r.cache.create room) (warm_after room) (λ done. add_members room.id room.members)

  unfoldable pub get : String → Call S Room
  unfolding warm_cache
  get room_id =
      handle (r.cache.get room_id)
        (λ e. r.primary.get room_id >>= λ room. warm_cache room >> pure room) pure

  unfoldable pub create : Room → Call S (Unit {0})
  unfolding warm_cache
  create room = do r.primary.create room; warm_cache room; pure tt

  -- After a failed `AddMember` in the cache: a room that it does not hold is loaded.
  refresh : String → Error → Call S (Unit {0})
  unfolding warm_cache
  refresh room_id room_not_found =
      handle (r.primary.get room_id) (λ e. pure tt) (λ room. warm_cache room >> pure tt)
  refresh room_id e = pure tt

  unfoldable pub add_member : String → String → Call S (Unit {0})
  unfolding refresh
  add_member room_id user_id =
      r.primary.add_member room_id user_id
      >> handle (r.cache.add_member room_id user_id) (refresh room_id) (λ done. pure tt)

  warm_built : Result Room → Call S (Unit {0})
  unfolding warm_cache
  warm_built (ok room) = warm_cache room
  warm_built (err e) = pure tt

  unfoldable pub list_members : String → Call S (List String)
  unfolding warm_built
  list_members room_id =
      handle (r.cache.list_members room_id)
        (λ e. r.primary.list_members room_id >>= λ members.
          warm_built (new_room room_id members) >> pure members)
        pure

  unfoldable pub get_member_role : String → String → Call S String
  get_member_role room_id user_id =
      given r.primary.get_member_role (fail room_not_found) (λ role. role room_id user_id)

  unfoldable pub set_member_role : String → String → String → Call S (Unit {0})
  set_member_role room_id user_id role =
      given r.primary.set_member_role (fail room_not_found) (λ set. set room_id user_id role)

  abbrev pub repository : RoomRepository S
  repository = record {
    get = get;
    create = create;
    add_member = add_member;
    list_members = list_members;
    get_member_role = some get_member_role;
    set_member_role = some set_member_role;
  }
