-- ===== src/Valkey/Presence.antt =====
-- internal/adapters/outbound/valkey/presence_repo.go
pub mod Online
use aelora.Prelude.{
  ℕ, ◌*◌, ◌/◌, String, Bool, true, false, Option, none, some, List, [], ◌∷◌, ltb, or_else,
  if◌then◌else◌,
}
use aelora.Prelude.Int.{ℤ, is_nonpos, to_nat}
use aelora.Call.{Call, pure, handle, read, ◌>>=◌, ◌>>◌}
use aelora.Ports.{PresenceRepository}
use aelora.Valkey.{Client, presence_key, presence_devices_key}

-- `ttl` is in nanoseconds; `now_text` is the time in seconds, as FormatInt writes it.
pub record Repository (S : Type 0) : Type 0 where
  pub client : Client S
  pub ttl : ℕ
  pub now_text : S → String

-- Thirty seconds in place of a ttl that is not positive.
unfoldable pub new_presence_repository : {S : Type 0} → Client S → ℤ → (S → String) → Repository S
new_presence_repository client ttl now_text = record {
  client = client;
  ttl = if is_nonpos ttl then 30000000000 else to_nat ttl;
  now_text = now_text;
}

module _ {S : Type 0} (r : Repository S) where
  unfoldable pub set_online : String → String → Call S (Unit {0})
  set_online user_id device_id = do
    now ← read r.now_text
    r.client.set_ex (presence_key user_id device_id) now (r.ttl / 1000000000)
    r.client.sadd (presence_devices_key user_id) (device_id ∷ [])
    r.client.expire (presence_devices_key user_id) ((2 * r.ttl) / 1000000000)

  unfoldable pub set_offline : String → String → Call S (Unit {0})
  set_offline user_id device_id = do
    r.client.del (presence_key user_id device_id)
    handle (r.client.srem (presence_devices_key user_id) device_id) (λ e. pure tt) pure

  -- The loop over the devices, on `online`.
  unfoldable pub scan_devices : String → Bool → List String → Call S Bool
  scan_devices user_id online [] = pure online
  scan_devices user_id online (device_id ∷ rest) = do
    exists ← r.client.exists (presence_key user_id device_id)
    if ltb 0 exists then scan_devices user_id true rest else do
      handle (r.client.srem (presence_devices_key user_id) device_id) (λ e. pure tt) pure
      scan_devices user_id online rest

  unfoldable pub is_online : String → Call S Bool
  unfolding scan_devices
  is_online user_id = do
    devices ← r.client.smembers (presence_devices_key user_id)
    scan_devices user_id false (or_else devices [])

  abbrev pub presence_repository : PresenceRepository S
  presence_repository = record {
    set_online = set_online;
    set_offline = set_offline;
    is_online = is_online;
  }
