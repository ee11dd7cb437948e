-- ===== src/Postgres/Connect.antt =====
-- internal/adapters/outbound/postgres/pool.go, and how room_repo.go gets its pool. The pools are pgx's:
-- what they do is a parameter.
pub mod Leaks
use aelora.Prelude.{ℕ, String, Bool, Option, none, some}
use aelora.Domain.{Error, other, Result}
use aelora.Call.{Call, pure, fail, lift, handle, modify, ◌>>=◌, ◌>>◌}

-- `MaxConnLifetime` and `MaxConnIdleTime` in nanoseconds.
pub record PoolConfig : Type 0 where
  pub dsn : String
  pub max_conns : ℕ
  pub min_conns : ℕ
  pub max_conn_lifetime : ℕ
  pub max_conn_idle_time : ℕ

-- `parse_config` is `pgxpool.ParseConfig`, `new_with_config` is `pgxpool.NewWithConfig`, and `new` is
-- `pgxpool.New`.
pub record Driver (S Pool : Type 0) : Type 0 where
  pub parse_config : String → Result PoolConfig
  pub new_with_config : PoolConfig → Call S Pool
  pub new : String → Call S Pool
  pub ping : Pool → Call S (Unit {0})
  pub exec : Pool → String → Call S (Unit {0})
  pub close : Pool → S → S

module _ {S Pool : Type 0} (pgx : Driver S Pool) where
  -- Closes the pool on an error.
  abbrev or_close : Pool → Call S (Unit {0}) → Call S (Unit {0})
  or_close pool m = handle m (λ e. modify (pgx.close pool) >> fail e) pure

  unfoldable pub new_pool : String → Call S Pool
  new_pool dsn = do
    cfg ← lift (pgx.parse_config dsn)
    pool ← pgx.new_with_config (record cfg {
      max_conns = 25;
      min_conns = 5;
      max_conn_lifetime = 1800000000000;
      max_conn_idle_time = 300000000000;
    })
    or_close pool (pgx.ping pool)
    pure pool

  unfoldable pub ensure_outbox_lease_columns : Pool → Call S (Unit {0})
  ensure_outbox_lease_columns pool = do
    pgx.exec pool "ALTER TABLE IF EXISTS message_outbox ADD COLUMN IF NOT EXISTS claimed_by TEXT"
    pgx.exec pool
        "ALTER TABLE IF EXISTS message_outbox ADD COLUMN IF NOT EXISTS claimed_until TIMESTAMPTZ"

  -- A repository is its pool, which is nil where it has none.
  unfoldable pub new_room_repository_from_pool : Pool → Call S (Option Pool)
  new_room_repository_from_pool pool = pure (some pool)

  unfoldable pub new_room_repository : String → Call S (Option Pool)
  unfolding ensure_outbox_lease_columns
  new_room_repository dsn = do
    pool ← pgx.new dsn
    or_close pool (pgx.ping pool)
    or_close pool (ensure_outbox_lease_columns pool)
    pure (some pool)

  unfoldable pub close_repository : Option Pool → S → S
  close_repository none s = s
  close_repository (some pool) s = pgx.close pool s

  unfoldable pub ping_repository : Option Pool → Call S (Unit {0})
  ping_repository none = fail (other "postgres pool is nil")
  ping_repository (some pool) = pgx.ping pool
