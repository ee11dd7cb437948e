-- ===== src/Tests/Connect.antt =====
-- A server that answers a ping and refuses to add a column.
use aelora.Prelude.{ℕ, suc, ◌-◌, ◌≡◌, refl, String, arith}
use aelora.Domain.{other, ok, err}
use aelora.Call.{modify}
use aelora.Postgres.Connect.{Driver, new_pool, new_room_repository}
use aelora.Postgres.Connect.Leaks.{PoolLaws, OneMore, no_pool_leaks}

-- The state counts the open pools.
abbrev pgx : Driver ℕ String
pgx = record {
  parse_config = λ dsn. ok (record {
    dsn = dsn;
    max_conns = 4;
    min_conns = 0;
    max_conn_lifetime = 0;
    max_conn_idle_time = 0;
  });
  new_with_config = λ cfg n. (ok cfg.dsn, suc n);
  new = λ dsn n. (ok dsn, suc n);
  ping = λ pool n. (ok tt, n);
  exec = λ pool sql n. (err (other "permission denied"), n);
  close = λ pool n. n - 1;
}

laws : PoolLaws pgx (λ n. n)
laws = record {
  new = λ dsn s. record { holds = refl };
  new_with_config = λ cfg s. record { holds = refl };
  ping = λ pool s. refl;
  exec = λ pool sql s. refl;
  close = λ pool n s h. omega arith;
}

refused : new_room_repository pgx "dsn" 3 ≡ (err (other "permission denied"), 3)
unfolding new_room_repository modify
refused = refl

no_pool_leaks_example :
    OneMore {A = String} (λ n. n) 3 (new_pool pgx "dsn" 3).0 (new_pool pgx "dsn" 3).1
    × OneMore (λ n. n) 3 (new_room_repository pgx "dsn" 3).0 (new_room_repository pgx "dsn" 3).1
no_pool_leaks_example = no_pool_leaks pgx (λ n. n) laws "dsn" 3
