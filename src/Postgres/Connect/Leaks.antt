-- ===== src/Postgres/Connect/Leaks.antt =====
-- pool.go and room_repo.go: no pool is left open behind an error.
use aelora.Prelude.{ℕ, suc, ◌≡◌, refl, sym, ap, ◌∙◌, String}
use aelora.Domain.{Result, ok, err}
use aelora.Call.{Call}
use aelora.Call.Post.{
  Post, Post-pure, Post-fail, Post-bind, Post-lift, Post-handle, Post-then, Post-modify, Post-call,
}
use aelora.Postgres.Connect.{
  PoolConfig, Driver, new_pool, new_room_repository, ensure_outbox_lease_columns, or_close,
}

-- One pool more is open where the call succeeds, and as many as before where it fails.
abbrev pub OneMore : {S A : Type 0} → (S → ℕ) → ℕ → Result A → S → Type 0
OneMore opened n (ok a) s = opened s ≡ suc n
OneMore opened n (err e) s = opened s ≡ n

-- What pgx documents: a call that makes a pool opens one, or answers an error and opens none; the use
-- of a pool leaves it open, and closing it ends that.
pub record PoolLaws {S Pool : Type 0} (pgx : Driver S Pool) (opened : S → ℕ) : Type 0 where
  pub new : (dsn : String) (s : S) → Post (OneMore opened (opened s)) (pgx.new dsn) s
  pub new_with_config :
      (cfg : PoolConfig) (s : S) → Post (OneMore opened (opened s)) (pgx.new_with_config cfg) s
  pub ping : (pool : Pool) (s : S) → opened (pgx.ping pool s).1 ≡ opened s
  pub exec : (pool : Pool) (sql : String) (s : S) → opened (pgx.exec pool sql s).1 ≡ opened s
  pub close : (pool : Pool) (n : ℕ) (s : S) → opened s ≡ suc n → opened (pgx.close pool s) ≡ n

module _ {S Pool : Type 0} (pgx : Driver S Pool) (opened : S → ℕ) (laws : PoolLaws pgx opened) where
  or_close-Post :
      (pool : Pool) (m : Call S (Unit {0})) (n : ℕ) (s : S)
      → opened s ≡ suc n
      → ((s : S) → opened (m s).1 ≡ opened s)
      → Post (OneMore opened n) (or_close pgx pool m) s
  or_close-Post pool m n s e keeps =
      Post-handle m s
        (λ x s1 h.
          Post-modify (pgx.close pool)
            (Post-fail (laws.close pool n s1 (ap (λ r. opened r.1) (sym h) ∙ keeps s ∙ e))))
        (λ u s1 h. Post-pure (ap (λ r. opened r.1) (sym h) ∙ keeps s ∙ e))

  exec-keeps :
      (pool : Pool) (sql : String) (s s' : S) (r : Result (Unit {0}))
      → pgx.exec pool sql s ≡ (r, s')
      → opened s' ≡ opened s
  exec-keeps pool sql s s' r h = ap (λ x. opened x.1) (sym h) ∙ laws.exec pool sql s

  columns-Post :
      (pool : Pool) (s : S)
      → Post (λ r s'. opened s' ≡ opened s) (ensure_outbox_lease_columns pgx pool) s
  unfolding ensure_outbox_lease_columns
  columns-Post pool s =
      Post-bind (pgx.exec pool _) s (λ e s1 h. exec-keeps pool _ s s1 _ h)
        λ u s1 h.
          Post-call (pgx.exec pool _) s1
            λ r s2 k. exec-keeps pool _ s1 s2 r k ∙ exec-keeps pool _ s s1 _ h

  columns-keep :
      (pool : Pool) (s : S) → opened (ensure_outbox_lease_columns pgx pool s).1 ≡ opened s
  columns-keep pool s = (columns-Post pool s).holds

  new_pool-Post : (dsn : String) (s : S) → Post (OneMore opened (opened s)) (new_pool pgx dsn) s
  unfolding new_pool
  new_pool-Post dsn s =
      Post-lift (pgx.parse_config dsn) (λ e h. refl)
        λ cfg h.
          Post-then (laws.new_with_config _ s) (λ e s1 q. q)
            λ pool s1 h1 q.
              Post-then (or_close-Post pool (pgx.ping pool) (opened s) s1 q (laws.ping pool))
                (λ e s2 k. k) (λ u s2 h2 k. Post-pure k)

  new_room_repository-Post :
      (dsn : String) (s : S) → Post (OneMore opened (opened s)) (new_room_repository pgx dsn) s
  unfolding new_room_repository
  new_room_repository-Post dsn s =
      Post-then (laws.new dsn s) (λ e s1 q. q)
        λ pool s1 h1 q.
          Post-then (or_close-Post pool (pgx.ping pool) (opened s) s1 q (laws.ping pool))
            (λ e s2 k. k)
            λ u s2 h2 k.
              Post-then
                (or_close-Post pool (ensure_outbox_lease_columns pgx pool) (opened s) s2 k
                  (columns-keep pool))
                (λ e s3 k2. k2) (λ u2 s3 h3 k2. Post-pure k2)

  -- However connecting ends, by either way to make a repository: one more pool is open where it
  -- succeeds, and no more than before where it fails.
  pub no_pool_leaks :
      (dsn : String) (s : S)
      → OneMore opened (opened s) (new_pool pgx dsn s).0 (new_pool pgx dsn s).1
        × OneMore opened
            (opened s)
            (new_room_repository pgx dsn s).0
            (new_room_repository pgx dsn s).1
  no_pool_leaks dsn s = ((new_pool-Post dsn s).holds, (new_room_repository-Post dsn s).holds)
