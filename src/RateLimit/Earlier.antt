-- ===== src/RateLimit/Earlier.antt =====
-- Windows that began before a stretch.
use aelora.Prelude.{
  ℕ, ◌≤◌, ◌<◌, String, ◌==◌, Option, none, some, [], ◌∷◌, arith, Bool-cases, inl, inr,
}
use aelora.Prelude.Int.{ℤ, pos, negsuc}
use aelora.RateLimit.{
  Entry, FixedWindowLimiter, new_limiter, new_entry, load_or_store, update, sweep, decide, allow,
}
use aelora.RateLimit.Step.{CallLog, run, allow-settings, allow-entries}
use aelora.RateLimit.Budget.{EntryFits, Fits}

-- Every call of the log is made before `t`.
abbrev pub IsBefore : ℕ → CallLog → Type 0
IsBefore t [] = Unit
IsBefore t ((k, now) ∷ rest) = (now < t) × IsBefore t rest

module _ (t : ℕ) where
  abbrev pub IsOld : ℕ → Option Entry → Type 0
  IsOld max none = Unit
  IsOld max (some e) = (e.count ≤ max) × (e.window_start < t)

  -- Each counter is within its limit, and each window began before `t`.
  pub record AreOld (l : FixedWindowLimiter) : Type 0 where
    pub some_room : 1 ≤ l.max
    pub kept_long : l.window ≤ l.ttl
    pub entry : (k : String) → IsOld l.max (l.entries k)

  decide-IsOld :
      (max window now : ℕ) (o : Option Entry)
      → 1 ≤ max
      → now < t
      → IsOld max o
      → IsOld max (some (decide max window now (load_or_store o now)).0)
  unfolding decide new_entry
  decide-IsOld max window now none m lt h = ground arith
  decide-IsOld max window now (some e) m lt h = ground arith

  sweep-IsOld : (max ttl now : ℕ) (o : Option Entry) → IsOld max o → IsOld max (sweep ttl now o)
  sweep-IsOld max ttl now none h = tt
  sweep-IsOld max ttl now (some e) h = ground arith

  allow-AreOld :
      (l : FixedWindowLimiter) (k : String) (now : ℕ)
      → now < t
      → AreOld l
      → AreOld (allow l k now).1
  allow-AreOld l k now lt old = record {
    some_room = rw (allow-settings l k now).0 old.some_room;
    kept_long = rw ((allow-settings l k now).1, (allow-settings l k now).2) old.kept_long;
    entry = λ j. rw (allow-settings l k now).0 (after j);
  }
    where
      stored :
          (j : String)
          → IsOld l.max
              (update l.entries k (decide l.max l.window now (load_or_store (l.entries k) now)).0 j)
      stored j = elim (Bool-cases (k == j)) [
        | inl same ↦
            rw same (decide-IsOld l.max l.window now (l.entries k) old.some_room lt (old.entry k))
        | inr other ↦ rw other (old.entry j)
      ]

      after : (j : String) → IsOld l.max ((allow l k now).1.entries j)
      after j = elim (allow-entries l k now j) [
        | inl same ↦ rw same (stored j)
        | inr swept ↦ rw swept (sweep-IsOld l.max l.ttl now _ (stored j))
      ]

  pub run-AreOld :
      (log : CallLog) (l : FixedWindowLimiter) → IsBefore t log → AreOld l → AreOld (run l log)
  unfolding run
  run-AreOld [] l b old = old
  run-AreOld ((k, now) ∷ rest) l b old =
      run-AreOld rest (allow l k now).1 b.1 (allow-AreOld l k now b.0 old)

  pub AreOld-Fits : (l : FixedWindowLimiter) → AreOld l → Fits t l
  AreOld-Fits l old = record {
    some_room = old.some_room;
    kept_long = old.kept_long;
    entry = λ k. fits (l.entries k) (old.entry k);
  }
    where
      fits : (o : Option Entry) → IsOld l.max o → EntryFits l.max l.window l.ttl t o
      fits none h = tt
      fits (some e) h = (h.0, λ late. absurd (omega arith))

-- The settings that a new limiter chooses.
pub new_limiter-AreOld :
    (t : ℕ) (max window ttl : ℤ)
    → (new_limiter max window ttl).window ≤ (new_limiter max window ttl).ttl
    → AreOld t (new_limiter max window ttl)
unfolding new_limiter
new_limiter-AreOld t (pos m) window ttl h = record {
  some_room = ground arith;
  kept_long = h;
  entry = λ k. tt;
}
new_limiter-AreOld t (negsuc m) window ttl h = record {
  some_room = omega arith;
  kept_long = h;
  entry = λ k. tt;
}
