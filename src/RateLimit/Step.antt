-- ===== src/RateLimit/Step.antt =====
-- One call of the limiter: its settings stay, and which entries it may change; and a log of calls.
use aelora.Prelude.{
  ℕ, ◌+◌, ◌≡◌, refl, ◌∙◌, String, ◌==◌, List, [], ◌∷◌, Bool-cases, inl, inr, ◌⊎◌, ◌%◌, ◌^◌, eqb,
  if◌then◌else◌,
}
use aelora.RateLimit.{
  FixedWindowLimiter, load_or_store, update, sweep, maybe_cleanup, decide, allow,
}

-- A sequence of calls: the key and the time of each.
abbrev pub CallLog : Type 0
CallLog = List (String × ℕ)

unfoldable pub run : FixedWindowLimiter → CallLog → FixedWindowLimiter
run l [] = l
run l ((key, now) ∷ rest) = run (allow l key now).1 rest

-- How many calls for `key` were let through.
unfoldable pub passed : String → FixedWindowLimiter → CallLog → ℕ
passed key l [] = 0
passed key l ((k, now) ∷ rest) =
    (if k == key then (if (allow l k now).0 then 1 else 0) else 0)
    + passed key (allow l k now).1 rest

cleanup-entries :
    (now : ℕ) (l : FixedWindowLimiter) (k : String)
    → ((maybe_cleanup now l).entries k ≡ l.entries k)
      ⊎ ((maybe_cleanup now l).entries k ≡ sweep l.ttl now (l.entries k))
unfolding maybe_cleanup
cleanup-entries now l k = elim (Bool-cases (eqb (((l.calls + 1) % 2 ^ 64) % 512) 0)) [
  | inl turn ↦ inr (rw turn refl)
  | inr wait ↦ inl (rw wait refl)
]

pub allow-settings :
    (l : FixedWindowLimiter) (k : String) (now : ℕ)
    → ((allow l k now).1.max ≡ l.max)
      × ((allow l k now).1.window ≡ l.window)
      × ((allow l k now).1.ttl ≡ l.ttl)
unfolding allow maybe_cleanup
allow-settings l k now = elim (Bool-cases (eqb (((l.calls + 1) % 2 ^ 64) % 512) 0)) [
  | inl turn ↦ rw turn (refl, refl, refl)
  | inr wait ↦ rw wait (refl, refl, refl)
]

pub allow-entries :
    (l : FixedWindowLimiter) (k : String) (now : ℕ) (j : String)
    → ((allow l k now).1.entries j
        ≡ update l.entries k (decide l.max l.window now (load_or_store (l.entries k) now)).0 j)
      ⊎ ((allow l k now).1.entries j
          ≡ sweep l.ttl now (
              update l.entries k (decide l.max l.window now (load_or_store (l.entries k) now)).0 j))
unfolding allow
allow-entries l k now j =
    cleanup-entries now
      (record l {
        entries =
            update l.entries k (decide l.max l.window now (load_or_store (l.entries k) now)).0;
      })
      j

pub run-window :
    (log : CallLog) (l : FixedWindowLimiter)
    → ((run l log).window ≡ l.window) × ((run l log).max ≡ l.max)
unfolding run
run-window [] l = (refl, refl)
run-window ((k, now) ∷ rest) l = (
  (run-window rest (allow l k now).1).0 ∙ (allow-settings l k now).1,
  (run-window rest (allow l k now).1).1 ∙ (allow-settings l k now).0,
)
