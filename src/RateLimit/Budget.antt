-- ===== src/RateLimit/Budget.antt =====
-- What each key may still be let through in a stretch, which every call pays for.
use aelora.Prelude.{
  ℕ, ◌+◌, ◌-◌, ◌*◌, ◌≤◌, ◌<◌, String, ◌==◌, eq_iff, Option, none, some, [], ◌∷◌, leb, arith,
  Bool-cases, inl, inr, if◌then◌else◌,
}
use aelora.RateLimit.{
  Entry, FixedWindowLimiter, new_entry, load_or_store, update, sweep, decide, allow,
}
use aelora.RateLimit.Step.{CallLog, passed, allow-settings, allow-entries}

module _ (max window ttl t : ℕ) where
  -- What an entry may still let through before time `t + window`.
  budget : Option Entry → ℕ
  budget none = max
  budget (some e) = if leb t e.window_start then max - e.count else 2 * max - e.count

  -- The counter is within its limit, and what began at `t` or later was seen at `t` or later.
  abbrev pub EntryFits : Option Entry → Type 0
  EntryFits none = Unit
  EntryFits (some e) = (e.count ≤ max) × (t ≤ e.window_start → t ≤ e.last_seen)

  budget-le : (o : Option Entry) → budget o ≤ 2 * max
  unfolding budget
  budget-le none = omega arith
  budget-le (some e) = ground arith

  module _ (now : ℕ) (from : t ≤ now) (before : now < t + window) (some_room : 1 ≤ max) where
    decide-budget :
        (o : Option Entry)
        → EntryFits o
        → let (e, allowed) = decide max window now (load_or_store o now) in
          EntryFits (some e) × ((if allowed then 1 else 0) + budget (some e) ≤ budget o)
    unfolding decide budget new_entry
    decide-budget none h = ground arith
    decide-budget (some e) h = ground arith

    sweep-budget :
        (o : Option Entry)
        → EntryFits o
        → window ≤ ttl
        → EntryFits (sweep ttl now o) × (budget (sweep ttl now o) ≤ budget o)
    unfolding budget
    sweep-budget none h w = ground arith
    sweep-budget (some e) h w = ground arith

module _ (t : ℕ) where
  -- The limiter's settings make sense, and each of its entries fits.
  pub record Fits (l : FixedWindowLimiter) : Type 0 where
    pub some_room : 1 ≤ l.max
    pub kept_long : l.window ≤ l.ttl
    pub entry : (k : String) → EntryFits l.max l.window l.ttl t (l.entries k)

  pub left : FixedWindowLimiter → String → ℕ
  left l key = budget l.max l.window l.ttl t (l.entries key)

  module _ (l : FixedWindowLimiter) (k : String) (now : ℕ) (fits : Fits l) (from : t ≤ now)
      (before : now < t + l.window) where
    -- One entry over one call: `j` is the key that is watched.
    abbrev stepped : String → Option Entry
    stepped = update l.entries k (decide l.max l.window now (load_or_store (l.entries k) now)).0

    stepped-budget :
        (j : String)
        → EntryFits l.max l.window l.ttl t (stepped j)
          × ((if k == j then (if (allow l k now).0 then 1 else 0) else 0)
                + budget l.max l.window l.ttl t (stepped j)
              ≤ budget l.max l.window l.ttl t (l.entries j))
    unfolding allow
    stepped-budget j = elim (Bool-cases (k == j)) [
      | inl same ↦
          rw (same, ← (eq_iff k j).0 same)
            (decide-budget l.max l.window l.ttl t now from before fits.some_room (l.entries k)
              (fits.entry k))
      | inr other ↦ rw other (fits.entry j, omega arith)
    ]

    allow-budget :
        (j : String)
        → EntryFits l.max l.window l.ttl t ((allow l k now).1.entries j)
          × ((if k == j then (if (allow l k now).0 then 1 else 0) else 0)
                + budget l.max l.window l.ttl t ((allow l k now).1.entries j)
              ≤ budget l.max l.window l.ttl t (l.entries j))
    allow-budget j = elim (allow-entries l k now j) [
      | inl same ↦ rw same (stepped-budget j)
      | inr swept ↦
          let part = stepped-budget j in
          let rest =
            sweep-budget l.max l.window l.ttl t now from before fits.some_room (stepped j) part.0
              fits.kept_long in
          rw swept (rest.0, omega (arith, part.1, rest.1))
    ]

    allow-Fits : Fits (allow l k now).1
    allow-Fits = record {
      some_room = rw (allow-settings l k now).0 fits.some_room;
      kept_long = rw ((allow-settings l k now).1, (allow-settings l k now).2) fits.kept_long;
      entry = λ j.
          rw ((allow-settings l k now).0, (allow-settings l k now).1, (allow-settings l k now).2)
            (allow-budget j).0;
    }

    left-allow :
        (j : String)
        → (if k == j then (if (allow l k now).0 then 1 else 0) else 0) + left (allow l k now).1 j
          ≤ left l j
    unfolding left
    left-allow j =
        rw ((allow-settings l k now).0, (allow-settings l k now).1, (allow-settings l k now).2)
          (allow-budget j).1

-- Every call of the log is made in the stretch of `window` from `t` on.
abbrev pub InStretch : ℕ → ℕ → CallLog → Type 0
InStretch t window [] = Unit
InStretch t window ((k, now) ∷ rest) = (t ≤ now) × (now < t + window) × InStretch t window rest

pub passed-left :
    (t : ℕ) (j : String) (log : CallLog) (l : FixedWindowLimiter)
    → Fits t l
    → InStretch t l.window log
    → passed j l log ≤ left t l j
unfolding passed
passed-left t j [] l fits within = omega arith
passed-left t j ((k, now) ∷ rest) l fits within = omega (
  arith,
  left-allow t l k now fits within.0 within.1 j,
  passed-left t j rest (allow l k now).1 (allow-Fits t l k now fits within.0 within.1)
      (rw (allow-settings l k now).1 within.2),
)

pub left-le : (t : ℕ) (l : FixedWindowLimiter) (j : String) → left t l j ≤ 2 * l.max
unfolding left
left-le t l j = budget-le l.max l.window l.ttl t (l.entries j)
