-- ===== src/RateLimit/Concurrent/Bound.antt =====
-- fixed_window.go: how many of the calls that run at once are let through.
use aelora.Prelude.{
  ℕ, zero, suc, ◌+◌, ◌≤◌, ◌≡◌, refl, Bool, true, false, Option, none, some, List, [], ◌∷◌, arith,
  leb, eqb,
}
use aelora.Prelude.Int.{ℤ, pos, negsuc}
use aelora.RateLimit.Concurrent.{
  Caller, begun, loaded, won, over, answered, inc, dec, at_most, advance, Race, is_over, overs,
  get_elem?, set, move, turn, run, begin, race,
}

-- An integer is the difference of its parts, one of which is 0.
abbrev pos_part : ℤ → ℕ
pos_part (pos n) = n
pos_part (negsuc n) = 0

abbrev neg_part : ℤ → ℕ
neg_part (pos n) = 0
neg_part (negsuc n) = suc n

inc-parts : (v : ℤ) → pos_part (inc v) + neg_part v ≡ suc (pos_part v + neg_part (inc v))
inc-parts (pos n) = omega arith
inc-parts (negsuc zero) = omega arith
inc-parts (negsuc (suc n)) = omega arith

dec-parts : (v : ℤ) → suc (pos_part (dec v) + neg_part v) ≡ pos_part v + neg_part (dec v)
dec-parts (pos zero) = omega arith
dec-parts (pos (suc n)) = omega arith
dec-parts (negsuc n) = omega arith

at_most-parts : (v : ℤ) (max : ℕ) → at_most v max ≡ true → pos_part v ≤ max + neg_part v
at_most-parts (pos n) max h = ground arith
at_most-parts (negsuc n) max h = omega arith

overs-set :
    (cs : List Caller) (i : ℕ) (c d : Caller)
    → get_elem? cs i ≡ some c
    → overs (set cs i d) + is_over c ≡ overs cs + is_over d
overs-set [] i c d h = ground (arith, h)
overs-set (b ∷ cs) zero c d h = ground (arith, h)
overs-set (b ∷ cs) (suc i) c d h = omega (arith, overs-set cs i c d h)

overs-begin : (clocks : List ℕ) → overs (begin clocks) ≡ 0
overs-begin [] = refl
overs-begin (now ∷ rest) = omega (arith, overs-begin rest)

-- The count is what was let through, and what is over and will be taken back, less what was over
-- when the count was reset.
record Holds (max : ℕ) (r : Race) : Type 0 where
  balanced :
      pos_part r.shared.count + r.over_at_reset
      ≡ r.passed + overs r.callers + neg_part r.shared.count
  bounded : r.passed ≤ max + r.over_at_reset

module _ (max window : ℕ) (some_room : 1 ≤ max) where
  loaded-Holds :
      (i now start : ℕ) (r : Race)
      → get_elem? r.callers i ≡ some (loaded now start)
      → Holds max r
      → (late same low : Bool) → leb (start + window) now ≡ late
      → eqb r.shared.window_start start ≡ same
      → at_most (inc r.shared.count) max ≡ low
      → Holds max (move max window i (some (loaded now start)) r)
  unfolding advance
  loaded-Holds i now start r h k true true low l s a =
      rw (l, s)
        record {
          balanced = omega (arith, k.balanced, overs-set r.callers i (loaded now start) won h);
          bounded = k.bounded;
        }
  loaded-Holds i now start r h k true false low l s a =
      rw (l, s)
        record {
          balanced =
              omega (arith, k.balanced, overs-set r.callers i (loaded now start) (begun now) h);
          bounded = k.bounded;
        }
  loaded-Holds i now start r h k false same true l s a =
      rw (l, a)
        record {
          balanced = omega (
            arith,
            k.balanced,
            overs-set r.callers i (loaded now start) (answered true) h,
            inc-parts r.shared.count,
          );
          bounded = omega (
            arith,
            k.balanced,
            at_most-parts (inc r.shared.count) max a,
            inc-parts r.shared.count,
          );
        }
  loaded-Holds i now start r h k false same false l s a =
      rw (l, a)
        record {
          balanced = omega (
            arith,
            k.balanced,
            overs-set r.callers i (loaded now start) over h,
            inc-parts r.shared.count,
          );
          bounded = k.bounded;
        }

  move-Holds :
      (i : ℕ) (o : Option Caller) (r : Race)
      → get_elem? r.callers i ≡ o
      → Holds max r
      → Holds max (move max window i o r)
  unfolding advance
  move-Holds i none r h k = k
  move-Holds i (some (begun now)) r h k = record {
    balanced =
        omega (
          arith,
          k.balanced,
          overs-set r.callers i (begun now) (loaded now r.shared.window_start) h,
        );
    bounded = k.bounded;
  }
  move-Holds i (some (loaded now start)) r h k =
      loaded-Holds i now start r h k (leb (start + window) now) (eqb r.shared.window_start start)
        (at_most (inc r.shared.count) max) refl refl refl
  move-Holds i (some won) r h k = record {
    balanced = omega (arith, overs-set r.callers i won (answered true) h);
    bounded = omega arith;
  }
  move-Holds i (some over) r h k = record {
    balanced = omega (
      arith,
      k.balanced,
      overs-set r.callers i over (answered false) h,
      dec-parts r.shared.count,
    );
    bounded = k.bounded;
  }
  move-Holds i (some (answered allowed)) r h k = record {
    balanced =
        omega (arith, k.balanced, overs-set r.callers i (answered allowed) (answered allowed) h);
    bounded = k.bounded;
  }

  run-Holds : (turns : List ℕ) (r : Race) → Holds max r → Holds max (run max window turns r)
  unfolding run turn
  run-Holds [] r k = k
  run-Holds (i ∷ rest) r k =
      run-Holds rest (turn max window i r) (move-Holds i (get_elem? r.callers i) r refl k)

-- However the calls for one key interleave, since its count was last reset at most as many of them
-- were let through as the maximum, and one more for each call that was above the maximum at that
-- moment and had yet to take its count back; before the first reset, what the count starts from,
-- which is within the maximum, is let through too. The maximum is at least 1.
pub passed_bound :
    (max window window_start count : ℕ) (clocks turns : List ℕ)
    → 1 ≤ max
    → count ≤ max
    → (run max window turns (race window_start count clocks)).passed
      ≤ max + (run max window turns (race window_start count clocks)).over_at_reset
passed_bound max window window_start count clocks turns some_room fits =
    (run-Holds max window some_room turns (race window_start count clocks) (record {
      balanced = omega (arith, overs-begin clocks);
      bounded = omega (arith, fits);
    })).bounded
