-- ===== src/Http/Logging/Sampling.antt =====
-- request_logging.go: how many requests of a route and a status are logged.
use native.Mathlib.Nat.{add-mul-mod_self_right, mul-mod_left, mod-eq_of_lt}
use aelora.Prelude.{
  ℕ, zero, suc, ◌+◌, ◌-◌, ◌*◌, ◌%◌, ◌^◌, ◌≤◌, ◌<◌, ◌≡◌, refl, sym, ap, ◌∙◌, String, ◌==◌, eq_iff,
  Bool, true, false, ◌&&◌, List, [], ◌∷◌, eqb, eqb_iff, leb, arith, Bool-cases, inl, inr,
  if◌then◌else◌,
}
use aelora.Http.Logging.{
  RequestLogPolicy, RequestLogDecision, Level, should_sample, decided, decide, IsPath,
  decide_by_status,
}

-- Requests by their routes and statuses, in their order.
abbrev pub Requests : Type 0
Requests = List (String × ℕ)

abbrev one_if : Bool → ℕ
one_if b = if b then 1 else 0

module _ (route : String) (status : ℕ) where
  abbrev is_asked : String → ℕ → Bool
  is_asked r s = (r == route) && eqb s status

  -- How many of the requests have the route and the status.
  abbrev pub asked : Requests → ℕ
  asked [] = 0
  asked ((r, s) ∷ rest) = one_if (is_asked r s) + asked rest

  -- How many of these are logged, where the policy decides on all of them one after another.
  unfoldable pub logged : RequestLogPolicy → Requests → ℕ
  logged p [] = 0
  logged p ((r, s) ∷ rest) =
      one_if (is_asked r s && (decide p r s).0.log) + logged (decide p r s).1 rest

abbrev pub ArePaths : Requests → Type 0
ArePaths [] = Unit
ArePaths ((r, s) ∷ rest) = IsPath r × ArePaths rest

-- `many` is the quotient of `count` and `every`, rounded up.
pub record IsCeiling (every count many : ℕ) : Type 0 where
  pub missing : ℕ
  pub less : missing < every
  pub exact : count + missing ≡ many * every

IsCeiling-at :
    {e e' n n' m m' : ℕ} → IsCeiling e n m → e ≡ e' → n ≡ n' → m ≡ m' → IsCeiling e' n' m'
IsCeiling-at c every count many = record {
  missing = c.missing;
  less = omega (arith, c.less, every);
  exact = rw (← every, ← count, ← many) c.exact;
}

first_of_round : (every many : ℕ) → 2 ≤ every → (1 + many * every) % every ≡ 1
first_of_round every many two = add-mul-mod_self_right 1 many every ∙ mod-eq_of_lt two

later_in_round :
    (every many r count : ℕ)
    → suc r < every
    → count + suc r ≡ many * every
    → eqb ((count + 1) % every) 1 ≡ false
later_in_round every zero r count small e = absurd (omega arith)
later_in_round every (suc many) zero count small e =
    let full : count + 1 ≡ suc many * every = omega (arith, e) in
    rw full (rw (mul-mod_left (suc many) every) refl)
later_in_round every (suc many) (suc r) count small e =
    let rest : count + 1 ≡ (every - suc r) + many * every = grind (arith, e) in
    let value =
      add-mul-mod_self_right (every - suc r) many every
      ∙ mod-eq_of_lt {n = every - suc r} {m = every} (omega arith) in
    rw rest (rw value (ground arith))

next-IsCeiling :
    (every count many : ℕ)
    → 2 ≤ every
    → IsCeiling every count many
    → IsCeiling every (count + 1) (one_if (eqb ((count + 1) % every) 1) + many)
next-IsCeiling every count many two c = by_missing c.missing c.less c.exact
  where
    by_missing :
        (missing : ℕ)
        → missing < every
        → count + missing ≡ many * every
        → IsCeiling every (count + 1) (one_if (eqb ((count + 1) % every) 1) + many)
    by_missing zero less e =
        let one : (count + 1) % every ≡ 1 =
          ap (λ n. n % every) (omega (arith, e)) ∙ first_of_round every many two in
        rw one (record { missing = every - 1; less = omega arith; exact = grind (arith, e) })
    by_missing (suc r) less e =
        rw (later_in_round every many r count less e)
          (record { missing = r; less = omega arith; exact = omega (arith, e) })

module _ (route : String) (status : ℕ) where
  -- What a decision leaves of what the policy knows of the route and the status.
  record Decides (p p' : RequestLogPolicy) (d : RequestLogDecision) (mine : Bool) : Type 0 where
    same_every : p'.default_sample_every ≡ p.default_sample_every
    others : mine ≡ false → p'.counters route status ≡ p.counters route status
    counts :
        mine ≡ true
        → p.counters route status + 1 < 2 ^ 64
        → (p'.counters route status ≡ p.counters route status + 1)
          × (d.log ≡ eqb ((p.counters route status + 1) % p.default_sample_every) 1)

  same_key : (r : String) (s : ℕ) → is_asked route status r s ≡ true → (r ≡ route) × (s ≡ status)
  same_key r s mine = ground (arith, eq_iff r route, eqb_iff s status, mine)

  sampled :
      (p : RequestLogPolicy) (level : Level) (r : String) (s : ℕ)
      → 2 ≤ p.default_sample_every
      → let (d, p') = decided level (should_sample p r s p.default_sample_every) in
        Decides p p' d (is_asked route status r s)
  unfolding should_sample
  sampled p level r s two =
      let many : leb p.default_sample_every 1 ≡ false = ground arith in
      rw many (record {
        same_every = refl;
        others = λ other. rw other refl;
        counts = λ mine room.
            let key = same_key r s mine in
            let value : (p.counters r s + 1) % 18446744073709551616 ≡ p.counters route status + 1 =
              rw (key.0, key.1) (omega (arith, room)) in
            (rw (mine, value) refl, rw value refl);
      })

  decide-Decides :
      (p : RequestLogPolicy) (r : String) (s : ℕ)
      → IsPath r
      → 2 ≤ p.default_sample_every
      → status < 400
      → let (d, p') = decide p r s in Decides p p' d (is_asked route status r s)
  decide-Decides p r s path two fine = elim (Bool-cases (leb 400 s)) [
    | inl failed ↦
        let late : 400 ≤ s = ground arith in
        rw ((decide_by_status p r s path).1 (ground arith)) (record {
          same_every = refl;
          others = λ other. refl;
          counts = λ mine room. absurd (omega (arith, (same_key r s mine).1, late, fine));
        })
    | inr ok_ ↦
        rw ((decide_by_status p r s path).0 (ground arith))
          (sampled p p.default_success_level r s two)
  ]

  samples :
      (requests : Requests) (p : RequestLogPolicy) (many : ℕ)
      → ArePaths requests
      → 2 ≤ p.default_sample_every
      → status < 400
      → p.counters route status + asked route status requests < 2 ^ 64
      → IsCeiling p.default_sample_every (p.counters route status) many
      → IsCeiling p.default_sample_every
          (p.counters route status + asked route status requests)
          (logged route status p requests + many)
  unfolding logged
  samples [] p many paths two fine room c = IsCeiling-at c refl (omega arith) (omega arith)
  samples ((r, s) ∷ rest) p many (path, paths) two fine room c =
      let d = decide-Decides p r s path two fine in
      elim (Bool-cases (is_asked route status r s)) [
        | inl mine ↦
            let asks : asked route status ((r, s) ∷ rest) ≡ suc (asked route status rest) =
              rw mine (omega arith) in
            let (count, log) = d.counts mine (omega (arith, room, asks)) in
            IsCeiling-at
              (samples rest (decide p r s).1 (one_if (decide p r s).0.log + many) paths
                (rw d.same_every two) fine (omega (arith, count, room, asks))
                (IsCeiling-at
                  (next-IsCeiling p.default_sample_every (p.counters route status) many two c)
                  (sym d.same_every) (sym count) (rw log refl)))
              d.same_every (omega (arith, count, asks)) (rw mine (omega arith))
        | inr other ↦
            let asks : asked route status ((r, s) ∷ rest) ≡ asked route status rest =
              rw other (omega arith) in
            let count = d.others other in
            IsCeiling-at
              (samples rest (decide p r s).1 many paths (rw d.same_every two) fine
                (omega (arith, count, room, asks))
                (IsCeiling-at c (sym d.same_every) (sym count) refl))
              d.same_every (omega (arith, count, asks)) (rw other (omega arith))
      ]

  -- Of the requests whose routes begin with a slash, one in so many that have a given route and a
  -- given status below 400 is logged, rounded up, however they mix with others and also for a health
  -- check, a metrics scrape or a posted message: the default policy samples them all, here every
  -- second or fewer, from a fresh counter that does not come to 2 ^ 64.
  pub logged-IsCeiling :
      (requests : Requests) (p : RequestLogPolicy)
      → ArePaths requests
      → 2 ≤ p.default_sample_every
      → status < 400
      → p.counters route status ≡ 0
      → asked route status requests < 2 ^ 64
      → IsCeiling p.default_sample_every
          (asked route status requests)
          (logged route status p requests)
  logged-IsCeiling requests p paths two fine fresh room =
      IsCeiling-at
        (samples requests p 0 paths two fine (omega (arith, fresh, room))
          (record { missing = 0; less = omega arith; exact = fresh_ceiling }))
        refl (omega (arith, fresh)) (omega arith)
    where
      fresh_ceiling : p.counters route status + 0 ≡ 0 * p.default_sample_every
      fresh_ceiling = omega (arith, fresh)
