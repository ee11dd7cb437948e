-- ===== src/System/Order.antt =====
-- id_clock.go: the next id is greater than the last.
use native.Mathlib.Nat.{pow-suc}
use aelora.Prelude.{
  ℕ, suc, ◌+◌, ◌-◌, ◌*◌, ◌%◌, ◌^◌, ◌<◌, ◌≤◌, ◌≡◌, ◌≢◌, refl, sym, ap, ◌∙◌, String, Bool, true,
  false, List, [], ◌∷◌, ◌++◌, length, eqb, eqb_iff, Bool-cases, inl, inr, arith,
}
use mathlib.Core.Path.{subst}
use aelora.System.{
  IdGenerator, bump, new, increment, increment_entropy, time_bytes, raw, big_endian, advance,
  encode_to_string,
}
use aelora.System.Digits.{decode_id, decode-encode_to_string}

-- Every element is a byte.
unfoldable pub AllBytes : List ℕ → Type 0
AllBytes [] = Unit
AllBytes (b ∷ rest) = (b < 256) × AllBytes rest

-- The value by weights.
value : List ℕ → ℕ
value [] = 0
value (b ∷ rest) = b * 256 ^ length rest + value rest

shift : (n b p v : ℕ) → (n * 256 + b) * p + v ≡ n * (p * 256) + (b * p + v)
shift n b p v = grind arith

big_endian-value :
    (n : ℕ) (bytes : List ℕ) → big_endian n bytes ≡ n * 256 ^ length bytes + value bytes
unfolding value
big_endian-value n [] = omega arith
big_endian-value n (b ∷ rest) =
    big_endian-value (n * 256 + b) rest
    ∙ shift n b (256 ^ length rest) (value rest)
    ∙ ap (λ p. n * p + (b * 256 ^ length rest + value rest)) (sym (pow-suc 256 (length rest)))

value-small : (bytes : List ℕ) → AllBytes bytes → value bytes < 256 ^ length bytes
unfolding value AllBytes
value-small [] h = omega arith
value-small (b ∷ rest) (small, all) = grind (arith, pow-suc 256 (length rest), value-small rest all)

-- `increment` adds one, and what it carries past the first byte counts `256 ^ length`.
carried : Bool → ℕ → ℕ
carried true p = p
carried false p = 0

-- The bytes behind an increment, and whether it was carried past the first.
record Incremented (bytes : List ℕ) (after : List ℕ × Bool) : Type 0 where
  same_length : length after.0 ≡ length bytes
  all_bytes : AllBytes after.0
  one_more : value after.0 + carried after.1 (256 ^ length bytes) ≡ value bytes + 1

add_one : (b p v w : ℕ) → w + p ≡ v + 1 → (b + 1) * p + w + 0 ≡ b * p + v + 1
add_one b p v w h = grind arith

carry_out :
    (b p v w : ℕ)
    → b < 256
    → w + p ≡ v + 1
    → ((b + 1) % 256) * p + w + carried (eqb ((b + 1) % 256) 0) (p * 256) ≡ b * p + v + 1
unfolding carried
carry_out b p v w small h = elim (Bool-cases (eqb b 255)) [
  | inl e ↦ rw ((eqb_iff b 255).0 e) (omega arith)
  | inr e ↦
      let kept : (b + 1) % 256 ≡ b + 1 = ground (arith, eqb_iff b 255) in
      let no_carry : eqb (b + 1) 0 ≡ false = ground arith in rw (kept, no_carry) (add_one b p v w h)
]

bump-Incremented :
    (b : ℕ) (rest : List ℕ) (after : List ℕ × Bool)
    → b < 256
    → Incremented rest after
    → Incremented (b ∷ rest) (bump b after)
unfolding AllBytes value carried
bump-Incremented b rest (bytes, true) small h = record {
  same_length = ap suc h.same_length;
  all_bytes = (omega arith, h.all_bytes);
  one_more =
      rw (h.same_length, pow-suc 256 (length rest))
        (carry_out b (256 ^ length rest) (value rest) (value bytes) small h.one_more);
}
bump-Incremented b rest (bytes, false) small h = record {
  same_length = ap suc h.same_length;
  all_bytes = (small, h.all_bytes);
  one_more = rw h.same_length (let e = h.one_more in omega arith);
}

increment-Incremented : (bytes : List ℕ) → AllBytes bytes → Incremented bytes (increment bytes)
unfolding increment AllBytes value carried
increment-Incremented [] h = record { same_length = refl; all_bytes = tt; one_more = refl }
increment-Incremented (b ∷ rest) (small, all) =
    bump-Incremented b rest (increment rest) small (increment-Incremented rest all)

-- A generator's array holds ten bytes.
pub record WellFormed (g : IdGenerator) : Type 0 where
  pub ten : length g.entropy ≡ 10
  pub bytes : AllBytes g.entropy

-- The number that the sixteen bytes of the generator's last id spell.
number : IdGenerator → ℕ
number g = big_endian 0 (raw g)

time_value :
    (ms : ℕ) (entropy : List ℕ)
    → ms < 2 ^ 48
    → big_endian 0 (time_bytes ms ++ entropy) ≡ big_endian ms entropy
unfolding time_bytes
time_value ms entropy h = ap (λ n. big_endian n entropy) (omega arith)

number-value :
    (g : IdGenerator)
    → WellFormed g
    → g.last_ms < 2 ^ 48
    → number g ≡ g.last_ms * 256 ^ 10 + value g.entropy
unfolding number raw
number-value g w h =
    time_value g.last_ms g.entropy h
    ∙ big_endian-value g.last_ms g.entropy
    ∙ ap (λ n. g.last_ms * 256 ^ n + value g.entropy) w.ten

advance-WellFormed :
    (ms : ℕ) (random : List ℕ) (g : IdGenerator)
    → length random ≡ 10
    → AllBytes random
    → WellFormed g
    → WellFormed (advance ms random g)
unfolding advance increment_entropy
advance-WellFormed ms random g ten all w = elim (Bool-cases (eqb ms g.last_ms)) [
  | inl e ↦
      let i = increment-Incremented g.entropy w.bytes in
      rw e (record { ten = i.same_length ∙ w.ten; bytes = i.all_bytes })
  | inr e ↦ rw e (record { ten = ten; bytes = all })
]

-- Where all ten bytes are 255.
unfoldable pub Exhausted : IdGenerator → Type 0
Exhausted g = big_endian 0 g.entropy ≡ 256 ^ 10 - 1

not_carried :
    (c : Bool) (x v : ℕ)
    → x + carried c (256 ^ 10) ≡ v + 1
    → v < 256 ^ 10
    → v ≢ 256 ^ 10 - 1
    → x ≡ v + 1
unfolding carried
not_carried true x v h small more = absurd (more (omega arith))
not_carried false x v h small more = omega arith

incremented-value :
    (g : IdGenerator)
    → WellFormed g
    → (¬ Exhausted g)
    → value (increment_entropy g.entropy) ≡ value g.entropy + 1
unfolding increment_entropy Exhausted carried
incremented-value g w more =
    let i = increment-Incremented g.entropy w.bytes in
    let small = value-small g.entropy w.bytes in
    not_carried (increment g.entropy).1 _ (value g.entropy)
      (ap (λ n. value (increment g.entropy).0 + carried (increment g.entropy).1 (256 ^ n))
          (sym w.ten)
        ∙ i.one_more)
      (subst (λ n. value g.entropy < 256 ^ n) w.ten small)
      λ e. more (big_endian-value 0 g.entropy ∙ omega arith)

module _ (ms : ℕ) (random : List ℕ) (g : IdGenerator) where
  advance-last_ms : (advance ms random g).last_ms ≡ ms
  unfolding advance
  advance-last_ms = elim (Bool-cases (eqb ms g.last_ms)) [
    | inl e ↦ rw e (sym ((eqb_iff ms g.last_ms).0 e))
    | inr e ↦ rw e refl
  ]

  greater :
      WellFormed g
      → g.last_ms ≤ ms
      → (g.last_ms ≡ ms → ¬ Exhausted g)
      → g.last_ms * 256 ^ 10 + value g.entropy
        < (advance ms random g).last_ms * 256 ^ 10 + value (advance ms random g).entropy
  unfolding advance
  greater w order more = elim (Bool-cases (eqb ms g.last_ms)) [
    | inl e ↦ rw e (omega (arith, incremented-value g w (more (sym ((eqb_iff ms g.last_ms).0 e)))))
    | inr e ↦
        let small = subst (λ n. value g.entropy < 256 ^ n) w.ten (value-small g.entropy w.bytes) in
        let later : g.last_ms < ms = ground (arith, eqb_iff ms g.last_ms) in rw e (omega arith)
  ]

-- The sixteen bytes fit 128 bits.
number-small : (g : IdGenerator) → WellFormed g → g.last_ms < 2 ^ 48 → number g < 2 ^ 128
number-small g w fits =
    let small = subst (λ n. value g.entropy < 256 ^ n) w.ten (value-small g.entropy w.bytes) in
    omega (arith, number-value g w fits, small)

-- The id of a generator's last call, by the text that was answered.
abbrev pub last_id : IdGenerator → String
last_id g = encode_to_string (raw g)

last_id-number :
    (g : IdGenerator) → WellFormed g → g.last_ms < 2 ^ 48 → decode_id (last_id g) ≡ number g * 4
unfolding number
last_id-number g w fits = decode-encode_to_string (raw g) (number-small g w fits)

-- The next id of a generator that has been used before, at a time that is not before the last id's
-- and fits 48 bits: the text that is answered spells a greater number than the last id's text, it is
-- the generator's last id from then on, and the generator stays well-formed and keeps the time. Where
-- the clock still shows the last id's time, its ten random bytes must not all be 255.
pub new_increases :
    (ms : ℕ) (random : List ℕ) (g : IdGenerator)
    → length random ≡ 10
    → AllBytes random
    → WellFormed g
    → g.last_ms ≤ ms
    → ms < 2 ^ 48
    → (g.last_ms ≡ ms → ¬ Exhausted g)
    → (decode_id (last_id g) < decode_id (new ms random g).0)
      × (last_id (new ms random g).1 ≡ (new ms random g).0)
      × WellFormed (new ms random g).1
      × ((new ms random g).1.last_ms ≡ ms)
unfolding new
new_increases ms random g ten all w order fits more =
    let kept = advance-WellFormed ms random g ten all w in
    let time = advance-last_ms ms random g in
    let in_time : (advance ms random g).last_ms < 2 ^ 48 = rw time fits in
    let in_time_before : g.last_ms < 2 ^ 48 = omega arith in
    (
      omega (
        arith,
        last_id-number g w in_time_before,
        last_id-number (advance ms random g) kept in_time,
        number-value g w in_time_before,
        number-value (advance ms random g) kept in_time,
        greater ms random g w order more,
      ),
      refl,
      kept,
      time,
    )
