-- ===== src/Telemetry/Page/Shown.antt =====
-- telemetry.go: which counters of routes stand on the page of metrics.
use aelora.Prelude.{
  ℕ, suc, ◌+◌, ◌≤◌, ◌≡◌, refl, sym, ap, ◌∙◌, String, ◌==◌, Bool, true, false, ◌||◌, List, [], ◌∷◌,
  ◌++◌, concat, split, length, eqb, Bool-cases, inl, inr, arith, if◌then◌else◌,
}
use text.Mathlib.TextLemmas.{nil-append, cons-append, append_assoc}
use mathlib.Core.Bool.{false≢true}
use Prim.Native.Char.{Char, code}
use aelora.Prelude.Parse.{itoa}
use aelora.Prelude.Parse.Digits.{AreDigits, itoa-AreDigits}
use aelora.Telemetry.{Request, route_key}
use aelora.Telemetry.Page.{route_line, lines_of, counter_lines}

-- Whether a text holds the bar that separates the parts of a key.
abbrev pub has_bar : String → Bool
has_bar String.[] = false
has_bar (String.◌∷◌ c s) = eqb (code c) (code "|") || has_bar s

bars : String → ℕ
bars String.[] = 0
bars (String.◌∷◌ c s) = if eqb (code c) (code "|") then suc (bars s) else bars s

bars-concat : (a b : String) → bars (concat a b) ≡ bars a + bars b
unfolding bars
bars-concat String.[] b = rw (nil-append b) (omega arith)
bars-concat (String.◌∷◌ c a) b =
    rw (cons-append c a b) (elim (Bool-cases (eqb (code c) (code "|"))) [
      | inl bar ↦ rw bar (omega (arith, bars-concat a b))
      | inr other ↦ rw other (bars-concat a b)
    ])

-- The rest of a text, split, behind one more character.
abbrev onto : Char → List String → List String
onto c [] = String.◌∷◌ c String.[] ∷ []
onto c (first ∷ rest) = String.◌∷◌ c first ∷ rest

length-onto :
    (c : Char) (parts : List String) (n : ℕ) → length parts ≡ suc n → length (onto c parts) ≡ suc n
length-onto c [] n h = absurd (omega arith)
length-onto c (first ∷ rest) n h = h

length-split : (s : String) → length (split "|" s) ≡ suc (bars s)
unfolding bars
length-split String.[] = refl
length-split (String.◌∷◌ c s) = elim (Bool-cases (eqb (code c) (code "|"))) [
  | inl bar ↦ rw bar (omega (arith, length-split s))
  | inr other ↦ rw other (length-onto c (split "|" s) (bars s) (length-split s))
]

bars-none : (s : String) → has_bar s ≡ false → bars s ≡ 0
unfolding bars
bars-none String.[] h = refl
bars-none (String.◌∷◌ c s) h = ground (arith, bars-none s)

bars-some : (s : String) → has_bar s ≡ true → 1 ≤ bars s
unfolding bars
bars-some String.[] h = cc
bars-some (String.◌∷◌ c s) h = ground (arith, bars-some s)

split-concat :
    (a b : String) → has_bar a ≡ false → split "|" (concat a (String.◌∷◌ "|" b)) ≡ a ∷ split "|" b
split-concat String.[] b h = rw (nil-append (String.◌∷◌ "|" b)) refl
split-concat (String.◌∷◌ c a) b h = elim (Bool-cases (eqb (code c) (code "|"))) [
  | inl bar ↦ absurd (false≢true (sym h ∙ rw bar refl))
  | inr other ↦
      let later = split-concat a b (rw other at h) in
      rw (cons-append c a (String.◌∷◌ "|" b)) (rw other (rw later refl))
]

split-none : (a : String) → has_bar a ≡ false → split "|" a ≡ a ∷ []
split-none String.[] h = refl
split-none (String.◌∷◌ c a) h = elim (Bool-cases (eqb (code c) (code "|"))) [
  | inl bar ↦ absurd (false≢true (sym h ∙ rw bar refl))
  | inr other ↦ let later = split-none a (rw other at h) in rw other (rw later refl)
]

digits_no_bar : (s : String) → AreDigits s → has_bar s ≡ false
digits_no_bar String.[] h = refl
digits_no_bar (String.◌∷◌ c s) h = ground (arith, digits_no_bar s h.1, h.0)

-- The route that a request is counted under.
abbrev pub route_of : Request → String
route_of r = if r.pattern == "" then r.path else r.pattern

bar_before : (s : String) → concat "|" s ≡ String.◌∷◌ "|" s
bar_before s = cons-append "|" String.[] s ∙ ap (λ x. String.◌∷◌ "|" x) (nil-append s)

-- A key, bracketed to the right.
joined : String → String → String → String
joined method route status = concat method (String.◌∷◌ "|" (concat route (String.◌∷◌ "|" status)))

key-joined :
    (method route status : String)
    → concat (concat (concat (concat method "|") route) "|") status ≡ joined method route status
unfolding joined
key-joined method route status =
    append_assoc (concat (concat method "|") route) "|" status
    ∙ append_assoc (concat method "|") route (concat "|" status)
    ∙ append_assoc method "|" (concat route (concat "|" status))
    ∙ ap (λ x. concat method x) (bar_before (concat route (concat "|" status)))
    ∙ ap (λ x. concat method (String.◌∷◌ "|" (concat route x))) (bar_before status)

bars-joined :
    (method route status : String)
    → bars (joined method route status) ≡ bars method + bars route + bars status + 2
unfolding joined bars
bars-joined method route status = omega (
  arith,
  bars-concat method (String.◌∷◌ "|" (concat route (String.◌∷◌ "|" status))),
  bars-concat route (String.◌∷◌ "|" status),
)

split-joined :
    (method route status : String)
    → has_bar method ≡ false
    → has_bar route ≡ false
    → has_bar status ≡ false
    → split "|" (joined method route status) ≡ method ∷ route ∷ status ∷ []
unfolding joined
split-joined method route status m r s =
    split-concat method (concat route (String.◌∷◌ "|" status)) m
    ∙ ap (λ l. method ∷ l) (split-concat route status r ∙ ap (λ l. route ∷ l) (split-none status s))

module _ (quote : String → String) where
  none_of : (parts : List String) (n : ℕ) → (length parts ≡ 3 → ⊥) → lines_of quote parts n ≡ []
  none_of [] n h = refl
  none_of (a ∷ []) n h = refl
  none_of (a ∷ b ∷ []) n h = refl
  none_of (a ∷ b ∷ c ∷ []) n h = absurd (h refl)
  none_of (a ∷ b ∷ c ∷ d ∷ rest) n h = refl

  shown_by :
      (method route status : String) (n : ℕ) (m r : Bool)
      → has_bar method ≡ m
      → has_bar route ≡ r
      → has_bar status ≡ false
      → lines_of quote (split "|" (joined method route status)) n ++ []
        ≡ (if m || r then [] else route_line quote method route status n ∷ [])
  shown_by method route status n false false m r s =
      rw (split-joined method route status m r s) refl
  shown_by method route status n false true m r s =
      rw
        (none_of (split "|" (joined method route status)) n (λ e. omega (
          arith,
          length-split (joined method route status),
          bars-joined method route status,
          bars-some route r,
        )))
        refl
  shown_by method route status n true b m r s =
      rw
        (none_of (split "|" (joined method route status)) n (λ e. omega (
          arith,
          length-split (joined method route status),
          bars-joined method route status,
          bars-some method m,
        )))
        refl

  -- The counter of a request's method, route and status stands on the page, in one line that names
  -- them, exactly where neither the method nor the route holds a bar; else it is left out.
  pub route_shown :
      (r : Request) (status n : ℕ)
      → counter_lines quote ((route_key r status, n) ∷ []) ≡ (
          if has_bar r.method || has_bar (route_of r)
          then []
          else route_line quote r.method (route_of r) (itoa status) n ∷ [])
  unfolding counter_lines route_key
  route_shown r status n =
      ap (λ k. lines_of quote (split "|" k) n ++ [])
        (key-joined r.method (route_of r) (itoa status))
      ∙ shown_by r.method (route_of r) (itoa status) n (has_bar r.method) (has_bar (route_of r))
          refl refl (digits_no_bar (itoa status) (itoa-AreDigits status))
