-- ===== src/Prelude/Lists.antt =====
-- Lists over the native numbers, sets of texts as lists, and maps as association lists.
use aelora.Prelude.Tests.{if◌then◌else◌}
use native.Mathlib.Omega.{arith}
use mathlib.Core.List.{◌++◌, ◌∷◌, [], List}
use mathlib.Core.Option.{some, none, Option}
use mathlib.Core.Bool.{◌||◌, false, true, Bool}
use mathlib.Core.Path.{refl, ◌≡◌}
use text.Mathlib.TextEquality.{eq_iff}
use text.Mathlib.Text.{◌==◌}
use Prim.Native.String.{String}
use Prim.Native.Nat.{suc, zero, ℕ, ◌+◌, ◌≤◌}

module _ {ℓ} {A : Type ℓ} where
  abbrev pub length : List A → ℕ
  length [] = 0
  length (x ∷ xs) = suc (length xs)

  abbrev pub is_nil : List A → Bool
  is_nil [] = true
  is_nil (x ∷ xs) = false

  abbrev pub take : ℕ → List A → List A
  take zero xs = []
  take (suc n) [] = []
  take (suc n) (x ∷ xs) = x ∷ take n xs

  pub length-append : (xs ys : List A) → length (xs ++ ys) ≡ length xs + length ys
  length-append [] ys = omega arith
  length-append (x ∷ xs) ys = omega (arith, length-append xs ys)

  pub length-take : (n : ℕ) (xs : List A) → length (take n xs) ≤ n
  length-take zero xs = omega arith
  length-take (suc n) [] = omega arith
  length-take (suc n) (x ∷ xs) = omega (arith, length-take n xs)

-- `_, ok := set[x]` on a set of texts.
abbrev pub contains : String → List String → Bool
contains a [] = false
contains a (x ∷ xs) = (x == a) || contains a xs

-- The length after an `append` of one element.
pub length-append_one {ℓ} :
    {A : Type ℓ} (xs : List A) (x : A) → length (xs ++ x ∷ []) ≡ length xs + 1
length-append_one [] x = refl
length-append_one (y ∷ ys) x = omega (arith, length-append_one ys x)

-- `set[x] = struct{}{}`
abbrev pub add : String → List String → List String
add a [] = a ∷ []
add a (x ∷ xs) = if x == a then x ∷ xs else x ∷ add a xs

pub contains-add :
    (a b : String) (xs : List String) → contains b (add a xs) ≡ (a == b) || contains b xs
contains-add a b [] = ground arith
contains-add a b (x ∷ xs) = ground (arith, contains-add a b xs, eq_iff x a, eq_iff x b, eq_iff a b)

pub contains-append :
    (a : String) (xs ys : List String) → contains a (xs ++ ys) ≡ contains a xs || contains a ys
contains-append a [] ys = ground arith
contains-append a (x ∷ xs) ys = ground (arith, contains-append a xs ys)

-- A Go map with text keys, as the list of its entries.
module _ {ℓ} {V : Type ℓ} where
  abbrev pub lookup : String → List (String × V) → Option V
  lookup key [] = none
  lookup key ((first, value) ∷ others) = if key == first then some value else lookup key others

  abbrev pub insert : String → V → List (String × V) → List (String × V)
  insert key new [] = (key, new) ∷ []
  insert key new ((first, old) ∷ others) =
      let later = insert key new others in
      if key == first then (first, new) ∷ others else (first, old) ∷ later

  abbrev pub delete : String → List (String × V) → List (String × V)
  delete key [] = []
  delete key ((first, value) ∷ others) =
      let later = delete key others in if key == first then later else (first, value) ∷ later

  pub lookup-insert :
      (asked key : String) (new : V) (entries : List (String × V))
      → lookup asked (insert key new entries)
        ≡ (if asked == key then some new else lookup asked entries)
  lookup-insert asked key new [] = refl
  lookup-insert asked key new ((first, old) ∷ others) = ground (
    arith,
    lookup-insert asked key new others,
    eq_iff asked first,
    eq_iff key first,
    eq_iff asked key,
  )

  pub lookup-delete :
      (asked key : String) (entries : List (String × V))
      → lookup asked (delete key entries) ≡ (if asked == key then none else lookup asked entries)
  lookup-delete asked key [] = ground arith
  lookup-delete asked key ((first, value) ∷ others) = ground (
    arith,
    lookup-delete asked key others,
    eq_iff asked first,
    eq_iff key first,
    eq_iff asked key,
  )

pub eq_nil_of_is_nil {ℓ} : {A : Type ℓ} (xs : List A) → is_nil xs ≡ true → xs ≡ []
eq_nil_of_is_nil [] h = refl
eq_nil_of_is_nil (x ∷ xs) h = cc
