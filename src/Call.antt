-- ===== src/Call.antt =====
-- Calls that change a shared state and may fail. What was written before a failure stays written,
-- so the state comes back beside the error too.
pub mod Post
use aelora.Prelude.{Option, none, some}
use aelora.Domain.{Error, Result, ok, err}

abbrev pub Call : Type 0 → Type 0 → Type 0
Call S A = S → Result A × S

module _ {S A : Type 0} where
  abbrev pub pure : A → Call S A
  pure a s = (ok a, s)

  abbrev pub fail : Error → Call S A
  fail e s = (err e, s)

  unfoldable pub lift : Result A → Call S A
  lift r s = (r, s)

  -- A call that cannot fail.
  unfoldable pub run : (S → A × S) → Call S A
  run f s = let (a, s') = f s in (ok a, s')

-- A look at the state.
unfoldable pub read : {S A : Type 0} → (S → A) → Call S A
read f s = (ok (f s), s)

unfoldable pub modify : {S : Type 0} → (S → S) → Call S (Unit {0})
modify f s = (ok tt, f s)

module _ {S A B : Type 0} where
  abbrev pub next : (Error → Call S B) → (A → Call S B) → Result A → Call S B
  next on_err on_ok (ok a) = on_ok a
  next on_err on_ok (err e) = on_err e

  -- Code that looks at the error of a call: `if err != nil { … }`.
  abbrev pub handle : Call S A → (Error → Call S B) → (A → Call S B) → Call S B
  handle m on_err on_ok s = let (r, s') = m s in next on_err on_ok r s'

  -- Code that runs only with an optional part: `if x != nil { … }`.
  abbrev pub given : Option A → Call S B → (A → Call S B) → Call S B
  given none absent present = absent
  given (some a) absent present = present a

  infixl 5 ◌>>=◌ ◌>>◌
  abbrev pub ◌>>=◌ : Call S A → (A → Call S B) → Call S B
  ◌>>=◌ m f = handle m fail f

  abbrev pub ◌>>◌ : Call S A → Call S B → Call S B
  m >> k = m >>= λ _. k

-- A call that leaves `P` standing, however it ends.
abbrev pub Keeps : {S A : Type 0} → (S → Type 0) → Call S A → Type 0
Keeps P m = (s : _) → P s → P (m s).1
