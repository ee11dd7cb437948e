-- ===== src/Call/Post.antt =====
-- What holds when a call ends, by rules that follow the code. Each rule hands on the equation that
-- its step has decided.
use aelora.Prelude.{◌≡◌, ◌≢◌, refl, Bool, true, false, Option, none, some, if◌then◌else◌}
use mathlib.Core.Path.{subst}
use aelora.Domain.{Error, Result, ok, err}
use aelora.Call.{Call, pure, fail, lift, run, read, modify, next, handle, given, ◌>>=◌, ◌>>◌}

-- `m`, begun in `s`, ends in a result and a state with `Q`.
pub record Post {S A : Type 0} (Q : Result A → S → Type 0) (m : Call S A) (s : S) : Type 0 where
  pub holds : Q (m s).0 (m s).1

module _ {S A : Type 0} {Q : Result A → S → Type 0} where
  pub Post-pure : {a : A} {s : S} → Q (ok a) s → Post Q (pure a) s
  Post-pure q = record { holds = q }

  pub Post-fail : {e : Error} {s : S} → Q (err e) s → Post Q (fail e) s
  Post-fail q = record { holds = q }

  pub Post-call :
      (m : Call S A) (s : S) → ((r : Result A) (s' : S) → m s ≡ (r, s') → Q r s') → Post Q m s
  Post-call m s f = record { holds = f (m s).0 (m s).1 refl }

  pub Post-if :
      (b : Bool) {m n : Call S A} {s : S}
      → (b ≡ true → Post Q m s)
      → (b ≡ false → Post Q n s)
      → Post Q (if b then m else n) s
  Post-if true f g = f refl
  Post-if false f g = g refl

module _ {S A B : Type 0} {Q : Result B → S → Type 0} where
  handle_by :
      (m : Call S A) (on_err : Error → Call S B) (on_ok : A → Call S B) (s : S)
      → (r : Result A) (s' : S) → m s ≡ (r, s')
      → ((e : Error) (s' : S) → m s ≡ (err e, s') → Post Q (on_err e) s')
      → ((a : A) (s' : S) → m s ≡ (ok a, s') → Post Q (on_ok a) s')
      → Q (next on_err on_ok r s').0 (next on_err on_ok r s').1
  handle_by m on_err on_ok s (ok a) s' p f g = (g a s' p).holds
  handle_by m on_err on_ok s (err e) s' p f g = (f e s' p).holds

  pub Post-handle :
      (m : Call S A) {on_err : Error → Call S B} {on_ok : A → Call S B} (s : S)
      → ((e : Error) (s' : S) → m s ≡ (err e, s') → Post Q (on_err e) s')
      → ((a : A) (s' : S) → m s ≡ (ok a, s') → Post Q (on_ok a) s')
      → Post Q (handle m on_err on_ok) s
  Post-handle m {on_err} {on_ok} s f g = record {
    holds = handle_by m on_err on_ok s (m s).0 (m s).1 refl f g;
  }

  pub Post-bind :
      (m : Call S A) {k : A → Call S B} (s : S)
      → ((e : Error) (s' : S) → m s ≡ (err e, s') → Q (err e) s')
      → ((a : A) (s' : S) → m s ≡ (ok a, s') → Post Q (k a) s')
      → Post Q (m >>= k) s
  Post-bind m {k} s f g = record {
    holds = handle_by m fail k s (m s).0 (m s).1 refl (λ e s' p. record { holds = f e s' p }) g;
  }

  pub Post-given :
      (o : Option A) {absent : Call S B} {present : A → Call S B} {s : S}
      → (o ≡ none → Post Q absent s)
      → ((a : A) → o ≡ some a → Post Q (present a) s)
      → Post Q (given o absent present) s
  Post-given none f g = f refl
  Post-given (some a) f g = g a refl

module _ {S A B : Type 0} {Q : Result B → S → Type 0} where
  then_by :
      (R : Result A → S → Type 0) (m : Call S A) (k : A → Call S B) (s : S) (r : Result A) (s' : S)
      → m s ≡ (r, s')
      → R r s'
      → ((e : Error) (s' : S) → R (err e) s' → Q (err e) s')
      → ((a : A) (s' : S) → m s ≡ (ok a, s') → R (ok a) s' → Post Q (k a) s')
      → Q (next fail k r s').0 (next fail k r s').1
  then_by R m k s (ok a) s' p q f g = (g a s' p q).holds
  then_by R m k s (err e) s' p q f g = f e s' q

module _ {S A B : Type 0} {R : Result A → S → Type 0} {Q : Result B → S → Type 0} where
  -- A step whose own postcondition is known.
  pub Post-then :
      {m : Call S A} {k : A → Call S B} {s : S}
      → Post R m s
      → ((e : Error) (s' : S) → R (err e) s' → Q (err e) s')
      → ((a : A) (s' : S) → m s ≡ (ok a, s') → R (ok a) s' → Post Q (k a) s')
      → Post Q (m >>= k) s
  Post-then {m} {k} {s} p f g = record { holds = then_by R m k s (m s).0 (m s).1 refl p.holds f g }

module _ {S A B : Type 0} {Q : Result B → S → Type 0} where
  -- A step that cannot fail.
  pub Post-run :
      (f : S → A × S) {k : A → Call S B} (s : S)
      → ((a : A) (s' : S) → f s ≡ (a, s') → Post Q (k a) s')
      → Post Q (run f >>= k) s
  unfolding run
  Post-run f s g = record { holds = (g (f s).0 (f s).1 refl).holds }

  pub Post-lift :
      (r : Result A) {k : A → Call S B} {s : S}
      → ((e : Error) → r ≡ err e → Q (err e) s)
      → ((a : A) → r ≡ ok a → Post Q (k a) s)
      → Post Q (lift r >>= k) s
  unfolding lift
  Post-lift (ok a) f g = record { holds = (g a refl).holds }
  Post-lift (err e) f g = record { holds = f e refl }

module _ {S A B : Type 0} {Q : Result B → S → Type 0} where
  pub Post-read :
      (f : S → A) {k : A → Call S B} {s : S}
      → ((a : A) → f s ≡ a → Post Q (k a) s)
      → Post Q (read f >>= k) s
  unfolding read
  Post-read f {k} {s} g = record { holds = (g (f s) refl).holds }

module _ {S B : Type 0} {Q : Result B → S → Type 0} where
  pub Post-modify : (f : S → S) {k : Call S B} {s : S} → Post Q k (f s) → Post Q (modify f >> k) s
  unfolding modify
  Post-modify f p = record { holds = p.holds }

pub Post-weaken :
    {S A : Type 0} {Q R : Result A → S → Type 0} {m : Call S A} {s : S}
    → ((r : Result A) (s' : S) → Q r s' → R r s')
    → Post Q m s
    → Post R m s
Post-weaken f p = record { holds = f _ _ p.holds }

-- A postcondition, read at the outcome that a run had.
pub Post-at :
    {S A : Type 0} {Q : Result A → S → Type 0} {m : Call S A} {s : S} (r : Result A) (s' : S)
    → Post Q m s
    → m s ≡ (r, s')
    → Q r s'
Post-at {Q} r s' p e = subst (λ x. Q x.0 x.1) e p.holds

pub err-ne-ok : {A : Type 0} (e : Error) (a : A) → err e ≢ ok a
err-ne-ok e a h = cc
