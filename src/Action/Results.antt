-- ===== src/Action/Results.antt =====
-- Chains of calls that return `(T, error)` and touch no state.
use cooking_platform.Prelude.{◌≡◌, refl, arith}
use cooking_platform.Errcode.{wrapped}
use cooking_platform.Action.{Result, ok, err, Action}

infixl 5 ◌>>=◌
abbrev pub ◌>>=◌ : {A B : Type 0} → Result A → (A → Result B) → Result B
ok a >>= f = f a
err e >>= f = err e

module _ {A : Type 0} where
  -- `fmt.Errorf("…: %w", err)`
  abbrev pub wrap_error : Result A → Result A
  wrap_error (ok a) = ok a
  wrap_error (err e) = err (wrapped e)

  -- a result inside an action
  abbrev pub give : {S : Type 0} → Result A → Action S A
  give r s = (r, s)

  pub wrap_error-eq-ok : (r : Result A) (a : A) → wrap_error r ≡ ok a → r ≡ ok a
  wrap_error-eq-ok (ok b) a h = h
  wrap_error-eq-ok (err e) a h = absurd (ground arith)

module _ {A B : Type 0} where
  pub >>=-eq-ok :
      (r : Result A) (f : A → Result B) (b : B)
      → (r >>= f) ≡ ok b
      → (a : A) × (r ≡ ok a) × (f a ≡ ok b)
  >>=-eq-ok (ok a) f b h = (a, refl, h)
  >>=-eq-ok (err e) f b h = absurd (ground arith)
