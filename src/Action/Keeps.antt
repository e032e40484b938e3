-- ===== src/Action/Keeps.antt =====
-- Invariants of actions: what holds of the state before holds after it, whether the action succeeds
-- or fails. One rule for each way to build an action.
use cooking_platform.Prelude.{◌≡◌, refl, ap, subst, Bool, true, false, if◌then◌else◌}
use cooking_platform.Errcode.{GoError, AppError, app}
use cooking_platform.Action.{
  Result, ok, err, Action, resume, ◌>>=◌, pure, fail, require, on_error, map_error,
}
use cooking_platform.Action.Results.{give}

pub record Keeps {S A : Type 0} (P : S → Type 0) (m : Action S A) : Type 0 where
  pub at : (s : S) → P s → P (m s).1

pub on_error-state :
    {S A : Type 0} (x : Result A × S) (f : GoError → GoError) → (on_error x f).1 ≡ x.1
on_error-state (ok a, s) f = refl
on_error-state (err e, s) f = refl

module _ {S A : Type 0} {P : S → Type 0} where
  pub Keeps-pure : (a : A) → Keeps P (pure a)
  Keeps-pure a = record { at = λ s h. h }

  pub Keeps-fail : (e : GoError) → Keeps P (fail {A = A} e)
  Keeps-fail e = record { at = λ s h. h }

  pub Keeps-if :
      (b : Bool) (m n : Action S A) → Keeps P m → Keeps P n → Keeps P (if b then m else n)
  Keeps-if true m n k l = k
  Keeps-if false m n k l = l

  pub Keeps-map_error :
      (f : GoError → GoError) (m : Action S A) → Keeps P m → Keeps P (map_error f m)
  Keeps-map_error f m k = record { at = λ s h. rw (on_error-state (m s) f) (k.at s h) }

  pub Keeps-give : (r : Result A) → Keeps P (give r)
  Keeps-give r = record { at = λ s h. h }

module _ {S : Type 0} {P : S → Type 0} where
  pub Keeps-require : (b : Bool) (e : AppError) → Keeps P (require b e)
  Keeps-require true e = Keeps-pure tt
  Keeps-require false e = Keeps-fail (app e)

module _ {S A B : Type 0} {P : S → Type 0} where
  keep_on :
      (x : Result A × S) (f : A → Action S B) → ((a : A) → Keeps P (f a)) → P x.1 → P (resume x f).1
  keep_on (ok a, s) f kf h = (kf a).at s h
  keep_on (err e, s) f kf h = h

  pub Keeps-bind :
      (m : Action S A) (f : A → Action S B)
      → Keeps P m
      → ((a : A) → Keeps P (f a))
      → Keeps P (m >>= f)
  Keeps-bind m f k kf = record { at = λ s h. keep_on (m s) f kf (k.at s h) }

-- the invariant at the state in which an action ended
pub Keeps-after :
    {S A : Type 0} {P : S → Type 0} (m : Action S A) (s s' : S) (r : Result A)
    → Keeps P m
    → m s ≡ (r, s')
    → P s
    → P s'
Keeps-after {P = P} m s s' r k e h = subst P (ap (λ x. x.1) e) (k.at s h)

pub ruleset keeps_rules =
    (Keeps-pure, Keeps-fail, Keeps-if, Keeps-give, Keeps-require, Keeps-map_error, Keeps-bind)
