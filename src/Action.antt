-- ===== src/Action.antt =====
-- Go functions that return `(T, error)` and act on state outside the process: an action takes the
-- state and returns the result beside the new state. A failing action may have changed the state.
pub mod Keeps
pub mod Results
use cooking_platform.Prelude.{◌≡◌, refl, ap, Bool, true, false, arith}
use cooking_platform.Errcode.{GoError, AppError, app, wrapped}

pub data Result {ℓ} (A : Type ℓ) : Type ℓ where
  ok : A → Result A
  err : GoError → Result A

abbrev pub Action : Type 0 → Type 0 → Type 0
Action S A = S → Result A × S

-- what a bind does with the first action's result
abbrev pub resume : {S A B : Type 0} → Result A × S → (A → Action S B) → Result B × S
resume (ok a, s) f = f a s
resume (err e, s) f = (err e, s)

infixl 5 ◌>>=◌ ◌>>◌
abbrev pub ◌>>=◌ : {S A B : Type 0} → Action S A → (A → Action S B) → Action S B
◌>>=◌ m f s = resume (m s) f

abbrev pub ◌>>◌ : {S B : Type 0} → Action S (Unit {0}) → Action S B → Action S B
◌>>◌ m k = m >>= λ _. k

module _ {S A : Type 0} where
  abbrev pub pure : A → Action S A
  pure a s = (ok a, s)

  abbrev pub fail : GoError → Action S A
  fail e s = (err e, s)

  -- `if err != nil { return …, f(err) }`
  abbrev pub on_error : Result A × S → (GoError → GoError) → Result A × S
  on_error (ok a, s) f = (ok a, s)
  on_error (err e, s) f = (err (f e), s)

  abbrev pub map_error : (GoError → GoError) → Action S A → Action S A
  map_error f m s = on_error (m s) f

  -- `fmt.Errorf("…: %w", err)`
  abbrev pub wrap : Action S A → Action S A
  wrap = map_error wrapped

module _ {S A B : Type 0} where
  -- Inversion of a bind that succeeds.
  pub bind-eq-ok :
      (m : Action S A) (f : A → Action S B) (s t : S) (b : B)
      → (m >>= f) s ≡ (ok b, t)
      → (a : A) × (u : S) × (m s ≡ (ok a, u)) × (f a u ≡ (ok b, t))
  bind-eq-ok m f s t b h = go (m s) refl h
    where
      go :
          (r : Result A × S)
          → m s ≡ r
          → resume r f ≡ (ok b, t)
          → (a : A) × (u : S) × (m s ≡ (ok a, u)) × (f a u ≡ (ok b, t))
      go (ok a, u) e k = (a, u, e, k)
      go (err x, u) e k = absurd (ground arith)

module _ {S A : Type 0} where
  -- Inversion of a changed error: what succeeds is unchanged.
  pub map_error-eq-ok :
      (g : GoError → GoError) (m : Action S A) (s t : S) (a : A)
      → map_error g m s ≡ (ok a, t)
      → m s ≡ (ok a, t)
  map_error-eq-ok g m s t a h = go (m s) refl h
    where
      go : (r : Result A × S) → m s ≡ r → on_error r g ≡ (ok a, t) → m s ≡ (ok a, t)
      go (ok b, u) e k = ground arith
      go (err x, u) e k = absurd (ground arith)

-- Two commands in one `Pipeline`: both are sent, and `Exec` returns the first error.
module _ {S A B : Type 0} where
  abbrev pub both : Result A → Result B × S → Result (A × B) × S
  both (ok a) (ok b, s) = (ok (a, b), s)
  both (ok a) (err e, s) = (err e, s)
  both (err e) (r, s) = (err e, s)

  abbrev pub pipe : Action S A → Action S B → Action S (A × B)
  pipe m k s = let (r, s') = m s in both r (k s')

  pub pipe-eq-ok :
      (m : Action S A) (k : Action S B) (s t : S) (a : A) (b : B)
      → pipe m k s ≡ (ok (a, b), t)
      → (u : S) × (m s ≡ (ok a, u)) × (k u ≡ (ok b, t))
  pipe-eq-ok m k s t a b h = go (m s) refl (k (m s).1) refl h
    where
      go :
          (r : Result A × S)
          → m s ≡ r
          → (q : Result B × S) → k (m s).1 ≡ q
          → both r.0 q ≡ (ok (a, b), t)
          → (u : S) × (m s ≡ (ok a, u)) × (k u ≡ (ok b, t))
      go (ok x, u) e (ok y, v) f h = (u, ground arith, ground arith)
      go (ok x, u) e (err y, v) f h = absurd (ground arith)
      go (err x, u) e (q, v) f h = absurd (ground arith)

module _ {S A : Type 0} where
  pub pure-eq-ok : (a b : A) (s t : S) → pure {S = S} a s ≡ (ok b, t) → (a ≡ b) × (s ≡ t)
  pure-eq-ok a b s t h = (ground arith, ap (λ (x : Result A × S). x.1) h)

-- `if !b { return e }`
abbrev pub require : {S : Type 0} → Bool → AppError → Action S (Unit {0})
require true e = pure tt
require false e = fail (app e)

pub require-eq-ok :
    {S : Type 0} (b : Bool) (e : AppError) (s s' : S)
    → require b e s ≡ (ok tt, s')
    → (b ≡ true) × (s ≡ s')
require-eq-ok true e s s' h = (refl, ap (λ x. x.1) h)
require-eq-ok false e s s' h = absurd (cc h)
