-- ===== src/Consumer/Count/Users.antt =====
-- The users that a flush of internal/consumer/count_consumer.go goes through.
use cooking_platform.Prelude.{
  ℕ, ◌≡◌, refl, ap, Bool, true, false, ◌||◌, List, [], ◌∷◌, ◌==◌, ==_iff, arith, elem, Bool-cases,
  inl, inr,
}
use cooking_platform.Prelude.Int.{pos}
use cooking_platform.Consumer.Count.{Deltas, value_at, add_users}

unfoldable pub has_key : ℕ → Deltas → Bool
has_key v [] = false
has_key v ((u, d) ∷ m) = u == v || has_key v m

pub value_at-missing : (v : ℕ) (m : Deltas) → has_key v m ≡ false → value_at v m ≡ pos 0
unfolding has_key
value_at-missing v [] h = refl
value_at-missing v ((u, d) ∷ m) h = ground (arith, value_at-missing v m)

pub elem_same : (u v : ℕ) (us : List ℕ) → (u == v) ≡ true → elem u us ≡ elem v us
elem_same u v us h = ap (λ (x : ℕ). elem x us) ((==_iff u v).0 h)

pub elem-add_users :
    (v : ℕ) (m : Deltas) (us : List ℕ) → elem v (add_users m us) ≡ (elem v us || has_key v m)
unfolding add_users has_key
elem-add_users v [] us = ground arith
elem-add_users v ((u, d) ∷ m) us = elim (Bool-cases (elem u us)) [
  | inl there ↦ rw there (ground (arith, elem-add_users v m us, there, elem_same u v us))
  | inr fresh ↦ rw fresh (ground (arith, elem-add_users v m (u ∷ us)))
]

pub elem-four :
    (v : ℕ) (p l f g : Deltas)
    → elem v (add_users g (add_users f (add_users l (add_users p []))))
      ≡ (((has_key v p || has_key v l) || has_key v f) || has_key v g)
elem-four v p l f g = ground (
  arith,
  elem-add_users v g (add_users f (add_users l (add_users p []))),
  elem-add_users v f (add_users l (add_users p [])),
  elem-add_users v l (add_users p []),
  elem-add_users v p [],
)

-- no user twice
abbrev pub Distinct : List ℕ → Type 0
Distinct [] = Unit
Distinct (u ∷ us) = (elem u us ≡ false) × Distinct us

pub add_users-Distinct : (m : Deltas) (us : List ℕ) → Distinct us → Distinct (add_users m us)
unfolding add_users
add_users-Distinct [] us h = h
add_users-Distinct ((u, d) ∷ m) us h = elim (Bool-cases (elem u us)) [
  | inl there ↦ rw there (add_users-Distinct m us h)
  | inr fresh ↦ rw fresh (add_users-Distinct m (u ∷ us) (fresh, h))
]
