-- ===== src/Consumer/Count/Clauses.antt =====
-- The clauses of one UPDATE of internal/consumer/count_consumer.go, column by column.
use cooking_platform.Prelude.{
  ℕ, ◌≡◌, refl, ap, ◌∙◌, true, false, Option, none, some, List, [], ◌∷◌, ◌++◌, arith, if◌then◌else◌,
  Bool-cases, inl, inr,
}
use mathlib.Core.Option
use cooking_platform.Prelude.Int.{ℤ, ◌+ℤ◌}
use cooking_platform.Consumer.Count.{
  Column, posts, likes, followers, followings, same_column, is_zero, clamped, assigned, clause,
}

pub clamped_zero : (c : ℕ) (z : ℤ) → is_zero z ≡ true → clamped c z ≡ c
unfolding ◌+ℤ◌
clamped_zero c z h = ground arith

pub assigned-append :
    (col : Column) (cs bs : List (Column × ℤ)) (c : ℕ)
    → assigned col (cs ++ bs) c ≡ assigned col bs (assigned col cs c)
assigned-append col [] bs c = refl
assigned-append col ((k, z) ∷ cs) bs c =
    assigned-append col cs bs (if same_column k col then clamped c z else c)

pub assigned-clause :
    (col k : Column) (z : ℤ) (c : ℕ)
    → assigned col (clause k z) c ≡ (if same_column k col then clamped c z else c)
assigned-clause col k z c = elim (Bool-cases (is_zero z)) [
  | inl zero ↦ rw (zero, clamped_zero c z zero) (ground arith)
  | inr some_delta ↦ rw some_delta refl
]

pub other_clause :
    (col k : Column) (z : ℤ) (c : ℕ) → same_column k col ≡ false → assigned col (clause k z) c ≡ c
other_clause col k z c h = assigned-clause col k z c ∙ rw h refl

pub own_clause :
    (col : Column) (z : ℤ) (c : ℕ)
    → same_column col col ≡ true
    → assigned col (clause col z) c ≡ clamped c z
own_clause col z c h = assigned-clause col col z c ∙ rw h refl

pub four_clauses :
    (col : Column) (p l f g : ℤ) (c : ℕ)
    → assigned col
        (clause posts p ++ (clause likes l ++ (clause followers f ++ clause followings g)))
        c
      ≡ assigned col (clause followings g) (
          assigned col
            (clause followers f)
            (assigned col (clause likes l) (assigned col (clause posts p) c)))
four_clauses col p l f g c =
    assigned-append col (clause posts p)
      (clause likes l ++ (clause followers f ++ clause followings g)) c
    ∙ assigned-append col (clause likes l) (clause followers f ++ clause followings g) _
    ∙ assigned-append col (clause followers f) (clause followings g) _

pub picked :
    (col : Column) (z : Column → ℤ) (c : ℕ)
    → assigned col (clause followings (z followings)) (
        assigned col
          (clause followers (z followers))
          (assigned col (clause likes (z likes)) (assigned col (clause posts (z posts)) c)))
      ≡ clamped c (z col)
unfolding same_column
picked posts z c =
    other_clause posts followings (z followings) _ refl
    ∙ other_clause posts followers (z followers) _ refl
    ∙ other_clause posts likes (z likes) _ refl
    ∙ own_clause posts (z posts) c refl
picked likes z c =
    other_clause likes followings (z followings) _ refl
    ∙ other_clause likes followers (z followers) _ refl
    ∙ own_clause likes (z likes) _ refl
    ∙ ap (λ (x : ℕ). clamped x (z likes)) (other_clause likes posts (z posts) c refl)
picked followers z c =
    other_clause followers followings (z followings) _ refl
    ∙ own_clause followers (z followers) _ refl
    ∙ ap (λ (x : ℕ). clamped x (z followers))
        (other_clause followers likes (z likes) _ refl
          ∙ other_clause followers posts (z posts) c refl)
picked followings z c =
    own_clause followings (z followings) _ refl
    ∙ ap (λ (x : ℕ). clamped x (z followings))
        (other_clause followings followers (z followers) _ refl
          ∙ other_clause followings likes (z likes) _ refl
          ∙ other_clause followings posts (z posts) c refl)

pub map_none : (col : Column) (o : Option ℕ) → Option.map (assigned col []) o ≡ o
map_none col none = refl
map_none col (some c) = refl
