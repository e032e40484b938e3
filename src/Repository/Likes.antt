-- ===== src/Repository/Likes.antt =====
-- internal/repository/like_repository.go. A statement that the file sends to MySQL is a parameter,
-- with the answer of the driver: `RowsAffected` or an error.
pub mod Effects
use cooking_platform.Prelude.{
  ℕ, ◌+◌, ◌-◌, ◌≤◌, ◌≡◌, Bool, ◌&&◌, ◌||◌, not, Option, List, [], ◌∷◌, leb, ◌==◌, if◌then◌else◌,
  length, any,
}
use mathlib.Core.Option
use cooking_platform.Action.{ok, Action, ◌>>◌, pure, wrap}

-- `UserPostPair`, and a row of `likes` without its time
abbrev pub UserPostPair : Type 0
UserPostPair = ℕ × ℕ

abbrev pub same_pair : UserPostPair → UserPostPair → Bool
same_pair a b = a.0 == b.0 && a.1 == b.1

abbrev pub has_pair : UserPostPair → List UserPostPair → Bool
has_pair a = any (λ b. same_pair b a)

-- the rows of a list that are not there yet, each counted once
abbrev pub new_rows : (UserPostPair → Bool) → List UserPostPair → ℕ
new_rows present [] = 0
new_rows present (r ∷ rows) =
    (if present r then 0 else 1) + new_rows (λ a. same_pair r a || present a) rows

-- the rows of a list that are there, each counted once
abbrev pub old_rows : (UserPostPair → Bool) → List UserPostPair → ℕ
old_rows present [] = 0
old_rows present (r ∷ rows) =
    (if present r then 1 else 0) + old_rows (λ a. present a && not (same_pair r a)) rows

-- a post and a number: an entry of a `map[int64]int64`
abbrev pub Bucket : Type 0
Bucket = ℕ × ℕ

-- the sum of what a map gives to one post
abbrev pub at_post : ℕ → List Bucket → ℕ
at_post p [] = 0
at_post p (b ∷ bs) = (if b.0 == p then b.1 else 0) + at_post p bs

pub record LikeTables (D : Type 0) : Type 0 where
  -- INSERT IGNORE INTO likes (user_id, post_id, created_at) VALUES (?,?,?),…
  pub insert_ignore : List UserPostPair → Action D ℕ
  -- DELETE FROM likes WHERE (user_id, post_id) IN ((?,?),…)
  pub delete_in : List UserPostPair → Action D ℕ
  -- UPDATE posts SET like_count = like_count + ? WHERE id = ?
  pub add_like_count : ℕ → ℕ → Action D (Unit {0})
  -- UPDATE posts SET like_count = GREATEST(0, CAST(like_count AS SIGNED) - ?) WHERE id = ?
  pub sub_like_count : ℕ → ℕ → Action D (Unit {0})
  -- what a query would show: the rows of `likes`, and the column `like_count` of an existing post
  pub has_row : UserPostPair → D → Bool
  pub like_count : ℕ → D → Option ℕ

-- What MySQL documents of these statements, where they succeed: `RowsAffected` counts the rows really
-- inserted or deleted. `likes` has the unique key (user_id, post_id).
pub record LikeTablesLaws {D : Type 0} (t : LikeTables D) : Type 0 where
  pub insert_rows :
      (rows : List UserPostPair) (d d' : D) (n : ℕ)
      → t.insert_ignore rows d ≡ (ok n, d')
      → n ≡ new_rows (λ a. t.has_row a d) rows
  pub has_row-insert :
      (rows : List UserPostPair) (d d' : D) (n : ℕ) (a : UserPostPair)
      → t.insert_ignore rows d ≡ (ok n, d')
      → t.has_row a d' ≡ (t.has_row a d || has_pair a rows)
  pub like_count-insert :
      (rows : List UserPostPair) (d d' : D) (n : ℕ) (p : ℕ)
      → t.insert_ignore rows d ≡ (ok n, d')
      → t.like_count p d' ≡ t.like_count p d
  pub delete_rows :
      (rows : List UserPostPair) (d d' : D) (n : ℕ)
      → t.delete_in rows d ≡ (ok n, d')
      → n ≡ old_rows (λ a. t.has_row a d) rows
  pub has_row-delete :
      (rows : List UserPostPair) (d d' : D) (n : ℕ) (a : UserPostPair)
      → t.delete_in rows d ≡ (ok n, d')
      → t.has_row a d' ≡ (t.has_row a d && not (has_pair a rows))
  pub like_count-delete :
      (rows : List UserPostPair) (d d' : D) (n : ℕ) (p : ℕ)
      → t.delete_in rows d ≡ (ok n, d')
      → t.like_count p d' ≡ t.like_count p d
  pub has_row-add :
      (n p : ℕ) (d d' : D) (a : UserPostPair)
      → t.add_like_count n p d ≡ (ok tt, d')
      → t.has_row a d' ≡ t.has_row a d
  pub like_count-add :
      (n p : ℕ) (d d' : D) (q : ℕ)
      → t.add_like_count n p d ≡ (ok tt, d')
      → t.like_count q d'
        ≡ (if p == q then Option.map (λ c. c + n) (t.like_count q d) else t.like_count q d)
  pub has_row-sub :
      (n p : ℕ) (d d' : D) (a : UserPostPair)
      → t.sub_like_count n p d ≡ (ok tt, d')
      → t.has_row a d' ≡ t.has_row a d
  pub like_count-sub :
      (n p : ℕ) (d d' : D) (q : ℕ)
      → t.sub_like_count n p d ≡ (ok tt, d')
      → t.like_count q d'
        ≡ (if p == q then Option.map (λ c. c - n) (t.like_count q d) else t.like_count q d)

-- No statement fails.
pub record IsAvailable {D : Type 0} (t : LikeTables D) : Type 0 where
  pub insert_ok :
      (rows : List UserPostPair) (d : D)
      → (n : ℕ) × (d' : D) × (t.insert_ignore rows d ≡ (ok n, d'))
  pub delete_ok :
      (rows : List UserPostPair) (d : D) → (n : ℕ) × (d' : D) × (t.delete_in rows d ≡ (ok n, d'))
  pub add_ok : (n p : ℕ) (d : D) → (d' : D) × (t.add_like_count n p d ≡ (ok tt, d'))
  pub sub_ok : (n p : ℕ) (d : D) → (d' : D) × (t.sub_like_count n p d ≡ (ok tt, d'))

module _ {D : Type 0} (t : LikeTables D) where
  -- `BatchInsert`
  unfoldable pub batch_insert : List UserPostPair → Action D ℕ
  batch_insert [] = pure 0
  batch_insert (r ∷ rows) = wrap (t.insert_ignore (r ∷ rows))

  -- `BatchDelete`
  unfoldable pub batch_delete : List UserPostPair → Action D ℕ
  batch_delete [] = pure 0
  batch_delete (r ∷ rows) = wrap (t.delete_in (r ∷ rows))

  -- `IncrPostLikeCount`: the first error ends the loop
  unfoldable pub incr_post_like_count : List Bucket → Action D (Unit {0})
  incr_post_like_count [] = pure tt
  incr_post_like_count ((post, delta) ∷ deltas) =
      let rest = incr_post_like_count deltas in
      if leb delta 0 then rest else (wrap (t.add_like_count delta post) >> rest)

  -- `DecrPostLikeCount`
  unfoldable pub decr_post_like_count : List Bucket → Action D (Unit {0})
  decr_post_like_count [] = pure tt
  decr_post_like_count ((post, delta) ∷ deltas) =
      let rest = decr_post_like_count deltas in
      if leb delta 0 then rest else (wrap (t.sub_like_count delta post) >> rest)
