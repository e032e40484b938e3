-- ===== src/Consumer/Like/Flush.antt =====
-- What one flush does to the tables, where MySQL answers every statement.
use cooking_platform.Prelude.{
  ℕ, ◌+◌, ◌-◌, ◌≤◌, ◌≡◌, refl, sym, ap, ◌∙◌, ◌&&◌, ◌||◌, not, Bool, List, [], ◌∷◌, map, arith,
  length,
}
use mathlib.Core.Option
use cooking_platform.Repository.Likes.{
  UserPostPair, has_pair, new_rows, old_rows, Bucket, at_post, LikeTables, LikeTablesLaws,
  IsAvailable,
}
use cooking_platform.Repository.Likes.Effects.{
  map_add-zero, new_rows-le, old_rows-le, map_sub-zero, or_false, and_true, batch_insert-Inserted,
  batch_delete-Deleted, incr-Credited, decr-Debited,
}
use cooking_platform.Consumer.Like.Scale.{bump, mass, scale_deltas}
use cooking_platform.Consumer.Like.Scale.Mass.{mass-bump, mass-scale_deltas}
use cooking_platform.Consumer.Like.{
  LikeBatchEvent, pair_of, per_post, flush_likes, flush_unlikes, after_insert, after_delete,
  flush_with_ctx,
}

mass-per_post :
    (es : List LikeBatchEvent) (m : List Bucket) → mass (per_post es m) ≡ mass m + length es
unfolding per_post
mass-per_post [] m = omega arith
mass-per_post (e ∷ es) m = omega (arith, mass-per_post es (bump e.post_id m), mass-bump e.post_id m)

-- the deltas that a flush sends for a buffer of which `real` rows changed
abbrev pub sent : List LikeBatchEvent → ℕ → List Bucket
sent buf real = scale_deltas (per_post buf []) (length buf) real

length-map_pair : (es : List LikeBatchEvent) → length (map pair_of es) ≡ length es
length-map_pair [] = refl
length-map_pair (e ∷ es) = omega (arith, length-map_pair es)

-- The deltas that the consumer sends to the post counters after MySQL reports `real` changed rows of
-- a batch sum to exactly `real`.
pub mass-sent :
    (buf : List LikeBatchEvent) (real : ℕ) → real ≤ length buf → mass (sent buf real) ≡ real
mass-sent buf real h = omega (
  arith,
  mass-scale_deltas (per_post buf []) (length buf) real (omega (arith, mass-per_post buf [])),
)

-- What a flush of the like buffer leaves.
pub record LikesFlushed {D : Type 0} (t : LikeTables D) (buf : List LikeBatchEvent) (d : D)
    : Type 0 where
  pub real : ℕ
  pub counted : real ≡ new_rows (λ a. t.has_row a d) (map pair_of buf)
  pub total : (flush_likes t buf d).0 ≡ real
  pub rows :
      (a : UserPostPair)
      → t.has_row a (flush_likes t buf d).1 ≡ (t.has_row a d || has_pair a (map pair_of buf))
  pub counts :
      (p : ℕ)
      → t.like_count p (flush_likes t buf d).1
        ≡ Option.map (λ c. c + at_post p (sent buf real)) (t.like_count p d)

pub record UnlikesFlushed {D : Type 0} (t : LikeTables D) (buf : List LikeBatchEvent) (d : D)
    : Type 0 where
  pub real : ℕ
  pub counted : real ≡ old_rows (λ a. t.has_row a d) (map pair_of buf)
  pub total : (flush_unlikes t buf d).0 ≡ real
  pub rows :
      (a : UserPostPair)
      → t.has_row a (flush_unlikes t buf d).1
        ≡ (t.has_row a d && not (has_pair a (map pair_of buf)))
  pub counts :
      (p : ℕ)
      → t.like_count p (flush_unlikes t buf d).1
        ≡ Option.map (λ c. c - at_post p (sent buf real)) (t.like_count p d)

module _ {D : Type 0} (t : LikeTables D) where
  -- the rows that the likes of a batch add, and those that its unlikes then take away
  abbrev pub inserted : List LikeBatchEvent → D → ℕ
  inserted likes d = new_rows (λ a. t.has_row a d) (map pair_of likes)

  abbrev pub deleted : List LikeBatchEvent → List LikeBatchEvent → D → ℕ
  deleted likes unlikes d =
      old_rows (λ a. t.has_row a d || has_pair a (map pair_of likes)) (map pair_of unlikes)

module _ {D : Type 0} {t : LikeTables D} (laws : LikeTablesLaws t) (up : IsAvailable t) where
  flush_likes_cons :
      (e : LikeBatchEvent) (es : List LikeBatchEvent) (d : D) → LikesFlushed t (e ∷ es) d
  unfolding flush_likes after_insert
  flush_likes_cons e es d =
      let i = batch_insert-Inserted laws up (map pair_of (e ∷ es)) d in
      let c = incr-Credited laws up (sent (e ∷ es) i.count) i.after in
      record {
        real = i.count;
        counted = i.counted;
        total = rw i.returns;
        rows = λ a. rw (i.returns, c.returns) (c.rows_after a ∙ i.rows_after a);
        counts =
            λ p. rw (i.returns, c.returns) (ground (arith, c.counts_after p, i.counts_after p));
      }

  pub flush_likes_lem : (buf : List LikeBatchEvent) (d : D) → LikesFlushed t buf d
  unfolding flush_likes scale_deltas per_post
  flush_likes_lem [] d = record {
    real = 0;
    counted = refl;
    total = refl;
    rows = λ a. sym (or_false (t.has_row a d));
    counts = λ p. map_add-zero (t.like_count p d);
  }
  flush_likes_lem (e ∷ es) d = flush_likes_cons e es d

  flush_unlikes_cons :
      (e : LikeBatchEvent) (es : List LikeBatchEvent) (d : D) → UnlikesFlushed t (e ∷ es) d
  unfolding flush_unlikes after_delete
  flush_unlikes_cons e es d =
      let i = batch_delete-Deleted laws up (map pair_of (e ∷ es)) d in
      let c = decr-Debited laws up (sent (e ∷ es) i.count) i.after in
      record {
        real = i.count;
        counted = i.counted;
        total = rw i.returns;
        rows = λ a. rw (i.returns, c.returns) (c.rows_after a ∙ i.rows_after a);
        counts =
            λ p. rw (i.returns, c.returns) (ground (arith, c.counts_after p, i.counts_after p));
      }

  pub flush_unlikes_lem : (buf : List LikeBatchEvent) (d : D) → UnlikesFlushed t buf d
  unfolding flush_unlikes scale_deltas per_post
  flush_unlikes_lem [] d = record {
    real = 0;
    counted = refl;
    total = refl;
    rows = λ a. sym (and_true (t.has_row a d));
    counts = λ p. map_sub-zero (t.like_count p d);
  }
  flush_unlikes_lem (e ∷ es) d = flush_unlikes_cons e es d

  -- Where MySQL answers every statement, a row is in `likes` after a flush exactly if it was there or
  -- was liked in the batch, and was not unliked in the batch: unlikes win over likes, in whatever
  -- order the events came.
  pub flush-has_row :
      (likes unlikes : List LikeBatchEvent) (d : D) (a : UserPostPair)
      → t.has_row a (flush_with_ctx t likes unlikes d).1 ≡ (
          (t.has_row a d || has_pair a (map pair_of likes))
          && not (has_pair a (map pair_of unlikes)))
  unfolding flush_with_ctx
  flush-has_row likes unlikes d a =
      let l = flush_likes_lem likes d in
      let u = flush_unlikes_lem unlikes (flush_likes t likes d).1 in
      u.rows a ∙ ap (λ (b : Bool). b && not (has_pair a (map pair_of unlikes))) (l.rows a)

  -- Where MySQL answers every statement: a flush returns the number of rows that it really inserts, those
  -- liked in the batch that were not there, each once, plus the number that it really deletes, those
  -- unliked in the batch that are there after the likes, each once. The counter of each existing post
  -- grows by its part of the inserted rows and then falls by its part of the deleted rows, down to 0
  -- at most; and the parts of all posts sum to those numbers.
  pub flush-like_count :
      (likes unlikes : List LikeBatchEvent) (d : D)
      → ((flush_with_ctx t likes unlikes d).0 ≡ inserted t likes d + deleted t likes unlikes d)
        × (mass (sent likes (inserted t likes d)) ≡ inserted t likes d)
        × (mass (sent unlikes (deleted t likes unlikes d)) ≡ deleted t likes unlikes d)
        × ((p : ℕ)
            → t.like_count p (flush_with_ctx t likes unlikes d).1
              ≡ Option.map
                  (λ c.
                    c
                    + at_post p (sent likes (inserted t likes d))
                    - at_post p (sent unlikes (deleted t likes unlikes d)))
                  (t.like_count p d))
  unfolding flush_with_ctx
  flush-like_count likes unlikes d =
      let l = flush_likes_lem likes d in
      let u = flush_unlikes_lem unlikes (flush_likes t likes d).1 in
      let removed : u.real ≡ deleted t likes unlikes d =
        u.counted ∙ ap (λ present. old_rows present (map pair_of unlikes)) (λ i a. l.rows a i) in
      let few = new_rows-le (λ a. t.has_row a d) (map pair_of likes) in
      let few' =
        old_rows-le (λ a. t.has_row a d || has_pair a (map pair_of likes)) (map pair_of unlikes) in
      rw (← l.counted, ← removed)
        (
          omega (arith, l.total, u.total),
          mass-sent likes l.real (omega (arith, few, l.counted, length-map_pair likes)),
          mass-sent unlikes u.real (omega (arith, few', removed, length-map_pair unlikes)),
          λ p. ground (arith, l.counts p, u.counts p),
        )
