-- ===== src/Repository/Likes/Effects.antt =====
-- What the methods of the like repository do to the tables, where no statement fails.
use cooking_platform.Prelude.{
  ℕ, ◌+◌, ◌-◌, ◌≤◌, ◌≡◌, refl, sym, ◌∙◌, ◌&&◌, ◌||◌, not, Bool, true, false, Option, none, some,
  List, [], ◌∷◌, inl, inr, arith, leb, length, Bool-cases,
}
use mathlib.Core.Option
use cooking_platform.Action.{ok}
use cooking_platform.Repository.Likes.{
  UserPostPair, has_pair, same_pair, new_rows, old_rows, Bucket, at_post, LikeTables,
  LikeTablesLaws, IsAvailable, batch_insert, batch_delete, incr_post_like_count,
  decr_post_like_count,
}

pub new_rows-le :
    (present : UserPostPair → Bool) (rows : List UserPostPair) → new_rows present rows ≤ length rows
new_rows-le present [] = omega arith
new_rows-le present (r ∷ rows) = ground (arith, new_rows-le (λ a. same_pair r a || present a) rows)

pub old_rows-le :
    (present : UserPostPair → Bool) (rows : List UserPostPair) → old_rows present rows ≤ length rows
old_rows-le present [] = omega arith
old_rows-le present (r ∷ rows) =
    ground (arith, old_rows-le (λ a. present a && not (same_pair r a)) rows)

module _ {D : Type 0} (t : LikeTables D) where
  -- `BatchInsert` adds the rows and touches no counter.
  pub record Inserted (rows : List UserPostPair) (d : D) : Type 0 where
    pub count : ℕ
    pub after : D
    pub returns : batch_insert t rows d ≡ (ok count, after)
    pub counted : count ≡ new_rows (λ a. t.has_row a d) rows
    pub rows_after : (a : UserPostPair) → t.has_row a after ≡ (t.has_row a d || has_pair a rows)
    pub counts_after : (p : ℕ) → t.like_count p after ≡ t.like_count p d

  -- `BatchDelete` removes the rows and touches no counter.
  pub record Deleted (rows : List UserPostPair) (d : D) : Type 0 where
    pub count : ℕ
    pub after : D
    pub returns : batch_delete t rows d ≡ (ok count, after)
    pub counted : count ≡ old_rows (λ a. t.has_row a d) rows
    pub rows_after :
        (a : UserPostPair) → t.has_row a after ≡ (t.has_row a d && not (has_pair a rows))
    pub counts_after : (p : ℕ) → t.like_count p after ≡ t.like_count p d

  -- `IncrPostLikeCount` adds to each counter and touches no row.
  pub record Credited (deltas : List Bucket) (d : D) : Type 0 where
    pub after : D
    pub returns : incr_post_like_count t deltas d ≡ (ok tt, after)
    pub rows_after : (a : UserPostPair) → t.has_row a after ≡ t.has_row a d
    pub counts_after :
        (p : ℕ) → t.like_count p after ≡ Option.map (λ c. c + at_post p deltas) (t.like_count p d)

  -- `DecrPostLikeCount` subtracts from each counter, down to 0, and touches no row.
  pub record Debited (deltas : List Bucket) (d : D) : Type 0 where
    pub after : D
    pub returns : decr_post_like_count t deltas d ≡ (ok tt, after)
    pub rows_after : (a : UserPostPair) → t.has_row a after ≡ t.has_row a d
    pub counts_after :
        (p : ℕ) → t.like_count p after ≡ Option.map (λ c. c - at_post p deltas) (t.like_count p d)

pub or_false : (b : _) → (b || false) ≡ b
or_false true = refl
or_false false = refl

pub and_true : (b : _) → (b && true) ≡ b
and_true true = refl
and_true false = refl

pub map_add-zero : (o : Option ℕ) → o ≡ Option.map (λ (c : ℕ). c + 0) o
map_add-zero none = refl
map_add-zero (some c) = ground arith

pub map_sub-zero : (o : Option ℕ) → o ≡ Option.map (λ (c : ℕ). c - 0) o
map_sub-zero none = refl
map_sub-zero (some c) = ground arith

module _ {D : Type 0} {t : LikeTables D} (laws : LikeTablesLaws t) (up : IsAvailable t) where
  pub batch_insert-Inserted : (rows : List UserPostPair) (d : D) → Inserted t rows d
  unfolding batch_insert
  batch_insert-Inserted [] d = record {
    count = 0;
    after = d;
    returns = refl;
    counted = refl;
    rows_after = λ a. sym (or_false (t.has_row a d));
    counts_after = λ p. refl;
  }
  batch_insert-Inserted (r ∷ rows) d =
      let (n, d', e) = up.insert_ok (r ∷ rows) d in
      record {
        count = n;
        after = d';
        returns = rw e;
        counted = laws.insert_rows (r ∷ rows) d d' n e;
        rows_after = λ a. laws.has_row-insert (r ∷ rows) d d' n a e;
        counts_after = λ p. laws.like_count-insert (r ∷ rows) d d' n p e;
      }

  pub batch_delete-Deleted : (rows : List UserPostPair) (d : D) → Deleted t rows d
  unfolding batch_delete
  batch_delete-Deleted [] d = record {
    count = 0;
    after = d;
    returns = refl;
    counted = refl;
    rows_after = λ a. sym (and_true (t.has_row a d));
    counts_after = λ p. refl;
  }
  batch_delete-Deleted (r ∷ rows) d =
      let (n, d', e) = up.delete_ok (r ∷ rows) d in
      record {
        count = n;
        after = d';
        returns = rw e;
        counted = laws.delete_rows (r ∷ rows) d d' n e;
        rows_after = λ a. laws.has_row-delete (r ∷ rows) d d' n a e;
        counts_after = λ p. laws.like_count-delete (r ∷ rows) d d' n p e;
      }

  pub incr-Credited : (deltas : List Bucket) (d : D) → Credited t deltas d
  unfolding incr_post_like_count
  incr-Credited [] d = record {
    after = d;
    returns = refl;
    rows_after = λ a. refl;
    counts_after = λ p. map_add-zero (t.like_count p d);
  }
  incr-Credited ((post, delta) ∷ deltas) d = elim (Bool-cases (leb delta 0)) [
    | inl none_to_add ↦
        let c = incr-Credited deltas d in
        record {
          after = c.after;
          returns = rw none_to_add c.returns;
          rows_after = c.rows_after;
          counts_after = λ p. ground (arith, c.counts_after p);
        }
    | inr some_to_add ↦
        let (d', e) = up.add_ok delta post d in
        let c = incr-Credited deltas d' in
        record {
          after = c.after;
          returns = rw (some_to_add, e) c.returns;
          rows_after = λ a. c.rows_after a ∙ laws.has_row-add delta post d d' a e;
          counts_after =
              λ p. ground (arith, c.counts_after p, laws.like_count-add delta post d d' p e);
        }
  ]

  pub decr-Debited : (deltas : List Bucket) (d : D) → Debited t deltas d
  unfolding decr_post_like_count
  decr-Debited [] d = record {
    after = d;
    returns = refl;
    rows_after = λ a. refl;
    counts_after = λ p. map_sub-zero (t.like_count p d);
  }
  decr-Debited ((post, delta) ∷ deltas) d = elim (Bool-cases (leb delta 0)) [
    | inl none_to_take ↦
        let c = decr-Debited deltas d in
        record {
          after = c.after;
          returns = rw none_to_take c.returns;
          rows_after = c.rows_after;
          counts_after = λ p. ground (arith, c.counts_after p);
        }
    | inr some_to_take ↦
        let (d', e) = up.sub_ok delta post d in
        let c = decr-Debited deltas d' in
        record {
          after = c.after;
          returns = rw (some_to_take, e) c.returns;
          rows_after = λ a. c.rows_after a ∙ laws.has_row-sub delta post d d' a e;
          counts_after =
              λ p. ground (arith, c.counts_after p, laws.like_count-sub delta post d d' p e);
        }
  ]
