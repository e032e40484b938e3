-- ===== src/Tests/MemoryTables.antt =====
-- The tables of the like repository held in memory: every statement succeeds.
use cooking_platform.Prelude.{
  ℕ, suc, Bool, Bool-cases, inl, inr, ◌+◌, ◌-◌, ◌≡◌, refl, sym, ap, ◌∙◌, true, ◌&&◌, ◌||◌, not,
  Option, List, [], ◌∷◌, ◌==◌, arith, if◌then◌else◌,
}
use mathlib.Core.Option
use cooking_platform.Action.{Result, ok, err}
use cooking_platform.Repository.Likes.{
  UserPostPair, same_pair, has_pair, new_rows, old_rows, LikeTables, LikeTablesLaws, IsAvailable,
}

pub record Tables : Type 0 where
  pub rows : List UserPostPair
  pub counts : ℕ → Option ℕ

-- the pairs without one of them
abbrev pub without : UserPostPair → List UserPostPair → List UserPostPair
without a [] = []
without a (b ∷ bs) = let rest = without a bs in if same_pair b a then rest else b ∷ rest

-- the rows really added or removed, beside the rows afterwards
abbrev pub insert_all : List UserPostPair → List UserPostPair → ℕ × List UserPostPair
insert_all [] table = (0, table)
insert_all (a ∷ rows) table =
    let kept = insert_all rows table in
    let added = insert_all rows (a ∷ table) in
    if has_pair a table then kept else (suc added.0, added.1)

abbrev pub delete_all : List UserPostPair → List UserPostPair → ℕ × List UserPostPair
delete_all [] table = (0, table)
delete_all (a ∷ rows) table =
    let rest = delete_all rows (without a table) in
    ((if has_pair a table then 1 else 0) + rest.0, rest.1)

abbrev pub memory_tables : LikeTables Tables
memory_tables = record {
  insert_ignore = λ rows d. let r = insert_all rows d.rows in (ok r.0, record d { rows = r.1 });
  delete_in = λ rows d. let r = delete_all rows d.rows in (ok r.0, record d { rows = r.1 });
  add_like_count = λ n p d. (
    ok tt,
    record d { counts = λ q. if p == q then Option.map (λ c. c + n) (d.counts q) else d.counts q },
  );
  sub_like_count = λ n p d. (
    ok tt,
    record d { counts = λ q. if p == q then Option.map (λ c. c - n) (d.counts q) else d.counts q },
  );
  has_row = λ a d. has_pair a d.rows;
  like_count = λ p d. d.counts p;
}

pub same_pair-has_pair :
    (a b : UserPostPair) (table : List UserPostPair)
    → same_pair a b ≡ true
    → has_pair a table ≡ has_pair b table
same_pair-has_pair a b [] h = refl
same_pair-has_pair a b (c ∷ table) h = ground (arith, same_pair-has_pair a b table h)

-- the number in an answer
abbrev count_of : Result ℕ → ℕ
count_of (ok n) = n
count_of (err e) = 0

insert_all-has :
    (rows table : List UserPostPair) (a : UserPostPair)
    → has_pair a (insert_all rows table).1 ≡ (has_pair a table || has_pair a rows)
insert_all-has [] table a = ground arith
insert_all-has (b ∷ rows) table a = ground (
  arith,
  insert_all-has rows table a,
  insert_all-has rows (b ∷ table) a,
  same_pair-has_pair b a table,
)

pub without-has :
    (b : UserPostPair) (table : List UserPostPair) (a : UserPostPair)
    → has_pair a (without b table) ≡ (has_pair a table && not (same_pair b a))
without-has b [] a = refl
without-has b (c ∷ table) a = ground (arith, without-has b table a)

delete_all-has :
    (rows table : List UserPostPair) (a : UserPostPair)
    → has_pair a (delete_all rows table).1 ≡ (has_pair a table && not (has_pair a rows))
delete_all-has [] table a = ground arith
delete_all-has (b ∷ rows) table a =
    ground (arith, delete_all-has rows (without b table) a, without-has b table a)

insert_all-new_rows :
    (rows table : List UserPostPair) (present : UserPostPair → Bool)
    → ((a : UserPostPair) → present a ≡ has_pair a table)
    → (insert_all rows table).0 ≡ new_rows present rows
insert_all-new_rows [] table present h = refl
insert_all-new_rows (r ∷ rows) table present h = elim (Bool-cases (has_pair r table)) [
  | inl there ↦
      let rest =
        insert_all-new_rows rows table (λ a. same_pair r a || present a)
          (λ a. ground (arith, h a, same_pair-has_pair r a table)) in
      rw there (ground (arith, h r, rest))
  | inr new ↦
      let rest =
        insert_all-new_rows rows (r ∷ table) (λ a. same_pair r a || present a)
          (λ a. ap (λ (b : Bool). same_pair r a || b) (h a)) in
      rw new (ground (arith, h r, rest))
]

delete_all-old_rows :
    (rows table : List UserPostPair) (present : UserPostPair → Bool)
    → ((a : UserPostPair) → present a ≡ has_pair a table)
    → (delete_all rows table).0 ≡ old_rows present rows
delete_all-old_rows [] table present h = refl
delete_all-old_rows (r ∷ rows) table present h =
    let rest =
      delete_all-old_rows rows (without r table) (λ a. present a && not (same_pair r a))
        (λ a. ground (arith, h a, without-has r table a)) in
    rw (h r, rest) refl

pub memory_tables-laws : LikeTablesLaws memory_tables
memory_tables-laws = record {
  insert_rows = λ rows d d' n h.
      sym (ap (λ (x : Result ℕ × Tables). count_of x.0) h)
      ∙ insert_all-new_rows rows d.rows (λ a. has_pair a d.rows) (λ a. refl);
  has_row-insert = λ rows d d' n a h.
      ap (λ (x : Result ℕ × Tables). has_pair a x.1.rows) (sym h) ∙ insert_all-has rows d.rows a;
  like_count-insert = λ rows d d' n p h. ap (λ (x : Result ℕ × Tables). x.1.counts p) (sym h);
  delete_rows = λ rows d d' n h.
      sym (ap (λ (x : Result ℕ × Tables). count_of x.0) h)
      ∙ delete_all-old_rows rows d.rows (λ a. has_pair a d.rows) (λ a. refl);
  has_row-delete = λ rows d d' n a h.
      ap (λ (x : Result ℕ × Tables). has_pair a x.1.rows) (sym h) ∙ delete_all-has rows d.rows a;
  like_count-delete = λ rows d d' n p h. ap (λ (x : Result ℕ × Tables). x.1.counts p) (sym h);
  has_row-add =
      λ n p d d' a h. ap (λ (x : Result (Unit {0}) × Tables). has_pair a x.1.rows) (sym h);
  like_count-add = λ n p d d' q h. ap (λ (x : Result (Unit {0}) × Tables). x.1.counts q) (sym h);
  has_row-sub =
      λ n p d d' a h. ap (λ (x : Result (Unit {0}) × Tables). has_pair a x.1.rows) (sym h);
  like_count-sub = λ n p d d' q h. ap (λ (x : Result (Unit {0}) × Tables). x.1.counts q) (sym h);
}

pub memory_tables-IsAvailable : IsAvailable memory_tables
memory_tables-IsAvailable = record {
  insert_ok = λ rows d. ((insert_all rows d.rows).0, (memory_tables.insert_ignore rows d).1, refl);
  delete_ok = λ rows d. ((delete_all rows d.rows).0, (memory_tables.delete_in rows d).1, refl);
  add_ok = λ n p d. ((memory_tables.add_like_count n p d).1, refl);
  sub_ok = λ n p d. ((memory_tables.sub_like_count n p d).1, refl);
}
