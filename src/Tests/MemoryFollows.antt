-- ===== src/Tests/MemoryFollows.antt =====
-- The table of the follow repository held in memory, read without a replica. A deletion of an edge
-- that is there twice fails; no statement leaves such a table.
use cooking_platform.Prelude.{
  ℕ, ◌+◌, ◌≡◌, refl, sym, ap, ◌∙◌, Bool, true, false, ◌&&◌, ◌||◌, not, List, [], ◌∷◌, leb, ◌==◌,
  arith, if◌then◌else◌, take,
}
use cooking_platform.Errcode.{other}
use cooking_platform.Action.{Result, ok, err}
use cooking_platform.Repository.Likes.{UserPostPair, same_pair, has_pair}
use cooking_platform.Repository.Follows.{
  FollowUser, FollowTable, FollowTableLaws, ServesLists, below,
}
use cooking_platform.Service.Follow.Outcome.{IsCaughtUp}
use cooking_platform.Tests.MemoryTables.{without, same_pair-has_pair, without-has}

pub record Follows : Type 0 where
  pub edges : List UserPostPair
  pub listing : List FollowUser

abbrev pub out : ℕ → List UserPostPair → ℕ
out x [] = 0
out x (e ∷ es) = (if e.0 == x then 1 else 0) + out x es

abbrev pub copies : UserPostPair → List UserPostPair → ℕ
copies a [] = 0
copies a (e ∷ es) = (if same_pair e a then 1 else 0) + copies a es

abbrev pub memory_follows : FollowTable Follows
memory_follows = record {
  insert_ignore = λ a b d.
      if has_pair (a, b) d.edges then (ok 0, d) else (ok 1, record d { edges = (a, b) ∷ d.edges });
  delete_edge = λ a b d.
      if leb (copies (a, b) d.edges) 1
      then (ok (copies (a, b) d.edges), record d { edges = without (a, b) d.edges })
      else (err other, d);
  select_exists = λ force a b d. (ok (has_pair (a, b) d.edges), d);
  select_count = λ force a d. (ok (out a d.edges), d);
  select_join = λ force dir pivot cursor size d. (ok (take size (below cursor d.listing)), d);
  edge = λ force a b d. has_pair (a, b) d.edges;
  degree = λ force a d. out a d.edges;
  listed = λ force dir pivot d. d.listing;
}

copies-has : (a : UserPostPair) (es : List UserPostPair) → has_pair a es ≡ leb 1 (copies a es)
copies-has a [] = refl
copies-has a (e ∷ es) = ground (arith, copies-has a es)

out-without :
    (a : UserPostPair) (es : List UserPostPair) (x : ℕ)
    → out x es ≡ out x (without a es) + (if a.0 == x then copies a es else 0)
out-without a [] x = ground arith
out-without a (e ∷ es) x = ground (arith, out-without a es x)

module _ (a b : ℕ) (d d' : Follows) (n : ℕ) where
  insert_lem :
      memory_follows.insert_ignore a b d ≡ (ok n, d')
      → (n ≡ (if has_pair (a, b) d.edges then 0 else 1))
        × ((x y : ℕ) → has_pair (x, y) d'.edges ≡ (a == x && b == y || has_pair (x, y) d.edges))
        × ((x : ℕ) → out x d'.edges ≡ out x d.edges + (if a == x then n else 0))
  insert_lem = go (has_pair (a, b) d.edges) refl
    where
      go :
          (there : Bool)
          → has_pair (a, b) d.edges ≡ there
          → ◌≡◌ {A = Result ℕ × Follows}
              (if there then (ok 0, d) else (ok 1, record d { edges = (a, b) ∷ d.edges }))
              (ok n, d')
          → (n ≡ (if has_pair (a, b) d.edges then 0 else 1))
            × ((x y : ℕ) → has_pair (x, y) d'.edges ≡ (a == x && b == y || has_pair (x, y) d.edges))
            × ((x : ℕ) → out x d'.edges ≡ out x d.edges + (if a == x then n else 0))
      go true e h =
          let r = ap (λ (z : Result ℕ × Follows). z.0) h in
          (
            ground (arith, e, r),
            λ x y.
                ap (λ (z : Result ℕ × Follows). has_pair (x, y) z.1.edges) (sym h)
                ∙ ground (arith, e, same_pair-has_pair (a, b) (x, y) d.edges),
            λ x. ap (λ (z : Result ℕ × Follows). out x z.1.edges) (sym h) ∙ ground (arith, r),
          )
      go false e h =
          let r = ap (λ (z : Result ℕ × Follows). z.0) h in
          (
            ground (arith, e, r),
            λ x y.
                ap (λ (z : Result ℕ × Follows). has_pair (x, y) z.1.edges) (sym h) ∙ ground arith,
            λ x. ap (λ (z : Result ℕ × Follows). out x z.1.edges) (sym h) ∙ ground (arith, r),
          )

  delete_lem :
      memory_follows.delete_edge a b d ≡ (ok n, d')
      → (n ≡ (if has_pair (a, b) d.edges then 1 else 0))
        × ((x y : ℕ)
            → has_pair (x, y) d'.edges ≡ (has_pair (x, y) d.edges && not (a == x && b == y)))
        × ((x : ℕ) → out x d.edges ≡ out x d'.edges + (if a == x then n else 0))
  delete_lem = go (leb (copies (a, b) d.edges) 1) refl
    where
      go :
          (few : Bool)
          → leb (copies (a, b) d.edges) 1 ≡ few
          → ◌≡◌ {A = Result ℕ × Follows}
              (if few
                then (ok (copies (a, b) d.edges), record d { edges = without (a, b) d.edges })
                else (err other, d))
              (ok n, d')
          → (n ≡ (if has_pair (a, b) d.edges then 1 else 0))
            × ((x y : ℕ)
                → has_pair (x, y) d'.edges ≡ (has_pair (x, y) d.edges && not (a == x && b == y)))
            × ((x : ℕ) → out x d.edges ≡ out x d'.edges + (if a == x then n else 0))
      go true e h =
          let r = ap (λ (z : Result ℕ × Follows). z.0) h in
          (
            ground (arith, e, r, copies-has (a, b) d.edges),
            λ x y.
                ap (λ (z : Result ℕ × Follows). has_pair (x, y) z.1.edges) (sym h)
                ∙ without-has (a, b) d.edges (x, y),
            λ x. sym (
                ap (λ (z : Result ℕ × Follows). out x z.1.edges + (if a == x then n else 0)) (sym h)
                ∙ ground (arith, r, out-without (a, b) d.edges x)),
          )
      go false e h = absurd (ground (arith, ap (λ (z : Result ℕ × Follows). z.0) h))

answers : {A : Type 0} (a b : A) → Path (Result A) (ok a) (ok b) → b ≡ a
answers a b h = cc

pub memory_follows-laws : FollowTableLaws memory_follows
memory_follows-laws = record {
  insert_rows = λ a b d d' n h. (insert_lem a b d d' n h).0;
  edge-insert = λ a b d d' n x y h. (insert_lem a b d d' n h).1 x y;
  degree-insert = λ a b d d' n x h. (insert_lem a b d d' n h).2 x;
  delete_rows = λ a b d d' n h. (delete_lem a b d d' n h).0;
  edge-delete = λ a b d d' n x y h. (delete_lem a b d d' n h).1 x y;
  degree-delete = λ a b d d' n x h. (delete_lem a b d d' n h).2 x;
  exists_lem = λ force a b d d' found h. (
    answers (has_pair (a, b) d.edges) found (ap (λ (z : Result Bool × Follows). z.0) h),
    ap (λ (z : Result Bool × Follows). z.1) (sym h),
  );
  count_lem = λ force a d d' n h. (
    answers (out a d.edges) n (ap (λ (z : Result ℕ × Follows). z.0) h),
    ap (λ (z : Result ℕ × Follows). z.1) (sym h),
  );
}

pub memory_follows-ServesLists : (d : Follows) → ServesLists memory_follows d
memory_follows-ServesLists d force dir pivot cursor size = refl

pub memory_follows-IsCaughtUp : (d : Follows) → IsCaughtUp memory_follows d
memory_follows-IsCaughtUp d = record { edges = λ a b. refl; degrees = λ a. refl }
