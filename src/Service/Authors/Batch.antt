-- ===== src/Service/Authors/Batch.antt =====
-- Loading each author once gives the same items as loading the author of each post.
use cooking_platform.Prelude.{
  ℕ, ◌≡◌, refl, ap, ap, Bool, true, ◌||◌, Option, List, [], ◌∷◌, arith, ◌==◌, ==_iff, ==_refl, elem,
  any, map,
}
use cooking_platform.Action.{ok, ◌>>=◌, pure}
use cooking_platform.Model.{Post, User}
use cooking_platform.Repository.Users.{UserTable}
use cooking_platform.Service.Authors.{
  AuthorMap, build_list_item, build_list_items, author_of, unique_from, unique_author_ids, load_one,
  load_all, load_map,
}

-- the map of some ids
abbrev known : (ℕ → Option User) → List ℕ → AuthorMap
known author [] = []
known author (id ∷ ids) = (id, author id) ∷ known author ids

author_of-known :
    (author : ℕ → Option User) (ids : List ℕ) (id : ℕ)
    → elem id ids ≡ true
    → author_of id (known author ids) ≡ author id
author_of-known author [] id h = absurd (ground arith)
author_of-known author (x ∷ ids) id h = ground (arith, author_of-known author ids id)

abbrev written_by : ℕ → List Post → Bool
written_by id = any (λ (p : Post). p.user_id == id)

elem-eq : (a b : ℕ) (xs : List ℕ) → (a == b) ≡ true → elem a xs ≡ elem b xs
elem-eq a b xs h = ap (λ x. elem x xs) ((==_iff a b).0 h)

unique_from-covers :
    (seen : List ℕ) (ps : List Post) (id : ℕ)
    → written_by id ps ≡ true
    → (elem id seen || elem id (unique_from seen ps)) ≡ true
unfolding unique_from
unique_from-covers seen [] id h = absurd (ground arith)
unique_from-covers seen (p ∷ ps) id h = ground (
  arith,
  unique_from-covers seen ps id,
  unique_from-covers (p.user_id ∷ seen) ps id,
  elem-eq p.user_id id seen,
)

build_list_items-known :
    (author : ℕ → Option User) (ids : List ℕ) (ps : List Post)
    → ((id : ℕ) → written_by id ps ≡ true → elem id ids ≡ true)
    → build_list_items ps (known author ids) ≡ map (λ p. build_list_item p (author p.user_id)) ps
unfolding build_list_items
build_list_items-known author ids [] h = refl
build_list_items-known author ids (p ∷ ps) h =
    let rest = build_list_items-known author ids ps (λ id k. h id (rw k (ground arith))) in
    rw (author_of-known author ids p.user_id (h p.user_id (rw (==_refl p.user_id) refl)), rest) refl

module _ {D : Type 0} (users : UserTable D) (author : ℕ → Option User) (d : D) where
  load_all-known :
      (ids : List ℕ)
      → ((id : ℕ) → load_one users id d ≡ (ok (author id), d))
      → load_all users ids d ≡ (ok (known author ids), d)
  unfolding load_all
  load_all-known [] h = refl
  load_all-known (id ∷ ids) h = rw (h id, load_all-known ids h) refl

  -- While the database answers the query of each author, with a user or with no row, loading the map of
  -- the distinct authors and building the items from it gives what loading the author of each post on
  -- its own gives, in the order of the posts.
  pub build_list_items-load_map :
      (posts : List Post)
      → ((id : ℕ) → load_one users id d ≡ (ok (author id), d))
      → (do m ← load_map users posts; pure (build_list_items posts m)) d
        ≡ (ok (map (λ p. build_list_item p (author p.user_id)) posts), d)
  unfolding load_map unique_author_ids
  build_list_items-load_map posts h =
      let loaded = load_all-known (unique_from [] posts) h in
      let same =
        build_list_items-known author (unique_from [] posts) posts
          (λ id k. unique_from-covers [] posts id k) in
      rw (loaded, same) refl
