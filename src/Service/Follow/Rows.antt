-- ===== src/Service/Follow/Rows.antt =====
-- The rows of a follower or following list, cut at a cursor and into pages.
use cooking_platform.Prelude.{
  ℕ, zero, suc, ◌<◌, ◌≤◌, ◌≡◌, refl, ap, ◌⊎◌, Bool, true, false, ◌&&◌, not, List, [], ◌∷◌, ◌++◌,
  map, ltb, arith, if◌then◌else◌, All, length, take, drop,
}
use cooking_platform.Strconv.{max_int64, format_int}
use cooking_platform.Repository.Follows.{FollowUser, below}
use cooking_platform.Service.Follow.{brief, last_cursor}

-- The ids are positive int64 numbers in descending order.
abbrev pub IsListing : List FollowUser → Type 0
IsListing [] = Unit
IsListing (r ∷ rs) =
    (0 < r.follow_id)
    × (r.follow_id ≤ max_int64)
    × All (λ s. s.follow_id < r.follow_id) rs
    × IsListing rs

pub below_zero : (rs : List FollowUser) → below 0 rs ≡ rs
unfolding below
below_zero [] = refl
below_zero (r ∷ rs) = ground (arith, below_zero rs)

-- a cursor that is as low or lower cuts the whole list as it cuts the rest
pub below-below :
    (c c' : ℕ) (rs : List FollowUser)
    → 0 < c'
    → (c ≡ 0) ⊎ (c' ≤ c)
    → below c' (below c rs) ≡ below c' rs
unfolding below
below-below c c' [] h k = refl
below-below c c' (r ∷ rs) h k = ground (arith, below-below c c' rs h k)

pub All-below :
    (P : FollowUser → Type 0) (c : ℕ) (rs : List FollowUser) → All P rs → All P (below c rs)
unfolding below
All-below P c [] h = tt
All-below P c (r ∷ rs) h =
    elim (ltb 0 c && not (ltb r.follow_id c))
      as (λ b. All P (if b then below c rs else r ∷ below c rs)) [
        | true ↦ All-below P c rs h.1
        | false ↦ (h.0, All-below P c rs h.1)
      ]

pub IsListing-below : (c : ℕ) (rs : List FollowUser) → IsListing rs → IsListing (below c rs)
unfolding below
IsListing-below c [] h = tt
IsListing-below c (r ∷ rs) h =
    elim (ltb 0 c && not (ltb r.follow_id c))
      as (λ b. IsListing (if b then below c rs else r ∷ below c rs)) [
        | true ↦ IsListing-below c rs h.3
        | false ↦ (
          h.0,
          h.1,
          All-below (λ s. s.follow_id < r.follow_id) c rs h.2,
          IsListing-below c rs h.3,
        )
      ]

-- the rows below a cursor are below it
pub below-lt : (c : ℕ) (rs : List FollowUser) → 0 < c → All (λ s. s.follow_id < c) (below c rs)
unfolding below
below-lt c [] h = tt
below-lt c (r ∷ rs) h = go (below-lt c rs h) (ltb 0 c && not (ltb r.follow_id c)) refl
  where
    go :
        All (λ s. s.follow_id < c) (below c rs)
        → (b : Bool) → (ltb 0 c && not (ltb r.follow_id c)) ≡ b
        → All (λ s. s.follow_id < c) (if b then below c rs else r ∷ below c rs)
    go k true e = k
    go k false e = (ground arith, k)

below_same : (c : ℕ) (rs : List FollowUser) → All (λ s. s.follow_id < c) rs → below c rs ≡ rs
unfolding below
below_same c [] h = refl
below_same c (r ∷ rs) h = ground (arith, below_same c rs h.1, h.0)

-- A page of `k + 1` rows, and where it ends.
pub record Page (k : ℕ) (xs : List FollowUser) : Type 1 where
  pub cursor : ℕ
  pub printed : last_cursor (take (suc k) xs) ≡ format_int cursor
  pub among : (P : ℕ → Type 0) → All (λ s. P s.follow_id) xs → P cursor
  pub rest : below cursor xs ≡ drop (suc k) xs

below_skip :
    (c : ℕ) (r : FollowUser) (xs ys : List FollowUser)
    → 0 < c
    → c < r.follow_id
    → below c xs ≡ ys
    → below c (r ∷ xs) ≡ ys
unfolding below
below_skip c r xs ys p h e = ground arith

pub IsListing-ids :
    (xs : List FollowUser)
    → IsListing xs
    → All (λ s. (0 < s.follow_id) × (s.follow_id ≤ max_int64)) xs
IsListing-ids [] h = tt
IsListing-ids (r ∷ rs) h = ((h.0, h.1), IsListing-ids rs h.3)

pub page_lem : (k : ℕ) (xs : List FollowUser) → IsListing xs → k < length xs → Page k xs
unfolding below
page_lem k [] h l = absurd (omega arith)
page_lem zero (r ∷ rs) h l = record {
  cursor = r.follow_id;
  printed = refl;
  among = λ P a. a.0;
  rest = ground (arith, below_same r.follow_id rs h.2);
}
page_lem (suc k) (r ∷ []) h l = absurd (omega arith)
page_lem (suc k) (r ∷ r' ∷ rs) h l =
    let p = page_lem k (r' ∷ rs) h.3 (omega arith) in
    record {
      cursor = p.cursor;
      printed = p.printed;
      among = λ P a. p.among P a.1;
      rest =
          below_skip p.cursor r (r' ∷ rs) (drop (suc k) (r' ∷ rs))
            (p.among (λ n. (0 < n) × (n ≤ max_int64)) (IsListing-ids (r' ∷ rs) h.3)).0
            (p.among (λ n. n < r.follow_id) h.2) p.rest;
    }

pub take-take : (k : ℕ) (xs : List FollowUser) → take k (take (suc k) xs) ≡ take k xs
take-take zero xs = refl
take-take (suc k) [] = refl
take-take (suc k) (x ∷ xs) = ap (◌∷◌ x) (take-take k xs)

pub length_more :
    (k : ℕ) (xs : List FollowUser) → ltb k (length (take (suc k) xs)) ≡ ltb k (length xs)
length_more zero [] = refl
length_more zero (x ∷ xs) = ground arith
length_more (suc k) [] = refl
length_more (suc k) (x ∷ xs) = ground (arith, length_more k xs)

pub take_short : (k : ℕ) (xs : List FollowUser) → ltb k (length xs) ≡ false → take (suc k) xs ≡ xs
take_short k [] h = refl
take_short zero (x ∷ xs) h = absurd (ground arith)
take_short (suc k) (x ∷ xs) h = ap (◌∷◌ x) (take_short k xs (ground arith))

pub map-take-drop :
    (k : ℕ) (xs : List FollowUser) → map brief (take k xs) ++ map brief (drop k xs) ≡ map brief xs
map-take-drop zero xs = refl
map-take-drop (suc k) [] = refl
map-take-drop (suc k) (x ∷ xs) = ap (◌∷◌ (brief x)) (map-take-drop k xs)

pub length-drop_lt :
    (k : ℕ) (xs : List FollowUser) → 0 < length xs → length (drop (suc k) xs) < length xs
length-drop_lt k [] h = absurd (omega arith)
length-drop_lt zero (x ∷ xs) h = omega arith
length-drop_lt (suc k) (x ∷ []) h = omega arith
length-drop_lt (suc k) (x ∷ y ∷ xs) h = omega (arith, length-drop_lt k (y ∷ xs) (omega arith))
