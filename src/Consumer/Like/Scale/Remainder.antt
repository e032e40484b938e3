-- ===== src/Consumer/Like/Scale/Remainder.antt =====
-- Where the remainder of the integer divisions goes.
use cooking_platform.Prelude.{
  ℕ, ◌*◌, ◌≤◌, ◌<◌, ◌≡◌, ◌≢◌, refl, sym, ap, ◌∙◌, ◌⊎◌, inl, inr, List, [], ◌∷◌, ◌++◌, append_assoc,
  arith, All,
}
use native.Mathlib.Nat.{div-eq_of_lt}
use cooking_platform.Repository.Likes.{Bucket}
use cooking_platform.Consumer.Like.Scale.{
  sift, sort_from, sort_buckets, reverse_onto, share, distribute, scale_deltas,
}

-- ascending by count, as the reversed prefix is
abbrev IsAscending : List Bucket → Type 0
IsAscending [] = Unit
IsAscending (b ∷ []) = Unit
IsAscending (b ∷ c ∷ bs) = (b.1 ≤ c.1) × IsAscending (c ∷ bs)

sift-IsAscending : (b : Bucket) (bs : List Bucket) → IsAscending bs → IsAscending (sift b bs)
unfolding sift
sift-IsAscending b [] h = tt
sift-IsAscending b (c ∷ []) h = ground arith
sift-IsAscending b (c ∷ d ∷ bs) h = ground (arith, sift-IsAscending b (d ∷ bs) h.1)

sort_from-IsAscending :
    (prefix bs : List Bucket) → IsAscending prefix → IsAscending (sort_from prefix bs)
unfolding sort_from
sort_from-IsAscending prefix [] h = h
sort_from-IsAscending prefix (b ∷ bs) h =
    sort_from-IsAscending (sift b prefix) bs (sift-IsAscending b prefix h)

abbrev AtLeast : ℕ → List Bucket → Type 0
AtLeast m = All (λ (b : Bucket). m ≤ b.1)

AtLeast-of_IsAscending :
    (b : Bucket) (bs : List Bucket) (m : ℕ) → m ≤ b.1 → IsAscending (b ∷ bs) → AtLeast m (b ∷ bs)
AtLeast-of_IsAscending b [] m h s = (h, tt)
AtLeast-of_IsAscending b (c ∷ bs) m h s = (h, AtLeast-of_IsAscending c bs m (omega arith) s.1)

-- A property of each bucket goes through the sort, both ways.
module _ (P : Bucket → Type 0) where
  All-sift : (b : Bucket) (bs : List Bucket) → P b → All P bs → All P (sift b bs)
  unfolding sift
  All-sift b [] p h = (p, tt)
  All-sift b (c ∷ bs) p h = ground (arith, All-sift b bs p h.1)

  All-of_sift : (b : Bucket) (bs : List Bucket) → All P (sift b bs) → P b × All P bs
  unfolding sift
  All-of_sift b [] h = h
  All-of_sift b (c ∷ bs) h = ground (arith, All-of_sift b bs)

  All-sort_from : (prefix bs : List Bucket) → All P prefix → All P bs → All P (sort_from prefix bs)
  unfolding sort_from
  All-sort_from prefix [] h k = h
  All-sort_from prefix (b ∷ bs) h k = All-sort_from (sift b prefix) bs (All-sift b prefix k.0 h) k.1

  All-of_sort_from :
      (prefix bs : List Bucket) → All P (sort_from prefix bs) → All P prefix × All P bs
  unfolding sort_from
  All-of_sort_from prefix [] h = (h, tt)
  All-of_sort_from prefix (b ∷ bs) h =
      let (moved, rest) = All-of_sort_from (sift b prefix) bs h in
      let (here, before) = All-of_sift b prefix moved in (before, (here, rest))

reverse_onto-append : (bs out : List Bucket) → reverse_onto bs out ≡ reverse_onto bs [] ++ out
reverse_onto-append [] out = refl
reverse_onto-append (b ∷ bs) out =
    reverse_onto-append bs (b ∷ out)
    ∙ sym (append_assoc (reverse_onto bs []) (b ∷ []) out)
    ∙ ap (λ (t : List Bucket). t ++ out) (sym (reverse_onto-append bs (b ∷ [])))

All-reverse_onto :
    (P : Bucket → Type 0) (bs out : List Bucket)
    → All P bs
    → All P out
    → All P (reverse_onto bs out)
All-reverse_onto P [] out h k = k
All-reverse_onto P (b ∷ bs) out h k = All-reverse_onto P bs (b ∷ out) h.1 (h.0, k)

-- `b` is one of the buckets
abbrev pub Among : Bucket → List Bucket → Type 0
Among b [] = ⊥
Among b (c ∷ cs) = (b ≡ c) ⊎ Among b cs

All-Among_tail :
    (c : Bucket) (xs bs : List Bucket) → All (λ b. Among b bs) xs → All (λ b. Among b (c ∷ bs)) xs
All-Among_tail c [] bs h = tt
All-Among_tail c (x ∷ xs) bs h = (inr h.0, All-Among_tail c xs bs h.1)

All-Among : (bs : List Bucket) → All (λ b. Among b bs) bs
All-Among [] = tt
All-Among (b ∷ bs) = (inl refl, All-Among_tail b bs bs (All-Among bs))

-- a bucket whose proportional share rounds down to nothing
abbrev pub IsSmall : ℕ → ℕ → Bucket → Type 0
IsSmall raw real b = b.1 * real < raw

share-IsSmall : (raw real m : ℕ) (b : Bucket) → IsSmall raw real b → share raw real m b.1 ≡ 0
share-IsSmall raw real m b h = rw (div-eq_of_lt h) (ground arith)

distribute-last :
    (raw real m : ℕ) (bs : List Bucket) (b : Bucket)
    → 0 < m
    → All (IsSmall raw real) bs
    → distribute raw real m (bs ++ b ∷ []) ≡ (b.0, m) ∷ []
unfolding distribute
distribute-last raw real m [] b h s = ground arith
distribute-last raw real m (c ∷ []) b h s = ground (arith, share-IsSmall raw real m c s.0)
distribute-last raw real m (c ∷ d ∷ bs) b h s =
    ground (arith, share-IsSmall raw real m c s.0, distribute-last raw real m (d ∷ bs) b h s.1)

-- The last bucket after sorting, which holds the smallest count, takes the whole remainder.
scale-sorted :
    (raw real : ℕ) (prefix : List Bucket)
    → 0 < real
    → prefix ≢ []
    → IsAscending prefix
    → All (IsSmall raw real) prefix
    → (b : Bucket) × (distribute raw real real (reverse_onto prefix []) ≡ (b.0, real) ∷ [])
      × AtLeast b.1 prefix
      × Among b prefix
scale-sorted raw real [] h e s k = absurd (e refl)
scale-sorted raw real (b ∷ bs) h e s k = (
  b,
  rw (reverse_onto-append bs (b ∷ [])) (
      distribute-last raw real real (reverse_onto bs []) b h
        (All-reverse_onto (IsSmall raw real) bs [] k.1 tt)),
  AtLeast-of_IsAscending b bs b.1 (omega arith) s,
  inl refl,
)

sort_from-ne-nil : (prefix bs : List Bucket) → prefix ≢ [] → sort_from prefix bs ≢ []
unfolding sort_from sift
sort_from-ne-nil prefix [] h = h
sort_from-ne-nil [] (b ∷ bs) h = absurd (h refl)
sort_from-ne-nil (c ∷ prefix) (b ∷ bs) h =
    sort_from-ne-nil (sift b (c ∷ prefix)) bs (unfold sift in ground arith)

All-at : (P : Bucket → Type 0) (b : Bucket) (bs : List Bucket) → All P bs → Among b bs → P b
All-at P b [] h m = absurd m
All-at P b (c ∷ cs) h (inl e) = rw e h.0
All-at P b (c ∷ cs) h (inr m) = All-at P b cs h.1 m

-- Where every proportional share rounds down to nothing, one of the given buckets, with a smallest
-- count, is credited with all the rows, and no other post with any.
pub scale_deltas-smallest :
    (per_post : List Bucket) (raw real : ℕ)
    → per_post ≢ []
    → 0 < real
    → real < raw
    → All (IsSmall raw real) per_post
    → (b : Bucket) × (scale_deltas per_post raw real ≡ (b.0, real) ∷ [])
      × All (λ (c : Bucket). b.1 ≤ c.1) per_post
      × Among b per_post
unfolding scale_deltas sort_buckets sort_from sift
scale_deltas-smallest [] raw real e h k s = absurd (e refl)
scale_deltas-smallest (c ∷ cs) raw real e h k s =
    let sorted = sort_from [] (c ∷ cs) in
    let (b, credited, smallest, among) =
      scale-sorted raw real sorted h (sort_from-ne-nil (c ∷ []) cs (cc))
        (sort_from-IsAscending [] (c ∷ cs) tt)
        (All-sort_from (IsSmall raw real) [] (c ∷ cs) tt s) in
    (
      b,
      ground (arith, credited),
      (All-of_sort_from (λ (d : Bucket). b.1 ≤ d.1) [] (c ∷ cs) smallest).1,
      All-at (λ (d : Bucket). Among d (c ∷ cs)) b sorted
          (All-sort_from (λ (d : Bucket). Among d (c ∷ cs)) [] (c ∷ cs) tt (All-Among (c ∷ cs)))
          among,
    )
