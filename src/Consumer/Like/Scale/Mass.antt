-- ===== src/Consumer/Like/Scale/Mass.antt =====
-- The scaling keeps the total.
use cooking_platform.Prelude.{ℕ, ◌+◌, ◌-◌, ◌<◌, ◌≡◌, ◌≢◌, refl, List, [], ◌∷◌, arith, min}
use cooking_platform.Repository.Likes.{Bucket}
use cooking_platform.Consumer.Like.Scale.{
  bump, sift, sort_from, sort_buckets, reverse_onto, share, distribute, scale_deltas, mass,
}

pub mass-bump : (p : ℕ) (m : List Bucket) → mass (bump p m) ≡ mass m + 1
unfolding bump
mass-bump p [] = refl
mass-bump p ((q, c) ∷ m) = ground (arith, mass-bump p m)

mass-sift : (b : Bucket) (bs : List Bucket) → mass (sift b bs) ≡ b.1 + mass bs
unfolding sift
mass-sift b [] = refl
mass-sift b (c ∷ bs) = ground (arith, mass-sift b bs)

mass-sort_from : (prefix bs : List Bucket) → mass (sort_from prefix bs) ≡ mass prefix + mass bs
unfolding sort_from
mass-sort_from prefix [] = omega arith
mass-sort_from prefix (b ∷ bs) =
    omega (arith, mass-sort_from (sift b prefix) bs, mass-sift b prefix)

mass-reverse_onto : (bs out : List Bucket) → mass (reverse_onto bs out) ≡ mass bs + mass out
mass-reverse_onto [] out = omega arith
mass-reverse_onto (b ∷ bs) out = omega (arith, mass-reverse_onto bs (b ∷ out))

-- Sorting keeps the sum of the counts.
pub mass-sort_buckets : (bs : List Bucket) → mass (sort_buckets bs) ≡ mass bs
unfolding sort_buckets
mass-sort_buckets bs = omega (arith, mass-reverse_onto (sort_from [] bs) [], mass-sort_from [] bs)

mass-distribute :
    (raw real remaining : ℕ) (bs : List Bucket)
    → bs ≢ []
    → mass (distribute raw real remaining bs) ≡ remaining
unfolding distribute
mass-distribute raw real remaining [] h = absurd (h refl)
mass-distribute raw real remaining (b ∷ []) h = ground arith
mass-distribute raw real remaining (b ∷ b' ∷ bs) h =
    ground
      (arith, mass-distribute raw real (remaining - share raw real remaining b.1) (b' ∷ bs) (cc))

mass_nil : (bs : List Bucket) → 0 < mass bs → bs ≢ []
mass_nil [] h e = absurd (omega arith)
mass_nil (b ∷ bs) h e = cc

-- Whatever order the map is ranged over in: the scaled deltas sum to the rows that MySQL reports,
-- and to the number of events where it reports as many or more.
pub mass-scale_deltas :
    (per_post : List Bucket) (raw real : ℕ)
    → mass per_post ≡ raw
    → mass (scale_deltas per_post raw real) ≡ min real raw
unfolding scale_deltas
mass-scale_deltas per_post raw real h = ground (
  arith,
  mass-sort_buckets per_post,
  mass-distribute raw real real (sort_buckets per_post),
  mass_nil (sort_buckets per_post),
)
