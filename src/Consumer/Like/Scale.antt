-- ===== src/Consumer/Like/Scale.antt =====
-- `scaleDeltas` of internal/consumer/like_consumer.go. The loop's map is an association list in the
-- order in which Go happens to range over it, so that the theorems hold for every order. The counts
-- are int64 numbers of events in memory; `d` never exceeds `remaining`, so truncated `-` is exact.
pub mod Mass
pub mod Remainder
use cooking_platform.Prelude.{ℕ, ◌+◌, ◌-◌, ◌*◌, ◌/◌, List, [], ◌∷◌, ltb, leb, ◌==◌, if◌then◌else◌}
use cooking_platform.Repository.Likes.{Bucket}

-- `perPost[postID]++`
unfoldable pub bump : ℕ → List Bucket → List Bucket
bump post [] = (post, 1) ∷ []
bump post ((p, c) ∷ m) = if p == post then (p, c + 1) ∷ m else (p, c) ∷ bump post m

-- One round of the outer sorting loop. The sorted prefix is reversed, so that its head is the left
-- neighbour of the bucket that moves.
unfoldable pub sift : Bucket → List Bucket → List Bucket
sift b [] = b ∷ []
sift b (left ∷ prefix) =
    let moved = sift b prefix in if ltb left.1 b.1 then left ∷ moved else b ∷ left ∷ prefix

unfoldable pub sort_from : List Bucket → List Bucket → List Bucket
unfolding sift
sort_from prefix [] = prefix
sort_from prefix (b ∷ bs) = sort_from (sift b prefix) bs

-- the reversed prefix, read from the left
abbrev reverse_onto : List Bucket → List Bucket → List Bucket
reverse_onto [] out = out
reverse_onto (b ∷ bs) out = reverse_onto bs (b ∷ out)

unfoldable pub sort_buckets : List Bucket → List Bucket
unfolding sort_from
sort_buckets bs = reverse_onto (sort_from [] bs) []

-- `scaled[b.postID] = d` under its guard; the posts of the buckets are distinct
abbrev store : ℕ → ℕ → List Bucket → List Bucket
store post d scaled = if ltb 0 d then (post, d) ∷ scaled else scaled

-- `if d > remaining { d = remaining }`
abbrev share : ℕ → ℕ → ℕ → ℕ → ℕ
share raw real remaining count =
    let d = count * real / raw in if ltb remaining d then remaining else d

-- the distribution loop, with its break when nothing remains
unfoldable pub distribute : ℕ → ℕ → ℕ → List Bucket → List Bucket
distribute raw real remaining [] = []
distribute raw real remaining (b ∷ []) = store b.0 remaining []
distribute raw real remaining (b ∷ b' ∷ bs) =
    let d = share raw real remaining b.1 in
    let rest = distribute raw real (remaining - d) (b' ∷ bs) in
    store b.0 d (if leb (remaining - d) 0 then [] else rest)

unfoldable pub scale_deltas : List Bucket → ℕ → ℕ → List Bucket
unfolding sort_buckets distribute
scale_deltas per_post raw real =
    if leb real 0
    then []
    else if leb raw real
    then per_post
    else distribute raw real real (sort_buckets per_post)

-- the sum of the counts
abbrev pub mass : List Bucket → ℕ
mass [] = 0
mass (b ∷ bs) = b.1 + mass bs
