-- ===== src/Consumer/Like/Replay.antt =====
-- A flush against the events of its batch, taken one by one in the order in which they came.
use cooking_platform.Prelude.{
  ◌≡◌, refl, sym, ◌∙◌, ◌&&◌, ◌||◌, not, true, false, Bool, List, [], ◌∷◌, ◌++◌, map, arith,
  if◌then◌else◌,
}
use cooking_platform.Repository.Likes.{
  UserPostPair, has_pair, same_pair, LikeTables, LikeTablesLaws, IsAvailable,
}
use cooking_platform.Consumer.Like.{
  LikeAction, like, unlike, LikeBatchEvent, pair_of, flush_with_ctx,
}
use cooking_platform.Consumer.Like.Flush.{flush-has_row}

-- the two buffers that the events of a batch leave
abbrev keep_like : LikeAction → LikeBatchEvent → List LikeBatchEvent → List LikeBatchEvent
keep_like like e es = e ∷ es
keep_like unlike e es = es

abbrev keep_unlike : LikeAction → LikeBatchEvent → List LikeBatchEvent → List LikeBatchEvent
keep_unlike like e es = es
keep_unlike unlike e es = e ∷ es

abbrev pub likes_of : List LikeBatchEvent → List LikeBatchEvent
likes_of [] = []
likes_of (e ∷ es) = keep_like e.action e (likes_of es)

abbrev pub unlikes_of : List LikeBatchEvent → List LikeBatchEvent
unlikes_of [] = []
unlikes_of (e ∷ es) = keep_unlike e.action e (unlikes_of es)

-- Whether the row stands after one event, and after a sequence of them.
abbrev outcome : LikeAction → Bool
outcome like = true
outcome unlike = false

pub replay : UserPostPair → List LikeBatchEvent → Bool → Bool
replay a [] b = b
replay a (e ∷ es) b = replay a es (if same_pair (pair_of e) a then outcome e.action else b)

-- whether a pair is liked, and unliked, in the batch
abbrev pub liked_in : UserPostPair → List LikeBatchEvent → Bool
liked_in a es = has_pair a (map pair_of (likes_of es))

abbrev pub unliked_in : UserPostPair → List LikeBatchEvent → Bool
unliked_in a es = has_pair a (map pair_of (unlikes_of es))

-- A pair that only one action names ends as that action leaves it.
replay_one_sided :
    (a : UserPostPair) (es : List LikeBatchEvent) (b : Bool)
    → (liked_in a es && unliked_in a es) ≡ false
    → replay a es b ≡ ((b || liked_in a es) && not (unliked_in a es))
unfolding replay
replay_one_sided a [] true h = refl
replay_one_sided a [] false h = refl
replay_one_sided a (e ∷ es) b h =
    ground (arith, replay_one_sided a es (if same_pair (pair_of e) a then outcome e.action else b))

unliked_in-append :
    (a : UserPostPair) (es fs : List LikeBatchEvent)
    → unliked_in a (es ++ fs) ≡ (unliked_in a es || unliked_in a fs)
unliked_in-append a [] fs = refl
unliked_in-append a (e ∷ es) fs = ground (arith, unliked_in-append a es fs)

replay-append :
    (a : UserPostPair) (es fs : List LikeBatchEvent) (b : Bool)
    → replay a (es ++ fs) b ≡ replay a fs (replay a es b)
unfolding replay
replay-append a [] fs b = refl
replay-append a (e ∷ es) fs b =
    replay-append a es fs (if same_pair (pair_of e) a then outcome e.action else b)

-- no event takes the row away
replay-stays :
    (a : UserPostPair) (es : List LikeBatchEvent)
    → unliked_in a es ≡ false
    → replay a es true ≡ true
unfolding replay
replay-stays a [] h = refl
replay-stays a (e ∷ es) h = ground (arith, replay-stays a es)

replay-liked :
    (e : LikeBatchEvent) (es : List LikeBatchEvent) (b : Bool)
    → e.action ≡ like
    → unliked_in (pair_of e) es ≡ false
    → replay (pair_of e) (e ∷ es) b ≡ true
unfolding replay
replay-liked e es b l h = ground (arith, l, replay-stays (pair_of e) es h)

module _ {D : Type 0} {t : LikeTables D} (laws : LikeTablesLaws t) (up : IsAvailable t) where
  -- Where MySQL answers every statement and no event of a batch likes a pair that another unlikes,
  -- a flush leaves that pair's row as the events do when they are applied one by one, in order.
  pub flush-replay :
      (es : List LikeBatchEvent) (d : D) (a : UserPostPair)
      → (liked_in a es && unliked_in a es) ≡ false
      → t.has_row a (flush_with_ctx t (likes_of es) (unlikes_of es) d).1
        ≡ replay a es (t.has_row a d)
  flush-replay es d a h =
      flush-has_row laws up (likes_of es) (unlikes_of es) d a
      ∙ sym (replay_one_sided a es (t.has_row a d) h)

  -- Where MySQL answers every statement, a user who unlikes a post and likes it again later in the same
  -- batch, and does not unlike it after that, ends without the row, although the events in order end
  -- with it; whatever other events come before, between and after.
  pub flush-relike_lost :
      (es fs : List LikeBatchEvent) (e : LikeBatchEvent) (d : D)
      → e.action ≡ like
      → unliked_in (pair_of e) es ≡ true
      → unliked_in (pair_of e) fs ≡ false
      → (t.has_row
            (pair_of e)
            (flush_with_ctx t (likes_of (es ++ e ∷ fs)) (unlikes_of (es ++ e ∷ fs)) d).1
          ≡ false)
        × (replay (pair_of e) (es ++ e ∷ fs) (t.has_row (pair_of e) d) ≡ true)
  flush-relike_lost es fs e d l u v = (
    flush-has_row laws up (likes_of (es ++ e ∷ fs)) (unlikes_of (es ++ e ∷ fs)) d (pair_of e)
        ∙ ground (arith, unliked_in-append (pair_of e) es (e ∷ fs), u),
    replay-append (pair_of e) es (e ∷ fs) (t.has_row (pair_of e) d)
        ∙ replay-liked e fs (replay (pair_of e) es (t.has_row (pair_of e) d)) l v,
  )
