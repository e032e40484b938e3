-- ===== src/Consumer/Like.antt =====
-- internal/consumer/like_consumer.go: events are buffered by action, and a flush persists likes, then
-- unlikes, and resets both buffers whatever MySQL answers. Metrics and log lines are left out.
pub mod Scale
pub mod Flush
pub mod Replay
pub mod Loop
use cooking_platform.Prelude.{
  ℕ, ◌+◌, Bool, ◌||◌, List, [], ◌∷◌, ◌++◌, map, leb, ltb, if◌then◌else◌, length,
}
use cooking_platform.Action.{Result, ok, err}
use cooking_platform.Repository.Likes.{
  UserPostPair, Bucket, LikeTables, batch_insert, batch_delete, incr_post_like_count,
  decr_post_like_count,
}
use cooking_platform.Consumer.Like.Scale.{bump, scale_deltas}

pub data LikeAction : Type 0 where
  like unlike : LikeAction

pub record LikeBatchEvent : Type 0 where
  pub action : LikeAction
  pub user_id : ℕ
  pub post_id : ℕ

-- the pair of ids that `BatchInsert` and `BatchDelete` are given
abbrev pub pair_of : LikeBatchEvent → UserPostPair
pair_of e = (e.user_id, e.post_id)

-- `perPost`, counted event by event
unfoldable pub per_post : List LikeBatchEvent → List Bucket → List Bucket
unfolding bump
per_post [] counts = counts
per_post (e ∷ es) counts = per_post es (bump e.post_id counts)

module _ {D : Type 0} (t : LikeTables D) where
  -- the two branches on `BatchInsert`'s error; a failed counter update is only logged
  after_insert : List LikeBatchEvent → Result ℕ × D → ℕ × D
  after_insert buf (err e, d) = (0, d)
  after_insert buf (ok real, d) =
      (real, (incr_post_like_count t (scale_deltas (per_post buf []) (length buf) real) d).1)

  unfoldable pub flush_likes : List LikeBatchEvent → D → ℕ × D
  unfolding after_insert
  flush_likes [] d = (0, d)
  flush_likes (e ∷ es) d = after_insert (e ∷ es) (batch_insert t (map pair_of (e ∷ es)) d)

  after_delete : List LikeBatchEvent → Result ℕ × D → ℕ × D
  after_delete buf (err e, d) = (0, d)
  after_delete buf (ok real, d) =
      (real, (decr_post_like_count t (scale_deltas (per_post buf []) (length buf) real) d).1)

  unfoldable pub flush_unlikes : List LikeBatchEvent → D → ℕ × D
  unfolding after_delete
  flush_unlikes [] d = (0, d)
  flush_unlikes (e ∷ es) d = after_delete (e ∷ es) (batch_delete t (map pair_of (e ∷ es)) d)

  -- `flushWithCtx`, and `flush`: the rows really changed, and the tables. Both buffers are empty
  -- afterwards.
  unfoldable pub flush_with_ctx : List LikeBatchEvent → List LikeBatchEvent → D → ℕ × D
  unfolding flush_likes flush_unlikes
  flush_with_ctx like_buf unlike_buf d =
      let (inserted, d') = flush_likes like_buf d in
      let (deleted, d'') = flush_unlikes unlike_buf d' in (inserted + deleted, d'')

-- the variables of `flushLoop`, with the tables that it writes to
pub record LoopState (D : Type 0) : Type 0 where
  pub like_buf : List LikeBatchEvent
  pub unlike_buf : List LikeBatchEvent
  pub total_processed : ℕ
  pub db : D

-- what the `select` of the loop receives
pub data Received : Type 0 where
  event : LikeBatchEvent → Received
  tick : Received

module _ {D : Type 0} where
  -- the `switch e.action`
  unfoldable pub buffer : LikeAction → LikeBatchEvent → LoopState D → LoopState D
  buffer like e s = record s { like_buf = s.like_buf ++ e ∷ [] }
  buffer unlike e s = record s { unlike_buf = s.unlike_buf ++ e ∷ [] }

  -- `DrainChan` with the loop's callback
  unfoldable pub drain : List LikeBatchEvent → LoopState D → LoopState D
  unfolding buffer
  drain [] s = s
  drain (e ∷ es) s = drain es (buffer e.action e s)

module _ {D : Type 0} (t : LikeTables D) where
  unfoldable pub flush : LoopState D → LoopState D
  unfolding flush_with_ctx
  flush s =
      let (n, d) = flush_with_ctx t s.like_buf s.unlike_buf s.db in
      record { like_buf = []; unlike_buf = []; total_processed = s.total_processed + n; db = d }

  unfoldable pub flush_pending : LoopState D → LoopState D
  unfolding flush
  flush_pending s = if ltb 0 (length s.like_buf) || ltb 0 (length s.unlike_buf) then flush s else s

  -- one round of the `for`, on an event or on the ticker
  unfoldable pub receive : ℕ → LoopState D → Received → LoopState D
  unfolding flush flush_pending buffer
  receive batch_size s (event e) =
      let s' = buffer e.action e s in
      if leb batch_size (length s'.like_buf) || leb batch_size (length s'.unlike_buf)
      then flush s'
      else s'
  receive batch_size s tick = flush_pending s

  unfoldable pub run : ℕ → LoopState D → List Received → LoopState D
  run batch_size s [] = s
  run batch_size s (r ∷ rs) = run batch_size (receive batch_size s r) rs

  -- `flushLoop`: what is received before the cancellation, then what the channel still holds
  unfoldable pub flush_loop : ℕ → List Received → List LikeBatchEvent → D → LoopState D
  unfolding run drain flush_pending
  flush_loop batch_size rs drained d = flush_pending (
      drain drained (
        run batch_size (record { like_buf = []; unlike_buf = []; total_processed = 0; db = d }) rs))
