-- ===== src/Tests/LikeConsumer.antt =====
-- The theorems on the like consumer, at a small table.
use cooking_platform.Prelude.{
  ℕ, ◌+◌, ◌-◌, ◌≤◌, ◌≡◌, refl, true, false, none, some, List, [], ◌∷◌, ◌++◌, ◌==◌, arith,
  if◌then◌else◌, All,
}
use mathlib.Core.Option
use cooking_platform.Repository.Likes.{
  Bucket, at_post, batch_insert, batch_delete, incr_post_like_count, decr_post_like_count,
}
use cooking_platform.Consumer.Like.{
  like, unlike, LikeBatchEvent, flush_with_ctx, flush_loop, LoopState, Received, event, tick,
  per_post,
}
use cooking_platform.Consumer.Like.Scale.{mass, scale_deltas}
use cooking_platform.Consumer.Like.Scale.Remainder.{scale_deltas-smallest, Among}
use cooking_platform.Consumer.Like.Flush.{sent, flush-like_count}
use cooking_platform.Consumer.Like.Replay.{
  likes_of, unlikes_of, replay, flush-replay, flush-relike_lost,
}
use cooking_platform.Consumer.Like.Loop.{
  Batch, persist, batched_likes, batched_unlikes, events_of, flush_loop-persist,
}
use cooking_platform.Tests.MemoryTables.{
  Tables, memory_tables, memory_tables-laws, memory_tables-IsAvailable,
}

-- two users like post 5, and user 1 takes it back
abbrev table : Tables
table = record { rows = (2, 5) ∷ []; counts = λ p. if p == 5 then some 1 else none }

abbrev first : LikeBatchEvent
first = record { action = like; user_id = 1; post_id = 5 }

abbrev back : LikeBatchEvent
back = record { action = unlike; user_id = 1; post_id = 5 }

abbrev third : LikeBatchEvent
third = record { action = like; user_id = 3; post_id = 5 }

row_gone :
    memory_tables.has_row
      (1, 5)
      (flush_with_ctx memory_tables (first ∷ third ∷ []) (back ∷ []) table).1
    ≡ false
unfolding flush_with_ctx batch_delete decr_post_like_count scale_deltas batch_insert
    incr_post_like_count per_post
row_gone = refl

count_after :
    memory_tables.like_count 5
      (flush_with_ctx memory_tables (first ∷ third ∷ []) (back ∷ []) table).1
    ≡ some 2
unfolding flush_with_ctx batch_delete decr_post_like_count scale_deltas batch_insert
    incr_post_like_count per_post
count_after = refl

abbrev after : ℕ × Tables
after = flush_with_ctx memory_tables (first ∷ third ∷ []) (back ∷ []) table

flush-like_count_example :
    (after.0 ≡ 3)
    × (mass (sent (first ∷ third ∷ []) 2) ≡ 2)
    × (mass (sent (back ∷ []) 1) ≡ 1)
    × ((p : ℕ)
        → memory_tables.like_count p after.1
          ≡ Option.map
              (λ c. c + at_post p (sent (first ∷ third ∷ []) 2) - at_post p (sent (back ∷ []) 1))
              (memory_tables.like_count p table))
flush-like_count_example =
    flush-like_count memory_tables-laws memory_tables-IsAvailable (first ∷ third ∷ []) (back ∷ [])
      table

scale_deltas-smallest_example :
    (b : Bucket) × (scale_deltas ((5, 3) ∷ (6, 4) ∷ []) 7 1 ≡ (b.0, 1) ∷ [])
    × All (λ (c : Bucket). b.1 ≤ c.1) ((5, 3) ∷ (6, 4) ∷ [])
    × Among b ((5, 3) ∷ (6, 4) ∷ [])
scale_deltas-smallest_example =
    scale_deltas-smallest ((5, 3) ∷ (6, 4) ∷ []) 7 1 (cc) (omega arith) (omega arith)
      (omega arith, (omega arith, tt))

flush-replay_example :
    memory_tables.has_row
      (3, 5)
      (flush_with_ctx memory_tables
        (likes_of (first ∷ back ∷ third ∷ []))
        (unlikes_of (first ∷ back ∷ third ∷ []))
        table).1
    ≡ replay (3, 5) (first ∷ back ∷ third ∷ []) (memory_tables.has_row (3, 5) table)
flush-replay_example =
    flush-replay memory_tables-laws memory_tables-IsAvailable (first ∷ back ∷ third ∷ []) table
      (3, 5) refl

flush-relike_lost_example :
    (memory_tables.has_row
        (1, 5)
        (flush_with_ctx memory_tables
          (likes_of (back ∷ first ∷ third ∷ []))
          (unlikes_of (back ∷ first ∷ third ∷ []))
          table).1
      ≡ false)
    × (replay (1, 5) (back ∷ first ∷ third ∷ []) (memory_tables.has_row (1, 5) table) ≡ true)
flush-relike_lost_example =
    flush-relike_lost memory_tables-laws memory_tables-IsAvailable (back ∷ []) (third ∷ []) first
      table refl refl refl

abbrev received : List Received
received = event first ∷ tick ∷ event third ∷ event back ∷ []

flush_loop-persist_example :
    let s = flush_loop memory_tables 2 received (third ∷ []) table in
    (batches : List Batch) × ((s.total_processed, s.db) ≡ persist memory_tables batches (0, table))
    × (batched_likes batches ≡ likes_of (events_of received ++ third ∷ []))
    × (batched_unlikes batches ≡ unlikes_of (events_of received ++ third ∷ []))
flush_loop-persist_example = flush_loop-persist memory_tables 2 received (third ∷ []) table

abbrev start : LoopState Tables
start = record { like_buf = []; unlike_buf = []; total_processed = 0; db = table }
