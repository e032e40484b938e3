-- ===== src/Consumer/View.antt =====
-- internal/consumer/pv_consumer.go: views are counted per post and added to the posts in batches.
-- Metrics and log lines are left out; the statement sent to MySQL is a parameter.
pub mod Totals
pub mod Handler
use cooking_platform.Prelude.{ℕ, ◌+◌, ◌≡◌, Option, List, [], ◌∷◌, ltb, leb, ◌==◌, if◌then◌else◌}
use mathlib.Core.Option
use cooking_platform.Action.{Result, ok, err, Action}
use cooking_platform.Repository.Likes.{Bucket}
use cooking_platform.Consumer.Like.Scale.{bump}
use cooking_platform.Consumer.Signal.{Signal, item, tick}

pub record ViewTable (D : Type 0) : Type 0 where
  -- UPDATE posts SET view_count = view_count + ? WHERE id = ?
  pub add_view_count : ℕ → ℕ → Action D (Unit {0})
  -- the column of an existing post
  pub view_count : ℕ → D → Option ℕ

pub record ViewTableLaws {D : Type 0} (t : ViewTable D) : Type 0 where
  pub view_count-add :
      (n p : ℕ) (d d' : D) (q : ℕ)
      → t.add_view_count n p d ≡ (ok tt, d')
      → t.view_count q d'
        ≡ (if p == q then Option.map (λ c. c + n) (t.view_count q d) else t.view_count q d)

-- No statement fails.
abbrev pub ViewsAreUp : {D : Type 0} → ViewTable D → Type 0
ViewsAreUp {D} t = (n p : ℕ) (d : D) → (d' : D) × (t.add_view_count n p d ≡ (ok tt, d'))

-- the variables of `flushLoop`, with the tables that it writes to
pub record ViewState (D : Type 0) : Type 0 where
  pub deltas : List Bucket
  pub buf_count : ℕ
  pub total_processed : ℕ
  pub db : D

-- a failed update is logged and not counted
abbrev pub gained : Result (Unit {0}) → ℕ → ℕ
gained (ok _) delta = delta
gained (err e) delta = 0

module _ {D : Type 0} (t : ViewTable D) where
  -- `flush`
  unfoldable pub flush : List Bucket → D → ℕ × D
  flush [] d = (0, d)
  flush ((post, delta) ∷ rest) d =
      let updated = t.add_view_count delta post d in
      let skipped = flush rest d in
      let (n, d') = flush rest updated.1 in
      if leb delta 0 then skipped else (gained updated.0 delta + n, d')

  -- a flush with the resets around it
  unfoldable pub flush_state : ViewState D → ViewState D
  unfolding flush
  flush_state s =
      let (n, d) = flush s.deltas s.db in
      record { deltas = []; buf_count = 0; total_processed = s.total_processed + n; db = d }

  unfoldable pub flush_pending : ViewState D → ViewState D
  unfolding flush_state
  flush_pending s = if ltb 0 s.buf_count then flush_state s else s

  -- `deltas[postID]++; bufCount++`
  unfoldable pub count : ℕ → ViewState D → ViewState D
  unfolding bump
  count post_id s = record s { deltas = bump post_id s.deltas; buf_count = s.buf_count + 1 }

  -- one round of the `for`
  unfoldable pub receive : ℕ → ViewState D → Signal ℕ → ViewState D
  unfolding flush_state flush_pending count
  receive batch_size s (item post_id) =
      let s' = count post_id s in if leb batch_size s'.buf_count then flush_state s' else s'
  receive batch_size s tick = flush_pending s

  unfoldable pub run : ℕ → ViewState D → List (Signal ℕ) → ViewState D
  unfolding receive
  run batch_size s [] = s
  run batch_size s (r ∷ rs) = run batch_size (receive batch_size s r) rs

  -- `DrainChan` with the loop's callback
  unfoldable pub drain : List ℕ → ViewState D → ViewState D
  unfolding count
  drain [] s = s
  drain (p ∷ ps) s = drain ps (count p s)

  -- `flushLoop`: what is received before the cancellation, then what the channel still holds
  unfoldable pub flush_loop : ℕ → List (Signal ℕ) → List ℕ → D → ViewState D
  unfolding run drain flush_pending
  flush_loop batch_size rs drained d = flush_pending (
      drain drained
        (run batch_size (record { deltas = []; buf_count = 0; total_processed = 0; db = d }) rs))
