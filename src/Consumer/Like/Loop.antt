-- ===== src/Consumer/Like/Loop.antt =====
-- The loop hands every event to exactly one flush.
use cooking_platform.Prelude.{
  ℕ, ◌+◌, ◌<◌, ◌≡◌, refl, sym, ap, ◌∙◌, ◌||◌, true, false, List, [], ◌∷◌, ◌++◌, append_assoc,
  append-nil, arith, if◌then◌else◌, length, ltb, leb,
}
use cooking_platform.Repository.Likes.{LikeTables}
use cooking_platform.Consumer.Like.{
  LikeAction, like, unlike, LikeBatchEvent, flush_with_ctx, LoopState, Received, event, tick,
  buffer, flush, flush_pending, receive, drain, run, flush_loop,
}
use cooking_platform.Consumer.Like.Replay.{likes_of, unlikes_of}

abbrev pub Batch : Type 0
Batch = List LikeBatchEvent × List LikeBatchEvent

abbrev pub batched_likes : List Batch → List LikeBatchEvent
batched_likes [] = []
batched_likes (b ∷ bs) = b.0 ++ batched_likes bs

abbrev pub batched_unlikes : List Batch → List LikeBatchEvent
batched_unlikes [] = []
batched_unlikes (b ∷ bs) = b.1 ++ batched_unlikes bs

-- the events among what the `select` receives
abbrev pub events_of : List Received → List LikeBatchEvent
events_of [] = []
events_of (event e ∷ rs) = e ∷ events_of rs
events_of (tick ∷ rs) = events_of rs

likes_of-append : (es fs : List LikeBatchEvent) → likes_of (es ++ fs) ≡ likes_of es ++ likes_of fs
likes_of-append [] fs = refl
likes_of-append (e ∷ es) fs = ground (arith, likes_of-append es fs)

unlikes_of-append :
    (es fs : List LikeBatchEvent) → unlikes_of (es ++ fs) ≡ unlikes_of es ++ unlikes_of fs
unlikes_of-append [] fs = refl
unlikes_of-append (e ∷ es) fs = ground (arith, unlikes_of-append es fs)

batched_likes-snoc :
    (bs : List Batch) (b : Batch) → batched_likes (bs ++ b ∷ []) ≡ batched_likes bs ++ b.0
batched_likes-snoc [] b = append-nil b.0
batched_likes-snoc (c ∷ bs) b =
    ap (λ (t : List LikeBatchEvent). c.0 ++ t) (batched_likes-snoc bs b)
    ∙ sym (append_assoc c.0 (batched_likes bs) b.0)

batched_unlikes-snoc :
    (bs : List Batch) (b : Batch) → batched_unlikes (bs ++ b ∷ []) ≡ batched_unlikes bs ++ b.1
batched_unlikes-snoc [] b = append-nil b.1
batched_unlikes-snoc (c ∷ bs) b =
    ap (λ (t : List LikeBatchEvent). c.1 ++ t) (batched_unlikes-snoc bs b)
    ∙ sym (append_assoc c.1 (batched_unlikes bs) b.1)

module _ {D : Type 0} (t : LikeTables D) where
  -- the flushes of some batches, one after the other: the rows changed, and the tables
  pub persist : List Batch → ℕ × D → ℕ × D
  persist [] s = s
  persist (b ∷ bs) s = let (n, d) = flush_with_ctx t b.0 b.1 s.1 in persist bs (s.0 + n, d)

  persist-snoc :
      (bs : List Batch) (b : Batch) (s : ℕ × D)
      → persist (bs ++ b ∷ []) s ≡ (
        (persist bs s).0 + (flush_with_ctx t b.0 b.1 (persist bs s).1).0,
        (flush_with_ctx t b.0 b.1 (persist bs s).1).1,
      )
  unfolding persist
  persist-snoc [] b s = refl
  persist-snoc (c ∷ bs) b s =
      persist-snoc bs b (s.0 + (flush_with_ctx t c.0 c.1 s.1).0, (flush_with_ctx t c.0 c.1 s.1).1)

  -- From the tables `d`, the loop has received `es` and is in state `s`: some batches are persisted,
  -- and with what is buffered they are all the events, in order.
  record IsReached (d : D) (es : List LikeBatchEvent) (s : LoopState D) : Type 0 where
    batches : List Batch
    persisted : (s.total_processed, s.db) ≡ persist batches (0, d)
    likes_kept : batched_likes batches ++ s.like_buf ≡ likes_of es
    unlikes_kept : batched_unlikes batches ++ s.unlike_buf ≡ unlikes_of es

  module _ {d : D} where
    flush-IsReached :
        {es : List LikeBatchEvent} {s : LoopState D} → IsReached d es s → IsReached d es (flush t s)
    unfolding flush
    flush-IsReached {es} {s} r =
        let b : Batch = (s.like_buf, s.unlike_buf) in
        record {
          batches = r.batches ++ b ∷ [];
          persisted = ground (arith, persist-snoc r.batches b (0, d), r.persisted);
          likes_kept = append-nil _ ∙ batched_likes-snoc r.batches b ∙ r.likes_kept;
          unlikes_kept = append-nil _ ∙ batched_unlikes-snoc r.batches b ∙ r.unlikes_kept;
        }

    flush_pending-IsReached :
        {es : List LikeBatchEvent} {s : LoopState D}
        → IsReached d es s
        → IsReached d es (flush_pending t s)
    unfolding flush_pending
    flush_pending-IsReached {es} {s} r =
        elim (ltb 0 (length s.like_buf) || ltb 0 (length s.unlike_buf))
          as (λ b. IsReached d es (if b then flush t s else s)) [
            | true ↦ flush-IsReached r
            | false ↦ r
          ]

    buffer-IsReached :
        {es : List LikeBatchEvent} {s : LoopState D} (a : LikeAction) (e : LikeBatchEvent)
        → e.action ≡ a
        → IsReached d es s
        → IsReached d (es ++ e ∷ []) (buffer a e s)
    unfolding buffer
    buffer-IsReached {es} {s} like e h r = record {
      batches = r.batches;
      persisted = r.persisted;
      likes_kept =
          sym (append_assoc (batched_likes r.batches) s.like_buf (e ∷ []))
          ∙ ap (λ (l : List LikeBatchEvent). l ++ e ∷ []) r.likes_kept
          ∙ sym (likes_of-append es (e ∷ []) ∙ ground arith);
      unlikes_kept =
          r.unlikes_kept
          ∙ sym (unlikes_of-append es (e ∷ []) ∙ ground (arith, append-nil (unlikes_of es)));
    }
    buffer-IsReached {es} {s} unlike e h r = record {
      batches = r.batches;
      persisted = r.persisted;
      likes_kept =
          r.likes_kept
          ∙ sym (likes_of-append es (e ∷ []) ∙ ground (arith, append-nil (likes_of es)));
      unlikes_kept =
          sym (append_assoc (batched_unlikes r.batches) s.unlike_buf (e ∷ []))
          ∙ ap (λ (l : List LikeBatchEvent). l ++ e ∷ []) r.unlikes_kept
          ∙ sym (unlikes_of-append es (e ∷ []) ∙ ground arith);
    }

    receive-IsReached :
        (size : ℕ) {es : List LikeBatchEvent} {s : LoopState D} (r : Received)
        → IsReached d es s
        → IsReached d (es ++ events_of (r ∷ [])) (receive t size s r)
    unfolding receive
    receive-IsReached size {es} {s} (event e) h =
        let b = buffer-IsReached e.action e refl h in
        let s' = buffer e.action e s in
        elim (leb size (length s'.like_buf) || leb size (length s'.unlike_buf))
          as (λ b. IsReached d (es ++ e ∷ []) (if b then flush t s' else s')) [
            | true ↦ flush-IsReached b
            | false ↦ b
          ]
    receive-IsReached size {es} {s} tick h = rw append-nil (flush_pending-IsReached h)

    run-IsReached :
        (size : ℕ) (rs : List Received) {es : List LikeBatchEvent} {s : LoopState D}
        → IsReached d es s
        → IsReached d (es ++ events_of rs) (run t size s rs)
    unfolding run
    run-IsReached size [] {es} h = rw append-nil h
    run-IsReached size (event e ∷ rs) {es} h =
        rw (← append_assoc es (e ∷ []) (events_of rs))
          (run-IsReached size rs (receive-IsReached size (event e) h))
    run-IsReached size (tick ∷ rs) {es} {s} h =
        run-IsReached size rs (rw (append-nil es) at (receive-IsReached size tick h))

    drain-IsReached :
        (fs : List LikeBatchEvent) {es : List LikeBatchEvent} {s : LoopState D}
        → IsReached d es s
        → IsReached d (es ++ fs) (drain fs s)
    unfolding drain
    drain-IsReached [] {es} h = rw append-nil h
    drain-IsReached (e ∷ fs) {es} h =
        rw (← append_assoc es (e ∷ []) fs) (drain-IsReached fs (buffer-IsReached e.action e refl h))

  flush_pending-empty :
      (s : LoopState D)
      → ((flush_pending t s).like_buf ≡ []) × ((flush_pending t s).unlike_buf ≡ [])
  unfolding flush_pending flush
  flush_pending-empty s = ground arith

  -- For every batch size, whatever the `select` receives and whatever is left in the channel at the
  -- cancellation: the loop ends after flushing some batches one after the other, and these hold each
  -- like and each unlike exactly once, in the order in which it was received.
  pub flush_loop-persist :
      (size : ℕ) (rs : List Received) (drained : List LikeBatchEvent) (d : D)
      → let s = flush_loop t size rs drained d in
        (batches : List Batch) × ((s.total_processed, s.db) ≡ persist batches (0, d))
        × (batched_likes batches ≡ likes_of (events_of rs ++ drained))
        × (batched_unlikes batches ≡ unlikes_of (events_of rs ++ drained))
  unfolding flush_loop persist
  flush_loop-persist size rs drained d =
      let start : LoopState D = record {
        like_buf = [];
        unlike_buf = [];
        total_processed = 0;
        db = d;
      } in
      let first : IsReached d [] start = record {
        batches = [];
        persisted = refl;
        likes_kept = refl;
        unlikes_kept = refl;
      } in
      let before = drain drained (run t size start rs) in
      let r = flush_pending-IsReached (drain-IsReached drained (run-IsReached size rs first)) in
      let empty = flush_pending-empty before in
      (
        r.batches,
        r.persisted,
        sym (append-nil (batched_likes r.batches))
            ∙ ap (λ (l : List LikeBatchEvent). batched_likes r.batches ++ l) (sym empty.0)
            ∙ r.likes_kept,
        sym (append-nil (batched_unlikes r.batches))
            ∙ ap (λ (l : List LikeBatchEvent). batched_unlikes r.batches ++ l) (sym empty.1)
            ∙ r.unlikes_kept,
      )

  abbrev pub IsBelow : ℕ → LoopState D → Type 0
  IsBelow size s = (length s.like_buf < size) × (length s.unlike_buf < size)

  receive-IsBelow :
      (size : ℕ) (s : LoopState D) (r : Received)
      → 0 < size
      → IsBelow size s
      → IsBelow size (receive t size s r)
  unfolding receive flush flush_pending
  receive-IsBelow size s (event e) h b = ground arith
  receive-IsBelow size s tick h b = ground arith

  -- Between two rounds of the loop neither buffer holds a full batch, from buffers below it.
  pub run-IsBelow :
      (size : ℕ) (rs : List Received) (s : LoopState D)
      → 0 < size
      → IsBelow size s
      → IsBelow size (run t size s rs)
  unfolding run
  run-IsBelow size [] s h b = b
  run-IsBelow size (r ∷ rs) s h b =
      run-IsBelow size rs (receive t size s r) h (receive-IsBelow size s r h b)
