-- ===== src/Consumer/View/Totals.antt =====
-- The view counters after a run of the view consumer.
use cooking_platform.Prelude.{
  ℕ, ◌+◌, ◌≤◌, ◌≡◌, refl, true, false, Option, none, some, List, [], ◌∷◌, ◌++◌, append_assoc,
  append-nil, ltb, leb, ◌==◌, arith, if◌then◌else◌, length, Bool-cases, inl, inr,
}
use mathlib.Core.Option
use cooking_platform.Repository.Likes.{Bucket, at_post}
use cooking_platform.Repository.Likes.Effects.{map_add-zero}
use cooking_platform.Consumer.Like.Scale.{bump, mass}
use cooking_platform.Consumer.Like.Scale.Mass.{mass-bump}
use cooking_platform.Consumer.Signal.{Signal, item, tick, items}
use cooking_platform.Consumer.View.{
  ViewTable, ViewTableLaws, ViewsAreUp, ViewState, flush, flush_state, flush_pending, count,
  receive, run, drain, flush_loop,
}

-- how often a post is viewed in a sequence of events
abbrev pub views : ℕ → List ℕ → ℕ
views p [] = 0
views p (q ∷ qs) = (if q == p then 1 else 0) + views p qs

views-append : (p : ℕ) (qs rs : List ℕ) → views p (qs ++ rs) ≡ views p qs + views p rs
views-append p [] rs = omega arith
views-append p (q ∷ qs) rs = omega (arith, views-append p qs rs)

length-snoc : (qs : List ℕ) (q : ℕ) → length (qs ++ q ∷ []) ≡ length qs + 1
length-snoc [] q = refl
length-snoc (x ∷ qs) q = omega (arith, length-snoc qs q)

at_post-bump :
    (p q : ℕ) (m : List Bucket) → at_post p (bump q m) ≡ at_post p m + (if q == p then 1 else 0)
unfolding bump
at_post-bump p q [] = ground arith
at_post-bump p q ((r, c) ∷ m) = ground (arith, at_post-bump p q m)

at_post-mass : (p : ℕ) (m : List Bucket) → at_post p m ≤ mass m
at_post-mass p [] = omega arith
at_post-mass p (b ∷ m) = ground (arith, at_post-mass p m)

map_add-add :
    (a b : ℕ) (o : Option ℕ)
    → Option.map (λ c. c + a) (Option.map (λ c. c + b) o) ≡ Option.map (λ c. c + (b + a)) o
map_add-add a b none = refl
map_add-add a b (some n) = ground arith

module _ {D : Type 0} {t : ViewTable D} (laws : ViewTableLaws t) (up : ViewsAreUp t) where
  flush-view_count :
      (m : List Bucket) (d : D) (p : ℕ)
      → t.view_count p (flush t m d).1 ≡ Option.map (λ c. c + at_post p m) (t.view_count p d)
  unfolding flush
  flush-view_count [] d p = map_add-zero (t.view_count p d)
  flush-view_count ((q, n) ∷ m) d p =
      let (d', e) = up n q d in
      elim (Bool-cases (leb n 0)) [
        | inl none_new ↦ rw none_new (ground (arith, flush-view_count m d p))
        | inr some_new ↦
            rw (some_new, e)
              (ground (arith, flush-view_count m d' p, laws.view_count-add n q d d' p e))
      ]

  flush-total : (m : List Bucket) (d : D) → (flush t m d).0 ≡ mass m
  unfolding flush
  flush-total [] d = refl
  flush-total ((q, n) ∷ m) d =
      let (d', e) = up n q d in
      elim (Bool-cases (leb n 0)) [
        | inl none_new ↦ rw none_new (ground (arith, flush-total m d))
        | inr some_new ↦ rw (some_new, e) (ground (arith, flush-total m d'))
      ]

  -- From the tables `d`, the loop has received `qs` and is in state `s`: what was written and what is
  -- buffered are together the views of each post.
  record IsReached (d : D) (qs : List ℕ) (s : ViewState D) : Type 0 where
    written : ℕ → ℕ
    columns : (p : ℕ) → t.view_count p s.db ≡ Option.map (λ c. c + written p) (t.view_count p d)
    parts : (p : ℕ) → written p + at_post p s.deltas ≡ views p qs
    buffered : s.buf_count ≡ mass s.deltas
    total : s.total_processed + mass s.deltas ≡ length qs

  module _ {d : D} where
    flush_state-IsReached :
        {qs : List ℕ} {s : ViewState D} → IsReached d qs s → IsReached d qs (flush_state t s)
    unfolding flush_state
    flush_state-IsReached {qs} {s} r = record {
      written = λ p. r.written p + at_post p s.deltas;
      columns = λ p. ground (arith, flush-view_count s.deltas s.db p, r.columns p);
      parts = λ p. omega (arith, r.parts p);
      buffered = refl;
      total = omega (arith, r.total, flush-total s.deltas s.db);
    }

    flush_pending-IsReached :
        {qs : List ℕ} {s : ViewState D} → IsReached d qs s → IsReached d qs (flush_pending t s)
    unfolding flush_pending
    flush_pending-IsReached {qs} {s} r =
        elim (ltb 0 s.buf_count) as (λ b. IsReached d qs (if b then flush_state t s else s)) [
          | true ↦ flush_state-IsReached r
          | false ↦ r
        ]

    count-IsReached :
        {qs : List ℕ} {s : ViewState D} (q : ℕ)
        → IsReached d qs s
        → IsReached d (qs ++ q ∷ []) (count t q s)
    unfolding count
    count-IsReached {qs} {s} q r = record {
      written = r.written;
      columns = r.columns;
      parts = λ p. omega (arith, r.parts p, at_post-bump p q s.deltas, views-append p qs (q ∷ []));
      buffered = omega (arith, r.buffered, mass-bump q s.deltas);
      total = omega (arith, r.total, mass-bump q s.deltas, length-snoc qs q);
    }

    run-IsReached :
        (size : ℕ) (rs : List (Signal ℕ)) {qs : List ℕ} {s : ViewState D}
        → IsReached d qs s
        → IsReached d (qs ++ items rs) (run t size s rs)
    unfolding run receive
    run-IsReached size [] {qs} r = rw append-nil r
    run-IsReached size (item q ∷ rs) {qs} {s} r =
        let s' = count t q s in
        rw (← append_assoc qs (q ∷ []) (items rs))
          (elim (leb size s'.buf_count)
            as (λ b.
              IsReached d ((qs ++ q ∷ []) ++ items rs)
                (run t size (if b then flush_state t s' else s') rs)) [
                  | true ↦ run-IsReached size rs (flush_state-IsReached (count-IsReached q r))
                  | false ↦ run-IsReached size rs (count-IsReached q r)
                ])
    run-IsReached size (tick ∷ rs) r = run-IsReached size rs (flush_pending-IsReached r)

    drain-IsReached :
        (ps : List ℕ) {qs : List ℕ} {s : ViewState D}
        → IsReached d qs s
        → IsReached d (qs ++ ps) (drain t ps s)
    unfolding drain
    drain-IsReached [] r = rw append-nil r
    drain-IsReached (q ∷ ps) {qs} r =
        rw (← append_assoc qs (q ∷ []) ps) (drain-IsReached ps (count-IsReached q r))

    -- nothing is left behind
    settled :
        {qs : List ℕ} {s : ViewState D}
        → IsReached d qs s
        → ((p : ℕ)
            → t.view_count p (flush_pending t s).db
              ≡ Option.map (λ c. c + views p qs) (t.view_count p d))
          × ((flush_pending t s).total_processed ≡ length qs)
    unfolding flush_pending flush_state
    settled {qs} {s} r = (
      λ p. ground (
        arith,
        flush-view_count s.deltas s.db p,
        r.columns p,
        r.parts p,
        r.buffered,
        at_post-mass p s.deltas,
      ),
      ground (arith, r.total, r.buffered, flush-total s.deltas s.db),
    )

  -- Where MySQL answers every statement: whatever the batch size is and wherever the ticks fall, the
  -- loop leaves the view counter of each existing post higher by the number of times that the post
  -- was received before or after the cancellation, and reports the number of all events.
  pub flush_loop-view_count :
      (size : ℕ) (rs : List (Signal ℕ)) (drained : List ℕ) (d : D)
      → let s = flush_loop t size rs drained d in
        ((p : ℕ)
          → t.view_count p s.db
            ≡ Option.map (λ c. c + views p (items rs ++ drained)) (t.view_count p d))
        × (s.total_processed ≡ length (items rs ++ drained))
  unfolding flush_loop
  flush_loop-view_count size rs drained d =
      let first : IsReached d []
          (record { deltas = []; buf_count = 0; total_processed = 0; db = d }) =
        record {
          written = λ p. 0;
          columns = λ p. map_add-zero (t.view_count p d);
          parts = λ p. omega arith;
          buffered = refl;
          total = omega arith;
        } in
      settled (drain-IsReached drained (run-IsReached size rs first))
