-- ===== src/Consumer/Count/Exact.antt =====
-- The counters of users after a run of the count consumer.
use cooking_platform.Prelude.{
  ℕ, ◌+◌, ◌≡◌, refl, sym, ap, ◌∙◌, Bool, true, false, some, List, [], ◌∷◌, ◌++◌, leb, ◌==◌, arith,
  if◌then◌else◌,
}
use mathlib.Core.Option
use cooking_platform.Prelude.Int.{ℤ, pos, negsuc, ◌+ℤ◌, ◌≤ℤ◌, pos_part, +ℤ_assoc}
use cooking_platform.Consumer.Signal.{Signal, item, tick, items}
use cooking_platform.Consumer.Count.{
  CountDelta, Column, posts, likes, followers, followings, value_at, UserTable, UserTableLaws,
  UsersAreUp, clamped, CountState, flush_users, all_users, flush, apply, receive, run, drain,
  flush_loop,
}
use cooking_platform.Consumer.Count.Columns.{
  map_of, delta_of, add_zero, value_at-apply, flush_users-column,
}

-- a true count after one delta, after many, and the claim that it never goes below 0
abbrev pub stepped : Column → ℕ → ℤ → CountDelta → ℤ
stepped col v z d = if d.user_id == v then z +ℤ delta_of col d else z

abbrev pub summed : Column → ℕ → ℤ → List CountDelta → ℤ
summed col v z [] = z
summed col v z (d ∷ ds) = summed col v (stepped col v z d) ds

abbrev pub StaysUp : Column → ℕ → ℤ → List CountDelta → Type 0
StaysUp col v z [] = Unit
StaysUp col v z (d ∷ ds) = (pos 0 ≤ℤ stepped col v z d) × StaysUp col v (stepped col v z d) ds

clamped_exact : (n : ℕ) (y z : ℤ) → pos 0 ≤ℤ z → pos n +ℤ y ≡ z → pos (clamped n y) ≡ z
clamped_exact n y (pos m) h e = ap (λ (x : ℤ). pos (pos_part x)) e
clamped_exact n y (negsuc m) h e = absurd (omega arith)

shift :
    (b : Bool) (n : ℕ) (y z delta : ℤ)
    → pos n +ℤ y ≡ z
    → pos n +ℤ (if b then y +ℤ delta else y) ≡ (if b then z +ℤ delta else z)
shift true n y z delta h = sym (+ℤ_assoc (pos n) y delta) ∙ ap (λ (x : ℤ). x +ℤ delta) h
shift false n y z delta h = h

-- the state after a flush
abbrev emptied : {D : Type 0} → ℕ → D → CountState D
emptied n d = record {
  post_deltas = [];
  like_deltas = [];
  follower_deltas = [];
  following_deltas = [];
  buf_count = 0;
  total_processed = n;
  db = d;
}

value_at-emptied :
    {D : Type 0} (col : Column) (v n : ℕ) (d : D) → value_at v (map_of col (emptied n d)) ≡ pos 0
value_at-emptied posts v n d = refl
value_at-emptied likes v n d = refl
value_at-emptied followers v n d = refl
value_at-emptied followings v n d = refl

module _ {D : Type 0} {t : UserTable D} (laws : UserTableLaws t) (up : UsersAreUp t) (col : Column)
    (v : ℕ) where
  -- The column and what is buffered for it are together the true count.
  record IsExact (z : ℤ) (s : CountState D) : Type 0 where
    nonneg : pos 0 ≤ℤ z
    stored : ℕ
    holds : t.column col v s.db ≡ some stored
    sum : pos stored +ℤ value_at v (map_of col s) ≡ z
    none_buffered : s.buf_count ≡ 0 → value_at v (map_of col s) ≡ pos 0

  flush-IsExact : {z : ℤ} {s : CountState D} → IsExact z s → IsExact z (flush t s)
  unfolding flush
  flush-IsExact {z} {s} r =
      let total = s.total_processed + (flush_users t s (all_users t s) s.db).0 in
      let after = (flush_users t s (all_users t s) s.db).1 in
      let value = value_at v (map_of col s) in
      elim (s.buf_count == 0) as (λ b. IsExact z (if b then s else emptied total after)) [
        | true ↦ r
        | false ↦ record {
          nonneg = r.nonneg;
          stored = clamped r.stored value;
          holds =
              flush_users-column t laws up s col v ∙ ap (Option.map (λ c. clamped c value)) r.holds;
          sum =
              ap (λ (x : ℤ). pos (clamped r.stored value) +ℤ x) (value_at-emptied col v total after)
              ∙ add_zero (pos (clamped r.stored value)) (pos 0) refl
              ∙ clamped_exact r.stored value z r.nonneg r.sum;
          none_buffered = λ _. value_at-emptied col v total after;
        }
      ]

  apply-IsExact :
      {z : ℤ} {s : CountState D} (d : CountDelta)
      → pos 0 ≤ℤ stepped col v z d
      → IsExact z s
      → IsExact (stepped col v z d) (apply t d s)
  unfolding apply
  apply-IsExact {z} {s} d h r = record {
    nonneg = h;
    stored = r.stored;
    holds = r.holds;
    sum =
        ap (λ (x : ℤ). pos r.stored +ℤ x) (value_at-apply t col d s v)
        ∙ shift (d.user_id == v) r.stored (value_at v (map_of col s)) z (delta_of col d) r.sum;
    none_buffered = λ e. absurd (omega arith);
  }

  receive-IsExact :
      (size : ℕ) {z : ℤ} {s : CountState D} (d : CountDelta)
      → pos 0 ≤ℤ stepped col v z d
      → IsExact z s
      → IsExact (stepped col v z d) (receive t size s (item d))
  unfolding receive
  receive-IsExact size {z} {s} d h r =
      let s' = apply t d s in
      elim (leb size s'.buf_count)
        as (λ b. IsExact (stepped col v z d) (if b then flush t s' else s')) [
          | true ↦ flush-IsExact (apply-IsExact d h r)
          | false ↦ apply-IsExact d h r
        ]

  tick-IsExact :
      (size : ℕ) {z : ℤ} {s : CountState D} → IsExact z s → IsExact z (receive t size s tick)
  unfolding receive
  tick-IsExact size r = flush-IsExact r

  run-IsExact :
      (size : ℕ) (rs : List (Signal CountDelta)) (ds : List CountDelta) {z : ℤ} {s : CountState D}
      → StaysUp col v z (items rs ++ ds)
      → IsExact z s
      → IsExact (summed col v z (items rs)) (run t size s rs)
        × StaysUp col v (summed col v z (items rs)) ds
  unfolding run
  run-IsExact size [] ds h r = (r, h)
  run-IsExact size (item d ∷ rs) ds h r = run-IsExact size rs ds h.1 (receive-IsExact size d h.0 r)
  run-IsExact size (tick ∷ rs) ds h r = run-IsExact size rs ds h (tick-IsExact size r)

  drain-IsExact :
      (ds : List CountDelta) {z : ℤ} {s : CountState D}
      → StaysUp col v z ds
      → IsExact z s
      → IsExact (summed col v z ds) (drain t ds s)
  unfolding drain
  drain-IsExact [] h r = r
  drain-IsExact (d ∷ ds) h r = drain-IsExact ds h.1 (apply-IsExact d h.0 r)

  summed-append :
      (z : ℤ) (ds es : List CountDelta)
      → summed col v z (ds ++ es) ≡ summed col v (summed col v z ds) es
  summed-append z [] es = refl
  summed-append z (d ∷ ds) es = summed-append (stepped col v z d) ds es

  settled :
      {z : ℤ} {s : CountState D}
      → IsExact z s
      → s.buf_count ≡ 0
      → (n : ℕ) × (t.column col v s.db ≡ some n) × (pos n ≡ z)
  settled {z} {s} r e = (
    r.stored,
    r.holds,
    sym (add_zero (pos r.stored) (pos 0) refl)
        ∙ ap (λ (x : ℤ). pos r.stored +ℤ x) (sym (r.none_buffered e))
        ∙ r.sum,
  )

  flush-none_buffered : (s : CountState D) → (flush t s).buf_count ≡ 0
  unfolding flush
  flush-none_buffered s = ground arith

  -- Where MySQL answers every statement, and the deltas of a user's counter, taken one by one in the
  -- order in which they were received, never lead below 0: whatever the batch size is and wherever the
  -- ticks fall, the loop leaves the counter at its old value plus all of these deltas, so that the
  -- clamp at 0 and the batching lose nothing.
  pub flush_loop-column :
      (size : ℕ) (rs : List (Signal CountDelta)) (drained : List CountDelta) (d : D) (c : ℕ)
      → t.column col v d ≡ some c
      → StaysUp col v (pos c) (items rs ++ drained)
      → (n : ℕ) × (t.column col v (flush_loop t size rs drained d).db ≡ some n)
        × (pos n ≡ summed col v (pos c) (items rs ++ drained))
  unfolding flush_loop
  flush_loop-column size rs drained d c h stays =
      let first : IsExact (pos c) (emptied 0 d) = record {
        nonneg = omega arith;
        stored = c;
        holds = h;
        sum =
            ap (λ (x : ℤ). pos c +ℤ x) (value_at-emptied col v 0 d) ∙ add_zero (pos c) (pos 0) refl;
        none_buffered = λ _. value_at-emptied col v 0 d;
      } in
      let (ran, rest) = run-IsExact size rs drained stays first in
      let before = drain-IsExact drained rest ran in
      let (n, holds, value) =
        settled (flush-IsExact before)
          (flush-none_buffered (drain t drained (run t size (emptied 0 d) rs))) in
      (n, holds, value ∙ sym (summed-append (pos c) (items rs) drained))
