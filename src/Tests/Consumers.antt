-- ===== src/Tests/Consumers.antt =====
-- The theorems on the view and the count consumer, at small tables and a small Redis.
use cooking_platform.Prelude.{
  ℕ, ◌+◌, ◌≡◌, refl, sym, ap, Bool, true, ◌||◌, not, Option, none, some, List, [], ◌∷◌, ◌++◌, ◌==◌,
  arith, if◌then◌else◌, length, any, Bool-cases, inl, inr,
}
use mathlib.Core.Option
use cooking_platform.Prelude.Int.{pos, negsuc, ◌+ℤ◌}
use cooking_platform.Prelude.Text.{Bytes, codes, bytes_eq, bytes_eq→eq}
use cooking_platform.Action.{Result, ok}
use cooking_platform.Events.{topic_pv}
use cooking_platform.Cache.Dedup.{DedupRedis, DedupLaws, key_event_dedup, accept}
use cooking_platform.Consumer.Signal.{Signal, item, tick, items}
use cooking_platform.Consumer.View
use cooking_platform.Consumer.View.{ViewTable, ViewTableLaws, ViewsAreUp}
use cooking_platform.Consumer.View.Totals.{views, flush_loop-view_count}
use cooking_platform.Consumer.View.Handler.{
  Choice, pushed, done, ViewEvent, handle_all, first_of_each, handle_all-pushes,
}
use cooking_platform.Consumer.Count
use cooking_platform.Consumer.Count.{
  CountDelta, no_delta, Column, posts, followers, same_column, deltas_of, value_at, UserTable,
  UserTableLaws, UsersAreUp, clamped, assigned, CountState, flush_users, all_users,
}
use cooking_platform.Consumer.Count.Exact.{summed, StaysUp, flush_loop-column}

-- the view counters, in memory
abbrev Views : Type 0
Views = ℕ → Option ℕ

abbrev memory_views : ViewTable Views
memory_views = record {
  add_view_count = λ n p d. (ok tt, λ q. if p == q then Option.map (λ c. c + n) (d q) else d q);
  view_count = λ p d. d p;
}

memory_views-laws : ViewTableLaws memory_views
memory_views-laws = record {
  view_count-add = λ n p d d' q h. ap (λ (x : Result (Unit {0}) × Views). x.1 q) (sym h);
}

memory_views-up : ViewsAreUp memory_views
memory_views-up n p d = ((memory_views.add_view_count n p d).1, refl)

abbrev two_posts : Views
two_posts p = if p == 5 then some 10 else if p == 6 then some 0 else none

abbrev received : List (Signal ℕ)
received = item 5 ∷ tick ∷ item 6 ∷ item 5 ∷ item 7 ∷ []

flush_loop-view_count_example :
    let s = View.flush_loop memory_views 2 received (5 ∷ []) two_posts in
    ((p : ℕ)
      → memory_views.view_count p s.db
        ≡ Option.map
            (λ c. c + views p (items received ++ 5 ∷ []))
            (memory_views.view_count p two_posts))
    × (s.total_processed ≡ length (items received ++ 5 ∷ []))
flush_loop-view_count_example =
    flush_loop-view_count memory_views-laws memory_views-up 2 received (5 ∷ []) two_posts

-- the markers, in memory
abbrev marked : Bytes → List Bytes → Bool
marked k = any (λ x. bytes_eq x k)

abbrev remember : Bytes → ℕ → List Bytes → List Bytes
remember k ttl s = if marked k s then s else k ∷ s

abbrev memory_dedup : DedupRedis (List Bytes)
memory_dedup = record {
  set_nx = λ k ttl s. (ok (not (marked k s)), remember k ttl s);
  present = marked;
}

marked_same : (k j : Bytes) (s : List Bytes) → bytes_eq k j ≡ true → marked k s ≡ marked j s
marked_same k j s h = ap (λ (b : Bytes). marked b s) (bytes_eq→eq k j h)

marked-remember :
    (k : Bytes) (ttl : ℕ) (s : List Bytes) (j : Bytes)
    → marked j (remember k ttl s) ≡ (bytes_eq k j || marked j s)
marked-remember k ttl s j = elim (Bool-cases (marked k s)) [
  | inl there ↦ rw there (ground (arith, marked_same k j s, there))
  | inr fresh ↦ rw fresh refl
]

memory_dedup-laws : DedupLaws memory_dedup
memory_dedup-laws = record {
  after = remember;
  answers = λ k ttl s. refl;
  present-after = marked-remember;
}

abbrev once : ViewEvent
once = record { event_id = codes "a"; post_id = 5 }

abbrev other_event : ViewEvent
other_event = record { event_id = codes "b"; post_id = 5 }

-- the second event is dropped at the end of the context, and its redelivery too
abbrev deliveries : List (ViewEvent × Choice)
deliveries = (once, pushed) ∷ (other_event, done) ∷ (once, pushed) ∷ (other_event, pushed) ∷ []

redelivered_once : (handle_all memory_dedup 60 deliveries []).0 ≡ 5 ∷ []
unfolding handle_all accept bytes_eq key_event_dedup
redelivered_once = refl

handle_all-pushes_example :
    (handle_all memory_dedup 60 deliveries []).0
    ≡ first_of_each (λ j. memory_dedup.present (key_event_dedup topic_pv j) []) deliveries
handle_all-pushes_example =
    handle_all-pushes memory_dedup-laws 60 deliveries [] (cc, (cc, (cc, (cc, tt))))

-- the counters of users, in memory
abbrev Counters : Type 0
Counters = Column → ℕ → Option ℕ

abbrev memory_users : UserTable Counters
memory_users = record {
  update_user = λ cs u d.
      (ok tt, λ col v. if u == v then Option.map (assigned col cs) (d col v) else d col v);
  column = λ col v d. d col v;
}

memory_users-laws : UserTableLaws memory_users
memory_users-laws = record {
  column-update = λ cs u d d' col v h. ap (λ (x : Result (Unit {0}) × Counters). x.1 col v) (sym h);
}

memory_users-up : UsersAreUp memory_users
memory_users-up cs u d = ((memory_users.update_user cs u d).1, refl)

abbrev two_each : Counters
two_each col v = some 2

abbrev followed_user : CountDelta
followed_user = record (no_delta 9) { follower_count = pos 1 }

abbrev unfollowed_user : CountDelta
unfollowed_user = record (no_delta 9) { follower_count = negsuc 0 }

abbrev deltas : List (Signal CountDelta)
deltas = item followed_user ∷ item unfollowed_user ∷ tick ∷ item unfollowed_user ∷ []

followers_left :
    (Count.flush_loop memory_users 2 deltas (unfollowed_user ∷ []) two_each).db followers 9 ≡ some 0
unfolding Count.flush_loop ◌+ℤ◌ same_column
followers_left = refl

stays_up : StaysUp followers 9 (pos 2) (items deltas ++ unfollowed_user ∷ [])
unfolding ◌+ℤ◌
stays_up = (omega arith, (omega arith, (omega arith, (omega arith, tt))))

flush_loop-column_example :
    (n : ℕ) × (memory_users.column followers 9
        (Count.flush_loop memory_users 2 deltas (unfollowed_user ∷ []) two_each).db
      ≡ some n)
    × (pos n ≡ summed followers 9 (pos 2) (items deltas ++ unfollowed_user ∷ []))
flush_loop-column_example =
    flush_loop-column memory_users-laws memory_users-up followers 9 2 deltas (unfollowed_user ∷ [])
      two_each 2 refl stays_up
