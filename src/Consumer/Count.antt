-- ===== src/Consumer/Count.antt =====
-- internal/consumer/count_consumer.go: signed deltas of the counters of users, summed up per user
-- and written in batches. Metrics and log lines are left out; the UPDATE is a parameter.
pub mod Clauses
pub mod Users
pub mod Columns
pub mod Exact
use cooking_platform.Prelude.{
  ℕ, suc, ◌+◌, ◌≡◌, Bool, true, false, Option, List, [], ◌∷◌, ◌++◌, ltb, leb, ◌==◌, if◌then◌else◌,
  elem,
}
use cooking_platform.Prelude.Int.{ℤ, pos, negsuc, ◌+ℤ◌, pos_part}
use mathlib.Core.Option
use cooking_platform.Action.{Result, ok, err, Action}
use cooking_platform.Events.{
  Payload, like_event, unlike_event, follow_event, unfollow_event, post_event, post_deleted_event,
}
use cooking_platform.Consumer.Signal.{Signal, item, tick}

-- `countDelta`
pub record CountDelta : Type 0 where
  pub user_id : ℕ
  pub post_count : ℤ
  pub total_likes : ℤ
  pub follower_count : ℤ
  pub following_count : ℤ

-- the four columns
pub data Column : Type 0 where
  posts likes followers followings : Column

unfoldable pub same_column : Column → Column → Bool
same_column posts posts = true
same_column likes likes = true
same_column followers followers = true
same_column followings followings = true
same_column _ _ = false

abbrev pub no_delta : ℕ → CountDelta
no_delta user = record {
  user_id = user;
  post_count = pos 0;
  total_likes = pos 0;
  follower_count = pos 0;
  following_count = pos 0;
}

-- what the six handlers of `Start` push on the channel for a payload
unfoldable pub deltas_of : Payload → List CountDelta
deltas_of (post_event post author tag) = record (no_delta author) { post_count = pos 1 } ∷ []
deltas_of (post_deleted_event post author) = record (no_delta author) { post_count = negsuc 0 } ∷ []
deltas_of (like_event user post author) = record (no_delta author) { total_likes = pos 1 } ∷ []
deltas_of (unlike_event user post author) = record (no_delta author) { total_likes = negsuc 0 } ∷ []
deltas_of (follow_event follower followed) =
    record (no_delta follower) { following_count = pos 1 }
    ∷ record (no_delta followed) { follower_count = pos 1 }
    ∷ []
deltas_of (unfollow_event follower followed) =
    record (no_delta follower) { following_count = negsuc 0 }
    ∷ record (no_delta followed) { follower_count = negsuc 0 }
    ∷ []
deltas_of _ = []

-- a `map[int64]int64`, in an order of its keys
abbrev pub Deltas : Type 0
Deltas = List (ℕ × ℤ)

-- `m[user] += delta`, and `m[user]` with 0 for a missing key
unfoldable pub add_delta : ℕ → ℤ → Deltas → Deltas
add_delta user delta [] = (user, delta) ∷ []
add_delta user delta ((u, d) ∷ m) =
    if u == user then (u, d +ℤ delta) ∷ m else (u, d) ∷ add_delta user delta m

abbrev pub value_at : ℕ → Deltas → ℤ
value_at user [] = pos 0
value_at user ((u, d) ∷ m) = if u == user then d else value_at user m

abbrev pub is_zero : ℤ → Bool
is_zero (pos n) = leb n 0
is_zero (negsuc n) = false

pub record UserTable (D : Type 0) : Type 0 where
  -- UPDATE users SET c = GREATEST(0, CAST(c AS SIGNED) + ?), … WHERE id = ?
  pub update_user : List (Column × ℤ) → ℕ → Action D (Unit {0})
  -- a counter of an existing user
  pub column : Column → ℕ → D → Option ℕ

-- `GREATEST(0, CAST(c AS SIGNED) + ?)`, and the clauses of one statement that name a column
abbrev pub clamped : ℕ → ℤ → ℕ
clamped c delta = pos_part (pos c +ℤ delta)

abbrev pub assigned : Column → List (Column × ℤ) → ℕ → ℕ
assigned col [] c = c
assigned col ((k, delta) ∷ cs) c =
    assigned col cs (if same_column k col then clamped c delta else c)

pub record UserTableLaws {D : Type 0} (t : UserTable D) : Type 0 where
  pub column-update :
      (cs : List (Column × ℤ)) (u : ℕ) (d d' : D) (col : Column) (v : ℕ)
      → t.update_user cs u d ≡ (ok tt, d')
      → t.column col v d'
        ≡ (if u == v then Option.map (assigned col cs) (t.column col v d) else t.column col v d)

-- No statement fails.
abbrev pub UsersAreUp : {D : Type 0} → UserTable D → Type 0
UsersAreUp {D} t =
    (cs : List (Column × ℤ)) (u : ℕ) (d : D) → (d' : D) × (t.update_user cs u d ≡ (ok tt, d'))

-- the variables of `flushLoop`, with the tables that it writes to
pub record CountState (D : Type 0) : Type 0 where
  pub post_deltas : Deltas
  pub like_deltas : Deltas
  pub follower_deltas : Deltas
  pub following_deltas : Deltas
  pub buf_count : ℕ
  pub total_processed : ℕ
  pub db : D

-- `absInt64`
abbrev pub abs_int64 : ℤ → ℕ
abs_int64 (pos n) = n
abs_int64 (negsuc n) = suc n

-- `allUsers[uid] = struct{}{}` for the keys of a map
unfoldable pub add_users : Deltas → List ℕ → List ℕ
add_users [] users = users
add_users ((u, d) ∷ m) users = add_users m (if elem u users then users else u ∷ users)

-- a clause for a delta that is not 0
abbrev pub clause : Column → ℤ → List (Column × ℤ)
clause col delta = if is_zero delta then [] else (col, delta) ∷ []

module _ {D : Type 0} (t : UserTable D) where
  -- the clauses for one user
  unfoldable pub set_clauses : CountState D → ℕ → List (Column × ℤ)
  set_clauses s u =
      clause posts (value_at u s.post_deltas)
      ++ (clause likes (value_at u s.like_deltas)
          ++ (clause followers (value_at u s.follower_deltas)
              ++ clause followings (value_at u s.following_deltas)))

  -- the sum of the absolute deltas of one user
  abbrev pub handled : CountState D → ℕ → ℕ
  handled s u =
      abs_int64 (value_at u s.post_deltas)
      + abs_int64 (value_at u s.like_deltas)
      + abs_int64 (value_at u s.follower_deltas)
      + abs_int64 (value_at u s.following_deltas)

  -- a failed update is logged and not counted
  abbrev pub gained : Result (Unit {0}) → ℕ → ℕ
  gained (ok _) n = n
  gained (err e) n = 0

  -- one round of the loop over the users: no statement without clauses
  update_one : List (Column × ℤ) → ℕ → ℕ → D → ℕ × D
  update_one [] n u d = (0, d)
  update_one (c ∷ cs) n u d = let (r, d') = t.update_user (c ∷ cs) u d in (gained r n, d')

  unfoldable pub flush_users : CountState D → List ℕ → D → ℕ × D
  unfolding update_one set_clauses
  flush_users s [] d = (0, d)
  flush_users s (u ∷ us) d =
      let (n, d') = update_one (set_clauses s u) (handled s u) u d in
      let (m, d'') = flush_users s us d' in (n + m, d'')

  -- `flush`
  unfoldable pub all_users : CountState D → List ℕ
  unfolding add_users
  all_users s =
      add_users s.following_deltas
        (add_users s.follower_deltas (add_users s.like_deltas (add_users s.post_deltas [])))

  -- the closure `flush` of the loop
  unfoldable pub flush : CountState D → CountState D
  unfolding flush_users all_users
  flush s =
      let (n, d) = flush_users s (all_users s) s.db in
      let empty : CountState D = record {
        post_deltas = [];
        like_deltas = [];
        follower_deltas = [];
        following_deltas = [];
        buf_count = 0;
        total_processed = s.total_processed + n;
        db = d;
      } in
      if s.buf_count == 0 then s else empty

  -- `apply`
  abbrev pub add_if : ℕ → ℤ → Deltas → Deltas
  add_if user delta m = if is_zero delta then m else add_delta user delta m

  unfoldable pub apply : CountDelta → CountState D → CountState D
  unfolding add_delta
  apply d s = record s {
    post_deltas = add_if d.user_id d.post_count s.post_deltas;
    like_deltas = add_if d.user_id d.total_likes s.like_deltas;
    follower_deltas = add_if d.user_id d.follower_count s.follower_deltas;
    following_deltas = add_if d.user_id d.following_count s.following_deltas;
    buf_count = s.buf_count + 1;
  }

  -- one round of the `for`
  unfoldable pub receive : ℕ → CountState D → Signal CountDelta → CountState D
  unfolding flush apply
  receive batch_size s (item d) =
      let s' = apply d s in if leb batch_size s'.buf_count then flush s' else s'
  receive batch_size s tick = flush s

  unfoldable pub run : ℕ → CountState D → List (Signal CountDelta) → CountState D
  unfolding receive
  run batch_size s [] = s
  run batch_size s (r ∷ rs) = run batch_size (receive batch_size s r) rs

  -- `DrainChan` with `apply`
  unfoldable pub drain : List CountDelta → CountState D → CountState D
  unfolding apply
  drain [] s = s
  drain (d ∷ ds) s = drain ds (apply d s)

  -- `flushLoop`
  unfoldable pub flush_loop : ℕ → List (Signal CountDelta) → List CountDelta → D → CountState D
  unfolding run drain flush
  flush_loop batch_size rs drained d =
      let start : CountState D = record {
        post_deltas = [];
        like_deltas = [];
        follower_deltas = [];
        following_deltas = [];
        buf_count = 0;
        total_processed = 0;
        db = d;
      } in
      flush (drain drained (run batch_size start rs))
