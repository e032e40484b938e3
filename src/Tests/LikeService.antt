-- ===== src/Tests/LikeService.antt =====
-- The theorems on the like cache and the like service, at a small Redis.
use cooking_platform.Prelude.{ℕ, ◌≡◌, refl, true, false, none, [], ◌==◌, arith, if◌then◌else◌}
use cooking_platform.Prelude.Int.{◌+ℤ◌, ◌-ℤ◌}
use cooking_platform.Prelude.Text.{codes, bytes_eq}
use cooking_platform.Strconv.{format_int}
use cooking_platform.Errcode.{row_missing}
use cooking_platform.Action.{ok, err, Action}
use cooking_platform.Model.{Post}
use cooking_platform.Events.{Stamp}
use cooking_platform.Cache.Like.{key_like_set, key_like_count, has_liked, add_like, remove_like}
use cooking_platform.Cache.Like.Effects.{Removed}
use cooking_platform.Cache.Like.Removing.{remove_like-eq-ok}
use cooking_platform.Service.World.{World}
use cooking_platform.Service.Like.{LikeResp, like, unlike}
use cooking_platform.Service.Like.Outcome.{LikeOutcome, UnlikeOutcome}
use cooking_platform.Service.Like.Liking.{like-eq-ok}
use cooking_platform.Service.Like.Unliking.{unlike-eq-ok}
use cooking_platform.Service.Like.Trace.{
  Answered, none_yet, then_like, then_unlike, Agrees, Told, Answered-Agrees, Answered-Told,
}
use cooking_platform.Tests.MemoryRedis.{Memory, memory, memory-laws}

abbrev empty : Memory
empty = record { sets = λ k. []; ints = λ k. none }

abbrev soup : Post
soup = record {
  id = 5;
  user_id = 9;
  title = codes "soup";
  content = [];
  scene_tag = 0;
  cook_duration = 0;
  cover_url = [];
  like_count = 0;
  view_count = 0;
  is_visible = 1;
  audit_status = 1;
  audit_remark = [];
  created_at = 0;
  updated_at = 0;
}

-- the table of posts holds one post
abbrev find_by_id : ℕ → Action Unit Post
find_by_id p d = if p == 5 then (ok soup, d) else (err row_missing, d)

abbrev stamp : Stamp
stamp = record { id = codes "e1"; now = 7 }

abbrev before : World Memory Unit
before = record { redis = empty; db = tt; outbox = [] }

abbrev one : LikeResp
one = record { liked = true; count = 1 }

abbrev zero_left : LikeResp
zero_left = record { liked = false; count = 0 }

abbrev after_like : World Memory Unit
after_like = (like memory 60 find_by_id stamp 1 5 before).1

abbrev after_unlike : World Memory Unit
after_unlike = (unlike memory 60 find_by_id stamp 1 5 after_like).1

like_runs : like memory 60 find_by_id stamp 1 5 before ≡ (ok one, after_like)
unfolding like has_liked add_like ◌+ℤ◌
like_runs = refl

unlike_runs : unlike memory 60 find_by_id stamp 1 5 after_like ≡ (ok zero_left, after_unlike)
unfolding like unlike has_liked add_like bytes_eq key_like_set format_int remove_like key_like_count
    ◌+ℤ◌ ◌-ℤ◌
unlike_runs = refl

like-eq-ok_example : LikeOutcome memory find_by_id stamp 1 5 before after_like one
like-eq-ok_example =
    like-eq-ok memory-laws 60 (omega arith) find_by_id stamp 1 5 before after_like one like_runs

unlike-eq-ok_example : UnlikeOutcome memory find_by_id stamp 1 5 after_like after_unlike zero_left
unlike-eq-ok_example =
    unlike-eq-ok memory-laws 60 (omega arith) find_by_id stamp 1 5 after_like after_unlike zero_left
      unlike_runs

calls : Answered memory 60 find_by_id before after_unlike
calls = then_unlike stamp 1 5 zero_left (then_like stamp 1 5 one none_yet like_runs) unlike_runs

before-Agrees : Agrees memory empty
before-Agrees q = refl

Answered-Agrees_example : Agrees memory after_unlike.redis
Answered-Agrees_example =
    Answered-Agrees memory-laws 60 (omega arith) find_by_id calls before-Agrees

Answered-Told_example : Told memory before after_unlike
Answered-Told_example = Answered-Told memory-laws 60 (omega arith) find_by_id calls

abbrev with_one : Memory
with_one = (add_like memory 60 5 1 empty).1

add_runs : add_like memory 60 5 1 empty ≡ (ok 1, with_one)
unfolding add_like ◌+ℤ◌
add_runs = refl

remove_runs : remove_like memory 60 5 2 with_one ≡ (ok 0, (remove_like memory 60 5 2 with_one).1)
unfolding add_like remove_like bytes_eq key_like_set format_int key_like_count ◌+ℤ◌ ◌-ℤ◌
remove_runs = refl

-- user 2 is not in the set, and the counter falls all the same
remove_like-eq-ok_example : Removed memory 5 2 with_one (remove_like memory 60 5 2 with_one).1 0
remove_like-eq-ok_example =
    remove_like-eq-ok memory-laws 60 (omega arith) 5 2 with_one
      (remove_like memory 60 5 2 with_one).1 0 remove_runs
