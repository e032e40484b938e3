-- ===== src/Service/Like.antt =====
-- internal/service/like_service.go. The post repository is its interface, of which the service uses
-- `FindByID`.
pub mod Outcome
pub mod Liking
pub mod Unliking
pub mod Trace
use cooking_platform.Prelude.{ℕ, Bool, true, false, if◌then◌else◌}
use cooking_platform.Errcode.{GoError, app, wrapped, post_not_found, is_post_missing}
use cooking_platform.Action.{Result, ok, err, Action, ◌>>=◌, ◌>>◌, pure, map_error, wrap}
use cooking_platform.Model.{Post}
use cooking_platform.Events.{Event, Stamp, like_event, unlike_event, topic_like, topic_unlike}
use cooking_platform.Cache.Redis.{Redis}
use cooking_platform.Cache.Like
use cooking_platform.Service.World.{World, in_redis, in_db, publish}

-- `dto.LikeResp`
pub record LikeResp : Type 0 where
  pub liked : Bool
  pub count : ℕ

-- what an error of `FindByID` becomes
unfoldable pub find_error : GoError → GoError
unfolding is_post_missing
find_error e = if is_post_missing e then app post_not_found else wrapped e

-- the envelopes of `publishLikeEvent` and `publishUnlikeEvent`
unfoldable pub liked_event : Stamp → ℕ → ℕ → ℕ → Event
liked_event s user_id post_id author_id = record {
  id = s.id;
  topic = topic_like;
  timestamp = s.now;
  payload = like_event user_id post_id author_id;
}

unfoldable pub unliked_event : Stamp → ℕ → ℕ → ℕ → Event
unliked_event s user_id post_id author_id = record {
  id = s.id;
  topic = topic_unlike;
  timestamp = s.now;
  payload = unlike_event user_id post_id author_id;
}

module _ {R D : Type 0} (r : Redis R) (ttl : ℕ) (find_by_id : ℕ → Action D Post) where
  abbrev pub find_post : ℕ → Action (World R D) Post
  find_post post_id = map_error find_error (in_db (find_by_id post_id))

  -- the branch that finds nothing to change
  abbrev pub current : Bool → ℕ → Action (World R D) LikeResp
  current liked post_id = do
    count ← wrap (in_redis (Like.get_like_count r post_id))
    pure (record { liked = liked; count = count })

  -- the branch that changes the state, and publishes
  abbrev pub do_like : Stamp → ℕ → ℕ → Post → Action (World R D) LikeResp
  do_like stamp user_id post_id post = do
    count ← wrap (in_redis (Like.add_like r ttl post_id user_id))
    publish (liked_event stamp user_id post_id post.user_id)
    pure (record { liked = true; count = count })

  abbrev pub do_unlike : Stamp → ℕ → ℕ → Post → Action (World R D) LikeResp
  do_unlike stamp user_id post_id post = do
    count ← wrap (in_redis (Like.remove_like r ttl post_id user_id))
    publish (unliked_event stamp user_id post_id post.user_id)
    pure (record { liked = false; count = count })

  abbrev pub probe_liked : ℕ → ℕ → Action (World R D) Bool
  probe_liked post_id user_id = wrap (in_redis (Like.has_liked r post_id user_id))

  -- `Like`
  unfoldable pub like : Stamp → ℕ → ℕ → Action (World R D) LikeResp
  like stamp user_id post_id = do
    post ← find_post post_id
    already ← probe_liked post_id user_id
    if already then current true post_id else do_like stamp user_id post_id post

  -- `Unlike`
  unfoldable pub unlike : Stamp → ℕ → ℕ → Action (World R D) LikeResp
  unlike stamp user_id post_id = do
    post ← find_post post_id
    already ← probe_liked post_id user_id
    if already then do_unlike stamp user_id post_id post else current false post_id

  -- `GetLikeStatus`
  unfoldable pub get_like_status : ℕ → ℕ → Action (World R D) LikeResp
  get_like_status user_id post_id = do
    post ← find_post post_id
    liked ← probe_liked post_id user_id
    current liked post_id
