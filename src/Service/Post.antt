-- ===== src/Service/Post.antt =====
-- internal/service/post_service.go: what its methods share. Redis, MySQL and the events handed to the
-- bus are one `World`.
pub mod Writing
pub mod Reading
pub mod Feed
pub mod Pages
use cooking_platform.Prelude.{
  ℕ, Bool, ◌&&◌, Option, none, some, List, [], ◌∷◌, ◌++◌, ltb, leb, if◌then◌else◌, length,
}
use cooking_platform.Prelude.Int.{ℤ, pos, negsuc}
use cooking_platform.Prelude.Text.{Bytes, codes}
use cooking_platform.Strconv.{format_int, parse_int}
use cooking_platform.Strings.{split}
use cooking_platform.Errcode.{GoError, app, wrapped, other, is_post_missing, post_not_found}
use cooking_platform.Action.{Result, ok, err, Action}
use cooking_platform.Events.{
  Event, Stamp, post_event, post_deleted_event, pv_event, audit_event, topic_post,
  topic_post_deleted, topic_pv, topic_audit,
}
use cooking_platform.Model.{Post, audit_status_pending}
use cooking_platform.Cache.Redis.{Redis}
use cooking_platform.Cache.Marker.{MarkerRedis}
use cooking_platform.Cache.Feed.{FeedRedis, bump_feed_version}
use cooking_platform.Repository.Users.{UserTable}
use cooking_platform.Repository.Posts.{PostTable}
use cooking_platform.Service.World.{World, in_redis}
use cooking_platform.Service.Authors.{PostListItem}

-- `PostService`, with its configuration
pub record PostEnv (R D : Type 0) : Type 0 where
  pub posts : PostTable D
  pub users : UserTable D
  pub feed : FeedRedis R
  pub likes : Redis R
  pub marker : MarkerRedis R
  pub sha256_hex : Bytes → Bytes
  pub url_prefix : Bytes
  pub marker_ttl : ℕ
  pub feed_cache_ttl : ℕ
  pub pv_dedup_ttl : ℕ

-- `dto.FeedResp`
pub record FeedResp : Type 0 where
  pub posts : List PostListItem
  pub next_cursor : Bytes
  pub has_more : Bool

abbrev pub positive_cursor : Option ℤ → Result ℕ
positive_cursor (some (pos n)) = if leb n 0 then err other else ok n
positive_cursor _ = err other

-- `parseCursor`: the millisecond, and 0 for the zero time
unfoldable pub parse_cursor : Bytes → Result ℕ
parse_cursor [] = ok 0
parse_cursor (c ∷ s) = positive_cursor (parse_int (c ∷ s))

-- the printed time of the last post
abbrev pub last_created_at : List Post → Bytes
last_created_at [] = []
last_created_at (p ∷ []) = format_int p.created_at
last_created_at (p ∷ p' ∷ ps) = last_created_at (p' ∷ ps)

-- `nextCursorOf`
unfoldable pub next_cursor_of : List Post → ℕ → Bytes
next_cursor_of posts size = if ltb (length posts) size then [] else last_created_at posts

-- `normaliseSize`
unfoldable pub normalise_size : ℤ → ℕ
normalise_size (negsuc n) = 20
normalise_size (pos n) = if leb n 0 then 20 else if ltb 50 n then 50 else n

abbrev pub first_two : List Bytes → Bytes
first_two (a ∷ b ∷ c ∷ d ∷ []) = a ++ codes "." ++ b ++ codes ".*.*"
first_two _ = []

-- `maskIP`
unfoldable pub mask_ip : Bytes → Bytes
mask_ip ip = first_two (split b'.' ip)

-- the error of `FindByID`
abbrev pub post_error : GoError → GoError
post_error e = if is_post_missing e then app post_not_found else wrapped e

-- the envelopes of the four `publish…` and `record…` methods
unfoldable pub posted : Stamp → Post → Event
posted s p = record {
  id = s.id;
  topic = topic_post;
  timestamp = s.now;
  payload = post_event p.id p.user_id p.scene_tag;
}

unfoldable pub post_deleted : Stamp → Post → Event
post_deleted s p = record {
  id = s.id;
  topic = topic_post_deleted;
  timestamp = s.now;
  payload = post_deleted_event p.id p.user_id;
}

unfoldable pub audit_requested : Stamp → Post → Event
audit_requested s p = record {
  id = s.id;
  topic = topic_audit;
  timestamp = s.now;
  payload = audit_event p.id p.user_id audit_status_pending;
}

unfoldable pub page_viewed : Stamp → ℕ → ℕ → Bytes → Event
unfolding mask_ip
page_viewed s post_id viewer_id viewer_ip = record {
  id = s.id;
  topic = topic_pv;
  timestamp = s.now;
  payload = pv_event post_id viewer_id (mask_ip viewer_ip);
}

-- `bumpFeedVersion`, whose error is logged
abbrev pub bump : {R D : Type 0} → PostEnv R D → Action (World R D) (Unit {0})
bump env w = (ok tt, (in_redis (bump_feed_version env.feed) w).1)
