-- ===== src/Service/Follow.antt =====
-- internal/service/follow_service.go. The user repository is its method `FindByID`.
pub mod Rows
pub mod Pages
pub mod Outcome
pub mod Following
pub mod Unfollowing
use cooking_platform.Prelude.{
  ℕ, suc, ◌-◌, Bool, true, false, not, Option, none, some, List, [], ◌∷◌, map, ltb, leb, ◌==◌, min,
  if◌then◌else◌, length, take,
}
use cooking_platform.Prelude.Int.{ℤ, pos, negsuc}
use cooking_platform.Prelude.Text.{Bytes}
use cooking_platform.Strconv.{format_int, parse_int}
use cooking_platform.Errcode.{
  GoError, app, wrapped, is_user_missing, user_not_found, cannot_follow_self, follow_limit_exceeded,
  follow_not_found, follow_cursor_invalid,
}
use cooking_platform.Action.{Result, ok, err, Action, ◌>>=◌, ◌>>◌, pure, fail, map_error, wrap}
use cooking_platform.Model.{User}
use cooking_platform.Events.{
  Event, Stamp, follow_event, unfollow_event, topic_follow, topic_unfollow,
}
use cooking_platform.Cache.Marker.{MarkerRedis, mark, has}
use cooking_platform.Repository.Follows.{
  FollowUser, JoinDir, followers, following, FollowTable, create, delete, exists, count_following,
  list_join,
}
use cooking_platform.Service.World.{World, in_redis, in_db, publish}

-- `dto.UserBrief`, `dto.FollowListResp`; `dto.FollowActionResp` is its one field
pub record UserBrief : Type 0 where
  pub id : ℕ
  pub nickname : Bytes
  pub avatar_url : Bytes

pub record FollowListResp : Type 0 where
  pub users : List UserBrief
  pub next_cursor : Bytes
  pub has_more : Bool

-- the error of `FindByID`
unfoldable pub target_error : GoError → GoError
unfolding is_user_missing
target_error e = if is_user_missing e then app user_not_found else wrapped e

-- the envelopes of `publishFollowEvent` and `publishUnfollowEvent`
unfoldable pub followed : Stamp → ℕ → ℕ → Event
followed s follower_id following_id = record {
  id = s.id;
  topic = topic_follow;
  timestamp = s.now;
  payload = follow_event follower_id following_id;
}

unfoldable pub unfollowed : Stamp → ℕ → ℕ → Event
unfollowed s follower_id following_id = record {
  id = s.id;
  topic = topic_unfollow;
  timestamp = s.now;
  payload = unfollow_event follower_id following_id;
}

-- the test on the parsed id
abbrev valid_cursor : Option ℤ → Result ℕ
valid_cursor (some (pos n)) = if leb n 0 then err (app follow_cursor_invalid) else ok n
valid_cursor _ = err (app follow_cursor_invalid)

-- `parseFollowCursor`
unfoldable pub parse_follow_cursor : Bytes → Result ℕ
parse_follow_cursor [] = ok 0
parse_follow_cursor (c ∷ s) = valid_cursor (parse_int (c ∷ s))

-- `clampFollowListSize`
unfoldable pub clamp_follow_list_size : ℕ → ℕ → ℤ → ℕ
clamp_follow_list_size default_size max_size (negsuc n) = default_size
clamp_follow_list_size default_size max_size (pos n) =
    if leb n 0 then default_size else if ltb max_size n then max_size else n

abbrev pub brief : FollowUser → UserBrief
brief r = record { id = r.user_id; nickname = r.nickname; avatar_url = r.avatar_url }

-- the id of the last row, printed
abbrev pub last_cursor : List FollowUser → Bytes
last_cursor [] = []
last_cursor (r ∷ []) = format_int r.follow_id
last_cursor (r ∷ r' ∷ rs) = last_cursor (r' ∷ rs)

-- `buildFollowListResp`
unfoldable pub build_follow_list_resp : List FollowUser → ℕ → FollowListResp
build_follow_list_resp rows size =
    let more = ltb size (length rows) in
    let kept = if more then take size rows else rows in
    record {
      users = map brief kept;
      next_cursor = if more then last_cursor kept else [];
      has_more = more;
    }

module _ {R D : Type 0} (m : MarkerRedis R) (ttl : ℕ) (t : FollowTable D)
    (find_by_id : ℕ → Action D User) where
  -- what follows an insertion of a new row, and a deletion
  abbrev pub announce : ℕ → ℕ → Event → Action (World R D) (Unit {0})
  announce follower_id target_id e = do
    in_redis (mark m ttl follower_id)
    in_redis (mark m ttl target_id)
    publish e

  abbrev pub announce_if : Bool → ℕ → ℕ → Event → Action (World R D) Bool
  announce_if true follower_id target_id e = announce follower_id target_id e >> pure true
  announce_if false follower_id target_id e = pure true

  -- `Follow` from the insertion on
  abbrev pub create_edge : Stamp → ℕ → ℕ → Action (World R D) Bool
  create_edge stamp follower_id target_id = do
    inserted ← wrap (in_db (create t follower_id target_id))
    announce_if inserted follower_id target_id (followed stamp follower_id target_id)

  -- from the test of the cap on
  abbrev pub below_cap : ℕ → Stamp → ℕ → ℕ → Action (World R D) Bool
  below_cap max_following stamp follower_id target_id = do
    cnt ← wrap (in_db (count_following t false follower_id))
    if leb max_following cnt
        then fail (app follow_limit_exceeded)
        else create_edge stamp follower_id target_id

  -- from the query of the target on
  abbrev pub follow_other : ℕ → Stamp → ℕ → ℕ → Action (World R D) Bool
  follow_other max_following stamp follower_id target_id = do
    target ← map_error target_error (in_db (find_by_id target_id))
    already ← wrap (in_db (exists t false follower_id target_id))
    if already then pure true else below_cap max_following stamp follower_id target_id

  -- `Follow`
  unfoldable pub follow : ℕ → Stamp → ℕ → ℕ → Action (World R D) Bool
  follow max_following stamp follower_id target_id =
      if follower_id == target_id
      then fail (app cannot_follow_self)
      else follow_other max_following stamp follower_id target_id

  -- `Unfollow`
  unfoldable pub unfollow : Stamp → ℕ → ℕ → Action (World R D) Bool
  unfollow stamp follower_id target_id = do
    deleted ← wrap (in_db (delete t follower_id target_id))
    if not deleted
        then fail (app follow_not_found)
        else announce follower_id target_id (unfollowed stamp follower_id target_id) >> pure false

  abbrev pub give : {S A : Type 0} → Result A → Action S A
  give r s = (r, s)

  -- `ListFollowers` and `ListFollowing`, which differ in the query
  unfoldable pub list_follow : JoinDir → ℕ → ℕ → ℕ → Bytes → ℤ → Action (World R D) FollowListResp
  list_follow dir default_size max_size target_id cursor size = do
    cursor_follow_id ← give (parse_follow_cursor cursor)
    force ← in_redis (has m ttl target_id)
    rows ← wrap (
        in_db (
          list_join t force dir target_id cursor_follow_id
            (suc (clamp_follow_list_size default_size max_size size))))
    pure (build_follow_list_resp rows (clamp_follow_list_size default_size max_size size))
