-- ===== src/Service/User.antt =====
-- internal/service/user_service.go: what its methods share. Redis, the database, the sender of text
-- messages and the write marker act on one state.
pub mod Codes
pub mod Login
pub mod Session
pub mod Profile
use cooking_platform.Prelude.{ℕ, Bool, true, false, ◌==◌}
use cooking_platform.Prelude.Text.{Bytes}
use cooking_platform.Errcode.{AppError, app}
use cooking_platform.Action.{Action, pure, fail}
use cooking_platform.Model.{User, user_status_banned}
use cooking_platform.Cache.User.{UserRedis}
use cooking_platform.Cache.Marker.{MarkerRedis}
use cooking_platform.Repository.Users.{UserTable}
use cooking_platform.Repository.Follows.{FollowTable}

-- `UserService`: what acts on the state, and its configuration
pub record UserEnv (W : Type 0) : Type 0 where
  pub redis : UserRedis W
  pub marker : MarkerRedis W
  pub users : UserTable W
  pub follows : FollowTable W
  -- `sms.Sender.SendCode`
  pub send_code : Bytes → Bytes → Action W (Unit {0})

pub record UserConfig : Type 0 where
  pub code_length : ℕ
  pub code_ttl : ℕ
  pub sms_phone_window : ℕ
  pub sms_per_phone_per_day : ℕ
  pub sms_per_ip_per_day : ℕ
  pub sms_daily_ttl : ℕ
  pub url_prefix : Bytes
  pub phone_key : Bytes
  pub phone_pepper : Bytes
  pub marker_ttl : ℕ

-- `dto.UserPublicResp`
pub record UserPublicResp : Type 0 where
  pub id : ℕ
  pub nickname : Bytes
  pub avatar_url : Bytes
  pub bio : Bytes
  pub post_count : ℕ
  pub total_likes : ℕ
  pub follower_count : ℕ
  pub following_count : ℕ
  pub is_following : Bool
  pub created_at : ℕ

-- `toPublicResp`
unfoldable pub to_public_resp : User → UserPublicResp
to_public_resp u = record {
  id = u.id;
  nickname = u.nickname;
  avatar_url = u.avatar_url;
  bio = u.bio;
  post_count = u.post_count;
  total_likes = u.total_likes;
  follower_count = u.follower_count;
  following_count = u.following_count;
  is_following = false;
  created_at = u.created_at;
}

-- `IsBanned`
abbrev pub is_banned : User → Bool
is_banned u = u.status == user_status_banned
