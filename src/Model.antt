-- ===== src/Model.antt =====
-- internal/model: the rows of the tables. Times are Unix milliseconds; `deleted_at` is behind the
-- query scope of the ORM and is not a field here.
pub mod SceneTag
use cooking_platform.Prelude.{ℕ, List}
use cooking_platform.Prelude.Text.{Bytes}

pub record Post : Type 0 where
  pub id : ℕ
  pub user_id : ℕ
  pub title : Bytes
  pub content : Bytes
  pub scene_tag : ℕ
  pub cook_duration : ℕ
  pub cover_url : Bytes
  pub like_count : ℕ
  pub view_count : ℕ
  pub is_visible : ℕ
  pub audit_status : ℕ
  pub audit_remark : Bytes
  pub created_at : ℕ
  pub updated_at : ℕ

abbrev pub audit_status_pending : ℕ
audit_status_pending = 0

abbrev pub audit_status_machine_pass : ℕ
audit_status_machine_pass = 1

abbrev pub post_invisible : ℕ
post_invisible = 0

abbrev pub post_visible : ℕ
post_visible = 1

abbrev pub user_status_normal : ℕ
user_status_normal = 0

abbrev pub user_status_banned : ℕ
user_status_banned = 1

pub record User : Type 0 where
  pub id : ℕ
  pub phone_hash : Bytes
  pub phone_encrypted : Bytes
  pub nickname : Bytes
  pub avatar_url : Bytes
  pub bio : Bytes
  pub status : ℕ
  pub post_count : ℕ
  pub total_likes : ℕ
  pub follower_count : ℕ
  pub following_count : ℕ
  pub created_at : ℕ
  pub updated_at : ℕ

-- `post_steps`
pub record PostStep : Type 0 where
  pub id : ℕ
  pub post_id : ℕ
  pub step_no : ℕ
  pub text : Bytes
  pub image_urls : List Bytes
  pub created_at : ℕ
