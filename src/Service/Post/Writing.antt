-- ===== src/Service/Post/Writing.antt =====
-- `Create` and `Delete` of internal/service/post_service.go.
pub mod Created
pub mod Deleted
use cooking_platform.Prelude.{
  ℕ, suc, ◌%◌, Bool, true, false, ◌&&◌, not, List, [], ◌∷◌, ltb, ◌==◌, if◌then◌else◌, length,
}
use cooking_platform.Prelude.Text.{Bytes}
use cooking_platform.Strings.{trim_space}
use cooking_platform.Oss.{is_allowed_url, all_allowed}
use cooking_platform.Errcode.{
  app, scene_tag_invalid, title_empty, upload_url_not_allowed, post_steps_invalid, post_forbidden,
  post_not_found,
}
use cooking_platform.Action.{
  require, Result, ok, err, Action, ◌>>=◌, ◌>>◌, pure, fail, wrap, map_error,
}
use cooking_platform.Events.{Stamp}
use cooking_platform.Model.{Post, PostStep, audit_status_pending, post_invisible}
use cooking_platform.Model.SceneTag.{is_valid}
use cooking_platform.Cache.Marker.{mark}
use cooking_platform.Repository.Posts.{
  PostTable, create_with_steps, find_by_id, soft_delete_by_owner,
}
use cooking_platform.Repository.Posts
use cooking_platform.Service.World.{World, in_redis, in_db, publish}
use cooking_platform.Service.Post.{PostEnv, post_error, posted, post_deleted, audit_requested, bump}

-- `dto.PostStepReq`, `dto.CreatePostReq`, `dto.CreatePostResp`
pub record PostStepReq : Type 0 where
  pub text : Bytes
  pub image_urls : List Bytes

pub record CreatePostReq : Type 0 where
  pub title : Bytes
  pub scene_tag : ℕ
  pub content : Bytes
  pub cover_url : Bytes
  pub steps : List PostStepReq

pub record CreatePostResp : Type 0 where
  pub post_id : ℕ
  pub audit_status : ℕ
  pub is_visible : ℕ
  pub created_at : ℕ

abbrev pub is_empty : {A : Type 0} → List A → Bool
is_empty [] = true
is_empty (x ∷ xs) = false

abbrev pub steps_allowed : Bytes → List PostStepReq → Bool
steps_allowed prefix [] = true
steps_allowed prefix (st ∷ steps) = all_allowed st.image_urls prefix && steps_allowed prefix steps

-- the rows of the steps, numbered from `i + 1` in a byte
unfoldable pub build_steps : ℕ → ℕ → List PostStepReq → List PostStep
build_steps now i [] = []
build_steps now i (st ∷ steps) =
    record {
      id = 0;
      post_id = 0;
      step_no = suc i % 256;
      text = st.text;
      image_urls = st.image_urls;
      created_at = now;
    }
    ∷ build_steps now (suc i) steps

-- the row before it is inserted
abbrev pub new_post : ℕ → ℕ → CreatePostReq → Post
new_post now user_id req = record {
  id = 0;
  user_id = user_id;
  title = trim_space req.title;
  content = req.content;
  scene_tag = req.scene_tag;
  cook_duration = 0;
  cover_url = req.cover_url;
  like_count = 0;
  view_count = 0;
  is_visible = post_invisible;
  audit_status = audit_status_pending;
  audit_remark = [];
  created_at = now;
  updated_at = now;
}

abbrev pub create_resp : Post → CreatePostResp
create_resp p = record {
  post_id = p.id;
  audit_status = p.audit_status;
  is_visible = p.is_visible;
  created_at = p.created_at;
}

module _ {R D : Type 0} (env : PostEnv R D) where
  -- the validation, in the order of its tests
  unfoldable pub validate : CreatePostReq → Action (World R D) (Unit {0})
  validate req = do
    require (is_valid req.scene_tag) scene_tag_invalid
    require (not (is_empty (trim_space req.title))) title_empty
    require (is_allowed_url req.cover_url env.url_prefix) upload_url_not_allowed
    require (not (ltb 30 (length req.steps))) post_steps_invalid
    require (steps_allowed env.url_prefix req.steps) upload_url_not_allowed

  -- one row, or one transaction
  abbrev pub insert_post : ℕ → Post → List PostStepReq → Action D Post
  insert_post now p [] = Posts.create env.posts p
  insert_post now p (st ∷ steps) = create_with_steps env.posts p (build_steps now 0 (st ∷ steps))

  abbrev pub announce : Stamp → Stamp → ℕ → Post → Action (World R D) (Unit {0})
  announce first second user_id p = do
    in_redis (mark env.marker env.marker_ttl user_id)
    publish (posted first p)
    publish (audit_requested second p)
    bump env

  -- `Create` at a time, with the stamps of its two events
  unfoldable pub create : ℕ → Stamp → Stamp → ℕ → CreatePostReq → Action (World R D) CreatePostResp
  create now first second user_id req = do
    validate req
    p ← wrap (in_db (insert_post now (new_post now user_id req) req.steps))
    announce first second user_id p
    pure (create_resp p)

  abbrev pub announce_deletion : Stamp → ℕ → Post → Action (World R D) (Unit {0})
  announce_deletion stamp user_id p = do
    in_redis (mark env.marker env.marker_ttl user_id)
    publish (post_deleted stamp p)
    bump env

  -- `Delete`
  unfoldable pub delete : Stamp → ℕ → ℕ → Action (World R D) (Unit {0})
  delete stamp user_id post_id = do
    p ← map_error post_error (in_db (find_by_id env.posts false post_id))
    require (p.user_id == user_id) post_forbidden
    affected ← wrap (in_db (soft_delete_by_owner env.posts post_id user_id))
    require (not (affected == 0)) post_not_found
    announce_deletion stamp user_id p
