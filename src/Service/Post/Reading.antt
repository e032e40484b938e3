-- ===== src/Service/Post/Reading.antt =====
-- `GetDetail` and `ListByUser` of internal/service/post_service.go, with `recordPV`.
use cooking_platform.Prelude.{
  ℕ, Bool, true, false, Option, none, List, [], ◌∷◌, leb, ◌==◌, length, map,
}
use cooking_platform.Prelude.Int.{ℤ}
use cooking_platform.Prelude.Text.{Bytes}
use cooking_platform.Errcode.{app, post_not_found, cursor_invalid}
use cooking_platform.Action.{require, Result, ok, err, Action, ◌>>=◌, ◌>>◌, pure, wrap, map_error}
use cooking_platform.Action.Results.{give}
use cooking_platform.Events.{Stamp}
use cooking_platform.Model.{Post, PostStep, User, post_visible}
use cooking_platform.Model.SceneTag
use cooking_platform.Cache.Marker.{has}
use cooking_platform.Cache.Feed.{mark_pv_seen}
use cooking_platform.Repository.Posts.{find_by_id, load_steps}
use cooking_platform.Repository.Posts
use cooking_platform.Service.World.{World, in_redis, in_db, publish}
use cooking_platform.Service.Authors.{
  PostAuthorBrief, PostListItem, build_author_brief, build_list_item, load_one, attach_liked_by_me,
}
use cooking_platform.Service.Post.{
  PostEnv, FeedResp, parse_cursor, next_cursor_of, normalise_size, post_error, page_viewed,
}

-- `dto.PostStepResp`, `dto.PostDetailResp`
pub record PostStepResp : Type 0 where
  pub step_no : ℕ
  pub text : Bytes
  pub image_urls : List Bytes

pub record PostDetailResp : Type 0 where
  pub id : ℕ
  pub title : Bytes
  pub scene_tag : ℕ
  pub scene_name : Bytes
  pub content : Bytes
  pub cover_url : Bytes
  pub like_count : ℕ
  pub view_count : ℕ
  pub author : PostAuthorBrief
  pub steps : List PostStepResp
  pub audit_status : ℕ
  pub is_visible : ℕ
  pub created_at : ℕ
  pub updated_at : ℕ

abbrev pub step_resp : PostStep → PostStepResp
step_resp st = record { step_no = st.step_no; text = st.text; image_urls = st.image_urls }

-- `toDetailResp`
unfoldable pub to_detail_resp : Post → Option User → List PostStep → PostDetailResp
to_detail_resp p author steps = record {
  id = p.id;
  title = p.title;
  scene_tag = p.scene_tag;
  scene_name = SceneTag.name p.scene_tag;
  content = p.content;
  cover_url = p.cover_url;
  like_count = p.like_count;
  view_count = p.view_count;
  author = build_author_brief p.user_id author;
  steps = map step_resp steps;
  audit_status = p.audit_status;
  is_visible = p.is_visible;
  created_at = p.created_at;
  updated_at = p.updated_at;
}

abbrev pub steps_or_none : Result (List PostStep) → List PostStep
steps_or_none (ok steps) = steps
steps_or_none (err e) = []

-- the events of a view, by the answer of the dedup marker
abbrev pub is_first : Result Bool → Bool
is_first (ok first_view) = first_view
is_first (err e) = false

-- the author of the page, who is not asked for where there is no post
abbrev pub items_by : List Post → Option User → List PostListItem
items_by posts author = map (λ (p : Post). build_list_item p author) posts

module _ {R D : Type 0} (env : PostEnv R D) where
  -- `LoadSteps` with its error dropped
  abbrev pub steps_of : ℕ → Action (World R D) (List PostStep)
  steps_of post_id w =
      let (steps, w') = in_db (load_steps env.posts false post_id) w in
      (ok (steps_or_none steps), w')

  abbrev pub tell_view : Bool → Stamp → ℕ → ℕ → Bytes → Action (World R D) (Unit {0})
  tell_view true stamp post_id viewer_id viewer_ip =
      publish (page_viewed stamp post_id viewer_id viewer_ip)
  tell_view false stamp post_id viewer_id viewer_ip = pure tt

  -- `recordPV`
  unfoldable pub record_pv : Stamp → ℕ → ℕ → Bytes → Action (World R D) (Unit {0})
  record_pv stamp post_id viewer_id viewer_ip w =
      let (seen, w') =
        in_redis (mark_pv_seen env.feed env.sha256_hex env.pv_dedup_ttl post_id viewer_id viewer_ip)
          w in
      tell_view (is_first seen) stamp post_id viewer_id viewer_ip w'

  -- `GetDetail`
  unfoldable pub get_detail : Stamp → ℕ → ℕ → Bytes → Action (World R D) PostDetailResp
  get_detail stamp post_id viewer_id viewer_ip = do
    p ← map_error post_error (in_db (find_by_id env.posts false post_id))
    require (p.is_visible == post_visible) post_not_found
    author ← in_db (load_one env.users p.user_id)
    steps ← steps_of post_id
    record_pv stamp post_id viewer_id viewer_ip
    pure (to_detail_resp p author steps)

  abbrev pub author_if_any : ℕ → List Post → Action (World R D) (Option User)
  author_if_any author_id [] = pure none
  author_if_any author_id (p ∷ ps) = in_db (load_one env.users author_id)

  -- `AttachLikedByMe` in place
  abbrev pub attach : ℕ → List PostListItem → Action (World R D) (List PostListItem)
  attach viewer_id items w =
      let (items', s) = attach_liked_by_me env.likes viewer_id items w.redis in
      (ok items', record w { redis = s })

  -- `ListByUser`
  unfoldable pub list_by_user : ℕ → ℕ → Bytes → ℤ → Action (World R D) FeedResp
  list_by_user viewer_id author_id cursor size = do
    before ← map_error (λ e. app cursor_invalid) (give (parse_cursor cursor))
    force ← in_redis (has env.marker env.marker_ttl author_id)
    posts ←
        wrap
          (in_db (Posts.list_by_user env.posts force author_id false before (normalise_size size)))
    author ← author_if_any author_id posts
    items ← attach viewer_id (items_by posts author)
    pure (record {
      posts = items;
      next_cursor = next_cursor_of posts (normalise_size size);
      has_more = leb (normalise_size size) (length posts);
    })
