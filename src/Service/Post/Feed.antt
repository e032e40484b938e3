-- ===== src/Service/Post/Feed.antt =====
-- `ListFeed` of internal/service/post_service.go: the cached page, or the database. The JSON text of a
-- page is a parameter.
use cooking_platform.Prelude.{ℕ, Option, none, some, List, leb, length}
use cooking_platform.Prelude.Int.{ℤ}
use cooking_platform.Prelude.Text.{Bytes}
use cooking_platform.Errcode.{app, cursor_invalid}
use cooking_platform.Action.{Result, ok, err, Action, ◌>>=◌, ◌>>◌, pure, wrap, map_error}
use cooking_platform.Action.Results.{give}
use cooking_platform.Model.{Post}
use cooking_platform.Cache.Feed.{get_feed_version, get_feed, set_feed}
use cooking_platform.Repository.Posts
use cooking_platform.Service.World.{World, in_redis, in_db}
use cooking_platform.Service.Authors.{build_list_items, load_map}
use cooking_platform.Service.Post.{PostEnv, FeedResp, parse_cursor, next_cursor_of, normalise_size}
use cooking_platform.Service.Post.Reading.{attach}

-- `json.Marshal` and `json.Unmarshal` of a page, with `none` for an error
pub record PageCodec : Type 0 where
  pub marshal : FeedResp → Option Bytes
  pub unmarshal : Bytes → Option FeedResp

-- `dto.FeedQuery`
pub record FeedQuery : Type 0 where
  pub scene_tag : ℕ
  pub cursor : Bytes
  pub size : ℤ

module _ {R D : Type 0} (env : PostEnv R D) (codec : PageCodec) where
  -- `assembleFeed`
  unfoldable pub assemble_feed : List Post → ℕ → Action (World R D) FeedResp
  assemble_feed posts size = do
    authors ← in_db (load_map env.users posts)
    pure (record {
      posts = build_list_items posts authors;
      next_cursor = next_cursor_of posts size;
      has_more = leb size (length posts);
    })

  -- the page goes into the cache under the version that was read, if one was
  abbrev pub store_page : Result ℕ → ℕ → ℕ → Option Bytes → Action (World R D) (Unit {0})
  store_page (ok version) scene cursor (some page) w =
      (ok tt, (in_redis (set_feed env.feed scene version cursor page env.feed_cache_ttl) w).1)
  store_page _ scene cursor _ w = (ok tt, w)

  abbrev pub with_likes : ℕ → FeedResp → Action (World R D) FeedResp
  with_likes viewer_id resp = do
    items ← attach env viewer_id resp.posts
    pure (record resp { posts = items })

  -- the database, for a page that is not cached
  abbrev pub fetch : ℕ → ℕ → ℕ → ℕ → Result ℕ → Action (World R D) FeedResp
  fetch viewer_id scene cursor size version = do
    posts ← wrap (in_db (Posts.list_feed env.posts scene cursor size))
    resp ← assemble_feed posts size
    store_page version scene cursor (codec.marshal resp)
    with_likes viewer_id resp

  abbrev pub decode : Result (Option Bytes) → Option FeedResp
  decode (ok (some page)) = codec.unmarshal page
  decode _ = none

  abbrev pub cached_or_fetch :
      ℕ → ℕ → ℕ → ℕ → Result ℕ → Option FeedResp → Action (World R D) FeedResp
  cached_or_fetch viewer_id scene cursor size version (some resp) = with_likes viewer_id resp
  cached_or_fetch viewer_id scene cursor size version none =
      fetch viewer_id scene cursor size version

  -- an error of the version or of the page goes on to the database
  abbrev pub look_up : ℕ → ℕ → ℕ → ℕ → Result ℕ × World R D → Result FeedResp × World R D
  look_up viewer_id scene cursor size (err e, w) = fetch viewer_id scene cursor size (err e) w
  look_up viewer_id scene cursor size (ok version, w) =
      let (page, w') = in_redis (get_feed env.feed scene version cursor) w in
      cached_or_fetch viewer_id scene cursor size (ok version) (decode page) w'

  abbrev pub page_at : ℕ → ℕ → ℕ → ℕ → Action (World R D) FeedResp
  page_at viewer_id scene cursor size w =
      look_up viewer_id scene cursor size (in_redis (get_feed_version env.feed) w)

  -- `ListFeed`
  unfoldable pub list_feed : ℕ → FeedQuery → Action (World R D) FeedResp
  list_feed viewer_id q = do
    cursor ← map_error (λ e. app cursor_invalid) (give (parse_cursor q.cursor))
    page_at viewer_id q.scene_tag cursor (normalise_size q.size)
