-- ===== src/Tests/PostService.antt =====
-- Runs of the post service, with the theorems applied to them.
use cooking_platform.Prelude.{
  ℕ, ◌++◌, ◌≡◌, ◌≢◌, refl, ap, sym, ◌∙◌, Bool, true, false, ◌&&◌, ◌||◌, not, none, some, List, [],
  ◌∷◌, map, arith, ◌==◌, ==_refl, if◌then◌else◌,
}
use cooking_platform.Prelude.Text.{codes}
use cooking_platform.Errcode.{row_missing}
use cooking_platform.Action.{Result, ok, err, ◌>>=◌, pure}
use cooking_platform.Events.{Stamp}
use cooking_platform.Model.{Post}
use cooking_platform.Cache.Feed.{FeedRedis}
use cooking_platform.Repository.Users
use cooking_platform.Repository.Posts.{
  PostTable, find_by_id, soft_delete_by_owner, create_with_steps,
}
use cooking_platform.Cache.Marker.{mark}
use cooking_platform.Strings.{split, trim_space}
use cooking_platform.Oss.{is_allowed_url, all_allowed}
use cooking_platform.Model.SceneTag.{is_valid}
use cooking_platform.Service.World.{World}
use cooking_platform.Service.Authors.{build_list_item, build_list_items, load_one, load_map}
use cooking_platform.Service.Authors.Batch.{build_list_items-load_map}
use cooking_platform.Service.Post.{PostEnv, mask_ip}
use cooking_platform.Service.Post.Writing.{
  CreatePostReq, CreatePostResp, build_steps, validate, insert_post, create, delete,
}
use cooking_platform.Service.Post.Writing.Created.{
  TransactionLaws, Acceptable, Inserted, requested, created_events, create-eq-ok,
}
use cooking_platform.Service.Post.Writing.Deleted.{DeleteLaws, deleted_event, delete-eq-ok}
use cooking_platform.Tests.MemoryRedis.{memory}
use cooking_platform.Tests.MemoryRedis
use cooking_platform.Tests.MemoryUsers.{cook, memory_users, no_marker}

-- a post of user 3 at some time
abbrev dish : ℕ → ℕ → Post
dish id at = record {
  id = id;
  user_id = 3;
  title = codes "soup";
  content = codes "boil";
  scene_tag = 1;
  cook_duration = 0;
  cover_url = [];
  like_count = 0;
  view_count = 0;
  is_visible = 1;
  audit_status = 1;
  audit_remark = [];
  created_at = at;
  updated_at = at;
}

abbrev found : Bool → ℕ → Result Post
found true id = ok (dish id 5)
found false id = err row_missing

-- which posts are there; each is of user 3, and a new one has the id 9
abbrev memory_posts : PostTable (ℕ → Bool)
memory_posts = record {
  insert = λ p d. (ok 9, λ j. 9 == j || d j);
  insert_steps = λ steps d. (ok tt, d);
  transaction = λ m. m;
  select_by_id = λ force id d. (found (d id) id, d);
  select_steps = λ force id d. (ok [], d);
  select_where = λ force p n d. (ok [], d);
  update_audit = λ id status visible remark d. (ok tt, d);
  soft_delete = λ id user d.
      (ok (if d id && 3 == user then 1 else 0), λ j. d j && not ((id == j) && (3 == user)));
}

memory_posts-commits : TransactionLaws memory_posts
memory_posts-commits = record { commits = λ m d d' p h. (d', h) }

same_row :
    (id user : ℕ) (d : ℕ → Bool)
    → (d id && not ((id == id) && (3 == user))) ≡ (d id && not (3 == user))
same_row id user d = rw (==_refl id) refl

found_id :
    (b : Bool) (id : ℕ) (d d' : ℕ → Bool) (p : Post)
    → ◌≡◌ {A = Result Post × (ℕ → Bool)} (found b id, d) (ok p, d')
    → p.id ≡ id
found_id true id d d' p h = ground (arith, ap (λ x. x.0) h)
found_id false id d d' p h = absurd (ground (arith, ap (λ x. x.0) h))

memory_posts-deletes : DeleteLaws memory_posts
memory_posts-deletes = record {
  alive = λ id d. d id;
  owner = λ id d. 3;
  selects = λ force id d d' p h. (ap (λ x. x.1) (sym h), found_id (d id) id d d' p h);
  deletes = λ id user d d' n h.
      (ground (arith, ap (λ x. x.0) h), ap (λ x. x.1 id) (sym h) ∙ same_row id user d);
}

-- a cached page in front of the like cache
abbrev memory_feed : FeedRedis MemoryRedis.Memory
memory_feed = record {
  get_int = λ k s. (ok 4, s);
  incr = λ k s. (ok 5, s);
  get = λ k s. (ok (codes "page"), s);
  set = λ k v t s. (ok tt, s);
  set_nx = λ k t s. (ok true, s);
}

abbrev post_env : PostEnv MemoryRedis.Memory (ℕ → Bool)
post_env = record {
  posts = memory_posts;
  users = memory_users;
  feed = memory_feed;
  likes = memory;
  marker = no_marker;
  sha256_hex = λ s. s;
  url_prefix = codes "https://oss/";
  marker_ttl = 5000;
  feed_cache_ttl = 60000;
  pv_dedup_ttl = 60000;
}

abbrev first : Stamp
first = record { id = codes "a"; now = 70 }

abbrev second : Stamp
second = record { id = codes "b"; now = 71 }

abbrev soup : CreatePostReq
soup = record {
  title = codes " soup ";
  scene_tag = 1;
  content = codes "boil";
  cover_url = codes "HTTPS://oss/x.png";
  steps = record { text = codes "boil"; image_urls = [] } ∷ [];
}

abbrev start : World MemoryRedis.Memory (ℕ → Bool)
start = record {
  redis = record { sets = λ k. []; ints = λ k. none };
  db = λ id. id == 7;
  outbox = [];
}

abbrev answer : CreatePostResp
answer = record { post_id = 9; audit_status = 0; is_visible = 0; created_at = 60 }

abbrev created : World MemoryRedis.Memory (ℕ → Bool)
created = (create post_env 60 first second 3 soup start).1

create-eq-ok_example :
    Acceptable post_env soup
    × ((id : ℕ) × (insert_post post_env 60 (requested 60 3 soup 0) soup.steps start.db
          ≡ (ok (requested 60 3 soup id), created.db))
        × Inserted post_env 60 (requested 60 3 soup 0) soup.steps id start.db
        × (answer ≡ record { post_id = id; audit_status = 0; is_visible = 0; created_at = 60 })
        × (created.outbox ≡ created_events first second id 3 1))
unfolding create validate is_valid trim_space is_allowed_url all_allowed create_with_steps mark
    build_steps
create-eq-ok_example =
    create-eq-ok post_env memory_posts-commits 60 first second 3 soup start created answer refl

abbrev deleted : World MemoryRedis.Memory (ℕ → Bool)
deleted = (delete post_env first 3 7 start).1

delete-eq-ok_example :
    (memory_posts-deletes.alive 7 start.db ≡ true)
    × (memory_posts-deletes.owner 7 start.db ≡ 3)
    × (memory_posts-deletes.alive 7 deleted.db ≡ false)
    × (deleted.outbox ≡ deleted_event first 7 3 ∷ [])
    × ((again : Stamp) (other_user : ℕ) (u u' : World MemoryRedis.Memory (ℕ → Bool))
        → memory_posts-deletes.alive 7 u.db ≡ false
        → delete post_env again other_user 7 u ≢ (ok tt, u'))
unfolding delete find_by_id soft_delete_by_owner mark
delete-eq-ok_example = delete-eq-ok post_env memory_posts-deletes first 3 7 start deleted refl

abbrev two_dishes : List Post
two_dishes = dish 7 50 ∷ dish 6 40 ∷ []

build_list_items-load_map_example :
    (do m ← load_map memory_users two_dishes; pure (build_list_items two_dishes m)) start.db
    ≡ (ok (map (λ p. build_list_item p (some cook)) two_dishes), start.db)
unfolding load_one Users.find_by_id
build_list_items-load_map_example =
    build_list_items-load_map memory_users (λ id. some cook) start.db two_dishes (λ id. refl)

-- an ideographic space in front, a no-break space and a tab behind
trimmed : trim_space (227 ∷ 128 ∷ 128 ∷ codes "a b" ++ 194 ∷ 160 ∷ 9 ∷ []) ≡ codes "a b"
unfolding trim_space
trimmed = refl

masked_ip : mask_ip (codes "10.1.2.3") ≡ codes "10.1.*.*"
unfolding mask_ip split
masked_ip = refl
