-- ===== src/Service/Authors.antt =====
-- internal/service/author_assembler.go: the items of a list of posts with their authors, and whether
-- the viewer likes them.
pub mod Batch
use cooking_platform.Prelude.{
  ℕ, Bool, true, false, ◌||◌, Option, none, some, List, [], ◌∷◌, ◌==◌, if◌then◌else◌, elem, map,
}
use cooking_platform.Prelude.Text.{Bytes}
use cooking_platform.Errcode.{wrapped, is_user_missing}
use cooking_platform.Action.{Result, ok, err, Action, ◌>>=◌, pure}
use cooking_platform.Model.{Post, User}
use cooking_platform.Model.SceneTag
use cooking_platform.Cache.Redis.{Redis}
use cooking_platform.Cache.Like.{batch_has_liked}
use cooking_platform.Repository.Users.{UserTable, find_by_id}

-- `dto.PostAuthorBrief`, `dto.PostListItem`
pub record PostAuthorBrief : Type 0 where
  pub id : ℕ
  pub nickname : Bytes
  pub avatar_url : Bytes

pub record PostListItem : Type 0 where
  pub id : ℕ
  pub title : Bytes
  pub scene_tag : ℕ
  pub scene_name : Bytes
  pub cover_url : Bytes
  pub like_count : ℕ
  pub view_count : ℕ
  pub author : PostAuthorBrief
  pub created_at : ℕ
  pub liked_by_me : Bool

-- "（用户已注销）" in UTF-8
abbrev pub closed_account : Bytes
closed_account =
    239 ∷ 188 ∷ 136 ∷ 231 ∷ 148 ∷ 168 ∷ 230 ∷ 136 ∷ 183 ∷ 229 ∷ 183 ∷ 178 ∷ 230 ∷ 179 ∷ 168 ∷ 233
    ∷ 148 ∷ 128 ∷ 239 ∷ 188 ∷ 137 ∷ []

-- `BuildAuthorBrief`
unfoldable pub build_author_brief : ℕ → Option User → PostAuthorBrief
build_author_brief author_id (some u) = record {
  id = u.id;
  nickname = u.nickname;
  avatar_url = u.avatar_url;
}
build_author_brief author_id none = record {
  id = author_id;
  nickname = closed_account;
  avatar_url = [];
}

-- `BuildListItem`
unfoldable pub build_list_item : Post → Option User → PostListItem
unfolding build_author_brief
build_list_item p author = record {
  id = p.id;
  title = p.title;
  scene_tag = p.scene_tag;
  scene_name = SceneTag.name p.scene_tag;
  cover_url = p.cover_url;
  like_count = p.like_count;
  view_count = p.view_count;
  author = build_author_brief p.user_id author;
  created_at = p.created_at;
  liked_by_me = false;
}

-- the map from author ids; a missing id and a deleted user are both nil
abbrev pub AuthorMap : Type 0
AuthorMap = List (ℕ × Option User)

abbrev pub author_of : ℕ → AuthorMap → Option User
author_of id [] = none
author_of id ((key, u) ∷ m) = let rest = author_of id m in if key == id then u else rest

-- `BuildListItems`
unfoldable pub build_list_items : List Post → AuthorMap → List PostListItem
unfolding build_list_item
build_list_items [] authors = []
build_list_items (p ∷ ps) authors =
    build_list_item p (author_of p.user_id authors) ∷ build_list_items ps authors

-- the loop of `uniqueAuthorIDs`
unfoldable pub unique_from : List ℕ → List Post → List ℕ
unique_from seen [] = []
unique_from seen (p ∷ ps) =
    let skip = unique_from seen ps in
    let keep = p.user_id ∷ unique_from (p.user_id ∷ seen) ps in
    if elem p.user_id seen then skip else keep

unfoldable pub unique_author_ids : List Post → List ℕ
unfolding unique_from
unique_author_ids posts = unique_from [] posts

abbrev pub found_or_nil : {D : Type 0} → Result User × D → Result (Option User) × D
found_or_nil (ok u, d) = (ok (some u), d)
found_or_nil (err e, d) = if is_user_missing e then (ok none, d) else (err (wrapped e), d)

module _ {D : Type 0} (users : UserTable D) where
  -- `LoadOne`
  unfoldable pub load_one : ℕ → Action D (Option User)
  load_one user_id d = found_or_nil (find_by_id users false user_id d)

  -- the loop of `LoadMap`
  unfoldable pub load_all : List ℕ → Action D AuthorMap
  load_all [] = pure []
  load_all (id ∷ ids) = do u ← load_one id; rest ← load_all ids; pure ((id, u) ∷ rest)

  -- `LoadMap`
  unfoldable pub load_map : List Post → Action D AuthorMap
  load_map posts = load_all (unique_author_ids posts)

abbrev pub mark_liked : List ℕ → List PostListItem → List PostListItem
mark_liked liked [] = []
mark_liked liked (it ∷ items) =
    record it { liked_by_me = it.liked_by_me || elem it.id liked } ∷ mark_liked liked items

-- an error leaves the items as they are
abbrev pub mark_if_known : List PostListItem → Result (List ℕ) → List PostListItem
mark_if_known items (ok liked) = mark_liked liked items
mark_if_known items (err e) = items

-- `AttachLikedByMe`
unfoldable pub attach_liked_by_me :
    {R : Type 0} → Redis R → ℕ → List PostListItem → R → List PostListItem × R
attach_liked_by_me r viewer_id [] s = ([], s)
attach_liked_by_me r viewer_id (it ∷ items) s =
    let (liked, s') =
      batch_has_liked r viewer_id (map (λ (i : PostListItem). i.id) (it ∷ items)) s in
    if viewer_id == 0 then (it ∷ items, s) else (mark_if_known (it ∷ items) liked, s')
