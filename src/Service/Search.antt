-- ===== src/Service/Search.antt =====
-- internal/service/search_service.go and internal/repository/search_repository.go. A keyword is the list
-- of its runes; the statement is a parameter.
pub mod Keyword
use cooking_platform.Prelude.{
  ℕ, suc, ◌+◌, ◌-◌, ◌^◌, Bool, true, false, Option, none, some, List, [], ◌∷◌, ltb, leb,
  if◌then◌else◌, length, take, elem,
}
use cooking_platform.Prelude.Int.{ℤ, pos, negsuc}
use cooking_platform.Prelude.Text.{Bytes}
use cooking_platform.Strconv.{max_int64, format_int, parse_int}
use cooking_platform.Strings.Runes.{Runes, trim_space, fields, join_words}
use cooking_platform.Errcode.{app, other, search_keyword_empty, search_cursor_invalid}
use cooking_platform.Action.{Result, ok, err, Action, ◌>>=◌, ◌>>◌, pure, wrap, map_error, require}
use cooking_platform.Action.Results.{give}
use cooking_platform.Model.{Post}
use cooking_platform.Cache.Redis.{Redis}
use cooking_platform.Repository.Users.{UserTable}
use cooking_platform.Service.World.{World, in_db}
use cooking_platform.Service.Authors.{PostListItem, build_list_items, load_map, attach_liked_by_me}
use cooking_platform.Service.Post.{normalise_size}

-- the condition, offset and limit of the statement
pub record SearchStatement : Type 0 where
  pub keyword : Runes
  -- AND scene_tag = ?, if there is a scene
  pub scene_tag : Option ℕ
  pub offset : ℕ
  pub limit : ℕ

-- `SearchService`, with its configuration
pub record SearchEnv (R D : Type 0) : Type 0 where
  -- SELECT … WHERE is_visible = 1 AND MATCH(title) AGAINST(? IN BOOLEAN MODE) … ORDER BY relevance DESC,
  -- like_count DESC LIMIT ? OFFSET ?
  pub select : SearchStatement → Action D (List Post)
  pub users : UserTable D
  pub likes : Redis R
  pub max_keyword_len : ℕ
  pub boolean_operators : Runes

-- `dto.SearchQuery`, `dto.SearchResp`
pub record SearchQuery : Type 0 where
  pub keyword : Runes
  pub scene_tag : ℕ
  pub cursor : Bytes
  pub size : ℤ

pub record SearchResp : Type 0 where
  pub posts : List PostListItem
  pub next_cursor : Bytes
  pub has_more : Bool

-- `normaliseKeyword`
unfoldable pub normalise_keyword : ℕ → Runes → Runes
normalise_keyword max_len raw =
    let trimmed = trim_space raw in
    if ltb max_len (length trimmed) then take max_len trimmed else trimmed

-- the `strings.Map` of `sanitiseBoolean`
unfoldable pub drop_operators : Runes → Runes → Runes
drop_operators operators [] = []
drop_operators operators (c ∷ s) =
    let rest = drop_operators operators s in if elem c operators then rest else c ∷ rest

-- `sanitiseBoolean`
unfoldable pub sanitise_boolean : Runes → Runes → Runes
unfolding drop_operators
sanitise_boolean operators keyword = join_words (fields (drop_operators operators keyword))

abbrev pub non_negative : Option ℤ → Result ℕ
non_negative (some (pos n)) = ok n
non_negative _ = err other

-- `parseSearchCursor`
unfoldable pub parse_search_cursor : Bytes → Result ℕ
parse_search_cursor [] = ok 0
parse_search_cursor (c ∷ s) = non_negative (parse_int (c ∷ s))

-- `strconv.Itoa` of a sum of two non-negative numbers, which wraps around
abbrev pub format_sum : ℕ → Bytes
format_sum n = if leb n max_int64 then format_int n else b'-' ∷ format_int (2 ^ 64 - n)

-- `nextSearchCursor`
unfoldable pub next_search_cursor : ℕ → ℕ → Bool → Bytes
next_search_cursor offset size has_more = if has_more then format_sum (offset + size) else []

abbrev pub is_given : Runes → Bool
is_given [] = false
is_given (c ∷ s) = true

-- `scene != 0`
abbrev pub scene_filter : ℕ → Option ℕ
scene_filter scene = if leb scene 0 then none else some scene

module _ {R D : Type 0} (env : SearchEnv R D) where
  -- `SearchByTitle`
  unfoldable pub search_by_title : Runes → ℕ → ℕ → ℕ → Action D (List Post)
  search_by_title keyword scene offset size =
      env.select (record {
        keyword = keyword;
        scene_tag = scene_filter scene;
        offset = offset;
        limit = size;
      })

  abbrev pub attach : ℕ → List PostListItem → Action (World R D) (List PostListItem)
  attach viewer_id items w =
      let (items', s) = attach_liked_by_me env.likes viewer_id items w.redis in
      (ok items', record w { redis = s })

  -- `rows[:size]` if there is an extra row
  abbrev pub trim_probe : ℕ → List Post → List Post
  trim_probe size rows = if ltb size (length rows) then take size rows else rows

  -- from the statement on
  unfoldable pub search_page : ℕ → Runes → ℕ → ℕ → ℕ → Action (World R D) SearchResp
  search_page viewer_id safe scene offset size = do
    rows ← wrap (in_db (search_by_title safe scene offset (suc size)))
    authors ← in_db (load_map env.users (trim_probe size rows))
    items ← attach viewer_id (build_list_items (trim_probe size rows) authors)
    pure (record {
      posts = items;
      next_cursor = next_search_cursor offset size (ltb size (length rows));
      has_more = ltb size (length rows);
    })

  -- `Search`
  unfoldable pub search : ℕ → SearchQuery → Action (World R D) SearchResp
  search viewer_id q = do
    let keyword = normalise_keyword env.max_keyword_len q.keyword
    require (is_given keyword) search_keyword_empty
    let safe = sanitise_boolean env.boolean_operators keyword
    require (is_given safe) search_keyword_empty
    offset ← map_error (λ e. app search_cursor_invalid) (give (parse_search_cursor q.cursor))
    search_page viewer_id safe q.scene_tag offset (normalise_size q.size)
