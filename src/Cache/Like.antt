-- ===== src/Cache/Like.antt =====
-- internal/cache/like_cache.go. A Lua script is a `do` block of its `redis.call`s, which Redis runs
-- without interleaving. The time to live is given in seconds.
pub mod Effects
pub mod Adding
pub mod Removing
use cooking_platform.Prelude.{
  ℕ, ◌%◌, ◌^◌, ◌≡◌, Bool, true, false, ◌||◌, Option, none, some, List, [], ◌∷◌, ◌++◌, leb, ◌==◌,
  if◌then◌else◌,
}
use cooking_platform.Prelude.Int.{ℤ, pos, negsuc, ltb_ℤ}
use cooking_platform.Prelude.Text.{Bytes, codes}
use cooking_platform.Strconv.{format_int}
use cooking_platform.Action.{Result, ok, err, Action, ◌>>=◌, ◌>>◌, pure, wrap, pipe}
use cooking_platform.Cache.Redis.{Redis}

-- `keyLikeSet`, `keyLikeCount`
unfoldable pub key_like_set : ℕ → Bytes
key_like_set post_id = codes "like:set:" ++ format_int post_id

unfoldable pub key_like_count : ℕ → Bytes
key_like_count post_id = codes "like:cnt:" ++ format_int post_id

-- `uint32(n)` of a reply, with 0 for a negative one
unfoldable pub to_uint32 : ℤ → ℕ
to_uint32 (pos n) = n % 2 ^ 32
to_uint32 (negsuc n) = 0

-- a missing counter counts as 0
abbrev pub or_zero : Option ℤ → ℤ
or_zero none = pos 0
or_zero (some n) = n

-- the posts with `true`, as the keys of the map
abbrev pub liked_posts : List ℕ → List Bool → List ℕ
liked_posts (p ∷ ps) (true ∷ bs) = p ∷ liked_posts ps bs
liked_posts (p ∷ ps) (false ∷ bs) = liked_posts ps bs
liked_posts _ _ = []

-- the test `(not v) or (tonumber(v) <= 0)` of `decrClampScript`
abbrev pub at_most_zero : Option ℤ → Bool
at_most_zero none = true
at_most_zero (some (pos n)) = leb n 0
at_most_zero (some (negsuc n)) = true

module _ {R : Type 0} (r : Redis R) where
  -- `HasLiked`
  unfoldable pub has_liked : ℕ → ℕ → Action R Bool
  has_liked post_id user_id = wrap (r.sismember (key_like_set post_id) (format_int user_id))

  -- one SISMEMBER for each post, in one pipeline
  unfoldable pub probe : ℕ → List ℕ → Action R (List Bool)
  probe viewer_id [] = pure []
  probe viewer_id (p ∷ ps) = do
    (liked, rest) ← pipe (r.sismember (key_like_set p) (format_int viewer_id)) (probe viewer_id ps)
    pure (liked ∷ rest)

  -- `BatchHasLiked`
  unfoldable pub batch_has_liked : ℕ → List ℕ → Action R (List ℕ)
  unfolding probe
  batch_has_liked viewer_id [] = pure []
  batch_has_liked viewer_id (p ∷ ps) =
      if viewer_id == 0
      then pure []
      else do bs ← wrap (probe viewer_id (p ∷ ps)); pure (liked_posts (p ∷ ps) bs)

  -- `GetLikeCount`
  unfoldable pub get_like_count : ℕ → Action R ℕ
  unfolding to_uint32
  get_like_count post_id = do
    v ← wrap (r.get_int (key_like_count post_id))
    pure (to_uint32 (or_zero v))

module _ {R : Type 0} (r : Redis R) (ttl : ℕ) where
  -- `addLikeScript`
  unfoldable pub add_like_script : Bytes → Bytes → Bytes → Action R ℤ
  add_like_script set_key count_key user = do
    added ← r.sadd set_key user
    r.expire set_key ttl
    if added == 0
        then (do v ← r.get_int count_key; pure (or_zero v))
        else do n ← r.incr count_key; r.expire count_key ttl; pure n

  -- `AddLike`
  unfoldable pub add_like : ℕ → ℕ → Action R ℕ
  unfolding add_like_script to_uint32
  add_like post_id user_id = do
    n ← wrap (add_like_script (key_like_set post_id) (key_like_count post_id) (format_int user_id))
    pure (to_uint32 n)

  -- `decrClampScript`
  unfoldable pub decr_clamp_script : Bytes → Action R ℤ
  decr_clamp_script count_key = do
    v ← r.get_int count_key
    if at_most_zero v
        then (do r.set_int count_key (pos 0) ttl; pure (pos 0))
        else do n ← r.decr count_key; r.expire count_key ttl; pure n

  -- `RemoveLike`: a pipeline, and then the script
  unfoldable pub remove_like : ℕ → ℕ → Action R ℕ
  unfolding decr_clamp_script to_uint32
  remove_like post_id user_id = do
    removed ← wrap (
        pipe (r.srem (key_like_set post_id) (format_int user_id))
          (r.expire (key_like_set post_id) ttl))
    n ← wrap (decr_clamp_script (key_like_count post_id))
    pure (to_uint32 n)
