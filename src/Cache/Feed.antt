-- ===== src/Cache/Feed.antt =====
-- internal/cache/feed_cache.go: the version of the feed, its cached pages, and the views that were
-- counted. The Redis commands and the hash are parameters. A cursor is its Unix millisecond, and 0 is
-- the zero time; durations are in milliseconds.
pub mod RoundTrip
use cooking_platform.Prelude.{ℕ, Bool, Option, none, some, [], ◌∷◌, ◌++◌, ltb, ◌==◌, if◌then◌else◌}
use cooking_platform.Prelude.Text.{Bytes, codes}
use cooking_platform.Strconv.{format_int}
use cooking_platform.Errcode.{is_nil_reply}
use cooking_platform.Action.{Result, ok, err, Action}

pub record FeedRedis (R : Type 0) : Type 0 where
  -- GET key read as an int64; INCR key; GET key; SET key value PX ttl; SET key 1 NX PX ttl
  pub get_int : Bytes → Action R ℕ
  pub incr : Bytes → Action R ℕ
  pub get : Bytes → Action R Bytes
  pub set : Bytes → Bytes → ℕ → Action R (Unit {0})
  pub set_nx : Bytes → ℕ → Action R Bool

abbrev pub feed_version_key : Bytes
feed_version_key = codes "feed:ver"

unfoldable pub feed_cache_key : ℕ → ℕ → ℕ → Bytes
feed_cache_key scene version cursor =
    codes "feed:s"
    ++ format_int scene
    ++ codes ":v"
    ++ format_int version
    ++ codes ":c"
    ++ format_int cursor

unfoldable pub pv_dedup_key : ℕ → ℕ → Bytes → Bytes
pv_dedup_key post_id viewer_id ip_hash =
    if ltb 0 viewer_id
    then codes "pv:dup:" ++ format_int post_id ++ codes ":u" ++ format_int viewer_id
    else codes "pv:dup:" ++ format_int post_id ++ codes ":i" ++ ip_hash

-- `hashIPForKey`
unfoldable pub hash_ip_for_key : (Bytes → Bytes) → Bytes → Bytes
hash_ip_for_key sha256_hex [] = sha256_hex (codes "unknown")
hash_ip_for_key sha256_hex (c ∷ ip) = sha256_hex (c ∷ ip)

-- a missing version is 0
abbrev pub zero_if_nil : {R : Type 0} → Result ℕ × R → Result ℕ × R
zero_if_nil (ok v, s) = (ok v, s)
zero_if_nil (err e, s) = if is_nil_reply e then (ok 0, s) else (err e, s)

-- a missing page is no error
abbrev pub none_if_nil : {R : Type 0} → Result Bytes × R → Result (Option Bytes) × R
none_if_nil (ok page, s) = (ok (some page), s)
none_if_nil (err e, s) = if is_nil_reply e then (ok none, s) else (err e, s)

module _ {R : Type 0} (r : FeedRedis R) where
  unfoldable pub get_feed_version : Action R ℕ
  get_feed_version s = zero_if_nil (r.get_int feed_version_key s)

  unfoldable pub bump_feed_version : Action R ℕ
  bump_feed_version = r.incr feed_version_key

  unfoldable pub get_feed : ℕ → ℕ → ℕ → Action R (Option Bytes)
  get_feed scene version cursor s = none_if_nil (r.get (feed_cache_key scene version cursor) s)

  unfoldable pub set_feed : ℕ → ℕ → ℕ → Bytes → ℕ → Action R (Unit {0})
  set_feed scene version cursor page ttl = r.set (feed_cache_key scene version cursor) page ttl

  -- `MarkPVSeen`: whether it is the first view
  unfoldable pub mark_pv_seen : (Bytes → Bytes) → ℕ → ℕ → ℕ → Bytes → Action R Bool
  mark_pv_seen sha256_hex pv_dedup_ttl post_id viewer_id ip =
      r.set_nx
        (pv_dedup_key post_id viewer_id
          (if viewer_id == 0 then hash_ip_for_key sha256_hex ip else []))
        pv_dedup_ttl
