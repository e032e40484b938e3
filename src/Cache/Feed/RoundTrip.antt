-- ===== src/Cache/Feed/RoundTrip.antt =====
-- A page of the feed is read back under the scene, the version and the cursor under which it was stored.
use cooking_platform.Prelude.{
  ℕ, ◌≡◌, refl, ◌∙◌, Bool, true, false, ◌&&◌, Option, none, some, ◌++◌, append_assoc, ◌==◌,
  if◌then◌else◌,
}
use cooking_platform.Prelude.Text.{Bytes, codes, bytes_eq, bytes_eq-append}
use cooking_platform.Strconv.{format_int}
use cooking_platform.Strconv.RoundTrip.{format_int-IsDigits, bytes_eq-digits, bytes_eq-format_int}
use cooking_platform.Errcode.{nil_reply, is_nil_reply}
use cooking_platform.Action.{Result, ok, err}
use cooking_platform.Cache.Feed.{FeedRedis, feed_cache_key, none_if_nil, get_feed, set_feed}

-- what GET answers for a text that is there or not
abbrev pub reply : Option Bytes → Result Bytes
reply none = err nil_reply
reply (some text) = ok text

-- What Redis documents of GET and SET, as long as no key expires. A SET may fail.
pub record FeedLaws {R : Type 0} (r : FeedRedis R) : Type 0 where
  pub text_at : Bytes → R → Option Bytes
  pub gets : (k : Bytes) (s : R) → r.get k s ≡ (reply (text_at k s), s)
  pub sets :
      (k v : Bytes) (ttl : ℕ) (s s' : R)
      → r.set k v ttl s ≡ (ok tt, s')
      → (j : Bytes) → text_at j s' ≡ (if bytes_eq k j then some v else text_at j s)

-- a key with its parts in the order in which they are compared
key_parts :
    (scene version cursor : ℕ)
    → feed_cache_key scene version cursor
      ≡ codes "feed:s"
        ++ (format_int scene
            ++ (codes ":v" ++ (format_int version ++ (codes ":c" ++ format_int cursor))))
unfolding feed_cache_key
key_parts scene version cursor =
    let s = format_int scene in
    let v = format_int version in
    let c = format_int cursor in
    let p = codes "feed:s" in
    append_assoc (p ++ s ++ codes ":v" ++ v) (codes ":c") c
    ∙ append_assoc (p ++ s ++ codes ":v") v (codes ":c" ++ c)
    ∙ append_assoc (p ++ s) (codes ":v") (v ++ (codes ":c" ++ c))
    ∙ append_assoc p s (codes ":v" ++ (v ++ (codes ":c" ++ c)))

-- Two queries have one key only if the scene, the version and the cursor are the same.
feed_cache_key-eq :
    (scene version cursor scene' version' cursor' : ℕ)
    → bytes_eq (feed_cache_key scene version cursor) (feed_cache_key scene' version' cursor')
      ≡ (scene == scene' && (version == version' && cursor == cursor'))
unfolding bytes_eq
feed_cache_key-eq scene version cursor scene' version' cursor' =
    let s = format_int scene in
    let s' = format_int scene' in
    let v = format_int version in
    let v' = format_int version' in
    let c = format_int cursor in
    let c' = format_int cursor' in
    rw
      (
        key_parts scene version cursor,
        key_parts scene' version' cursor',
        bytes_eq-append (codes "feed:s") (s ++ (codes ":v" ++ (v ++ (codes ":c" ++ c))))
            (s' ++ (codes ":v" ++ (v' ++ (codes ":c" ++ c')))),
        bytes_eq-digits s s' (codes "v" ++ (v ++ (codes ":c" ++ c)))
            (codes "v" ++ (v' ++ (codes ":c" ++ c'))) (format_int-IsDigits scene)
            (format_int-IsDigits scene'),
        bytes_eq-digits v v' (codes "c" ++ c) (codes "c" ++ c') (format_int-IsDigits version)
            (format_int-IsDigits version'),
        bytes_eq-format_int scene scene',
        bytes_eq-format_int version version',
        bytes_eq-format_int cursor cursor',
      )
      refl

module _ {R : Type 0} {r : FeedRedis R} (laws : FeedLaws r) where
  get_feed_lem :
      (scene version cursor : ℕ) (s : R)
      → get_feed r scene version cursor s
        ≡ (ok (laws.text_at (feed_cache_key scene version cursor) s), s)
  unfolding get_feed is_nil_reply
  get_feed_lem scene version cursor s =
      rw (laws.gets (feed_cache_key scene version cursor) s)
        (answer (laws.text_at (feed_cache_key scene version cursor) s))
    where
      answer :
          (o : Option Bytes)
          → ◌≡◌ {A = Result (Option Bytes) × R} (none_if_nil (reply o, s)) (ok o, s)
      answer none = refl
      answer (some text) = refl

  -- Where Redis stores a page and no key expires: a query that reads the feed afterwards gets that page if its
  -- scene, its version and its cursor are those of the page, and otherwise, a query of a newer version
  -- included, what it would have got before.
  pub get_feed-set_feed :
      (scene version cursor scene' version' cursor' ttl : ℕ) (page : Bytes) (s s' : R)
      → set_feed r scene version cursor page ttl s ≡ (ok tt, s')
      → get_feed r scene' version' cursor' s' ≡ (
          if scene == scene' && (version == version' && cursor == cursor')
          then (ok (some page), s')
          else ((get_feed r scene' version' cursor' s).0, s'))
  unfolding set_feed
  get_feed-set_feed scene version cursor scene' version' cursor' ttl page s s' h =
      let k = feed_cache_key scene version cursor in
      let j = feed_cache_key scene' version' cursor' in
      rw
        (
          get_feed_lem scene' version' cursor' s',
          get_feed_lem scene' version' cursor' s,
          laws.sets k page ttl s s' h j,
          feed_cache_key-eq scene version cursor scene' version' cursor',
        )
        (pick (scene == scene' && (version == version' && cursor == cursor')) _)
    where
      pick :
          (b : Bool) (o : Option Bytes)
          → ◌≡◌ {A = Result (Option Bytes) × R}
              (ok (if b then some page else o), s')
              (if b then (ok (some page), s') else (ok o, s'))
      pick true o = refl
      pick false o = refl
