-- ===== src/Tests/FeedCache.antt =====
-- The feed cache in memory, with the theorem on it applied.
use cooking_platform.Prelude.{
  ◌≡◌, refl, sym, ap, true, Option, none, some, ◌==◌, ◌&&◌, if◌then◌else◌,
}
use cooking_platform.Prelude.Text.{Bytes, codes, bytes_eq}
use cooking_platform.Action.{Result, ok}
use cooking_platform.Cache.Feed.{FeedRedis, feed_cache_key, get_feed, set_feed}
use cooking_platform.Strconv.{format_int}
use cooking_platform.Cache.Feed.RoundTrip.{reply, FeedLaws, get_feed-set_feed}

abbrev Texts : Type 0
Texts = Bytes → Option Bytes

abbrev store : Bytes → Bytes → Texts → Texts
store k v s j = if bytes_eq k j then some v else s j

abbrev memory_feed : FeedRedis Texts
memory_feed = record {
  get_int = λ k s. (ok 0, s);
  incr = λ k s. (ok 1, s);
  get = λ k s. (reply (s k), s);
  set = λ k v ttl s. (ok tt, store k v s);
  set_nx = λ k ttl s. (ok true, s);
}

memory_feed-laws : FeedLaws memory_feed
memory_feed-laws = record {
  text_at = λ k s. s k;
  gets = λ k s. refl;
  sets = λ k v ttl s s' h j. ap (λ (x : Result (Unit {0}) × Texts). x.1 j) (sym h);
}

abbrev no_pages : Texts
no_pages k = none

abbrev one_page : Texts
one_page = (set_feed memory_feed 1 4 90 (codes "page") 60 no_pages).1

-- the page of version 4 is not that of version 5
get_feed-set_feed_example : get_feed memory_feed 1 5 90 one_page ≡ (
    if 1 == 1 && (4 == 5 && 90 == 90)
    then (ok (some (codes "page")), one_page)
    else ((get_feed memory_feed 1 5 90 no_pages).0, one_page))
unfolding set_feed
get_feed-set_feed_example =
    get_feed-set_feed memory_feed-laws 1 4 90 1 5 90 60 (codes "page") no_pages one_page refl

read_back : (get_feed memory_feed 1 4 90 one_page).0 ≡ ok (some (codes "page"))
unfolding set_feed get_feed bytes_eq feed_cache_key format_int
read_back = refl
