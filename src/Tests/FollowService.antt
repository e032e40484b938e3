-- ===== src/Tests/FollowService.antt =====
-- The theorems on the follow service, at a small table.
use cooking_platform.Prelude.{
  ℕ, ◌<◌, ◌≤◌, ◌≡◌, ◌≢◌, refl, sym, ap, true, false, List, [], ◌∷◌, ◌++◌, map, arith,
}
use cooking_platform.Prelude.Int.{pos}
use cooking_platform.Prelude.Text.{codes}
use cooking_platform.Action.{Result, ok, Action}
use cooking_platform.Model.{User}
use cooking_platform.Events.{Stamp}
use cooking_platform.Cache.Marker.{MarkerRedis, mark}
use cooking_platform.Repository.Follows.{
  FollowUser, following, create, delete, exists, count_following,
}
use cooking_platform.Service.World.{World}
use cooking_platform.Service.Follow.{follow, unfollow, unfollowed, brief}
use cooking_platform.Service.Follow.Rows.{IsListing}
use cooking_platform.Service.Follow.Pages.{walk, walk-all}
use cooking_platform.Service.Follow.Outcome.{EdgeRemoved, FollowOutcome}
use cooking_platform.Service.Follow.Following.{follow-eq-ok}
use cooking_platform.Service.Follow.Unfollowing.{unfollow-eq-ok, follow-IsCapped, IsCapped}
use cooking_platform.Tests.MemoryFollows.{
  Follows, memory_follows, memory_follows-laws, memory_follows-ServesLists,
  memory_follows-IsCaughtUp,
}

-- Redis without a marker
abbrev no_marker : MarkerRedis Unit
no_marker = record { set = λ k v t s. (ok tt, s); exists = λ k s. (ok 0, s) }

abbrev cook : User
cook = record {
  id = 2;
  phone_hash = [];
  phone_encrypted = [];
  nickname = codes "cook";
  avatar_url = [];
  bio = [];
  status = 0;
  post_count = 0;
  total_likes = 0;
  follower_count = 0;
  following_count = 0;
  created_at = 0;
  updated_at = 0;
}

abbrev find_by_id : ℕ → Action Follows User
find_by_id p d = (ok cook, d)

find_by_id-reads : (b : ℕ) (d d' : Follows) (u : User) → find_by_id b d ≡ (ok u, d') → d' ≡ d
find_by_id-reads b d d' u h = ap (λ (x : Result User × Follows). x.1) (sym h)

abbrev stamp : Stamp
stamp = record { id = codes "e1"; now = 7 }

abbrev third : FollowUser
third = record { user_id = 4; nickname = codes "d"; avatar_url = []; follow_id = 9 }

abbrev second : FollowUser
second = record { user_id = 3; nickname = codes "c"; avatar_url = []; follow_id = 6 }

abbrev first : FollowUser
first = record { user_id = 2; nickname = codes "b"; avatar_url = []; follow_id = 1 }

abbrev rows : List FollowUser
rows = third ∷ second ∷ first ∷ []

abbrev before : World Unit Follows
before = record { redis = tt; db = record { edges = []; listing = rows }; outbox = [] }

abbrev after_follow : World Unit Follows
after_follow = (follow no_marker 5 memory_follows find_by_id 3 stamp 1 2 before).1

abbrev after_unfollow : World Unit Follows
after_unfollow = (unfollow no_marker 5 memory_follows find_by_id stamp 1 2 after_follow).1

follow_runs :
    follow no_marker 5 memory_follows find_by_id 3 stamp 1 2 before ≡ (ok true, after_follow)
unfolding follow exists count_following create mark
follow_runs = refl

unfollow_runs :
    unfollow no_marker 5 memory_follows find_by_id stamp 1 2 after_follow
    ≡ (ok false, after_unfollow)
unfolding follow unfollow delete exists count_following create mark
unfollow_runs = refl

follow-eq-ok_example :
    (◌≢◌ {A = ℕ} 1 2)
    × ((target : User) × ((find_by_id 2 before.db).0 ≡ ok target))
    × FollowOutcome no_marker 5 memory_follows-laws find_by_id stamp 1 2 before after_follow true
    × (memory_follows.edge true 1 2 before.db ≡ false → memory_follows.degree true 1 before.db < 3)
follow-eq-ok_example =
    follow-eq-ok no_marker 5 memory_follows-laws find_by_id 3 stamp 1 2 before after_follow true
      (memory_follows-IsCaughtUp before.db) (find_by_id-reads 2) follow_runs

unfollow-eq-ok_example :
    (false ≡ false)
    × EdgeRemoved memory_follows 1 2 after_follow.db after_unfollow.db
    × (after_unfollow.outbox ≡ after_follow.outbox ++ unfollowed stamp 1 2 ∷ [])
unfollow-eq-ok_example =
    unfollow-eq-ok no_marker 5 memory_follows-laws find_by_id stamp 1 2 after_follow after_unfollow
      false unfollow_runs

none_follow : IsCapped no_marker 5 memory_follows-laws find_by_id 3 before.db
none_follow x = omega arith

follow-IsCapped_example : memory_follows.degree true 1 after_follow.db ≤ 3
follow-IsCapped_example =
    follow-IsCapped no_marker 5 memory_follows-laws find_by_id 3 stamp 1 2 before after_follow true
      (memory_follows-IsCaughtUp before.db) (find_by_id-reads 2) follow_runs none_follow 1

rows-IsListing : IsListing rows
rows-IsListing = (
  omega arith,
  omega arith,
  (omega arith, (omega arith, tt)),
  (omega arith, omega arith, (omega arith, tt), (omega arith, omega arith, tt, tt)),
)

walk-all_example :
    (walk no_marker 5 memory_follows find_by_id 4 following 2 2 1 (pos 2) [] before).0
    ≡ ok (map brief rows)
walk-all_example =
    walk-all no_marker 5 memory_follows find_by_id following 2 2 1 (pos 2) rows rows-IsListing 4
      before (omega arith) (omega arith) (memory_follows-ServesLists before.db) (λ force. refl)
      (omega arith)
