-- ===== src/Service/Like/Liking.antt =====
-- `Like` of internal/service/like_service.go.
use cooking_platform.Prelude.{ℕ, ◌<◌, ◌≡◌, sym, ◌∙◌, Bool, true, false, arith, if◌then◌else◌}
use cooking_platform.Action.{ok, Action, ◌>>=◌, bind-eq-ok}
use cooking_platform.Model.{Post}
use cooking_platform.Events.{Stamp}
use cooking_platform.Cache.Redis.{Redis, RedisLaws}
use cooking_platform.Cache.Like.{add_like}
use cooking_platform.Cache.Like.Effects.{Unchanged, Added}
use cooking_platform.Cache.Like.Adding.{add_like-eq-ok}
use cooking_platform.Service.World.{World}
use cooking_platform.Service.Like.{
  LikeResp, liked_event, find_post, current, do_like, probe_liked, like,
}
use cooking_platform.Service.Like.Outcome.{
  LikeOutcome, Probed, current-eq-ok, change-eq-ok, probe-eq-ok, Added-of_Unchanged,
}

module _ {R D : Type 0} {r : Redis R} (laws : RedisLaws r) (ttl : ℕ) (future : 0 < ttl)
    (find_by_id : ℕ → Action D Post) where
  Added-after :
      (p u : ℕ) (s t s' : R) (c : ℕ) → Unchanged r s t → Added r p u t s' c → Added r p u s s' c
  Added-after p u s t s' c h a = record {
    liked_after = λ q v. ground (arith, a.liked_after q v, h.liked_same q v);
    likers_after = λ q. ground (arith, a.likers_after q, h.likers_same q, h.liked_same p u);
    counter_after = λ q. ground (arith, a.counter_after q, h.counter_same q, h.liked_same p u);
    reply = a.reply;
  }

  like_branch :
      (stamp : Stamp) (u p : ℕ) (w t w' : World R D) (post : Post) (already : Bool)
      (resp : LikeResp)
      → Probed laws ttl future find_by_id u p w t post already
      → (if already
            then current r ttl find_by_id true p
            else do_like r ttl find_by_id stamp u p post)
          t
        ≡ (ok resp, w')
      → LikeOutcome r find_by_id stamp u p w w' resp
  like_branch stamp u p w t w' post true resp b h =
      let c = current-eq-ok laws ttl future find_by_id true p t w' resp h in
      record {
        post = post;
        found = b.found ∙ (λ i. (ok post, sym c.db i));
        answer = c.answer;
        added = Added-after p u w.redis t.redis w'.redis resp.count b.unchanged (
            Added-of_Unchanged r p u t.redis w'.redis resp.count
              (b.unchanged.liked_same p u ∙ sym b.answer) c.unchanged c.reply);
        published = ground (arith, b.answer, b.outbox, c.outbox);
      }
  like_branch stamp u p w t w' post false resp b h =
      let c =
        change-eq-ok laws ttl future find_by_id (add_like r ttl p u) true
          (liked_event stamp u p post.user_id) t w' resp h in
      record {
        post = post;
        found = b.found ∙ (λ i. (ok post, sym c.db i));
        answer = c.answer;
        added =
            Added-after p u w.redis t.redis w'.redis resp.count b.unchanged
              (add_like-eq-ok laws ttl future p u t.redis w'.redis resp.count c.command);
        published = ground (arith, b.answer, b.outbox, c.outbox);
      }

  -- Where `Like` returns a response, the post was found, the response says liked, the user is in the
  -- post's set, the set and the counter grew by one if the user was new and by nothing otherwise, no
  -- other post changed, the count of the response is the new counter, and one event was handed to
  -- the bus exactly if the user was new. The time to live is not 0, and Redis does what it
  -- documents.
  pub like-eq-ok :
      (stamp : Stamp) (u p : ℕ) (w w' : World R D) (resp : LikeResp)
      → like r ttl find_by_id stamp u p w ≡ (ok resp, w')
      → LikeOutcome r find_by_id stamp u p w w' resp
  unfolding like
  like-eq-ok stamp u p w w' resp h =
      let branch = λ (post : Post) (already : Bool).
        if already
        then current r ttl find_by_id true p
        else do_like r ttl find_by_id stamp u p post in
      let (post, t, find, k) =
        bind-eq-ok (find_post r ttl find_by_id p)
          (λ post. probe_liked r ttl find_by_id p u >>= branch post) w w' resp h in
      let (already, x, probe, k') =
        bind-eq-ok (probe_liked r ttl find_by_id p u) (branch post) t w' resp k in
      like_branch stamp u p w x w' post already resp
        (probe-eq-ok laws ttl future find_by_id u p w t x post already find probe) k'
