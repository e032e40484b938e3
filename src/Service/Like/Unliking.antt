-- ===== src/Service/Like/Unliking.antt =====
-- `Unlike` of internal/service/like_service.go.
use cooking_platform.Prelude.{ℕ, ◌<◌, ◌≡◌, sym, ◌∙◌, Bool, true, false, arith, if◌then◌else◌}
use cooking_platform.Action.{ok, Action, ◌>>=◌, bind-eq-ok}
use cooking_platform.Model.{Post}
use cooking_platform.Events.{Stamp}
use cooking_platform.Cache.Redis.{Redis, RedisLaws}
use cooking_platform.Cache.Like.{remove_like}
use cooking_platform.Cache.Like.Effects.{Unchanged}
use cooking_platform.Cache.Like.Removing.{remove_like-eq-ok}
use cooking_platform.Service.World.{World}
use cooking_platform.Service.Like.{
  LikeResp, unliked_event, find_post, current, do_unlike, probe_liked, unlike,
}
use cooking_platform.Service.Like.Outcome.{
  UnlikeOutcome, Unliked, Probed, current-eq-ok, change-eq-ok, probe-eq-ok, Unliked-of_Unchanged,
  Unliked-of_Removed,
}

module _ {R D : Type 0} {r : Redis R} (laws : RedisLaws r) (ttl : ℕ) (future : 0 < ttl)
    (find_by_id : ℕ → Action D Post) where
  Unliked-after :
      (p u : ℕ) (s t s' : R) (c : ℕ) → Unchanged r s t → Unliked r p u t s' c → Unliked r p u s s' c
  Unliked-after p u s t s' c h a = record {
    liked_after = λ q v. ground (arith, a.liked_after q v, h.liked_same q v);
    likers_after = λ q. ground (arith, a.likers_after q, h.likers_same q, h.liked_same p u);
    counter_after = λ q. ground (arith, a.counter_after q, h.counter_same q, h.liked_same p u);
    reply = a.reply;
  }

  unlike_branch :
      (stamp : Stamp) (u p : ℕ) (w t w' : World R D) (post : Post) (already : Bool)
      (resp : LikeResp)
      → Probed laws ttl future find_by_id u p w t post already
      → (if already
            then do_unlike r ttl find_by_id stamp u p post
            else current r ttl find_by_id false p)
          t
        ≡ (ok resp, w')
      → UnlikeOutcome r find_by_id stamp u p w w' resp
  unlike_branch stamp u p w t w' post true resp b h =
      let c =
        change-eq-ok laws ttl future find_by_id (remove_like r ttl p u) false
          (unliked_event stamp u p post.user_id) t w' resp h in
      record {
        post = post;
        found = b.found ∙ (λ i. (ok post, sym c.db i));
        answer = c.answer;
        removed = Unliked-after p u w.redis t.redis w'.redis resp.count b.unchanged (
            Unliked-of_Removed r p u t.redis w'.redis resp.count
              (b.unchanged.liked_same p u ∙ sym b.answer)
              (remove_like-eq-ok laws ttl future p u t.redis w'.redis resp.count c.command));
        published = ground (arith, b.answer, b.outbox, c.outbox);
      }
  unlike_branch stamp u p w t w' post false resp b h =
      let c = current-eq-ok laws ttl future find_by_id false p t w' resp h in
      record {
        post = post;
        found = b.found ∙ (λ i. (ok post, sym c.db i));
        answer = c.answer;
        removed = Unliked-after p u w.redis t.redis w'.redis resp.count b.unchanged (
            Unliked-of_Unchanged r p u t.redis w'.redis resp.count
              (b.unchanged.liked_same p u ∙ sym b.answer) c.unchanged c.reply);
        published = ground (arith, b.answer, b.outbox, c.outbox);
      }

  -- Where `Unlike` returns a response, the post was found, the response says not liked, the user is
  -- not in the post's set, the set and the counter fell by one if the user was there (the counter
  -- down to 0 at most) and by nothing otherwise, no other post changed, the count of the response is
  -- the new counter, and one event was handed to the bus exactly if the user was there. The time to
  -- live is not 0, and Redis does what it documents.
  pub unlike-eq-ok :
      (stamp : Stamp) (u p : ℕ) (w w' : World R D) (resp : LikeResp)
      → unlike r ttl find_by_id stamp u p w ≡ (ok resp, w')
      → UnlikeOutcome r find_by_id stamp u p w w' resp
  unfolding unlike
  unlike-eq-ok stamp u p w w' resp h =
      let branch = λ (post : Post) (already : Bool).
        if already
        then do_unlike r ttl find_by_id stamp u p post
        else current r ttl find_by_id false p in
      let (post, t, find, k) =
        bind-eq-ok (find_post r ttl find_by_id p)
          (λ post. probe_liked r ttl find_by_id p u >>= branch post) w w' resp h in
      let (already, x, probe, k') =
        bind-eq-ok (probe_liked r ttl find_by_id p u) (branch post) t w' resp k in
      unlike_branch stamp u p w x w' post already resp
        (probe-eq-ok laws ttl future find_by_id u p w t x post already find probe) k'
