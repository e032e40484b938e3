-- ===== src/Service/Like/Outcome.antt =====
-- What a like or an unlike that is answered has done.
use mathlib.Core.Path.{subst, subst₂}
use cooking_platform.Prelude.{
  ℕ, ◌+◌, ◌<◌, ◌≡◌, refl, sym, ap, ◌∙◌, Bool, true, false, ◌&&◌, not, List, [], ◌∷◌, ◌++◌, ◌==◌,
  ==_iff, arith, if◌then◌else◌,
}
use cooking_platform.Action.{ok, Action, ◌>>=◌, ◌>>◌, pure, wrap, bind-eq-ok, pure-eq-ok}
use cooking_platform.Model.{Post}
use cooking_platform.Events.{Event, Stamp}
use cooking_platform.Cache.Redis.{Redis, RedisLaws}
use cooking_platform.Cache.Like.{to_uint32, key_like_count, has_liked, get_like_count}
use cooking_platform.Cache.Like.Effects.{
  liked, likers, counter, lowered, lowered-or_zero, Unchanged, Added, Removed, has_liked-eq-ok,
  get_like_count-eq-ok,
}
use cooking_platform.Service.World.{World, in_redis, publish, in_redis-eq-ok, in_db-eq-ok}
use cooking_platform.Service.Like.{
  LikeResp, find_error, liked_event, unliked_event, find_post, current, probe_liked,
}

module _ {R : Type 0} (r : Redis R) where
  -- `unlike` took the user out of the post's set and counted down only if the user was there.
  pub record Unliked (p u : ℕ) (s s' : R) (c : ℕ) : Type 0 where
    pub liked_after : (q v : ℕ) → liked r q v s' ≡ (liked r q v s && not (p == q && u == v))
    pub likers_after :
        (q : ℕ) → likers r q s ≡ likers r q s' + (if p == q && liked r p u s then 1 else 0)
    pub counter_after :
        (q : ℕ)
        → counter r q s'
          ≡ (if p == q && liked r p u s then lowered (counter r q s) else counter r q s)
    pub reply : c ≡ to_uint32 (counter r p s')

  pub Added-of_Unchanged :
      (p u : ℕ) (s s' : R) (c : ℕ)
      → liked r p u s ≡ true
      → Unchanged r s s'
      → c ≡ to_uint32 (counter r p s')
      → Added r p u s s' c
  Added-of_Unchanged p u s s' c was h reply = record {
    liked_after = λ q v. ground (arith, h.liked_same q v, (==_iff p q).0, (==_iff u v).0);
    likers_after = λ q. ground (arith, h.likers_same q);
    counter_after = λ q. ground (arith, h.counter_same q);
    reply = reply;
  }

  pub Unliked-of_Unchanged :
      (p u : ℕ) (s s' : R) (c : ℕ)
      → liked r p u s ≡ false
      → Unchanged r s s'
      → c ≡ to_uint32 (counter r p s')
      → Unliked p u s s' c
  Unliked-of_Unchanged p u s s' c was h reply = record {
    liked_after = λ q v. ground (arith, h.liked_same q v, (==_iff p q).0, (==_iff u v).0);
    likers_after = λ q. ground (arith, h.likers_same q);
    counter_after = λ q. ground (arith, h.counter_same q);
    reply = reply;
  }

  pub Unliked-of_Removed :
      (p u : ℕ) (s s' : R) (c : ℕ)
      → liked r p u s ≡ true
      → Removed r p u s s' c
      → Unliked p u s s' c
  Unliked-of_Removed p u s s' c was h = record {
    liked_after = h.liked_after;
    likers_after = h.likers_after;
    counter_after =
        λ q. ground (arith, h.counter_after q, lowered-or_zero (r.int_at (key_like_count q) s));
    reply = h.reply;
  }

-- What an answered `Like` has done to the world.
pub record LikeOutcome {R D : Type 0} (r : Redis R) (find_by_id : ℕ → Action D Post) (stamp : Stamp)
    (u p : ℕ) (w w' : World R D) (resp : LikeResp) : Type 0 where
  pub post : Post
  pub found : find_by_id p w.db ≡ (ok post, w'.db)
  pub answer : resp.liked ≡ true
  pub added : Added r p u w.redis w'.redis resp.count
  pub published : w'.outbox ≡ (
      if liked r p u w.redis then w.outbox else w.outbox ++ liked_event stamp u p post.user_id ∷ [])

-- What an answered `Unlike` has done to the world.
pub record UnlikeOutcome {R D : Type 0} (r : Redis R) (find_by_id : ℕ → Action D Post)
    (stamp : Stamp) (u p : ℕ) (w w' : World R D) (resp : LikeResp) : Type 0 where
  pub post : Post
  pub found : find_by_id p w.db ≡ (ok post, w'.db)
  pub answer : resp.liked ≡ false
  pub removed : Unliked r p u w.redis w'.redis resp.count
  pub published : w'.outbox ≡ (
      if liked r p u w.redis
      then w.outbox ++ unliked_event stamp u p post.user_id ∷ []
      else w.outbox)

module _ {R D : Type 0} {r : Redis R} (laws : RedisLaws r) (ttl : ℕ) (future : 0 < ttl)
    (find_by_id : ℕ → Action D Post) where
  pub record CurrentOutcome (b : Bool) (p : ℕ) (w w' : World R D) (resp : LikeResp) : Type 0 where
    pub answer : resp.liked ≡ b
    pub reply : resp.count ≡ to_uint32 (counter r p w'.redis)
    pub unchanged : Unchanged r w.redis w'.redis
    pub db : w'.db ≡ w.db
    pub outbox : w'.outbox ≡ w.outbox

  pub current-eq-ok :
      (b : Bool) (p : ℕ) (w w' : World R D) (resp : LikeResp)
      → current r ttl find_by_id b p w ≡ (ok resp, w')
      → CurrentOutcome b p w w' resp
  current-eq-ok b p w w' resp h =
      let (c, t, e, k) =
        bind-eq-ok (wrap (in_redis (get_like_count r p)))
          (λ c. pure (record { liked = b; count = c })) w w' resp h in
      let (read, db, outbox) = in_redis-eq-ok (get_like_count r p) w t c e in
      let (reply, unchanged) = get_like_count-eq-ok laws p w.redis t.redis c read in
      let (value_same, state_same) = pure-eq-ok (record { liked = b; count = c }) resp t w' k in
      let done : CurrentOutcome b p w t (record { liked = b; count = c }) = record {
        answer = refl;
        reply = reply ∙ sym (ap to_uint32 (unchanged.counter_same p));
        unchanged = unchanged;
        db = db;
        outbox = outbox;
      } in
      subst₂ (λ a x. CurrentOutcome b p w x a) value_same state_same done

  -- a command on Redis, then a publish
  pub record ChangeOutcome (m : Action R ℕ) (b : Bool) (e : Event) (w w' : World R D)
      (resp : LikeResp) : Type 0 where
    pub answer : resp.liked ≡ b
    pub command : m w.redis ≡ (ok resp.count, w'.redis)
    pub db : w'.db ≡ w.db
    pub outbox : w'.outbox ≡ w.outbox ++ e ∷ []

  pub change-eq-ok :
      (m : Action R ℕ) (b : Bool) (e : Event) (w w' : World R D) (resp : LikeResp)
      → (wrap (in_redis m) >>= λ c. publish e >> pure (record { liked = b; count = c })) w
        ≡ (ok resp, w')
      → ChangeOutcome m b e w w' resp
  change-eq-ok m b e w w' resp h =
      let (c, t, command, k) =
        bind-eq-ok (wrap (in_redis m)) (λ c. publish e >> pure (record { liked = b; count = c })) w
          w' resp h in
      let (run, db, outbox) = in_redis-eq-ok m w t c command in
      let (_, x, sent, k') =
        bind-eq-ok (publish e) (λ _. pure (record { liked = b; count = c })) t w' resp k in
      let (value_same, state_same) = pure-eq-ok (record { liked = b; count = c }) resp x w' k' in
      let done : ChangeOutcome m b e w x (record { liked = b; count = c }) = record {
        answer = refl;
        command = run ∙ (λ i. (ok c, (sent i).1.redis));
        db = (λ i. (sym sent i).1.db) ∙ db;
        outbox = (λ i. (sym sent i).1.outbox) ∙ ap (λ (l : List Event). l ++ e ∷ []) outbox;
      } in
      subst₂ (λ a v. ChangeOutcome m b e w v a) value_same state_same done

  -- the state in front of the test on `already`
  pub record Probed (u p : ℕ) (w w' : World R D) (post : Post) (already : Bool) : Type 0 where
    pub found : find_by_id p w.db ≡ (ok post, w'.db)
    pub answer : already ≡ liked r p u w.redis
    pub unchanged : Unchanged r w.redis w'.redis
    pub outbox : w'.outbox ≡ w.outbox

  pub probe-eq-ok :
      (u p : ℕ) (w t w' : World R D) (post : Post) (already : Bool)
      → find_post r ttl find_by_id p w ≡ (ok post, t)
      → probe_liked r ttl find_by_id p u t ≡ (ok already, w')
      → Probed u p w w' post already
  probe-eq-ok u p w t w' post already f h =
      let (found, redis, outbox) = in_db-eq-ok find_error (find_by_id p) w t post f in
      let (read, db, outbox') = in_redis-eq-ok (has_liked r p u) t w' already h in
      let (answer, unchanged) = has_liked-eq-ok laws p u t.redis w'.redis already read in
      record {
        found = found ∙ (λ i. (ok post, sym db i));
        answer = answer ∙ ap (liked r p u) redis;
        unchanged = subst (λ s. Unchanged r s w'.redis) redis unchanged;
        outbox = outbox' ∙ outbox;
      }
