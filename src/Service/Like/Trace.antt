-- ===== src/Service/Like/Trace.antt =====
-- Sequences of answered `Like` and `Unlike` calls, of any users on any posts, one after the other.
use cooking_platform.Prelude.{
  ℕ, zero, suc, ◌+◌, ◌<◌, ◌≡◌, refl, sym, ap, ◌∙◌, Bool, true, false, ◌&&◌, ◌||◌, not, List, [],
  ◌∷◌, ◌++◌, append_assoc, append-nil, ◌==◌, ==_iff, arith, if◌then◌else◌,
}
use cooking_platform.Prelude.Int.{ℤ, pos, negsuc, ◌+ℤ◌}
use cooking_platform.Action.{ok, Action}
use cooking_platform.Model.{Post}
use cooking_platform.Events.{Payload, like_event, unlike_event, Event, Stamp}
use cooking_platform.Cache.Redis.{Redis, RedisLaws}
use cooking_platform.Cache.Like.Effects.{liked, likers, counter, lowered, Added}
use cooking_platform.Service.World.{World}
use cooking_platform.Service.Like.{LikeResp, liked_event, unliked_event, like, unlike}
use cooking_platform.Service.Like.Outcome.{LikeOutcome, UnlikeOutcome, Unliked}
use cooking_platform.Service.Like.Liking.{like-eq-ok}
use cooking_platform.Service.Like.Unliking.{unlike-eq-ok}

-- whether the user likes the post after one payload, and after a list of events
abbrev pub told : ℕ → ℕ → Payload → Bool → Bool
told p u (like_event v q author) b = q == p && v == u || b
told p u (unlike_event v q author) b = b && not (q == p && v == u)
told p u _ b = b

abbrev pub told_all : ℕ → ℕ → List Event → Bool → Bool
told_all p u [] b = b
told_all p u (e ∷ es) b = told_all p u es (told p u e.payload b)

told_all-append :
    (p u : ℕ) (es fs : List Event) (b : Bool)
    → told_all p u (es ++ fs) b ≡ told_all p u fs (told_all p u es b)
told_all-append p u [] fs b = refl
told_all-append p u (e ∷ es) fs b = told_all-append p u es fs (told p u e.payload b)

-- The counter of each post is the size of its set.
abbrev pub Agrees : {R : Type 0} → Redis R → R → Type 0
Agrees r s = (q : ℕ) → counter r q s ≡ pos (likers r q s)

lowered_suc : (z : ℤ) (n : ℕ) → z ≡ pos (n + 1) → lowered z ≡ pos n
lowered_suc (pos zero) n h = absurd (ground arith)
lowered_suc (pos (suc m)) n h = ground arith
lowered_suc (negsuc m) n h = absurd (ground arith)

module _ {R : Type 0} (r : Redis R) where
  Added-Agrees : (p u : ℕ) (s s' : R) (c : ℕ) → Added r p u s s' c → Agrees r s → Agrees r s'
  unfolding ◌+ℤ◌
  Added-Agrees p u s s' c a h q = ground (arith, a.counter_after q, a.likers_after q, h q)

  Unliked-Agrees : (p u : ℕ) (s s' : R) (c : ℕ) → Unliked r p u s s' c → Agrees r s → Agrees r s'
  Unliked-Agrees p u s s' c a h q =
      go (p == q && liked r p u s) (a.counter_after q) (a.likers_after q)
    where
      go :
          (b : Bool)
          → counter r q s' ≡ (if b then lowered (counter r q s) else counter r q s)
          → likers r q s ≡ likers r q s' + (if b then 1 else 0)
          → counter r q s' ≡ pos (likers r q s')
      go true k l = k ∙ lowered_suc (counter r q s) (likers r q s') (h q ∙ ap pos l)
      go false k l = k ∙ h q ∙ ap pos (l ∙ omega arith)

-- The events that some calls hand to the bus, and what they say of each user and post.
pub record Told {R D : Type 0} (r : Redis R) (w w' : World R D) : Type 0 where
  pub events : List Event
  pub sent : w'.outbox ≡ w.outbox ++ events
  pub agree : (p u : ℕ) → liked r p u w'.redis ≡ told_all p u events (liked r p u w.redis)

module _ {R D : Type 0} (r : Redis R) (ttl : ℕ) (find_by_id : ℕ → Action D Post) where
  -- calls that each returned a response
  pub data Answered : World R D → World R D → Type 0 where
    none_yet : {w : World R D} → Answered w w
    then_like :
        {w v w' : World R D} (stamp : Stamp) (u p : ℕ) (resp : LikeResp)
        → Answered w v
        → like r ttl find_by_id stamp u p v ≡ (ok resp, w')
        → Answered w w'
    then_unlike :
        {w v w' : World R D} (stamp : Stamp) (u p : ℕ) (resp : LikeResp)
        → Answered w v
        → unlike r ttl find_by_id stamp u p v ≡ (ok resp, w')
        → Answered w w'

  Told-by_like :
      {v w' : World R D} (stamp : Stamp) (u p : ℕ) (resp : LikeResp)
      → LikeOutcome r find_by_id stamp u p v w' resp
      → Told r v w'
  unfolding liked_event
  Told-by_like {v} {w'} stamp u p resp o = go (liked r p u v.redis) refl o.published
    where
      go :
          (b : Bool)
          → liked r p u v.redis ≡ b
          → w'.outbox
            ≡ (if b then v.outbox else v.outbox ++ liked_event stamp u p o.post.user_id ∷ [])
          → Told r v w'
      go true e k = record {
        events = [];
        sent = k ∙ sym (append-nil v.outbox);
        agree = λ q x. ground (arith, o.added.liked_after q x, (==_iff p q).0, (==_iff u x).0);
      }
      go false e k = record {
        events = liked_event stamp u p o.post.user_id ∷ [];
        sent = k;
        agree = λ q x. o.added.liked_after q x;
      }

  Told-by_unlike :
      {v w' : World R D} (stamp : Stamp) (u p : ℕ) (resp : LikeResp)
      → UnlikeOutcome r find_by_id stamp u p v w' resp
      → Told r v w'
  unfolding unliked_event
  Told-by_unlike {v} {w'} stamp u p resp o = go (liked r p u v.redis) refl o.published
    where
      go :
          (b : Bool)
          → liked r p u v.redis ≡ b
          → w'.outbox
            ≡ (if b then v.outbox ++ unliked_event stamp u p o.post.user_id ∷ [] else v.outbox)
          → Told r v w'
      go false e k = record {
        events = [];
        sent = k ∙ sym (append-nil v.outbox);
        agree = λ q x. ground (arith, o.removed.liked_after q x, (==_iff p q).0, (==_iff u x).0);
      }
      go true e k = record {
        events = unliked_event stamp u p o.post.user_id ∷ [];
        sent = k;
        agree = λ q x. o.removed.liked_after q x;
      }

  Told-more : {w v w' : World R D} → Told r w v → Told r v w' → Told r w w'
  Told-more {w} {v} {w'} a b = record {
    events = a.events ++ b.events;
    sent = ground (arith, a.sent, b.sent, append_assoc w.outbox a.events b.events);
    agree = λ p u.
        b.agree p u
        ∙ ap (told_all p u b.events) (a.agree p u)
        ∙ sym (told_all-append p u a.events b.events (liked r p u w.redis));
  }

module _ {R D : Type 0} {r : Redis R} (laws : RedisLaws r) (ttl : ℕ) (future : 0 < ttl)
    (find_by_id : ℕ → Action D Post) where
  -- If the counter of each post is the size of its set, then it still is after any sequence of
  -- answered `Like` and `Unlike` calls, of any users on any posts. The time to live is not 0, and
  -- Redis does what it documents.
  pub Answered-Agrees :
      {w w' : World R D} → Answered r ttl find_by_id w w' → Agrees r w.redis → Agrees r w'.redis
  Answered-Agrees none_yet h = h
  Answered-Agrees {w} {w'} (then_like {v = v} stamp u p resp before done) h =
      let o = like-eq-ok laws ttl future find_by_id stamp u p v w' resp done in
      Added-Agrees r p u v.redis w'.redis resp.count o.added (Answered-Agrees before h)
  Answered-Agrees {w} {w'} (then_unlike {v = v} stamp u p resp before done) h =
      let o = unlike-eq-ok laws ttl future find_by_id stamp u p v w' resp done in
      Unliked-Agrees r p u v.redis w'.redis resp.count o.removed (Answered-Agrees before h)

  -- Any sequence of answered `Like` and `Unlike` calls appends some events to what was handed to the
  -- bus, and for each user and post these events, taken in order, lead from the membership in the
  -- post's set before to the membership after. The time to live is not 0, and Redis does what it
  -- documents.
  pub Answered-Told : {w w' : World R D} → Answered r ttl find_by_id w w' → Told r w w'
  Answered-Told {w} none_yet = record {
    events = [];
    sent = sym (append-nil w.outbox);
    agree = λ p u. refl;
  }
  Answered-Told {w} {w'} (then_like {v = v} stamp u p resp before done) =
      Told-more r ttl find_by_id (Answered-Told before) (
        Told-by_like r ttl find_by_id stamp u p resp
          (like-eq-ok laws ttl future find_by_id stamp u p v w' resp done))
  Answered-Told {w} {w'} (then_unlike {v = v} stamp u p resp before done) =
      Told-more r ttl find_by_id (Answered-Told before) (
        Told-by_unlike r ttl find_by_id stamp u p resp
          (unlike-eq-ok laws ttl future find_by_id stamp u p v w' resp done))
