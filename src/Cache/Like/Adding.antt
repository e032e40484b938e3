-- ===== src/Cache/Like/Adding.antt =====
-- `AddLike` and its script.
use cooking_platform.Prelude.{
  ℕ, zero, suc, ◌+◌, ◌<◌, ◌≡◌, ap, ◌∙◌, true, false, ◌&&◌, ◌||◌, not, Option, ◌==◌, ==_iff, arith,
  if◌then◌else◌, Bool-cases, inl, inr,
}
use mathlib.Core.Path.{subst, subst₂}
use cooking_platform.Prelude.Int.{ℤ}
use cooking_platform.Strconv.{format_int}
use cooking_platform.Strconv.RoundTrip.{bytes_eq-format_int}
use cooking_platform.Action.{
  ok, Action, ◌>>=◌, ◌>>◌, pure, wrap, bind-eq-ok, map_error-eq-ok, pure-eq-ok,
}
use cooking_platform.Errcode.{wrapped}
use cooking_platform.Cache.Redis.{Redis, RedisLaws, Same}
use cooking_platform.Cache.Like.{
  key_like_set, key_like_count, to_uint32, or_zero, add_like_script, add_like,
}
use cooking_platform.Cache.Like.Effects.{
  set_key-eq, count_key-eq, liked, likers, counter, Added, Unchanged-of_Same,
}

-- the two branches of an `if` on a number
zero_branch :
    {X : Type 0} (n : ℕ) (a b : X) (P : X → Type 0) → n ≡ 0 → P (if n == 0 then a else b) → P a
zero_branch zero a b P e h = h
zero_branch (suc n) a b P e h = absurd (omega arith)

one_branch :
    {X : Type 0} (n : ℕ) (a b : X) (P : X → Type 0) → n ≡ 1 → P (if n == 0 then a else b) → P b
one_branch n a b P e h = rw e at h

module _ {R : Type 0} {r : Redis R} (laws : RedisLaws r) where
  module _ (ttl : ℕ) (future : 0 < ttl) where
    -- the two branches of `addLikeScript` behind its SADD and EXPIRE
    module _ (p u : ℕ) (s s₁ s₂ : R) (n : ℕ)
        (sadd : r.sadd (key_like_set p) (format_int u) s ≡ (ok n, s₁)) (same : Same r s₁ s₂) where
      liked_then : (q v : ℕ) → liked r q v s₂ ≡ (p == q && u == v || liked r q v s)
      liked_then q v =
          same.members (key_like_set q) (format_int v)
          ∙ laws.member-sadd (key_like_set p) (format_int u) s s₁ n (key_like_set q) (format_int v)
              sadd
          ∙ ground (arith, set_key-eq p q, bytes_eq-format_int u v)

      likers_then :
          (q : ℕ) → likers r q s₂ ≡ likers r q s + (if p == q && not (liked r p u s) then 1 else 0)
      likers_then q =
          same.cards (key_like_set q)
          ∙ laws.card-sadd (key_like_set p) (format_int u) s s₁ n (key_like_set q) sadd
          ∙ ground
              (arith, set_key-eq p q, laws.sadd_reply (key_like_set p) (format_int u) s s₁ n sadd)

      counter_then : (q : ℕ) → counter r q s₂ ≡ counter r q s
      counter_then q = ap or_zero (
          same.ints (key_like_count q)
          ∙ laws.int-sadd (key_like_set p) (format_int u) s s₁ n (key_like_count q) sadd)

      Added-again :
          (s' : R) (v : Option ℤ)
          → liked r p u s ≡ true
          → r.get_int (key_like_count p) s₂ ≡ (ok v, s')
          → Added r p u s s' (to_uint32 (or_zero v))
      Added-again s' v was get =
          let l = laws.get_lem (key_like_count p) s₂ s' v get in
          let c = Unchanged-of_Same laws s₂ s' l.1 in
          record {
            liked_after = λ q w. c.liked_same q w ∙ liked_then q w;
            likers_after = λ q. c.likers_same q ∙ likers_then q;
            counter_after = λ q. c.counter_same q ∙ counter_then q ∙ ground (arith, was);
            reply = ground (arith, l.0, c.counter_same p);
          }

      Added-new :
          (s₃ s' : R) (m : ℤ)
          → liked r p u s ≡ false
          → r.incr (key_like_count p) s₂ ≡ (ok m, s₃)
          → Same r s₃ s'
          → Added r p u s s' (to_uint32 m)
      Added-new s₃ s' m was incr end =
          let sets = laws.sets-incr (key_like_count p) s₂ s₃ m incr in
          let c = Unchanged-of_Same laws s₃ s' end in
          let i = λ (q : ℕ). laws.int-incr (key_like_count p) s₂ s₃ m (key_like_count q) incr in
          record {
            liked_after =
                λ q w. c.liked_same q w ∙ sets.0 (key_like_set q) (format_int w) ∙ liked_then q w;
            likers_after = λ q. c.likers_same q ∙ sets.1 (key_like_set q) ∙ likers_then q;
            counter_after = λ q.
                c.counter_same q
                ∙ ground (
                  arith,
                  was,
                  i q,
                  count_key-eq p q,
                  counter_then q,
                  counter_then p,
                  laws.incr_reply (key_like_count p) s₂ s₃ m incr,
                  (==_iff p q).0,
                );
            reply = ground (arith, c.counter_same p, i p, count_key-eq p p);
          }

    -- the continuations of `addLikeScript`
    abbrev count_again : ℕ → Action R ℤ
    count_again p = do v ← r.get_int (key_like_count p); pure (or_zero v)

    abbrev count_new : ℕ → Action R ℤ
    count_new p = do n ← r.incr (key_like_count p); r.expire (key_like_count p) ttl; pure n

    count_new-eq-ok :
        (p : ℕ) (s s' : R) (m : ℤ)
        → count_new p s ≡ (ok m, s')
        → (s₃ : R) × (r.incr (key_like_count p) s ≡ (ok m, s₃)) × Same r s₃ s'
    count_new-eq-ok p s s' m h =
        let (n, s₃, incr, k) =
          bind-eq-ok (r.incr (key_like_count p))
            (λ (n : ℤ). r.expire (key_like_count p) ttl >> pure n) s s' m h in
        let (_, t, e, q) = bind-eq-ok (r.expire (key_like_count p) ttl) (λ _. pure n) s₃ s' m k in
        let (value_same, state_same) = pure-eq-ok n m t s' q in
        let same = laws.expire_lem (key_like_count p) ttl s₃ t future e in
        (
          s₃,
          subst (λ x. r.incr (key_like_count p) s ≡ (ok x, s₃)) value_same incr,
          subst (λ x. Same r s₃ x) state_same same,
        )

    script-eq-ok :
        (p u : ℕ) (s s' : R) (m : ℤ)
        → add_like_script r ttl (key_like_set p) (key_like_count p) (format_int u) s ≡ (ok m, s')
        → Added r p u s s' (to_uint32 m)
    unfolding add_like_script
    script-eq-ok p u s s' m h =
        let (n, s₁, sadd, k) =
          bind-eq-ok (r.sadd (key_like_set p) (format_int u))
            (λ (n : ℕ).
              r.expire (key_like_set p) ttl >> (if n == 0 then count_again p else count_new p))
            s s' m h in
        let (_, s₂, expire, q) =
          bind-eq-ok (r.expire (key_like_set p) ttl)
            (λ _. if n == 0 then count_again p else count_new p) s₁ s' m k in
        let same = laws.expire_lem (key_like_set p) ttl s₁ s₂ future expire in
        let reply = laws.sadd_reply (key_like_set p) (format_int u) s s₁ n sadd in
        elim (Bool-cases (liked r p u s)) [
          | inl was ↦
              let again =
                zero_branch n (count_again p) (count_new p) (λ a. a s₂ ≡ (ok m, s'))
                  (ground (arith, reply, was)) q in
              let (v, t, get, k') =
                bind-eq-ok (r.get_int (key_like_count p)) (λ v. pure (or_zero v)) s₂ s' m again in
              let (value_same, state_same) = pure-eq-ok (or_zero v) m t s' k' in
              subst₂ (λ c x. Added r p u s x (to_uint32 c)) value_same state_same
                (Added-again p u s s₁ s₂ n sadd same t v was get)
          | inr was ↦
              let (s₃, incr, end) = count_new-eq-ok p s₂ s' m (
                one_branch n (count_again p) (count_new p) (λ a. a s₂ ≡ (ok m, s'))
                  (ground (arith, reply, was)) q) in
              Added-new p u s s₁ s₂ n sadd same s₃ s' m was incr end
        ]

    -- Where `AddLike` returns a count, the user is in the post's set, the set and the counter of the
    -- post grew by one if the user was new and by nothing otherwise, and no other post changed.
    pub add_like-eq-ok :
        (p u : ℕ) (s s' : R) (c : ℕ) → add_like r ttl p u s ≡ (ok c, s') → Added r p u s s' c
    unfolding add_like
    add_like-eq-ok p u s s' c h =
        let script = add_like_script r ttl (key_like_set p) (key_like_count p) (format_int u) in
        let (m, t, e, k) = bind-eq-ok (wrap script) (λ n. pure (to_uint32 n)) s s' c h in
        let done = script-eq-ok p u s t m (map_error-eq-ok wrapped script s t m e) in
        let (reply, state_same) = pure-eq-ok (to_uint32 m) c t s' k in
        subst₂ (λ n x. Added r p u s x n) reply state_same done
