-- ===== src/Cache/Like/Removing.antt =====
-- `RemoveLike` and its script.
use cooking_platform.Prelude.{
  ℕ, ◌<◌, ◌≡◌, sym, ap, ◌∙◌, true, false, Option, ◌==◌, ==_iff, arith, if◌then◌else◌, Bool-cases,
  inl, inr,
}
use mathlib.Core.Path.{subst, subst₂}
use cooking_platform.Prelude.Int.{ℤ, pos, ◌-ℤ◌}
use cooking_platform.Strconv.{format_int}
use cooking_platform.Strconv.RoundTrip.{bytes_eq-format_int}
use cooking_platform.Action.{
  ok, Action, ◌>>=◌, ◌>>◌, pure, wrap, pipe, bind-eq-ok, map_error-eq-ok, pipe-eq-ok, pure-eq-ok,
}
use cooking_platform.Errcode.{wrapped}
use cooking_platform.Cache.Redis.{Redis, RedisLaws, Same}
use cooking_platform.Cache.Like.{
  key_like_set, key_like_count, to_uint32, or_zero, at_most_zero, decr_clamp_script, remove_like,
}
use cooking_platform.Cache.Like.Effects.{
  set_key-eq, count_key-eq, count_key-ne-set_key, liked, likers, counter, Removed,
  Unchanged-of_Same,
}

module _ {R : Type 0} {r : Redis R} (laws : RedisLaws r) where
  module _ (ttl : ℕ) (future : 0 < ttl) where
    abbrev clamp_down : ℕ → Action R ℤ
    clamp_down p = do r.set_int (key_like_count p) (pos 0) ttl; pure (pos 0)

    abbrev count_down : ℕ → Action R ℤ
    count_down p = do n ← r.decr (key_like_count p); r.expire (key_like_count p) ttl; pure n

    -- what `decrClampScript` does
    record Clamped (p : ℕ) (s s' : R) (m : ℤ) : Type 0 where
      liked_same : (q v : ℕ) → liked r q v s' ≡ liked r q v s
      likers_same : (q : ℕ) → likers r q s' ≡ likers r q s
      counter_after :
          (q : ℕ)
          → counter r q s' ≡ (
              if p == q
              then if at_most_zero (r.int_at (key_like_count q) s)
                then pos 0
                else counter r q s -ℤ pos 1
              else counter r q s)
      reply : m ≡ counter r p s'

    clamp_down-eq-ok :
        (p : ℕ) (s s' : R) (m : ℤ)
        → at_most_zero (r.int_at (key_like_count p) s) ≡ true
        → clamp_down p s ≡ (ok m, s')
        → Clamped p s s' m
    clamp_down-eq-ok p s s' m z h =
        let (_, t, e, k) =
          bind-eq-ok (r.set_int (key_like_count p) (pos 0) ttl) (λ _. pure (pos 0)) s s' m h in
        let (value_same, state_same) = pure-eq-ok (pos 0) m t s' k in
        let sets = laws.sets-set (key_like_count p) (pos 0) ttl s t e in
        let i = λ (q : ℕ). laws.set_lem (key_like_count p) (pos 0) ttl s t (key_like_count q) e in
        let done : Clamped p s t (pos 0) = record {
          liked_same = λ q v.
              ground (arith, sets.0 (key_like_set q) (format_int v), count_key-ne-set_key p q);
          likers_same = λ q. ground (arith, sets.1 (key_like_set q), count_key-ne-set_key p q);
          counter_after = λ q. ground (arith, i q, count_key-eq p q, (==_iff p q).0, z);
          reply = ground (arith, i p, count_key-eq p p);
        } in
        subst₂ (λ c x. Clamped p s x c) value_same state_same done

    count_down-eq-ok :
        (p : ℕ) (s s' : R) (m : ℤ)
        → at_most_zero (r.int_at (key_like_count p) s) ≡ false
        → count_down p s ≡ (ok m, s')
        → Clamped p s s' m
    count_down-eq-ok p s s' m z h =
        let (n, t, decr, k) =
          bind-eq-ok (r.decr (key_like_count p))
            (λ (n : ℤ). r.expire (key_like_count p) ttl >> pure n) s s' m h in
        let (_, w, expire, k') =
          bind-eq-ok (r.expire (key_like_count p) ttl) (λ _. pure n) t s' m k in
        let (value_same, state_same) = pure-eq-ok n m w s' k' in
        let sets = laws.sets-decr (key_like_count p) s t n decr in
        let i = λ (q : ℕ). laws.int-decr (key_like_count p) s t n (key_like_count q) decr in
        let c =
          Unchanged-of_Same laws t w (laws.expire_lem (key_like_count p) ttl t w future expire) in
        let done : Clamped p s w n = record {
          liked_same = λ q v. c.liked_same q v ∙ sets.0 (key_like_set q) (format_int v);
          likers_same = λ q. c.likers_same q ∙ sets.1 (key_like_set q);
          counter_after = λ q.
              c.counter_same q
              ∙ ground (
                arith,
                i q,
                count_key-eq p q,
                (==_iff p q).0,
                z,
                laws.decr_reply (key_like_count p) s t n decr,
              );
          reply = ground (arith, c.counter_same p, i p, count_key-eq p p);
        } in
        subst₂ (λ a x. Clamped p s x a) value_same state_same done

    Clamped-of_Same :
        (p : ℕ) (s t s' : R) (m : ℤ) → Same r s t → Clamped p t s' m → Clamped p s s' m
    Clamped-of_Same p s t s' m same c =
        let u = Unchanged-of_Same laws s t same in
        record {
          liked_same = λ q v. c.liked_same q v ∙ u.liked_same q v;
          likers_same = λ q. c.likers_same q ∙ u.likers_same q;
          counter_after = λ q.
              c.counter_after q
              ∙ ground (arith, u.counter_same q, ap at_most_zero (same.ints (key_like_count q)));
          reply = c.reply;
        }

    clamp-eq-ok :
        (p : ℕ) (s s' : R) (m : ℤ)
        → decr_clamp_script r ttl (key_like_count p) s ≡ (ok m, s')
        → Clamped p s s' m
    unfolding decr_clamp_script
    clamp-eq-ok p s s' m h =
        let (v, t, get, k) =
          bind-eq-ok (r.get_int (key_like_count p))
            (λ (v : Option ℤ). if at_most_zero v then clamp_down p else count_down p) s s' m h in
        let l = laws.get_lem (key_like_count p) s t v get in
        let z : at_most_zero v ≡ at_most_zero (r.int_at (key_like_count p) t) =
          ap at_most_zero (l.0 ∙ sym (l.1.ints (key_like_count p))) in
        let from_here : Clamped p t s' m = elim (Bool-cases (at_most_zero v)) [
          | inl low ↦
              clamp_down-eq-ok p t s' m (sym z ∙ low)
                (subst (λ b. (if b then clamp_down p else count_down p) t ≡ (ok m, s')) low k)
          | inr high ↦
              count_down-eq-ok p t s' m (sym z ∙ high)
                (subst (λ b. (if b then clamp_down p else count_down p) t ≡ (ok m, s')) high k)
        ] in
        Clamped-of_Same p s t s' m l.1 from_here

    Removed-of_Clamped :
        (p u : ℕ) (s w t z : R) (n : ℕ) (m : ℤ)
        → r.srem (key_like_set p) (format_int u) s ≡ (ok n, w)
        → Same r w t
        → Clamped p t z m
        → Removed r p u s z (to_uint32 m)
    Removed-of_Clamped p u s w t z n m srem same c =
        let k = key_like_set p in
        let a = format_int u in
        let ints = λ (q : ℕ).
          same.ints (key_like_count q) ∙ laws.int-srem k a s w n (key_like_count q) srem in
        record {
          liked_after = λ q v.
              c.liked_same q v
              ∙ same.members (key_like_set q) (format_int v)
              ∙ laws.member-srem k a s w n (key_like_set q) (format_int v) srem
              ∙ ground (arith, set_key-eq p q, bytes_eq-format_int u v);
          likers_after = λ q.
              laws.card-srem k a s w n (key_like_set q) srem
              ∙ ground (
                arith,
                same.cards (key_like_set q),
                c.likers_same q,
                set_key-eq p q,
                laws.srem_reply k a s w n srem,
              );
          counter_after = λ q.
              c.counter_after q ∙ ground (arith, ap at_most_zero (ints q), ap or_zero (ints q));
          reply = ap to_uint32 c.reply;
        }

    -- Where `RemoveLike` returns a count, the user is not in the post's set; the counter of the post
    -- fell by one, down to 0, whether or not the user was in the set; and no other post changed.
    pub remove_like-eq-ok :
        (p u : ℕ) (s s' : R) (c : ℕ) → remove_like r ttl p u s ≡ (ok c, s') → Removed r p u s s' c
    unfolding remove_like
    remove_like-eq-ok p u s s' c h =
        let drop = pipe (r.srem (key_like_set p) (format_int u)) (r.expire (key_like_set p) ttl) in
        let script = decr_clamp_script r ttl (key_like_count p) in
        let (a, t, e, k) =
          bind-eq-ok (wrap drop) (λ _. wrap script >>= λ n. pure (to_uint32 n)) s s' c h in
        let (w, srem, expire) =
          pipe-eq-ok (r.srem (key_like_set p) (format_int u)) (r.expire (key_like_set p) ttl) s t
            a.0 a.1 (map_error-eq-ok wrapped drop s t a e) in
        let (m, z, e', k') = bind-eq-ok (wrap script) (λ n. pure (to_uint32 n)) t s' c k in
        let (reply, state_same) = pure-eq-ok (to_uint32 m) c z s' k' in
        let same = laws.expire_lem (key_like_set p) ttl w t future expire in
        let clamped = clamp-eq-ok p t z m (map_error-eq-ok wrapped script t z m e') in
        subst₂ (λ x b. Removed r p u s x b) state_same reply
          (Removed-of_Clamped p u s w t z a.0 m srem same clamped)
