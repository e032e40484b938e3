-- ===== src/Cache/Like/Effects.antt =====
-- What the methods of the like cache do to the sets and the counters of all posts: the views, and
-- the reads.
use cooking_platform.Prelude.{
  ℕ, zero, suc, Option, none, some, ◌+◌, ◌≡◌, refl, ap, ◌∙◌, Bool, false, ◌&&◌, ◌||◌, not, ◌==◌,
  arith, if◌then◌else◌,
}
use cooking_platform.Prelude.Int.{ℤ, pos, negsuc, ◌+ℤ◌, ◌-ℤ◌}
use cooking_platform.Prelude.Text.{codes, bytes_eq, bytes_eq-append}
use cooking_platform.Strconv.{format_int}
use cooking_platform.Strconv.RoundTrip.{bytes_eq-format_int}
use cooking_platform.Action.{ok, pure, wrap, bind-eq-ok, map_error-eq-ok, pure-eq-ok}
use cooking_platform.Errcode.{wrapped}
use cooking_platform.Cache.Redis.{Redis, RedisLaws, Same}
use cooking_platform.Cache.Like.{
  key_like_set, key_like_count, to_uint32, or_zero, has_liked, get_like_count, at_most_zero,
}

pub set_key-eq : (p q : ℕ) → bytes_eq (key_like_set p) (key_like_set q) ≡ (p == q)
unfolding key_like_set
set_key-eq p q =
    bytes_eq-append (codes "like:set:") (format_int p) (format_int q) ∙ bytes_eq-format_int p q

pub count_key-eq : (p q : ℕ) → bytes_eq (key_like_count p) (key_like_count q) ≡ (p == q)
unfolding key_like_count
count_key-eq p q =
    bytes_eq-append (codes "like:cnt:") (format_int p) (format_int q) ∙ bytes_eq-format_int p q

pub count_key-ne-set_key : (p q : ℕ) → bytes_eq (key_like_count p) (key_like_set q) ≡ false
unfolding key_like_count key_like_set bytes_eq
count_key-ne-set_key p q = refl

-- a count one lower, where 0 is the least
abbrev pub lowered : ℤ → ℤ
lowered (pos zero) = pos 0
lowered (pos (suc n)) = pos n
lowered (negsuc n) = pos 0

pub lowered-or_zero :
    (o : Option ℤ) → (if at_most_zero o then pos 0 else or_zero o -ℤ pos 1) ≡ lowered (or_zero o)
unfolding ◌-ℤ◌
lowered-or_zero none = refl
lowered-or_zero (some (pos zero)) = refl
lowered-or_zero (some (pos (suc n))) = ground arith
lowered-or_zero (some (negsuc n)) = refl

module _ {R : Type 0} (r : Redis R) where
  -- whether the user is in the post's set, how many are, and the post's counter
  abbrev pub liked : ℕ → ℕ → R → Bool
  liked p u s = r.member (key_like_set p) (format_int u) s

  abbrev pub likers : ℕ → R → ℕ
  likers p s = r.card (key_like_set p) s

  abbrev pub counter : ℕ → R → ℤ
  counter p s = or_zero (r.int_at (key_like_count p) s)

  -- The sets and the counters of all posts are the same in both states.
  pub record Unchanged (s s' : R) : Type 0 where
    pub liked_same : (q v : ℕ) → liked q v s' ≡ liked q v s
    pub likers_same : (q : ℕ) → likers q s' ≡ likers q s
    pub counter_same : (q : ℕ) → counter q s' ≡ counter q s

  -- `AddLike` put the user in the post's set, and counted it if it was new.
  pub record Added (p u : ℕ) (s s' : R) (c : ℕ) : Type 0 where
    pub liked_after : (q v : ℕ) → liked q v s' ≡ (p == q && u == v || liked q v s)
    pub likers_after :
        (q : ℕ) → likers q s' ≡ likers q s + (if p == q && not (liked p u s) then 1 else 0)
    pub counter_after :
        (q : ℕ)
        → counter q s' ≡ (if p == q && not (liked p u s) then counter q s +ℤ pos 1 else counter q s)
    pub reply : c ≡ to_uint32 (counter p s')

  -- `RemoveLike` took the user out of the post's set, and counted down whether or not it was there.
  pub record Removed (p u : ℕ) (s s' : R) (c : ℕ) : Type 0 where
    pub liked_after : (q v : ℕ) → liked q v s' ≡ (liked q v s && not (p == q && u == v))
    pub likers_after : (q : ℕ) → likers q s ≡ likers q s' + (if p == q && liked p u s then 1 else 0)
    pub counter_after :
        (q : ℕ)
        → counter q s' ≡ (
            if p == q
            then if at_most_zero (r.int_at (key_like_count q) s)
              then pos 0
              else counter q s -ℤ pos 1
            else counter q s)
    pub reply : c ≡ to_uint32 (counter p s')

module _ {R : Type 0} {r : Redis R} (laws : RedisLaws r) where
  pub Unchanged-of_Same : (s s' : R) → Same r s s' → Unchanged r s s'
  Unchanged-of_Same s s' h = record {
    liked_same = λ q v. h.members (key_like_set q) (format_int v);
    likers_same = λ q. h.cards (key_like_set q);
    counter_same = λ q. ap or_zero (h.ints (key_like_count q));
  }

  pub has_liked-eq-ok :
      (p u : ℕ) (s s' : R) (b : Bool)
      → has_liked r p u s ≡ (ok b, s')
      → (b ≡ liked r p u s) × Unchanged r s s'
  unfolding has_liked
  has_liked-eq-ok p u s s' b h =
      let e = map_error-eq-ok wrapped (r.sismember (key_like_set p) (format_int u)) s s' b h in
      let l = laws.sismember_lem (key_like_set p) (format_int u) s s' b e in
      (l.0, Unchanged-of_Same s s' l.1)

  pub get_like_count-eq-ok :
      (p : ℕ) (s s' : R) (c : ℕ)
      → get_like_count r p s ≡ (ok c, s')
      → (c ≡ to_uint32 (counter r p s)) × Unchanged r s s'
  unfolding get_like_count
  get_like_count-eq-ok p s s' c h =
      let get = wrap (r.get_int (key_like_count p)) in
      let (v, t, e, k) = bind-eq-ok get (λ v. pure (to_uint32 (or_zero v))) s s' c h in
      let g = map_error-eq-ok wrapped (r.get_int (key_like_count p)) s t v e in
      let l = laws.get_lem (key_like_count p) s t v g in
      let (reply, same) = pure-eq-ok (to_uint32 (or_zero v)) c t s' k in
      (ground (arith, l.0, reply), rw (← same) (Unchanged-of_Same s t l.1))
