-- ===== src/Tests/MemoryRedis.antt =====
-- Redis held in memory: sets and integers at keys. A command on a key that holds a member twice
-- fails; no command leaves such a set.
use cooking_platform.Prelude.{
  ℕ, ◌+◌, ◌≡◌, refl, sym, ap, ◌∙◌, Bool, true, false, ◌&&◌, ◌||◌, not, Option, some, List, [], ◌∷◌,
  leb, arith, if◌then◌else◌, length, any,
}
use cooking_platform.Prelude.Int.{ℤ, pos, ◌+ℤ◌, ◌-ℤ◌}
use cooking_platform.Prelude.Text.{Bytes, bytes_eq, bytes_eq→eq, bytes_eq_refl}
use cooking_platform.Errcode.{other}
use cooking_platform.Action.{Result, ok, err}
use cooking_platform.Cache.Redis.{Redis, RedisLaws, Same, value}

pub record Memory : Type 0 where
  pub sets : Bytes → List Bytes
  pub ints : Bytes → Option ℤ

abbrev pub has : Bytes → List Bytes → Bool
has m = any (λ x. bytes_eq x m)

abbrev pub times : Bytes → List Bytes → ℕ
times m [] = 0
times m (x ∷ xs) = (if bytes_eq x m then 1 else 0) + times m xs

abbrev pub without : Bytes → List Bytes → List Bytes
without m [] = []
without m (x ∷ xs) = let rest = without m xs in if bytes_eq x m then rest else x ∷ rest

abbrev at_key : {A : Type 0} → Bytes → A → (Bytes → A) → Bytes → A
at_key k v f j = if bytes_eq k j then v else f j

abbrev put : Bytes → Option ℤ → Memory → Memory
put k v s = record s { ints = at_key k v s.ints }

abbrev pub memory : Redis Memory
memory = record {
  sismember = λ k m s. (ok (has m (s.sets k)), s);
  sadd = λ k m s.
      if has m (s.sets k)
      then (ok 0, s)
      else (ok 1, record s { sets = at_key k (m ∷ s.sets k) s.sets });
  srem = λ k m s.
      if leb (times m (s.sets k)) 1
      then (
        ok (if has m (s.sets k) then 1 else 0),
        record s { sets = at_key k (without m (s.sets k)) s.sets },
      )
      else (err other, s);
  expire = λ k t s. (ok tt, s);
  get_int = λ k s. (ok (s.ints k), s);
  set_int =
      λ k v t s. (ok tt, record { sets = at_key k [] s.sets; ints = at_key k (some v) s.ints });
  incr = λ k s. let n = value (s.ints k) +ℤ pos 1 in (ok n, put k (some n) s);
  decr = λ k s. let n = value (s.ints k) -ℤ pos 1 in (ok n, put k (some n) s);
  member = λ k m s. has m (s.sets k);
  card = λ k s. length (s.sets k);
  int_at = λ k s. s.ints k;
}

has-key : (k j a : Bytes) (s : Memory) → bytes_eq k j ≡ true → has a (s.sets k) ≡ has a (s.sets j)
has-key k j a s h = ap (λ (x : Bytes). has a (s.sets x)) (bytes_eq→eq k j h)

length-key :
    (k j : Bytes) (s : Memory) → bytes_eq k j ≡ true → length (s.sets k) ≡ length (s.sets j)
length-key k j s h = ap (λ (x : Bytes). length (s.sets x)) (bytes_eq→eq k j h)

has_same : (m a : Bytes) (xs : List Bytes) → bytes_eq m a ≡ true → has m xs ≡ has a xs
has_same m a xs h = ap (λ (b : Bytes). has b xs) (bytes_eq→eq m a h)

-- the memory after a command that succeeds
changed : {A : Type 0} (x : Result A × Memory) (a : A) (s : Memory) → x ≡ (ok a, s) → s ≡ x.1
changed x a s h = λ i. (sym h i).1

answered : {A : Type 0} (x : Result A × Memory) (a : A) (s : Memory) → x ≡ (ok a, s) → x.0 ≡ ok a
answered x a s h = λ i. (h i).0

same_as : (x m a : Bytes) → bytes_eq x m ≡ true → bytes_eq x a ≡ bytes_eq m a
same_as x m a h = ap (λ (b : Bytes). bytes_eq b a) (bytes_eq→eq x m h)

not_both : (x m a : Bytes) → bytes_eq x m ≡ false → (bytes_eq x a && bytes_eq m a) ≡ false
not_both x m a h = ground (
  arith,
  bytes_eq→eq x a,
  bytes_eq→eq m a,
  same_as x a m,
  same_as m a x,
  bytes_eq_refl x,
  bytes_eq_refl m,
  bytes_eq_refl a,
)

has-without :
    (m a : Bytes) (xs : List Bytes) → has a (without m xs) ≡ (has a xs && not (bytes_eq m a))
has-without m a [] = refl
has-without m a (x ∷ xs) = ground (arith, has-without m a xs, same_as x m a, not_both x m a)

length-without : (m : Bytes) (xs : List Bytes) → length xs ≡ length (without m xs) + times m xs
length-without m [] = refl
length-without m (x ∷ xs) = ground (arith, length-without m xs)

times-has : (m : Bytes) (xs : List Bytes) → has m xs ≡ leb 1 (times m xs)
times-has m [] = refl
times-has m (x ∷ xs) = ground (arith, times-has m xs)

no_more :
    (m : Bytes) (xs : List Bytes)
    → leb (times m xs) 1 ≡ true
    → times m xs ≡ (if has m xs then 1 else 0)
no_more m xs h = ground (arith, times-has m xs)

module _ (k m : Bytes) (s s' : Memory) (n : ℕ) where
  sadd_lem :
      memory.sadd k m s ≡ (ok n, s')
      → (n ≡ (if has m (s.sets k) then 0 else 1))
        × ((j a : Bytes) → has a (s'.sets j) ≡ (bytes_eq k j && bytes_eq m a || has a (s.sets j)))
        × ((j : Bytes) → length (s'.sets j) ≡ length (s.sets j) + (if bytes_eq k j then n else 0))
        × ((j : Bytes) → s'.ints j ≡ s.ints j)
  sadd_lem = go (has m (s.sets k)) refl
    where
      go :
          (b : Bool)
          → has m (s.sets k) ≡ b
          → ◌≡◌ {A = Result ℕ × Memory}
              (if b then (ok 0, s) else (ok 1, record s { sets = at_key k (m ∷ s.sets k) s.sets }))
              (ok n, s')
          → (n ≡ (if has m (s.sets k) then 0 else 1))
            × ((j a : Bytes)
                → has a (s'.sets j) ≡ (bytes_eq k j && bytes_eq m a || has a (s.sets j)))
            × ((j : Bytes)
                → length (s'.sets j) ≡ length (s.sets j) + (if bytes_eq k j then n else 0))
            × ((j : Bytes) → s'.ints j ≡ s.ints j)
      go true e h =
          let r = answered _ n s' h in
          (
            ground (arith, e, r),
            λ j a.
                ap (λ (x : Result ℕ × Memory). has a (x.1.sets j)) (sym h)
                ∙ ground (arith, e, has-key k j a s, has_same m a (s.sets k)),
            λ j. ap (λ (x : Result ℕ × Memory). length (x.1.sets j)) (sym h) ∙ ground (arith, r),
            λ j. ap (λ (x : Result ℕ × Memory). x.1.ints j) (sym h),
          )
      go false e h =
          let r = answered _ n s' h in
          (
            ground (arith, e, r),
            λ j a.
                ap (λ (x : Result ℕ × Memory). has a (x.1.sets j)) (sym h)
                ∙ ground (arith, e, has-key k j a s),
            λ j.
                ap (λ (x : Result ℕ × Memory). length (x.1.sets j)) (sym h)
                ∙ ground (arith, r, length-key k j s),
            λ j. ap (λ (x : Result ℕ × Memory). x.1.ints j) (sym h),
          )

  srem_lem :
      memory.srem k m s ≡ (ok n, s')
      → (n ≡ (if has m (s.sets k) then 1 else 0))
        × ((j a : Bytes)
            → has a (s'.sets j) ≡ (has a (s.sets j) && not (bytes_eq k j && bytes_eq m a)))
        × ((j : Bytes) → length (s.sets j) ≡ length (s'.sets j) + (if bytes_eq k j then n else 0))
        × ((j : Bytes) → s'.ints j ≡ s.ints j)
  srem_lem = go (leb (times m (s.sets k)) 1) refl
    where
      go :
          (b : Bool)
          → leb (times m (s.sets k)) 1 ≡ b
          → ◌≡◌ {A = Result ℕ × Memory}
              (if b
                then (
                  ok (if has m (s.sets k) then 1 else 0),
                  record s { sets = at_key k (without m (s.sets k)) s.sets },
                )
                else (err other, s))
              (ok n, s')
          → (n ≡ (if has m (s.sets k) then 1 else 0))
            × ((j a : Bytes)
                → has a (s'.sets j) ≡ (has a (s.sets j) && not (bytes_eq k j && bytes_eq m a)))
            × ((j : Bytes)
                → length (s.sets j) ≡ length (s'.sets j) + (if bytes_eq k j then n else 0))
            × ((j : Bytes) → s'.ints j ≡ s.ints j)
      go true e h =
          let r = answered _ n s' h in
          (
            ground (arith, r),
            λ j a.
                ap (λ (x : Result ℕ × Memory). has a (x.1.sets j)) (sym h)
                ∙ ground (arith, has-key k j a s, has-without m a (s.sets k)),
            λ j. sym (
                ap
                  (λ (x : Result ℕ × Memory). length (x.1.sets j) + (if bytes_eq k j then n else 0))
                  (sym h)
                ∙ ground (
                  arith,
                  r,
                  length-key k j s,
                  length-without m (s.sets k),
                  no_more m (s.sets k) e,
                )),
            λ j. ap (λ (x : Result ℕ × Memory). x.1.ints j) (sym h),
          )
      go false e h = absurd (ground (arith, answered _ n s' h))

Same-of : (s s' : Memory) → s' ≡ s → Same memory s s'
Same-of s s' h = record {
  members = λ k m. ap (λ (x : Memory). has m (x.sets k)) h;
  cards = λ k. ap (λ (x : Memory). length (x.sets k)) h;
  ints = λ k. ap (λ (x : Memory). x.ints k) h;
}

result_injective : {A : Type 0} (a b : A) → Path (Result A) (ok a) (ok b) → a ≡ b
result_injective a b h = cc

pub memory-laws : RedisLaws memory
unfolding ◌+ℤ◌
memory-laws = record {
  sismember_lem = λ k m s s' b h.
      (sym (result_injective _ b (answered _ b s' h)), Same-of s s' (changed _ b s' h));
  sadd_reply = λ k m s s' n h. (sadd_lem k m s s' n h).0;
  member-sadd = λ k m s s' n j a h. (sadd_lem k m s s' n h).1 j a;
  card-sadd = λ k m s s' n j h. (sadd_lem k m s s' n h).2 j;
  int-sadd = λ k m s s' n j h. (sadd_lem k m s s' n h).3 j;
  srem_reply = λ k m s s' n h. (srem_lem k m s s' n h).0;
  member-srem = λ k m s s' n j a h. (srem_lem k m s s' n h).1 j a;
  card-srem = λ k m s s' n j h. (srem_lem k m s s' n h).2 j;
  int-srem = λ k m s s' n j h. (srem_lem k m s s' n h).3 j;
  expire_lem = λ k t s s' p h. Same-of s s' (changed _ tt s' h);
  get_lem = λ k s s' v h.
      (sym (result_injective _ v (answered _ v s' h)), Same-of s s' (changed _ v s' h));
  set_lem = λ k v t s s' j h. ap (λ (x : Result (Unit {0}) × Memory). x.1.ints j) (sym h);
  incr_reply = λ k s s' n h. sym (result_injective _ n (answered _ n s' h));
  int-incr = λ k s s' n j h.
      ap (λ (x : Result ℤ × Memory). x.1.ints j) (sym h)
      ∙ ap (λ (z : ℤ). if bytes_eq k j then some z else s.ints j)
          (result_injective _ n (answered _ n s' h));
  decr_reply = λ k s s' n h. sym (result_injective _ n (answered _ n s' h));
  int-decr = λ k s s' n j h.
      ap (λ (x : Result ℤ × Memory). x.1.ints j) (sym h)
      ∙ ap (λ (z : ℤ). if bytes_eq k j then some z else s.ints j)
          (result_injective _ n (answered _ n s' h));
  sets-set = λ k v t s s' h. (
    λ j a. ap (λ (x : Result (Unit {0}) × Memory). has a (x.1.sets j)) (sym h) ∙ ground arith,
    λ j. ap (λ (x : Result (Unit {0}) × Memory). length (x.1.sets j)) (sym h) ∙ ground arith,
  );
  sets-incr = λ k s s' n h. (
    λ j a. ap (λ (x : Result ℤ × Memory). has a (x.1.sets j)) (sym h),
    λ j. ap (λ (x : Result ℤ × Memory). length (x.1.sets j)) (sym h),
  );
  sets-decr = λ k s s' n h. (
    λ j a. ap (λ (x : Result ℤ × Memory). has a (x.1.sets j)) (sym h),
    λ j. ap (λ (x : Result ℤ × Memory). length (x.1.sets j)) (sym h),
  );
}
