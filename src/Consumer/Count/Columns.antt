-- ===== src/Consumer/Count/Columns.antt =====
-- What one flush of the count consumer writes.
use cooking_platform.Prelude.{
  ℕ, ◌≡◌, refl, sym, ap, ◌∙◌, true, false, ◌||◌, Option, none, some, List, [], ◌∷◌, ◌==◌, ==_iff,
  arith, if◌then◌else◌, elem, Bool-cases, inl, inr,
}
use mathlib.Core.Option
use cooking_platform.Prelude.Int.{ℤ, pos, ◌+ℤ◌}
use cooking_platform.Consumer.Count.{
  CountDelta, Column, posts, likes, followers, followings, Deltas, add_delta, value_at, is_zero,
  UserTable, UserTableLaws, UsersAreUp, clamped, assigned, CountState, set_clauses, handled,
  update_one, flush_users, all_users, apply,
}
use cooking_platform.Consumer.Count.Clauses.{clamped_zero, four_clauses, picked, map_none}
use cooking_platform.Consumer.Count.Users.{
  has_key, value_at-missing, elem_same, elem-four, add_users-Distinct, Distinct,
}

-- the map of a column, and the field of a delta
abbrev pub map_of : {D : Type 0} → Column → CountState D → Deltas
map_of posts s = s.post_deltas
map_of likes s = s.like_deltas
map_of followers s = s.follower_deltas
map_of followings s = s.following_deltas

abbrev pub delta_of : Column → CountDelta → ℤ
delta_of posts d = d.post_count
delta_of likes d = d.total_likes
delta_of followers d = d.follower_count
delta_of followings d = d.following_count

zero_add : (z : ℤ) → pos 0 +ℤ z ≡ z
unfolding ◌+ℤ◌
zero_add z = ground arith

pub add_zero : (y z : ℤ) → is_zero z ≡ true → y +ℤ z ≡ y
unfolding ◌+ℤ◌
add_zero y z h = ground arith

value_at-add :
    (u v : ℕ) (z : ℤ) (m : Deltas)
    → value_at v (add_delta u z m) ≡ (if u == v then value_at v m +ℤ z else value_at v m)
unfolding add_delta
value_at-add u v z [] = ground (arith, zero_add z)
value_at-add u v z ((w, d) ∷ m) = ground (arith, value_at-add u v z m)

value_at-add_if :
    (u v : ℕ) (z : ℤ) (m : Deltas)
    → value_at v (if is_zero z then m else add_delta u z m)
      ≡ (if u == v then value_at v m +ℤ z else value_at v m)
value_at-add_if u v z m = elim (Bool-cases (is_zero z)) [
  | inl zero ↦ rw (zero, add_zero (value_at v m) z zero) (ground arith)
  | inr some_delta ↦ rw some_delta (value_at-add u v z m)
]

module _ {D : Type 0} (t : UserTable D) where
  pub value_at-apply :
      (col : Column) (d : CountDelta) (s : CountState D) (v : ℕ)
      → value_at v (map_of col (apply t d s)) ≡ (
          if d.user_id == v
          then value_at v (map_of col s) +ℤ delta_of col d
          else value_at v (map_of col s))
  unfolding apply
  value_at-apply posts d s v = value_at-add_if d.user_id v d.post_count s.post_deltas
  value_at-apply likes d s v = value_at-add_if d.user_id v d.total_likes s.like_deltas
  value_at-apply followers d s v = value_at-add_if d.user_id v d.follower_count s.follower_deltas
  value_at-apply followings d s v = value_at-add_if d.user_id v d.following_count s.following_deltas

  assigned-set_clauses :
      (col : Column) (s : CountState D) (u c : ℕ)
      → assigned col (set_clauses t s u) c ≡ clamped c (value_at u (map_of col s))
  unfolding set_clauses
  assigned-set_clauses col s u c =
      four_clauses col (value_at u s.post_deltas) (value_at u s.like_deltas)
        (value_at u s.follower_deltas) (value_at u s.following_deltas) c
      ∙ picked col (λ k. value_at u (map_of k s)) c

  module _ (laws : UserTableLaws t) (up : UsersAreUp t) where
    column-update_one :
        (cs : List (Column × ℤ)) (n u : ℕ) (d : D) (col : Column) (v : ℕ)
        → t.column col v (update_one t cs n u d).1
          ≡ (if u == v then Option.map (assigned col cs) (t.column col v d) else t.column col v d)
    unfolding update_one
    column-update_one [] n u d col v = elim (Bool-cases (u == v)) [
      | inl own ↦ rw own (sym (map_none col (t.column col v d)))
      | inr differ ↦ rw differ refl
    ]
    column-update_one (c ∷ cs) n u d col v =
        let (d', e) = up (c ∷ cs) u d in rw e (laws.column-update (c ∷ cs) u d d' col v e)

    -- a user who is not in the list keeps its counters
    flush_users-skips :
        (s : CountState D) (us : List ℕ) (d : D) (col : Column) (v : ℕ)
        → elem v us ≡ false
        → t.column col v (flush_users t s us d).1 ≡ t.column col v d
    unfolding flush_users
    flush_users-skips s [] d col v h = refl
    flush_users-skips s (u ∷ us) d col v h =
        let d' = (update_one t (set_clauses t s u) (handled t s u) u d).1 in
        flush_users-skips s us d' col v (ground arith)
        ∙ column-update_one (set_clauses t s u) (handled t s u) u d col v
        ∙ ground arith

    map-assigned :
        (s : CountState D) (u : ℕ) (col : Column) (o : Option ℕ)
        → Option.map (assigned col (set_clauses t s u)) o
          ≡ Option.map (λ c. clamped c (value_at u (map_of col s))) o
    map-assigned s u col none = refl
    map-assigned s u col (some c) = ap some (assigned-set_clauses col s u c)

    flush_users-writes :
        (s : CountState D) (us : List ℕ) (d : D) (col : Column) (v : ℕ)
        → Distinct us
        → elem v us ≡ true
        → t.column col v (flush_users t s us d).1
          ≡ Option.map (λ c. clamped c (value_at v (map_of col s))) (t.column col v d)
    unfolding flush_users
    flush_users-writes s [] d col v h e = absurd (ground arith)
    flush_users-writes s (u ∷ us) d col v h e =
        let d' = (update_one t (set_clauses t s u) (handled t s u) u d).1 in
        let one = column-update_one (set_clauses t s u) (handled t s u) u d col v in
        elim (Bool-cases (u == v)) [
          | inl own ↦
              flush_users-skips s us d' col v (sym (elem_same u v us own) ∙ h.0)
              ∙ one
              ∙ rw own (map-assigned s u col (t.column col v d))
              ∙ ap
                  (λ (x : ℕ).
                    Option.map (λ c. clamped c (value_at x (map_of col s))) (t.column col v d))
                  ((==_iff u v).0 own)
          | inr differ ↦
              flush_users-writes s us d' col v h.1 (ground arith)
              ∙ ap (Option.map (λ c. clamped c (value_at v (map_of col s)))) (one ∙ rw differ refl)
        ]

    map_nothing : (z : ℤ) (o : Option ℕ) → z ≡ pos 0 → o ≡ Option.map (λ c. clamped c z) o
    map_nothing z none h = refl
    map_nothing z (some c) h = ap some (sym (clamped_zero c z (rw h refl)))

    no_user :
        (s : CountState D) (v : ℕ) (col : Column)
        → elem v (all_users t s) ≡ false
        → value_at v (map_of col s) ≡ pos 0
    unfolding all_users
    no_user s v col h = value_at-missing v (map_of col s) (missing col)
      where
        keys :
            (((has_key v s.post_deltas || has_key v s.like_deltas) || has_key v s.follower_deltas)
              || has_key v s.following_deltas)
            ≡ false
        keys =
            sym (elem-four v s.post_deltas s.like_deltas s.follower_deltas s.following_deltas) ∙ h

        missing : (k : Column) → has_key v (map_of k s) ≡ false
        missing posts = ground (arith, keys)
        missing likes = ground (arith, keys)
        missing followers = ground (arith, keys)
        missing followings = ground (arith, keys)

    all_users-Distinct : (s : CountState D) → Distinct (all_users t s)
    unfolding all_users
    all_users-Distinct s = add_users-Distinct s.following_deltas _ (
        add_users-Distinct s.follower_deltas _
          (add_users-Distinct s.like_deltas _ (add_users-Distinct s.post_deltas [] tt)))

    -- Where MySQL answers every statement: a flush leaves each counter of each existing user at its old
    -- value plus the delta buffered for that user and column, or at 0 if that is negative. Users and
    -- columns without a delta keep their values.
    pub flush_users-column :
        (s : CountState D) (col : Column) (v : ℕ)
        → t.column col v (flush_users t s (all_users t s) s.db).1
          ≡ Option.map (λ c. clamped c (value_at v (map_of col s))) (t.column col v s.db)
    flush_users-column s col v = elim (Bool-cases (elem v (all_users t s))) [
      | inl there ↦ flush_users-writes s (all_users t s) s.db col v (all_users-Distinct s) there
      | inr nowhere ↦
          flush_users-skips s (all_users t s) s.db col v nowhere
          ∙ map_nothing (value_at v (map_of col s)) (t.column col v s.db) (no_user s v col nowhere)
    ]
