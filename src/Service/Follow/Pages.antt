-- ===== src/Service/Follow/Pages.antt =====
-- A client that reads a follower or following list page by page: `ListFollowers` and `ListFollowing`
-- called with the cursor of the page before, until `has_more` is false.
use mathlib.Core.Path.{subst}
use cooking_platform.Prelude.{
  ℕ, zero, suc, ◌<◌, ◌≤◌, ◌≡◌, ◌≢◌, refl, sym, ap, ◌∙◌, inl, inr, Bool, true, false, List, [], ◌∷◌,
  ◌++◌, map, ltb, arith, if◌then◌else◌, length, take, drop, Bool-cases,
}
use cooking_platform.Prelude.Int.{ℤ, pos, negsuc}
use cooking_platform.Prelude.Text.{Bytes}
use cooking_platform.Strconv.{max_int64, format_int, parse_int}
use cooking_platform.Strconv.RoundTrip.{parse_int-format_int, format_int-ne-nil}
use cooking_platform.Action.{Result, ok, err, Action, ◌>>=◌, pure, resume}
use cooking_platform.Model.{User}
use cooking_platform.Cache.Marker.{MarkerRedis, key_write_marker, recent, has}
use cooking_platform.Repository.Follows.{
  FollowUser, JoinDir, FollowTable, ServesLists, below, list_join,
}
use cooking_platform.Service.World.{World}
use cooking_platform.Service.Follow.{
  UserBrief, FollowListResp, brief, last_cursor, valid_cursor, parse_follow_cursor,
  clamp_follow_list_size, build_follow_list_resp, list_follow,
}
use cooking_platform.Service.Follow.Rows.{
  IsListing, below_zero, below-below, IsListing-below, IsListing-ids, below-lt, Page, page_lem,
  take-take, length_more, take_short, map-take-drop, length-drop_lt,
}

-- Every clamped size is positive.
clamp-pos :
    (default_size max_size : ℕ) (size : ℤ)
    → 0 < default_size
    → 0 < max_size
    → 0 < clamp_follow_list_size default_size max_size size
unfolding clamp_follow_list_size
clamp-pos default_size max_size (negsuc n) h k = h
clamp-pos default_size max_size (pos n) h k = ground arith

parse_cursor_ne : (s : Bytes) → s ≢ [] → parse_follow_cursor s ≡ valid_cursor (parse_int s)
unfolding parse_follow_cursor
parse_cursor_ne [] h = absurd (h refl)
parse_cursor_ne (c ∷ s) h = refl

parse_cursor-format_int :
    (n : ℕ) → 0 < n → n ≤ max_int64 → parse_follow_cursor (format_int n) ≡ ok n
parse_cursor-format_int n h k =
    parse_cursor_ne (format_int n) (format_int-ne-nil n)
    ∙ ap valid_cursor (parse_int-format_int n k)
    ∙ ground arith

from_suc : (P : ℕ → Type 0) (n : ℕ) → 0 < n → ((k : ℕ) → P (suc k)) → P n
from_suc P zero h f = absurd (omega arith)
from_suc P (suc n) h f = f n

-- What a page's response holds, for a size of `k + 1`.
build_last :
    (k : ℕ) (xs : List FollowUser)
    → ltb (suc k) (length xs) ≡ false
    → build_follow_list_resp (take (suc (suc k)) xs) (suc k)
      ≡ (record { users = map brief xs; next_cursor = []; has_more = false })
unfolding build_follow_list_resp
build_last k xs h = rw (length_more (suc k) xs, h, take_short (suc k) xs h) refl

build_more :
    (k : ℕ) (xs : List FollowUser)
    → ltb (suc k) (length xs) ≡ true
    → build_follow_list_resp (take (suc (suc k)) xs) (suc k) ≡ (record {
      users = map brief (take (suc k) xs);
      next_cursor = last_cursor (take (suc k) xs);
      has_more = true;
    })
unfolding build_follow_list_resp
build_more k xs h = rw (length_more (suc k) xs, h, take-take (suc k) xs) refl

module _ {R D : Type 0} (m : MarkerRedis R) (ttl : ℕ) (t : FollowTable D)
    (find_by_id : ℕ → Action D User) where
  -- the pages after one, in `rounds` calls at most
  more_pages :
      (Bytes → Action (World R D) (List UserBrief))
      → FollowListResp
      → Action (World R D) (List UserBrief)
  more_pages next resp =
      if resp.has_more
      then (next resp.next_cursor >>= λ rest. pure (resp.users ++ rest))
      else pure resp.users

  pub walk : ℕ → JoinDir → ℕ → ℕ → ℕ → ℤ → Bytes → Action (World R D) (List UserBrief)
  unfolding more_pages
  walk zero dir default_size max_size target_id size cursor = pure []
  walk (suc rounds) dir default_size max_size target_id size cursor =
      let next = walk rounds dir default_size max_size target_id size in
      list_follow m ttl t find_by_id dir default_size max_size target_id cursor size
      >>= more_pages next

  list_follow-serves :
      (dir : JoinDir) (default_size max_size target c : ℕ) (cursor : Bytes) (size : ℤ)
      (rows : List FollowUser) (w : World R D)
      → ServesLists t w.db
      → ((force : Bool) → t.listed force dir target w.db ≡ rows)
      → parse_follow_cursor cursor ≡ ok c
      → let k = clamp_follow_list_size default_size max_size size in
        (w' : World R D) × (list_follow m ttl t find_by_id dir default_size max_size target cursor
            size w
          ≡ (ok (build_follow_list_resp (take (suc k) (below c rows)) k), w'))
        × (w'.db ≡ w.db)
  unfolding list_follow list_join has
  list_follow-serves dir default_size max_size target c cursor size rows w serves same h =
      let k = clamp_follow_list_size default_size max_size size in
      let reply = m.exists (key_write_marker target) w.redis in
      let force = recent reply.0 in
      (
        record w { redis = reply.1 },
        rw (h, serves force dir target c (suc k), same force) refl,
        refl,
      )

  resume-ok :
      (q : Result (List UserBrief) × World R D) (us vs : List UserBrief)
      → q.0 ≡ ok vs
      → (resume q (λ rest. pure (us ++ rest))).0 ≡ ok (us ++ vs)
  resume-ok (ok a, w) us vs h = ground arith
  resume-ok (err e, w) us vs h = absurd (ground arith)

  -- Below the last row of a full page are the rows that the page left out.
  rest_below :
      (k c : ℕ) (rows : List FollowUser)
      → IsListing rows
      → k < length (below c rows)
      → (p : Page k (below c rows)) → below p.cursor rows ≡ drop (suc k) (below c rows)
  rest_below k zero rows listing l p = sym (ap (below p.cursor) (below_zero rows)) ∙ p.rest
  rest_below k (suc c) rows listing l p =
      let lower = p.among (λ n. n < suc c) (below-lt (suc c) rows (omega arith)) in
      let positive =
        (p.among (λ n. (0 < n) × (n ≤ max_int64))
          (IsListing-ids (below (suc c) rows) (IsListing-below (suc c) rows listing))).0 in
      sym (below-below (suc c) p.cursor rows positive (inr (omega arith))) ∙ p.rest

  module _ (dir : JoinDir) (default_size max_size target : ℕ) (size : ℤ) (rows : List FollowUser)
      (listing : IsListing rows) where
    -- what `rounds` calls from a state return: the rows below the cursor
    abbrev Reads : ℕ → World R D → Type 0
    Reads rounds w =
        (c : ℕ) (cursor : Bytes)
        → parse_follow_cursor cursor ≡ ok c
        → length (below c rows) < rounds
        → (walk rounds dir default_size max_size target size cursor w).0
          ≡ ok (map brief (below c rows))

    more_pages-Reads :
        (k rounds c : ℕ) (w : World R D)
        → length (below c rows) ≤ rounds
        → Reads rounds w
        → (more_pages
            (walk rounds dir default_size max_size target size)
            (build_follow_list_resp (take (suc (suc k)) (below c rows)) (suc k))
            w).0
          ≡ ok (map brief (below c rows))
    unfolding more_pages
    more_pages-Reads k rounds c w l reads =
        let xs = below c rows in
        let next = walk rounds dir default_size max_size target size in
        elim (Bool-cases (ltb (suc k) (length xs))) [
          | inr last ↦ rw (build_last k xs last) refl
          | inl more ↦
              let p = page_lem k xs (IsListing-below c rows listing) (ground arith) in
              let rest = rest_below k c rows listing (ground arith) p in
              let ids =
                p.among (λ n. (0 < n) × (n ≤ max_int64))
                  (IsListing-ids xs (IsListing-below c rows listing)) in
              let read =
                reads p.cursor (last_cursor (take (suc k) xs))
                  (ap parse_follow_cursor p.printed ∙ parse_cursor-format_int p.cursor ids.0 ids.1)
                  (rw rest (omega (arith, length-drop_lt k xs (ground arith)))) in
              rw (build_more k xs more) (
                resume-ok (next (last_cursor (take (suc k) xs)) w) (map brief (take (suc k) xs))
                  (map brief (below p.cursor rows)) read
                ∙ ap ok (
                    ap (λ (ys : List FollowUser). map brief (take (suc k) xs) ++ map brief ys) rest
                    ∙ map-take-drop (suc k) xs))
        ]

    walk-Reads :
        (d : D) (rounds : ℕ) (w : World R D)
        → 0 < clamp_follow_list_size default_size max_size size
        → ServesLists t d
        → ((force : Bool) → t.listed force dir target d ≡ rows)
        → w.db ≡ d
        → Reads rounds w
    unfolding walk
    walk-Reads d zero w p serves same e c cursor h l = absurd (omega arith)
    walk-Reads d (suc rounds) w p serves same e c cursor h l =
        let (w', run, db) =
          list_follow-serves dir default_size max_size target c cursor size rows w
            (subst (ServesLists t) (sym e) serves) (λ f. ap (t.listed f dir target) e ∙ same f) h in
        let later = walk-Reads d rounds w' p serves same (db ∙ e) in
        rw run (
          from_suc
            (λ n.
              (more_pages (walk rounds dir default_size max_size target size)
                (build_follow_list_resp (take (suc n) (below c rows)) n) w').0
              ≡ ok (map brief (below c rows)))
            (clamp_follow_list_size default_size max_size size) p
            (λ k. more_pages-Reads k rounds c w' (omega arith) later))

    -- From an empty cursor, for a listing whose ids are positive int64 numbers in descending order,
    -- the same on the master and on the replica, and served: enough calls, one more than there are
    -- rows at most, return every row of the list exactly once and in order, whatever the requested
    -- size is, if the configured sizes are positive.
    pub walk-all :
        (rounds : ℕ) (w : World R D)
        → 0 < default_size
        → 0 < max_size
        → ServesLists t w.db
        → ((force : Bool) → t.listed force dir target w.db ≡ rows)
        → length rows < rounds
        → (walk rounds dir default_size max_size target size [] w).0 ≡ ok (map brief rows)
    unfolding parse_follow_cursor
    walk-all rounds w h k serves same l =
        walk-Reads w.db rounds w (clamp-pos default_size max_size size h k) serves same refl 0 []
          refl (rw (below_zero rows) l)
        ∙ ap (λ (ys : List FollowUser). ok (map brief ys)) (below_zero rows)
