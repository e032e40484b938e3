-- ===== src/Service/Follow/Unfollowing.antt =====
-- `Unfollow` of internal/service/follow_service.go, and the cap under both.
use mathlib.Core.Path.{subst}
use cooking_platform.Prelude.{
  ℕ, ◌≤◌, ◌≡◌, refl, sym, ap, ◌∙◌, Bool, true, false, not, List, [], ◌∷◌, ◌++◌, ==_iff, arith,
  if◌then◌else◌,
}
use cooking_platform.Errcode.{app, wrapped, follow_not_found}
use cooking_platform.Action.{Result, ok, Action, ◌>>◌, pure, fail, wrap, bind-eq-ok}
use cooking_platform.Model.{User}
use cooking_platform.Events.{Event, Stamp}
use cooking_platform.Cache.Marker.{MarkerRedis, mark}
use cooking_platform.Repository.Follows.{FollowTable, FollowTableLaws, delete}
use cooking_platform.Service.World.{World, in_db, in_db-eq-ok}
use cooking_platform.Service.Follow.{unfollowed, announce, follow, unfollow}
use cooking_platform.Service.Follow.Outcome.{IsCaughtUp, EdgeRemoved, delete-eq-ok}
use cooking_platform.Service.Follow.Following.{follow-eq-ok}

module _ {R D : Type 0} (m : MarkerRedis R) (ttl : ℕ) {t : FollowTable D} (laws : FollowTableLaws t)
    (find_by_id : ℕ → Action D User) where
  removed :
      (deleted : Bool) (a b : ℕ) (e : Event) (w w' : World R D) (r : Bool)
      → (if not deleted
            then fail (app follow_not_found)
            else announce m ttl t find_by_id a b e >> pure false)
          w
        ≡ (ok r, w')
      → (deleted ≡ true) × (r ≡ false) × (w'.db ≡ w.db) × (w'.outbox ≡ w.outbox ++ e ∷ [])
  unfolding mark
  removed false a b e w w' r h =
      absurd (ground (arith, ap (λ (x : Result Bool × World R D). x.0) h))
  removed true a b e w w' r h = (
    refl,
    ground (arith, ap (λ (x : Result Bool × World R D). x.0) h),
    ap (λ (x : Result Bool × World R D). x.1.db) (sym h),
    ap (λ (x : Result Bool × World R D). x.1.outbox) (sym h),
  )

  -- If `Unfollow` answers, then it answers that the follower does not follow, the edge was there and
  -- is gone, every other edge is as before, the follower's count fell by one, and one event was
  -- handed to the bus. MySQL does what it documents.
  pub unfollow-eq-ok :
      (stamp : Stamp) (a b : ℕ) (w w' : World R D) (r : Bool)
      → unfollow m ttl t find_by_id stamp a b w ≡ (ok r, w')
      → (r ≡ false)
        × EdgeRemoved t a b w.db w'.db
        × (w'.outbox ≡ w.outbox ++ unfollowed stamp a b ∷ [])
  unfolding unfollow
  unfollow-eq-ok stamp a b w w' r h =
      let e = unfollowed stamp a b in
      let (deleted, u, c, k) =
        bind-eq-ok (wrap (in_db (delete t a b)))
          (λ deleted.
            if not deleted
            then fail (app follow_not_found)
            else announce m ttl t find_by_id a b e >> pure false)
          w w' r h in
      let (run, redis, outbox) = in_db-eq-ok wrapped (delete t a b) w u deleted c in
      let (done, answer, db, sent) = removed deleted a b e u w' r k in
      (
        answer,
        subst (EdgeRemoved t a b w.db) (sym db)
            (delete-eq-ok t laws a b w.db u.db (run ∙ (λ i. (ok (done i), u.db)))),
        sent ∙ ap (λ (l : List Event). l ++ e ∷ []) outbox,
      )

  -- no user follows more than the cap
  abbrev pub IsCapped : ℕ → D → Type 0
  IsCapped max_following d = (x : ℕ) → t.degree true x d ≤ max_following

  -- If no user follows more users than the cap, then none does after an answered `Follow`, where the
  -- replica has caught up, the query for the target changes nothing, and MySQL does what it documents.
  pub follow-IsCapped :
      (max_following : ℕ) (stamp : Stamp) (a b : ℕ) (w w' : World R D) (r : Bool)
      → IsCaughtUp t w.db
      → ((d d' : D) (target : User) → find_by_id b d ≡ (ok target, d') → d' ≡ d)
      → follow m ttl t find_by_id max_following stamp a b w ≡ (ok r, w')
      → IsCapped max_following w.db
      → IsCapped max_following w'.db
  follow-IsCapped max_following stamp a b w w' r same reads h cap x =
      let o = follow-eq-ok m ttl laws find_by_id max_following stamp a b w w' r same reads h in
      let room = o.3 in ground (arith, o.2.added.degree_after x, cap x, room, (==_iff a x).0)
