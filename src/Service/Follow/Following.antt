-- ===== src/Service/Follow/Following.antt =====
-- `Follow` of internal/service/follow_service.go.
use mathlib.Core.Path.{subst}
use cooking_platform.Prelude.{
  ℕ, ◌<◌, ◌≡◌, ◌≢◌, refl, sym, ap, ◌∙◌, Bool, true, false, leb, ◌==◌, arith, if◌then◌else◌,
}
use cooking_platform.Errcode.{app, wrapped, cannot_follow_self, follow_limit_exceeded}
use cooking_platform.Action.{
  Result, ok, Action, ◌>>=◌, pure, fail, map_error, wrap, bind-eq-ok, pure-eq-ok,
}
use cooking_platform.Model.{User}
use cooking_platform.Events.{Stamp}
use cooking_platform.Cache.Marker.{MarkerRedis}
use cooking_platform.Repository.Follows.{FollowTable, FollowTableLaws, exists, count_following}
use cooking_platform.Service.World.{World, in_db, in_db-eq-ok}
use cooking_platform.Service.Follow.{target_error, create_edge, below_cap, follow_other, follow}
use cooking_platform.Service.Follow.Outcome.{
  IsCaughtUp, FollowOutcome, FollowOutcome-after, create_edge-eq-ok, already_there, counted, probed,
}

module _ {R D : Type 0} (m : MarkerRedis R) (ttl : ℕ) {t : FollowTable D} (laws : FollowTableLaws t)
    (find_by_id : ℕ → Action D User) where
  module _ (max_following : ℕ) (stamp : Stamp) (a b : ℕ) where
    capped :
        (full : Bool) (u w' : World R D) (r : Bool)
        → (if full
              then fail (app follow_limit_exceeded)
              else create_edge m ttl t find_by_id stamp a b)
            u
          ≡ (ok r, w')
        → (full ≡ false) × (create_edge m ttl t find_by_id stamp a b u ≡ (ok r, w'))
    capped true u w' r h = absurd (ground (arith, ap (λ (x : Result Bool × World R D). x.0) h))
    capped false u w' r h = (refl, h)

    below_cap-eq-ok :
        (w w' : World R D) (r : Bool)
        → IsCaughtUp t w.db
        → below_cap m ttl t find_by_id max_following stamp a b w ≡ (ok r, w')
        → FollowOutcome m ttl laws find_by_id stamp a b w w' r
          × (t.degree true a w.db < max_following)
    below_cap-eq-ok w w' r same h =
        let (cnt, u, c, k) =
          bind-eq-ok (wrap (in_db (count_following t false a)))
            (λ cnt.
              if leb max_following cnt
              then fail (app follow_limit_exceeded)
              else create_edge m ttl t find_by_id stamp a b)
            w w' r h in
        let (run, redis, outbox) = in_db-eq-ok wrapped (count_following t false a) w u cnt c in
        let (count, db) = counted m ttl laws find_by_id a cnt w.db u.db run in
        let (room, made) = capped (leb max_following cnt) u w' r k in
        (
          FollowOutcome-after m ttl laws find_by_id stamp a b w u w' r db outbox
              (create_edge-eq-ok m ttl laws find_by_id stamp a b u w' r made),
          ground (arith, room, count, same.degrees a),
        )

    branch_lem :
        (already : Bool) (u w' : World R D) (r : Bool)
        → IsCaughtUp t u.db
        → already ≡ t.edge true a b u.db
        → (if already then pure true else below_cap m ttl t find_by_id max_following stamp a b) u
          ≡ (ok r, w')
        → FollowOutcome m ttl laws find_by_id stamp a b u w' r
          × (t.edge true a b u.db ≡ false → t.degree true a u.db < max_following)
    branch_lem true u w' r same was h =
        let (answer, state_same) = pure-eq-ok true r u w' h in
        (
          already_there m ttl laws find_by_id stamp a b u w' r (sym was)
              (ap (λ (w : World R D). w.db) (sym state_same))
              (ap (λ (w : World R D). w.outbox) (sym state_same)) (sym answer),
          λ no. absurd (ground arith),
        )
    branch_lem false u w' r same was h =
        let (o, room) = below_cap-eq-ok u w' r same h in (o, λ _. room)

    apart :
        (w w' : World R D) (r : Bool)
        → follow m ttl t find_by_id max_following stamp a b w ≡ (ok r, w')
        → (a ≢ b) × (follow_other m ttl t find_by_id max_following stamp a b w ≡ (ok r, w'))
    unfolding follow
    apart w w' r h = go (a == b) refl h
      where
        go :
            (own : Bool)
            → (a == b) ≡ own
            → (if own
                  then fail (app cannot_follow_self)
                  else follow_other m ttl t find_by_id max_following stamp a b)
                w
              ≡ (ok r, w')
            → (a ≢ b) × (follow_other m ttl t find_by_id max_following stamp a b w ≡ (ok r, w'))
        go true e k = absurd (ground (arith, ap (λ (x : Result Bool × World R D). x.0) k))
        go false e k = (λ q. ground arith, k)

    -- Where the replica has caught up, the query for the target changes nothing, and MySQL does what
    -- it documents: if `Follow` answers, then the two users differ, the target was found, the answer
    -- says following, the edge from follower to target is there and every other edge is as before,
    -- the follower's count grew by one if the edge is new and by nothing otherwise, one event was
    -- handed to the bus exactly if the edge is new, and in that case the follower was below the cap.
    pub follow-eq-ok :
        (w w' : World R D) (r : Bool)
        → IsCaughtUp t w.db
        → ((d d' : D) (target : User) → find_by_id b d ≡ (ok target, d') → d' ≡ d)
        → follow m ttl t find_by_id max_following stamp a b w ≡ (ok r, w')
        → (a ≢ b)
          × ((target : User) × ((find_by_id b w.db).0 ≡ ok target))
          × FollowOutcome m ttl laws find_by_id stamp a b w w' r
          × (t.edge true a b w.db ≡ false → t.degree true a w.db < max_following)
    follow-eq-ok w w' r same reads h =
        let (differ, other) = apart w w' r h in
        let branch = λ (already : Bool).
          if already then pure true else below_cap m ttl t find_by_id max_following stamp a b in
        let (target, u, f, k) =
          bind-eq-ok (map_error target_error (in_db (find_by_id b)))
            (λ _. wrap (in_db (exists t false a b)) >>= branch) w w' r other in
        let (found, redis, outbox) = in_db-eq-ok target_error (find_by_id b) w u target f in
        let (already, x, p, k') = bind-eq-ok (wrap (in_db (exists t false a b))) branch u w' r k in
        let (probe, redis', outbox') = in_db-eq-ok wrapped (exists t false a b) u x already p in
        let (was, db') = probed m ttl laws find_by_id a b already u.db x.db probe in
        let db = db' ∙ reads w.db u.db target found in
        let same' = subst (IsCaughtUp t) (sym db) same in
        let was' = was ∙ ap (t.edge false a b) (sym db') ∙ same'.edges a b in
        let (o, room) = branch_lem already x w' r same' was' k' in
        (
          differ,
          (target, ap (λ (y : Result User × D). y.0) found),
          FollowOutcome-after m ttl laws find_by_id stamp a b w x w' r db (outbox' ∙ outbox) o,
          subst (λ d. t.edge true a b d ≡ false → t.degree true a d < max_following) db room,
        )
