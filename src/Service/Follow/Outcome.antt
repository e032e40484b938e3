-- ===== src/Service/Follow/Outcome.antt =====
-- What an answered `Follow` or `Unfollow` has done.
use mathlib.Core.Path.{subst, subst₂}
use cooking_platform.Prelude.{
  ℕ, ◌+◌, ◌≡◌, sym, ap, ◌∙◌, Bool, true, false, ◌&&◌, ◌||◌, not, List, [], ◌∷◌, ◌++◌, ltb, ◌==◌,
  ==_iff, arith, if◌then◌else◌,
}
use cooking_platform.Errcode.{wrapped}
use cooking_platform.Action.{
  Result, ok, Action, pure, wrap, bind-eq-ok, map_error-eq-ok, pure-eq-ok,
}
use cooking_platform.Model.{User}
use cooking_platform.Events.{Event, Stamp}
use cooking_platform.Cache.Marker.{MarkerRedis, mark}
use cooking_platform.Repository.Follows.{
  FollowTable, FollowTableLaws, create, delete, exists, count_following,
}
use cooking_platform.Service.World.{World, in_db, in_db-eq-ok}
use cooking_platform.Service.Follow.{followed, announce_if, create_edge}

module _ {D : Type 0} (t : FollowTable D) where
  -- The replica shows what the master shows.
  pub record IsCaughtUp (d : D) : Type 0 where
    pub edges : (a b : ℕ) → t.edge false a b d ≡ t.edge true a b d
    pub degrees : (a : ℕ) → t.degree false a d ≡ t.degree true a d

  -- one more edge, if it was not there
  pub record EdgeAdded (a b : ℕ) (d d' : D) : Type 0 where
    pub edge_after : (x y : ℕ) → t.edge true x y d' ≡ (a == x && b == y || t.edge true x y d)
    pub degree_after :
        (x : ℕ)
        → t.degree true x d'
          ≡ t.degree true x d + (if a == x && not (t.edge true a b d) then 1 else 0)

  pub record EdgeRemoved (a b : ℕ) (d d' : D) : Type 0 where
    pub present : t.edge true a b d ≡ true
    pub edge_after : (x y : ℕ) → t.edge true x y d' ≡ (t.edge true x y d && not (a == x && b == y))
    pub degree_after : (x : ℕ) → t.degree true x d ≡ t.degree true x d' + (if a == x then 1 else 0)

  module _ (laws : FollowTableLaws t) where
    pub create-eq-ok :
        (a b : ℕ) (d d' : D) (fresh : Bool)
        → create t a b d ≡ (ok fresh, d')
        → EdgeAdded a b d d' × (fresh ≡ not (t.edge true a b d))
    unfolding create
    create-eq-ok a b d d' fresh h =
        let (n, u, e, k) =
          bind-eq-ok (wrap (t.insert_ignore a b)) (λ n. pure (ltb 0 n)) d d' fresh h in
        let insert = map_error-eq-ok wrapped (t.insert_ignore a b) d u n e in
        let (value, same) = pure-eq-ok (ltb 0 n) fresh u d' k in
        let rows = laws.insert_rows a b d u n insert in
        subst₂ (λ v x. EdgeAdded a b d x × (v ≡ not (t.edge true a b d))) value same
          (
            record {
              edge_after = λ x y. laws.edge-insert a b d u n x y insert;
              degree_after = λ x. ground (arith, laws.degree-insert a b d u n x insert, rows);
            },
            ground (arith, rows),
          )

    pub delete-eq-ok : (a b : ℕ) (d d' : D) → delete t a b d ≡ (ok true, d') → EdgeRemoved a b d d'
    unfolding delete
    delete-eq-ok a b d d' h =
        let (n, u, e, k) =
          bind-eq-ok (wrap (t.delete_edge a b)) (λ n. pure (ltb 0 n)) d d' true h in
        let del = map_error-eq-ok wrapped (t.delete_edge a b) d u n e in
        let (value, same) = pure-eq-ok (ltb 0 n) true u d' k in
        let rows = laws.delete_rows a b d u n del in
        subst (EdgeRemoved a b d) same (record {
          present = ground (arith, rows, value);
          edge_after = λ x y. laws.edge-delete a b d u n x y del;
          degree_after = λ x. ground (arith, laws.degree-delete a b d u n x del, rows, value);
        })

module _ {R D : Type 0} (m : MarkerRedis R) (ttl : ℕ) {t : FollowTable D} (laws : FollowTableLaws t)
    (find_by_id : ℕ → Action D User) where
  pub announced :
      (fresh : Bool) (a b : ℕ) (e : Event) (w w' : World R D) (r : Bool)
      → announce_if m ttl t find_by_id fresh a b e w ≡ (ok r, w')
      → (r ≡ true) × (w'.db ≡ w.db) × (w'.outbox ≡ (if fresh then w.outbox ++ e ∷ [] else w.outbox))
  unfolding mark
  announced true a b e w w' r h = (
    ground (arith, ap (λ (x : Result Bool × World R D). x.0) h),
    λ i. (sym h i).1.db,
    λ i. (sym h i).1.outbox,
  )
  announced false a b e w w' r h = (
    ground (arith, ap (λ (x : Result Bool × World R D). x.0) h),
    λ i. (sym h i).1.db,
    λ i. (sym h i).1.outbox,
  )

  -- What an answered `Follow` has done from some point on, `over` an edge that was there or not.
  pub record FollowOutcome (stamp : Stamp) (a b : ℕ) (w w' : World R D) (r : Bool) : Type 0 where
    pub answer : r ≡ true
    pub added : EdgeAdded t a b w.db w'.db
    pub published :
        w'.outbox ≡ (if t.edge true a b w.db then w.outbox else w.outbox ++ followed stamp a b ∷ [])

  pub create_edge-eq-ok :
      (stamp : Stamp) (a b : ℕ) (w w' : World R D) (r : Bool)
      → create_edge m ttl t find_by_id stamp a b w ≡ (ok r, w')
      → FollowOutcome stamp a b w w' r
  create_edge-eq-ok stamp a b w w' r h =
      let e = followed stamp a b in
      let (fresh, u, c, k) =
        bind-eq-ok (wrap (in_db (create t a b)))
          (λ fresh. announce_if m ttl t find_by_id fresh a b e) w w' r h in
      let (run, redis, outbox) = in_db-eq-ok wrapped (create t a b) w u fresh c in
      let (added, was) = create-eq-ok t laws a b w.db u.db fresh run in
      let (answer, db, sent) = announced fresh a b e u w' r k in
      record {
        answer = answer;
        added = subst (EdgeAdded t a b w.db) (sym db) added;
        published = ground (arith, sent, outbox, was);
      }

  pub already_there :
      (stamp : Stamp) (a b : ℕ) (w w' : World R D) (r : Bool)
      → t.edge true a b w.db ≡ true
      → w'.db ≡ w.db
      → w'.outbox ≡ w.outbox
      → r ≡ true
      → FollowOutcome stamp a b w w' r
  already_there stamp a b w w' r was db outbox answer = record {
    answer = answer;
    added = subst (EdgeAdded t a b w.db) (sym db) (record {
      edge_after = λ x y. ground (arith, was, (==_iff a x).0, (==_iff b y).0);
      degree_after = λ x. ground (arith, was);
    });
    published = ground (arith, was, outbox);
  }

  pub FollowOutcome-after :
      (stamp : Stamp) (a b : ℕ) (w u w' : World R D) (r : Bool)
      → u.db ≡ w.db
      → u.outbox ≡ w.outbox
      → FollowOutcome stamp a b u w' r
      → FollowOutcome stamp a b w w' r
  FollowOutcome-after stamp a b w u w' r db outbox o = record {
    answer = o.answer;
    added = subst (λ d. EdgeAdded t a b d w'.db) db o.added;
    published =
        o.published
        ∙ ap (λ (l : List Event). if t.edge true a b u.db then l else l ++ followed stamp a b ∷ [])
            outbox
        ∙ ap
            (λ (d : D). if t.edge true a b d then w.outbox else w.outbox ++ followed stamp a b ∷ [])
            db;
  }

  pub counted :
      (a n : ℕ) (d d' : D)
      → count_following t false a d ≡ (ok n, d')
      → (n ≡ t.degree false a d) × (d' ≡ d)
  unfolding count_following
  counted a n d d' h =
      laws.count_lem false a d d' n (map_error-eq-ok wrapped (t.select_count false a) d d' n h)

  pub probed :
      (a b : ℕ) (found : Bool) (d d' : D)
      → exists t false a b d ≡ (ok found, d')
      → (found ≡ t.edge false a b d) × (d' ≡ d)
  unfolding exists
  probed a b found d d' h =
      laws.exists_lem false a b d d' found
        (map_error-eq-ok wrapped (t.select_exists false a b) d d' found h)
