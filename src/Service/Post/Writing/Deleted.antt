-- ===== src/Service/Post/Writing/Deleted.antt =====
-- A post is deleted once, by its author.
use cooking_platform.Prelude.{
  ℕ, ◌≡◌, ◌≢◌, refl, ap, sym, ◌∙◌, Bool, true, false, ◌&&◌, not, [], ◌∷◌, ◌++◌, arith, ◌==◌, ==_iff,
  if◌then◌else◌,
}
use cooking_platform.Prelude.Text.{codes}
use cooking_platform.Errcode.{wrapped, post_forbidden, post_not_found}
use cooking_platform.Action.{
  ok, wrap, map_error, require, require-eq-ok, bind-eq-ok, map_error-eq-ok,
}
use cooking_platform.Events.{Stamp, Event, post_deleted_event}
use cooking_platform.Model.{Post}
use cooking_platform.Cache.Marker.{mark}
use cooking_platform.Repository.Posts.{PostTable, missing_row, find_by_id, soft_delete_by_owner}
use cooking_platform.Service.World.{World, in_db, in_db-eq-ok}
use cooking_platform.Service.Post.{PostEnv, post_error, post_deleted}
use cooking_platform.Service.Post.Writing.{delete}

-- What MySQL documents of the two statements: a query by id leaves the table alone and answers a row
-- with that id, and the UPDATE changes the one row that is alive and of the user.
pub record DeleteLaws {D : Type 0} (t : PostTable D) : Type 0 where
  -- whether a post is there and not deleted, and whose it is
  pub alive : ℕ → D → Bool
  pub owner : ℕ → D → ℕ
  pub selects :
      (force : Bool) (id : ℕ) (d d' : D) (p : Post)
      → t.select_by_id force id d ≡ (ok p, d')
      → (d' ≡ d) × (p.id ≡ id)
  pub deletes :
      (id user : ℕ) (d d' : D) (n : ℕ)
      → t.soft_delete id user d ≡ (ok n, d')
      → (n ≡ (if alive id d && owner id d == user then 1 else 0))
        × (alive id d' ≡ (alive id d && not (owner id d == user)))

-- the event that tells of a deletion
abbrev pub deleted_event : Stamp → ℕ → ℕ → Event
deleted_event stamp post_id user_id = record {
  id = stamp.id;
  topic = codes "event.post.deleted";
  timestamp = stamp.now;
  payload = post_deleted_event post_id user_id;
}

module _ {R D : Type 0} (env : PostEnv R D) (laws : DeleteLaws env.posts) where
  deletion :
      (stamp : Stamp) (user post : ℕ) (w w' : World R D)
      → delete env stamp user post w ≡ (ok tt, w')
      → ((laws.alive post w.db ≡ true)
          × (laws.owner post w.db ≡ user)
          × (laws.alive post w'.db ≡ false))
        × (w'.outbox ≡ w.outbox ++ deleted_event stamp post user ∷ [])
  unfolding post_deleted delete find_by_id soft_delete_by_owner mark
  deletion stamp user post w w' h =
      let find = find_by_id env.posts false post in
      let (p, a, e1, h1) = bind-eq-ok (map_error post_error (in_db find)) _ w w' tt h in
      let (found, redis1, out1) = in_db-eq-ok post_error find w a p e1 in
      let (same, its_id) =
        laws.selects false post w.db a.db p
          (map_error-eq-ok missing_row (env.posts.select_by_id false post) w.db a.db p found) in
      let (x, b, e2, h2) = bind-eq-ok (require (p.user_id == user) post_forbidden) _ a w' tt h1 in
      let (mine, s2) = require-eq-ok (p.user_id == user) post_forbidden a b e2 in
      let remove = soft_delete_by_owner env.posts post user in
      let (n, c, e3, h3) = bind-eq-ok (wrap (in_db remove)) _ b w' tt h2 in
      let (removed, redis3, out3) = in_db-eq-ok wrapped remove b c n e3 in
      let (y, d, e4, h4) = bind-eq-ok (require (not (n == 0)) post_not_found) _ c w' tt h3 in
      let (some_row, s4) = require-eq-ok (not (n == 0)) post_not_found c d e4 in
      let start : b.db ≡ w.db = sym (ap (λ u. u.db) s2) ∙ same in
      let finish : w'.db ≡ c.db = ap (λ u. u.1.db) (sym h4) ∙ sym (ap (λ u. u.db) s4) in
      let (rows, after) =
        laws.deletes post user w.db w'.db n
          (ap remove (sym start) ∙ removed ∙ ap (λ z. (ok n, z)) (sym finish)) in
      let told : d.outbox ≡ w.outbox =
        sym (ap (λ u. u.outbox) s4) ∙ out3 ∙ sym (ap (λ u. u.outbox) s2) ∙ out1 in
      let telling : post_deleted stamp p ≡ deleted_event stamp post user =
        rw (its_id, (==_iff p.user_id user).0 mine) refl in
      (
        (
          ground (arith, some_row, rows),
          ground (arith, some_row, rows),
          ground (arith, some_row, rows, after),
        ),
        ap (λ u. u.1.outbox) (sym h4)
            ∙ ap (λ l. l ++ post_deleted stamp p ∷ []) told
            ∙ ap (λ e. w.outbox ++ e ∷ []) telling,
      )

  -- A `Delete` that succeeds was of a post that was there and by the user whose it is; the post is gone
  -- afterwards, the bus was handed one event, of the deletion of that post by that user, and no later `Delete` of the post succeeds,
  -- by any user, from any state in which it is gone. MySQL does what it documents.
  pub delete-eq-ok :
      (stamp : Stamp) (user_id post_id : ℕ) (w w' : World R D)
      → delete env stamp user_id post_id w ≡ (ok tt, w')
      → (laws.alive post_id w.db ≡ true)
        × (laws.owner post_id w.db ≡ user_id)
        × (laws.alive post_id w'.db ≡ false)
        × (w'.outbox ≡ w.outbox ++ deleted_event stamp post_id user_id ∷ [])
        × ((again : Stamp) (other_user : ℕ) (u u' : World R D)
            → laws.alive post_id u.db ≡ false
            → delete env again other_user post_id u ≢ (ok tt, u'))
  delete-eq-ok stamp user_id post_id w w' h =
      let (gone, out) = deletion stamp user_id post_id w w' h in
      (
        gone.0,
        gone.1,
        gone.2,
        out,
        λ again other_user u u' dead second.
            let (there, out') = deletion again other_user post_id u u' second in cc (dead, there.0),
      )
