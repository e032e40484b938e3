-- ===== src/Repository/Follows.antt =====
-- internal/repository/follow_repository.go. A statement that the file sends to MySQL is a parameter,
-- with the driver's answer. Reads go to a replica unless the context forces the master, which
-- internal/repository/force_master.go decides; that context is the Boolean argument.
use cooking_platform.Prelude.{
  ℕ, ◌+◌, ◌≡◌, Bool, true, ◌&&◌, ◌||◌, not, List, [], ◌∷◌, ltb, ◌==◌, if◌then◌else◌, take,
}
use cooking_platform.Prelude.Text.{Bytes}
use cooking_platform.Action.{ok, Action, ◌>>=◌, pure, wrap}

-- `FollowUser`: a row of a follower or following list
pub record FollowUser : Type 0 where
  pub user_id : ℕ
  pub nickname : Bytes
  pub avatar_url : Bytes
  pub follow_id : ℕ

-- `joinDir`
pub data JoinDir : Type 0 where
  followers following : JoinDir

-- `f.id < ?`, which the query has only for a positive cursor
unfoldable pub below : ℕ → List FollowUser → List FollowUser
below cursor [] = []
below cursor (r ∷ rs) =
    let rest = below cursor rs in
    if ltb 0 cursor && not (ltb r.follow_id cursor) then rest else r ∷ rest

pub record FollowTable (D : Type 0) : Type 0 where
  -- INSERT IGNORE INTO follows (follower_id, following_id) VALUES (?, ?)
  pub insert_ignore : ℕ → ℕ → Action D ℕ
  -- DELETE FROM follows WHERE follower_id = ? AND following_id = ?
  pub delete_edge : ℕ → ℕ → Action D ℕ
  -- SELECT EXISTS(SELECT 1 FROM follows WHERE follower_id = ? AND following_id = ?)
  pub select_exists : Bool → ℕ → ℕ → Action D Bool
  -- SELECT count(*) FROM follows WHERE follower_id = ?
  pub select_count : Bool → ℕ → Action D ℕ
  -- SELECT u.id, … FROM follows AS f JOIN users u … WHERE … ORDER BY f.id DESC LIMIT ?
  pub select_join : Bool → JoinDir → ℕ → ℕ → ℕ → Action D (List FollowUser)
  -- what a query on the master would show, or on the replica: an edge, the number of edges from a
  -- user, and the whole list of a user in descending order of `f.id`
  pub edge : Bool → ℕ → ℕ → D → Bool
  pub degree : Bool → ℕ → D → ℕ
  pub listed : Bool → JoinDir → ℕ → D → List FollowUser

-- What MySQL documents of the writes and of the two probes, where they succeed. `follows` has the
-- unique key (follower_id, following_id).
pub record FollowTableLaws {D : Type 0} (t : FollowTable D) : Type 0 where
  pub insert_rows :
      (a b : ℕ) (d d' : D) (n : ℕ)
      → t.insert_ignore a b d ≡ (ok n, d')
      → n ≡ (if t.edge true a b d then 0 else 1)
  pub edge-insert :
      (a b : ℕ) (d d' : D) (n x y : ℕ)
      → t.insert_ignore a b d ≡ (ok n, d')
      → t.edge true x y d' ≡ (a == x && b == y || t.edge true x y d)
  pub degree-insert :
      (a b : ℕ) (d d' : D) (n x : ℕ)
      → t.insert_ignore a b d ≡ (ok n, d')
      → t.degree true x d' ≡ t.degree true x d + (if a == x then n else 0)
  pub delete_rows :
      (a b : ℕ) (d d' : D) (n : ℕ)
      → t.delete_edge a b d ≡ (ok n, d')
      → n ≡ (if t.edge true a b d then 1 else 0)
  pub edge-delete :
      (a b : ℕ) (d d' : D) (n x y : ℕ)
      → t.delete_edge a b d ≡ (ok n, d')
      → t.edge true x y d' ≡ (t.edge true x y d && not (a == x && b == y))
  pub degree-delete :
      (a b : ℕ) (d d' : D) (n x : ℕ)
      → t.delete_edge a b d ≡ (ok n, d')
      → t.degree true x d ≡ t.degree true x d' + (if a == x then n else 0)
  pub exists_lem :
      (force : Bool) (a b : ℕ) (d d' : D) (found : Bool)
      → t.select_exists force a b d ≡ (ok found, d')
      → (found ≡ t.edge force a b d) × (d' ≡ d)
  pub count_lem :
      (force : Bool) (a : ℕ) (d d' : D) (n : ℕ)
      → t.select_count force a d ≡ (ok n, d')
      → (n ≡ t.degree force a d) × (d' ≡ d)

-- The list queries are answered, at the state `d`, with the rows that MySQL documents for them.
abbrev pub ServesLists : {D : Type 0} → FollowTable D → D → Type 0
ServesLists {D} t d =
    (force : Bool) (dir : JoinDir) (pivot cursor size : ℕ)
    → t.select_join force dir pivot cursor size d
      ≡ (ok (take size (below cursor (t.listed force dir pivot d))), d)

module _ {D : Type 0} (t : FollowTable D) where
  -- `Create`
  unfoldable pub create : ℕ → ℕ → Action D Bool
  create follower_id following_id = do
    n ← wrap (t.insert_ignore follower_id following_id)
    pure (ltb 0 n)

  -- `Delete`
  unfoldable pub delete : ℕ → ℕ → Action D Bool
  delete follower_id following_id = do
    n ← wrap (t.delete_edge follower_id following_id)
    pure (ltb 0 n)

  -- `Exists`
  unfoldable pub exists : Bool → ℕ → ℕ → Action D Bool
  exists force follower_id following_id = wrap (t.select_exists force follower_id following_id)

  -- `CountFollowing`
  unfoldable pub count_following : Bool → ℕ → Action D ℕ
  count_following force follower_id = wrap (t.select_count force follower_id)

  -- `listJoin`, with the two methods that call it
  unfoldable pub list_join : Bool → JoinDir → ℕ → ℕ → ℕ → Action D (List FollowUser)
  list_join force dir pivot cursor size = wrap (t.select_join force dir pivot cursor size)
