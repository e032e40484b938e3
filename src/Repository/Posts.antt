-- ===== src/Repository/Posts.antt =====
-- internal/repository/post_repository.go. The statements are parameters; a query that finds no row
-- returns `gorm.ErrRecordNotFound`. The Boolean of a query forces the master.
use cooking_platform.Prelude.{ℕ, Bool, false, ◌&&◌, ◌||◌, List, [], ◌∷◌, ltb, ◌==◌, if◌then◌else◌}
use cooking_platform.Prelude.Text.{Bytes}
use cooking_platform.Errcode.{GoError, post_missing, is_row_missing}
use cooking_platform.Action.{Action, ◌>>=◌, ◌>>◌, pure, map_error}
use cooking_platform.Model.{Post, PostStep, post_visible}

-- the conditions of the two list queries; scene 0 and cursor 0 add none
unfoldable pub in_feed : ℕ → ℕ → Post → Bool
in_feed scene cursor p =
    p.is_visible == post_visible
    && ((scene == 0 || p.scene_tag == scene) && (cursor == 0 || ltb p.created_at cursor))

unfoldable pub of_user : ℕ → Bool → ℕ → Post → Bool
of_user user_id include_invisible cursor p =
    p.user_id == user_id
    && ((include_invisible || p.is_visible == post_visible)
        && (cursor == 0 || ltb p.created_at cursor))

pub record PostTable (D : Type 0) : Type 0 where
  -- INSERT INTO posts, which returns LAST_INSERT_ID; INSERT INTO post_steps of several rows
  pub insert : Post → Action D ℕ
  pub insert_steps : List PostStep → Action D (Unit {0})
  -- what `Transaction` makes of a function: a commit when it returns nil, otherwise a rollback
  pub transaction : Action D Post → Action D Post
  -- SELECT * FROM posts WHERE id = ?, without deleted rows
  pub select_by_id : Bool → ℕ → Action D Post
  -- SELECT * FROM post_steps WHERE post_id = ? ORDER BY step_no ASC
  pub select_steps : Bool → ℕ → Action D (List PostStep)
  -- SELECT * FROM posts WHERE a condition, without deleted rows, ORDER BY created_at DESC LIMIT ?
  pub select_where : Bool → (Post → Bool) → ℕ → Action D (List Post)
  -- UPDATE posts SET audit_status = ?, is_visible = ?, audit_remark = ? WHERE id = ?
  pub update_audit : ℕ → ℕ → ℕ → Bytes → Action D (Unit {0})
  -- UPDATE posts SET deleted_at = ? WHERE id = ? AND user_id = ? AND deleted_at IS NULL
  pub soft_delete : ℕ → ℕ → Action D ℕ

abbrev pub missing_row : GoError → GoError
missing_row e = if is_row_missing e then post_missing else e

-- the steps with the id of their post
abbrev pub with_post_id : ℕ → List PostStep → List PostStep
with_post_id id [] = []
with_post_id id (step ∷ steps) = record step { post_id = id } ∷ with_post_id id steps

module _ {D : Type 0} (t : PostTable D) where
  unfoldable pub create : Post → Action D Post
  create p = do id ← t.insert p; pure (record p { id = id })

  abbrev pub insert_any : List PostStep → Action D (Unit {0})
  insert_any [] = pure tt
  insert_any (step ∷ steps) = t.insert_steps (step ∷ steps)

  unfoldable pub create_with_steps : Post → List PostStep → Action D Post
  create_with_steps p steps =
      t.transaction
        (do id ← t.insert p; insert_any (with_post_id id steps); pure (record p { id = id }))

  unfoldable pub find_by_id : Bool → ℕ → Action D Post
  find_by_id force id = map_error missing_row (t.select_by_id force id)

  unfoldable pub load_steps : Bool → ℕ → Action D (List PostStep)
  load_steps force post_id = t.select_steps force post_id

  unfoldable pub list_feed : ℕ → ℕ → ℕ → Action D (List Post)
  list_feed scene cursor size = t.select_where false (in_feed scene cursor) size

  unfoldable pub list_by_user : Bool → ℕ → Bool → ℕ → ℕ → Action D (List Post)
  list_by_user force user_id include_invisible cursor size =
      t.select_where force (of_user user_id include_invisible cursor) size

  unfoldable pub update_audit_status : ℕ → ℕ → ℕ → Bytes → Action D (Unit {0})
  update_audit_status post_id audit_status is_visible remark =
      t.update_audit post_id audit_status is_visible remark

  unfoldable pub soft_delete_by_owner : ℕ → ℕ → Action D ℕ
  soft_delete_by_owner post_id owner_id = t.soft_delete post_id owner_id
