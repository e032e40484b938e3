-- ===== src/Repository/Users.antt =====
-- internal/repository/user_repository.go. The statements are parameters; a query that finds no row
-- returns `gorm.ErrRecordNotFound`. The Boolean of a query forces the master.
use cooking_platform.Prelude.{ℕ, Bool, Option, none, if◌then◌else◌}
use cooking_platform.Prelude.Text.{Bytes}
use cooking_platform.Errcode.{GoError, user_missing, is_row_missing}
use cooking_platform.Action.{Action, ◌>>=◌, pure, map_error}
use cooking_platform.Model.{User}

-- the map of the columns that an update sets
pub record ProfileFields : Type 0 where
  pub nickname : Option Bytes
  pub bio : Option Bytes
  pub avatar_url : Option Bytes

pub record UserTable (D : Type 0) : Type 0 where
  -- SELECT * FROM users WHERE phone_hash = ?; … WHERE id = ?, without deleted rows
  pub select_by_phone_hash : Bytes → Action D User
  pub select_by_id : Bool → ℕ → Action D User
  -- INSERT INTO users, which returns LAST_INSERT_ID
  pub insert : User → Action D ℕ
  -- UPDATE users SET … WHERE id = ?
  pub update_fields : ℕ → ProfileFields → Action D (Unit {0})

abbrev pub missing_row : GoError → GoError
missing_row e = if is_row_missing e then user_missing else e

-- `len(fields) == 0`
abbrev pub no_fields : Option Bytes → Option Bytes → Option Bytes → Bool
no_fields none none none = Bool.true
no_fields _ _ _ = Bool.false

module _ {D : Type 0} (t : UserTable D) where
  unfoldable pub find_by_phone_hash : Bytes → Action D User
  find_by_phone_hash phone_hash = map_error missing_row (t.select_by_phone_hash phone_hash)

  unfoldable pub find_by_id : Bool → ℕ → Action D User
  find_by_id force id = map_error missing_row (t.select_by_id force id)

  unfoldable pub create : User → Action D User
  create u = do id ← t.insert u; pure (record u { id = id })

  unfoldable pub update_profile : ℕ → ProfileFields → Action D (Unit {0})
  update_profile id fields =
      if no_fields fields.nickname fields.bio fields.avatar_url
      then pure tt
      else t.update_fields id fields
