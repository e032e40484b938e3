-- ===== src/Cache/Marker.antt =====
-- internal/cache/write_marker.go. The two Redis commands are parameters.
use cooking_platform.Prelude.{ℕ, Bool, false, ◌++◌, ltb}
use cooking_platform.Prelude.Text.{Bytes, codes}
use cooking_platform.Strconv.{format_int}
use cooking_platform.Action.{Result, ok, err, Action}

pub record MarkerRedis (R : Type 0) : Type 0 where
  -- SET key value EX seconds; EXISTS key
  pub set : Bytes → Bytes → ℕ → Action R (Unit {0})
  pub exists : Bytes → Action R ℕ

unfoldable pub key_write_marker : ℕ → Bytes
key_write_marker user_id = codes "write:user:" ++ format_int user_id

-- an error counts as no recent write
abbrev pub recent : Result ℕ → Bool
recent (ok n) = ltb 0 n
recent (err e) = false

module _ {R : Type 0} (m : MarkerRedis R) (ttl : ℕ) where
  -- `Mark`, whose error is dropped
  unfoldable pub mark : ℕ → Action R (Unit {0})
  mark user_id s = (ok tt, (m.set (key_write_marker user_id) (codes "1") ttl s).1)

  -- `Has`
  unfoldable pub has : ℕ → Action R Bool
  has user_id s = let (n, s') = m.exists (key_write_marker user_id) s in (ok (recent n), s')
