-- ===== src/Migration.antt =====
-- cmd/migrate-phone/main.go: encryption of the phone numbers that earlier versions stored in the clear.
-- The two statements are parameters; the draws of the random reader are given by the row's id.
pub mod Rows
pub mod Batches
use cooking_platform.Prelude.{
  ℕ, zero, suc, ◌+◌, Bool, true, false, Option, none, some, List, [], ◌∷◌, ltb, if◌then◌else◌,
  length,
}
use cooking_platform.Prelude.Text.{Bytes, bytes_eq}
use cooking_platform.Action.{Result, ok, err, Action}
use cooking_platform.Action.Results.{◌>>=◌, wrap_error}
use cooking_platform.Model.{User}
use cooking_platform.Crypto.{CryptoLibrary, encrypt_phone, decrypt_phone, hash_phone}

-- the map of the columns that an update sets
pub record Updates : Type 0 where
  pub phone_encrypted : Option Bytes
  pub phone_hash : Option Bytes

pub record Stats : Type 0 where
  pub processed : ℕ
  pub encrypted : ℕ
  pub rehashed : ℕ
  pub skipped : ℕ
  pub errors : ℕ

pub record MigrationTable (D : Type 0) : Type 0 where
  -- SELECT * FROM users WHERE id > ? AND deleted_at IS NULL ORDER BY id LIMIT 200
  pub fetch : ℕ → Action D (List User)
  -- UPDATE users SET … WHERE id = ?
  pub update : ℕ → Updates → Action D (Unit {0})
  -- how many rows the first statement has from an id on
  pub rows_after : ℕ → D → ℕ

abbrev pub batch_size : ℕ
batch_size = 200

abbrev pub no_updates : Updates
no_updates = record { phone_encrypted = none; phone_hash = none }

-- `users[len(users)-1].ID`
abbrev pub last_id : User → List User → ℕ
last_id u [] = u.id
last_id u (v ∷ us) = last_id v us

abbrev pub no_stats : Stats
no_stats = record { processed = 0; encrypted = 0; rehashed = 0; skipped = 0; errors = 0 }

-- the phone number, and whether it has to be encrypted
abbrev pub after_decrypt : Bytes → Result Bytes → Bytes × Bool
after_decrypt stored (ok plain) = (plain, false)
after_decrypt stored (err e) = (stored, true)

-- `newHash != u.PhoneHash`
abbrev pub changed_hash : Bytes → Bytes → Option Bytes
changed_hash fresh stored = if bytes_eq fresh stored then none else some fresh

abbrev pub one_if_set : Option Bytes → ℕ
one_if_set none = 0
one_if_set (some v) = 1

abbrev pub count_updates : Updates → Stats → Stats
count_updates ups s = record s {
  encrypted = s.encrypted + one_if_set ups.phone_encrypted;
  rehashed = s.rehashed + one_if_set ups.phone_hash;
}

abbrev pub add_error : Stats → Stats
add_error s = record s { errors = s.errors + 1 }

module _ {C G : Type 0} (lib : CryptoLibrary C G) where
  abbrev pub detect : Bytes → Bytes → Bytes × Bool
  detect [] stored = (stored, false)
  detect (c ∷ key) stored = after_decrypt stored (decrypt_phone lib stored (c ∷ key))

  abbrev pub ciphertext : Bytes → (ℕ → Result Bytes) → Bytes × Bool → Result (Option Bytes)
  ciphertext key_hex draw (plain, false) = ok none
  ciphertext key_hex draw (plain, true) =
      wrap_error (encrypt_phone lib draw plain key_hex) >>= λ sealed. ok (some sealed)

  -- `computeUpdates`
  unfoldable pub compute_updates : Bytes → Bytes → (ℕ → Result Bytes) → User → Result Updates
  compute_updates key_hex pepper draw u =
      let found = detect key_hex u.phone_encrypted in
      ciphertext key_hex draw found >>= λ encrypted. ok (record {
        phone_encrypted = encrypted;
        phone_hash = changed_hash (hash_phone lib found.0 pepper) u.phone_hash;
      })

module _ {D : Type 0} (t : MigrationTable D) (dry_run : Bool) where
  abbrev pub after_update : Result (Unit {0}) × D → Updates → Stats → Stats × D
  after_update (ok _, d) ups s = (count_updates ups s, d)
  after_update (err e, d) ups s = (add_error s, d)

  abbrev pub write : ℕ → Updates → Stats → D → Stats × D
  write id ups s d =
      if dry_run then (count_updates ups s, d) else after_update (t.update id ups d) ups s

  -- `len(updates) == 0`
  abbrev pub write_any : ℕ → Option Bytes → Option Bytes → Stats → D → Stats × D
  write_any id none none s d = (record s { skipped = s.skipped + 1 }, d)
  write_any id (some v) hash s d =
      write id (record { phone_encrypted = some v; phone_hash = hash }) s d
  write_any id none (some v) s d =
      write id (record { phone_encrypted = none; phone_hash = some v }) s d

  abbrev pub after_compute : ℕ → Result Updates → Stats → D → Stats × D
  after_compute id (err e) s d = (add_error s, d)
  after_compute id (ok ups) s d = write_any id ups.phone_encrypted ups.phone_hash s d

module _ {C G D : Type 0} (lib : CryptoLibrary C G) (key_hex pepper : Bytes) (t : MigrationTable D)
    (dry_run : Bool) (draws : ℕ → ℕ → Result Bytes) where
  -- one row of the inner loop, and the inner loop
  unfoldable pub migrate_row : User → Stats → D → Stats × D
  unfolding compute_updates
  migrate_row u s d =
      after_compute t dry_run u.id (compute_updates lib key_hex pepper (draws u.id) u)
        (record s { processed = s.processed + 1 }) d

  unfoldable pub migrate_rows : List User → Stats → D → Stats × D
  unfolding migrate_row
  migrate_rows [] s d = (s, d)
  migrate_rows (u ∷ us) s d = let (s', d') = migrate_row u s d in migrate_rows us s' d'

  -- what the loop does with a batch: `next` goes on from an id
  abbrev pub after_fetch :
      Result (List User) × D
      → Stats
      → (ℕ → Stats → D → Option (Result Stats) × D)
      → Option (Result Stats) × D
  after_fetch (err e, d) s next = (some (wrap_error (err e)), d)
  after_fetch (ok [], d) s next = (some (ok s), d)
  after_fetch (ok (u ∷ us), d) s next =
      let (s', d') = migrate_rows (u ∷ us) s d in
      let more = next (last_id u us) s' d' in
      if ltb (length (u ∷ us)) batch_size then (some (ok s'), d') else more

  -- the outer loop on fuel; `none` when it runs out
  unfoldable pub batches : ℕ → ℕ → Stats → D → Option (Result Stats) × D
  batches zero last s d = (none, d)
  batches (suc fuel) last s d = let next = batches fuel in after_fetch (t.fetch last d) s next

  -- `migrate`
  unfoldable pub migrate : ℕ → D → Option (Result Stats) × D
  unfolding batches
  migrate fuel d =
      batches fuel 0
        (record { processed = 0; encrypted = 0; rehashed = 0; skipped = 0; errors = 0 }) d
