-- ===== src/Tests/Migration.antt =====
-- A run of the migration on a table of one row, with the theorems applied to it.
use cooking_platform.Prelude.{
  ℕ, ◌≡◌, ◌⊎◌, refl, ap, Bool, true, false, some, List, [], ◌∷◌, ◌++◌, arith, ltb, if◌then◌else◌,
}
use cooking_platform.Prelude.Text.{codes, bytes_eq}
use cooking_platform.Action.{ok}
use cooking_platform.Model.{User}
use cooking_platform.Crypto.{encrypt_phone, decrypt_phone, hash_phone}
use cooking_platform.Tests.Clear.{clear, zeros, zero_nonce, clear-laws}
use cooking_platform.Tests.MemoryUsers.{cook}
use cooking_platform.Migration.{
  Updates, Stats, MigrationTable, no_updates, detect, compute_updates, migrate,
}
use cooking_platform.Migration.Rows.{updated, compute_updates-updated}
use cooking_platform.Migration.Batches.{BatchLaws, FetchFailed, migrate-processed}

abbrev found : ℕ → User → List User
found last u = if ltb last u.id then u ∷ [] else []

abbrev one_row : MigrationTable User
one_row = record {
  fetch = λ last u. (ok (found last u), u);
  update = λ id ups u. (ok tt, updated ups u);
  rows_after = λ last u. if ltb last u.id then 1 else 0;
}

-- the batch of the one row
batch :
    (b : Bool) (w u : User) (us : List User)
    → ◌≡◌ {A = List User} (if b then w ∷ [] else []) (u ∷ us)
    → (b ≡ true) × (w.id ≡ u.id) × (us ≡ [])
batch true w u us h = ground (arith, h)
batch false w u us h = absurd (ground (arith, h))

empty_batch : (b : Bool) (w : User) → ◌≡◌ {A = List User} (if b then w ∷ [] else []) [] → b ≡ false
empty_batch true w h = absurd (ground (arith, h))
empty_batch false w h = refl

fetched :
    (last : ℕ) (us : List User) (d d' : User)
    → one_row.fetch last d ≡ (ok us, d')
    → (found last d ≡ us) × (d.id ≡ d'.id)
fetched last us d d' h = (ground (arith, ap (λ x. x.0) h), ap (λ x. x.1.id) h)

none_after : (last : ℕ) (w u : User) → w.id ≡ u.id → last ≡ u.id → one_row.rows_after last w ≡ 0
none_after last w u h e = ground (arith, h, e)

one_row-laws : BatchLaws one_row
one_row-laws = record {
  none_left = λ last d d' h. rw (empty_batch (ltb last d.id) d (fetched last [] d d' h).0) refl;
  first_rows = λ last u us d d' h.
      let (rows, same) = fetched last (u ∷ us) d d' h in
      let (after, id, nil) = batch (ltb last d.id) d u us rows in
      rw (after, nil, none_after u.id d' u (omega (arith, id, same)) refl) refl;
  last_batch = λ last u us d d' h short.
      let (rows, same) = fetched last (u ∷ us) d d' h in
      let (after, id, nil) = batch (ltb last d.id) d u us rows in
      rw nil (none_after u.id d' u (omega (arith, id, same)) refl);
  update_keeps = λ id last ups d. refl;
}

-- a number in the clear, under a key
abbrev old_row : User
old_row = record cook { phone_encrypted = codes "13812345678"; phone_hash = codes "old" }

abbrev first_run : Updates
first_run = record {
  phone_encrypted = some (zeros 12 ++ codes "13812345678");
  phone_hash = some (codes "13812345678p");
}

compute_updates-updated_example :
    (compute_updates clear (codes "k") (codes "p") zero_nonce (updated first_run old_row)
      ≡ ok no_updates)
    × ((updated first_run old_row).phone_hash
        ≡ hash_phone clear
            (detect clear (codes "k") (updated first_run old_row).phone_encrypted).0
            (codes "p"))
unfolding compute_updates decrypt_phone encrypt_phone bytes_eq hash_phone
compute_updates-updated_example =
    compute_updates-updated clear-laws zero_nonce (codes "k") (codes "p") old_row first_run refl

migrate-processed_example :
    FetchFailed clear
      (codes "k")
      (codes "p")
      one_row
      one_row-laws
      false
      (λ id. zero_nonce)
      (migrate clear (codes "k") (codes "p") one_row false (λ id. zero_nonce) 2 old_row)
    ⊎ ((s : Stats) × ((migrate clear
            (codes "k")
            (codes "p")
            one_row
            false
            (λ id. zero_nonce)
            2
            old_row).0
          ≡ some (ok s))
        × (s.processed ≡ 1))
migrate-processed_example =
    migrate-processed clear (codes "k") (codes "p") one_row one_row-laws false (λ id. zero_nonce) 2
      old_row (omega arith)
