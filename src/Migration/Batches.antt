-- ===== src/Migration/Batches.antt =====
-- The loop over the batches reaches every row, and ends.
use cooking_platform.Prelude.{
  ℕ, zero, suc, ◌+◌, ◌<◌, ◌≡◌, ◌⊎◌, refl, ◌∙◌, inl, inr, Bool, Option, none, some, List, [], ◌∷◌,
  arith, ltb, ltb→lt, length, Bool-cases,
}
use cooking_platform.Prelude.Text.{Bytes}
use cooking_platform.Errcode.{GoError, wrapped}
use cooking_platform.Action.{Result, ok, err}
use cooking_platform.Model.{User}
use cooking_platform.Crypto.{CryptoLibrary}
use cooking_platform.Migration.{
  Updates, Stats, MigrationTable, batch_size, after_update, write, write_any, after_compute,
  compute_updates, migrate_row, migrate_rows, last_id, after_fetch, batches, migrate, no_stats,
}

-- What MySQL documents of the two statements, while no other client inserts or deletes rows: a batch
-- holds the first rows after the id, and a batch below the limit holds all of them.
pub record BatchLaws {D : Type 0} (t : MigrationTable D) : Type 0 where
  pub none_left : (last : ℕ) (d d' : D) → t.fetch last d ≡ (ok [], d') → t.rows_after last d ≡ 0
  pub first_rows :
      (last : ℕ) (u : User) (us : List User) (d d' : D)
      → t.fetch last d ≡ (ok (u ∷ us), d')
      → t.rows_after last d ≡ length (u ∷ us) + t.rows_after (last_id u us) d'
  pub last_batch :
      (last : ℕ) (u : User) (us : List User) (d d' : D)
      → t.fetch last d ≡ (ok (u ∷ us), d')
      → length (u ∷ us) < batch_size
      → t.rows_after (last_id u us) d' ≡ 0
  pub update_keeps :
      (id last : ℕ) (ups : Updates) (d : D)
      → t.rows_after last (t.update id ups d).1 ≡ t.rows_after last d

module _ {D : Type 0} (t : MigrationTable D) (laws : BatchLaws t) (dry_run : Bool) where
  -- nothing but the numbers and the columns of the rows changes
  abbrev Visits : ℕ → D → Stats × D → Type 0
  Visits count d r =
      (r.0.processed ≡ count) × ((last : ℕ) → t.rows_after last r.1 ≡ t.rows_after last d)

  after_update-Visits :
      (r : Result (Unit {0}) × D) (ups : Updates) (s : Stats) (d : D)
      → ((last : ℕ) → t.rows_after last r.1 ≡ t.rows_after last d)
      → Visits s.processed d (after_update t dry_run r ups s)
  after_update-Visits (ok _, d') ups s d h = (refl, h)
  after_update-Visits (err e, d') ups s d h = (refl, h)

  write-Visits :
      (id : ℕ) (ups : Updates) (s : Stats) (d : D)
      → Visits s.processed d (write t dry_run id ups s d)
  write-Visits id ups s d = elim (Bool-cases dry_run) [
    | inl dry ↦ rw dry (refl, λ last. refl)
    | inr real ↦
        rw real (
          after_update-Visits (t.update id ups d) ups s d (λ last. laws.update_keeps id last ups d))
  ]

  write_any-Visits :
      (id : ℕ) (encrypted hash : Option Bytes) (s : Stats) (d : D)
      → Visits s.processed d (write_any t dry_run id encrypted hash s d)
  write_any-Visits id none none s d = (refl, λ last. refl)
  write_any-Visits id (some v) hash s d =
      write-Visits id (record { phone_encrypted = some v; phone_hash = hash }) s d
  write_any-Visits id none (some v) s d =
      write-Visits id (record { phone_encrypted = none; phone_hash = some v }) s d

  after_compute-Visits :
      (id : ℕ) (r : Result Updates) (s : Stats) (d : D)
      → Visits s.processed d (after_compute t dry_run id r s d)
  after_compute-Visits id (err e) s d = (refl, λ last. refl)
  after_compute-Visits id (ok ups) s d = write_any-Visits id ups.phone_encrypted ups.phone_hash s d

module _ {C G D : Type 0} (lib : CryptoLibrary C G) (key_hex pepper : Bytes) (t : MigrationTable D)
    (laws : BatchLaws t) (dry_run : Bool) (draws : ℕ → ℕ → Result Bytes) where
  migrate_row-Visits :
      (u : User) (s : Stats) (d : D)
      → Visits t laws dry_run
          (s.processed + 1)
          d
          (migrate_row lib key_hex pepper t dry_run draws u s d)
  unfolding migrate_row
  migrate_row-Visits u s d =
      after_compute-Visits t laws dry_run u.id (compute_updates lib key_hex pepper (draws u.id) u)
        (record s { processed = s.processed + 1 }) d

  migrate_rows-Visits :
      (us : List User) (s : Stats) (d : D)
      → Visits t laws dry_run
          (length us + s.processed)
          d
          (migrate_rows lib key_hex pepper t dry_run draws us s d)
  unfolding migrate_rows
  migrate_rows-Visits [] s d = (omega arith, λ last. refl)
  migrate_rows-Visits (u ∷ us) s d =
      let (one, keeps) = migrate_row-Visits u s d in
      let r = migrate_row lib key_hex pepper t dry_run draws u s d in
      let (rest, keeps') = migrate_rows-Visits us r.0 r.1 in
      (rest ∙ omega (arith, one), λ last. keeps' last ∙ keeps last)

  -- the end of a loop whose fetch of a batch failed: that error, wrapped
  abbrev pub FetchFailed : Option (Result Stats) × D → Type 0
  FetchFailed r =
      (last : ℕ) × (before : D) × (e : GoError) × (t.fetch last before ≡ (err e, r.1))
      × (r.0 ≡ some (err (wrapped e)))

  -- a fetch failed, or all rows that are left were visited
  abbrev Reaches : ℕ → Option (Result Stats) × D → Type 0
  Reaches n r = FetchFailed r ⊎ ((s : Stats) × (r.0 ≡ some (ok s)) × (s.processed ≡ n))

  after_fetch-Reaches :
      (last : ℕ) (r : Result (List User) × D) (s : Stats) (d : D)
      (next : ℕ → Stats → D → Option (Result Stats) × D)
      → t.fetch last d ≡ r
      → ((last' : ℕ) (s' : Stats) (d' : D)
          → t.rows_after last' d' < t.rows_after last d
          → Reaches (t.rows_after last' d' + s'.processed) (next last' s' d'))
      → Reaches
          (t.rows_after last d + s.processed)
          (after_fetch lib key_hex pepper t dry_run draws r s next)
  after_fetch-Reaches last (err e, d') s d next h later = inl (last, d, e, h, refl)
  after_fetch-Reaches last (ok [], d') s d next h later =
      inr (s, refl, omega (arith, laws.none_left last d d' h))
  after_fetch-Reaches last (ok (u ∷ us), d') s d next h later =
      let done = migrate_rows lib key_hex pepper t dry_run draws (u ∷ us) s d' in
      let (count, keeps) = migrate_rows-Visits (u ∷ us) s d' in
      let split = laws.first_rows last u us d d' h in
      let same = keeps (last_id u us) in
      elim (Bool-cases (ltb (length (u ∷ us)) batch_size)) [
        | inl short ↦
            let empty = laws.last_batch last u us d d' h (ltb→lt _ _ short) in
            rw short (inr (done.0, refl, omega (arith, count, split, empty)))
        | inr full ↦
            let total : t.rows_after (last_id u us) done.1 + done.0.processed
                ≡ t.rows_after last d + s.processed =
              omega (arith, count, split, same) in
            rw (full, ← total) (later (last_id u us) done.0 done.1 (omega (arith, split, same)))
      ]

  batches-Reaches :
      (fuel last : ℕ) (s : Stats) (d : D)
      → t.rows_after last d < fuel
      → Reaches
          (t.rows_after last d + s.processed)
          (batches lib key_hex pepper t dry_run draws fuel last s d)
  unfolding batches
  batches-Reaches zero last s d h = absurd (omega arith)
  batches-Reaches (suc fuel) last s d h =
      after_fetch-Reaches last (t.fetch last d) s d
        (batches lib key_hex pepper t dry_run draws fuel) refl
        (λ last' s' d' less. batches-Reaches fuel last' s' d' (omega arith))

  -- Where MySQL does what it documents and no other client inserts or deletes rows, with more fuel than there
  -- are rows, the migration ends. Either the query for a batch failed, and it
  -- returns the error of that query, wrapped; or it returns statistics that count every row once. An
  -- update of a single row that fails does not end it.
  pub migrate-processed :
      (fuel : ℕ) (d : D)
      → t.rows_after 0 d < fuel
      → FetchFailed (migrate lib key_hex pepper t dry_run draws fuel d)
        ⊎ ((s : Stats) × ((migrate lib key_hex pepper t dry_run draws fuel d).0 ≡ some (ok s))
            × (s.processed ≡ t.rows_after 0 d))
  unfolding migrate
  migrate-processed fuel d h = elim (batches-Reaches fuel 0 no_stats d h) [
    | inl failed ↦ inl failed
    | inr (s, done, count) ↦ inr (s, done, omega (arith, count))
  ]
