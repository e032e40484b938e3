-- ===== src/Migration/Rows.antt =====
-- What the migration of one row promises.
use cooking_platform.Prelude.{
  ℕ, ◌≡◌, refl, sym, inl, inr, false, Option, none, some, [], ◌∷◌, arith, Bool-cases,
}
use cooking_platform.Prelude.Text.{Bytes, bytes_eq, bytes_eq_refl, bytes_eq→eq}
use cooking_platform.Action.{Result, ok, err}
use cooking_platform.Action.Results.{wrap_error, wrap_error-eq-ok, >>=-eq-ok}
use cooking_platform.Model.{User}
use cooking_platform.Crypto.{CryptoLibrary, encrypt_phone, decrypt_phone, hash_phone}
use cooking_platform.Crypto.RoundTrip.{CryptoLaws, decrypt_phone-encrypt_phone}
use cooking_platform.Migration.{
  Updates, no_updates, after_decrypt, changed_hash, detect, ciphertext, compute_updates,
}

abbrev or_stored : Option Bytes → Bytes → Bytes
or_stored none stored = stored
or_stored (some v) stored = v

-- the row that the UPDATE leaves
abbrev pub updated : Updates → User → User
updated ups u = record u {
  phone_encrypted = or_stored ups.phone_encrypted u.phone_encrypted;
  phone_hash = or_stored ups.phone_hash u.phone_hash;
}

changed_hash-updated : (fresh stored : Bytes) → or_stored (changed_hash fresh stored) stored ≡ fresh
changed_hash-updated fresh stored = elim (Bool-cases (bytes_eq fresh stored)) [
  | inl same ↦ rw same (sym (bytes_eq→eq fresh stored same))
  | inr other ↦ rw other refl
]

module _ {C G : Type 0} {lib : CryptoLibrary C G} {draw : ℕ → Result Bytes}
    (laws : CryptoLaws lib draw) where
  -- what is decided for a stored number is decided without a change once it is stored
  after_decrypt-updated :
      (c : ℕ) (key stored : Bytes) (found : Result Bytes) (encrypted : Option Bytes)
      → decrypt_phone lib stored (c ∷ key) ≡ found
      → ciphertext lib (c ∷ key) draw (after_decrypt stored found) ≡ ok encrypted
      → after_decrypt
          (or_stored encrypted stored)
          (decrypt_phone lib (or_stored encrypted stored) (c ∷ key))
        ≡ ((after_decrypt stored found).0, false)
  after_decrypt-updated c key stored (ok plain) encrypted e h =
      let same : none ≡ encrypted = ground (arith, h) in rw (← same, e) refl
  after_decrypt-updated c key stored (err x) encrypted e h =
      let (sealed, made, k) =
        >>=-eq-ok (wrap_error (encrypt_phone lib draw stored (c ∷ key))) _ encrypted h in
      let back =
        decrypt_phone-encrypt_phone laws stored (c ∷ key) sealed
          (wrap_error-eq-ok (encrypt_phone lib draw stored (c ∷ key)) sealed made) in
      let same : some sealed ≡ encrypted = ground (arith, k) in rw (← same, back) refl

  detect-updated :
      (key stored : Bytes) (encrypted : Option Bytes)
      → ciphertext lib key draw (detect lib key stored) ≡ ok encrypted
      → detect lib key (or_stored encrypted stored) ≡ ((detect lib key stored).0, false)
  detect-updated [] stored encrypted h =
      let same : none ≡ encrypted = ground (arith, h) in rw (← same) refl
  detect-updated (c ∷ key) stored encrypted h =
      after_decrypt-updated c key stored (decrypt_phone lib stored (c ∷ key)) encrypted refl h

  -- A second run changes nothing: for the row that the update of a first run leaves, whatever the random
  -- reader draws then, no column is set; and the hash of that row is the hash of its phone number.
  pub compute_updates-updated :
      (draw' : ℕ → Result Bytes) (key pepper : Bytes) (u : User) (ups : Updates)
      → compute_updates lib key pepper draw u ≡ ok ups
      → (compute_updates lib key pepper draw' (updated ups u) ≡ ok no_updates)
        × ((updated ups u).phone_hash
            ≡ hash_phone lib (detect lib key (updated ups u).phone_encrypted).0 pepper)
  unfolding compute_updates
  compute_updates-updated draw' key pepper u ups h =
      let found = detect lib key u.phone_encrypted in
      let (encrypted, made, k) = >>=-eq-ok (ciphertext lib key draw found) _ ups h in
      let again = detect-updated key u.phone_encrypted encrypted made in
      let hashed = changed_hash-updated (hash_phone lib found.0 pepper) u.phone_hash in
      let fresh = hash_phone lib found.0 pepper in
      let same : record {
        phone_encrypted = encrypted;
        phone_hash = changed_hash fresh u.phone_hash;
      }
          ≡ ups =
        ground (arith, k) in
      rw (← same, again, hashed, bytes_eq_refl fresh) (refl, refl)
