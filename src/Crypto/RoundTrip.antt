-- ===== src/Crypto/RoundTrip.antt =====
-- What was encrypted is decrypted with the same key.
use cooking_platform.Prelude.{
  ℕ, ◌≡◌, false, ap, ◌∙◌, sym, [], ◌∷◌, ◌++◌, arith, length, ltb, take-length-append,
  drop-length-append,
}
use cooking_platform.Prelude.Text.{Bytes}
use cooking_platform.Action.{Result, ok}
use cooking_platform.Action.Results.{wrap_error, wrap_error-eq-ok, >>=-eq-ok}
use cooking_platform.Crypto.{CryptoLibrary, open_sealed, encrypt_phone, decrypt_phone}

-- What the packages promise; the random reader fills the buffer it is given.
pub record CryptoLaws {C G : Type 0} (lib : CryptoLibrary C G) (draw : ℕ → Result Bytes)
    : Type 0 where
  pub decodes : (b : Bytes) → lib.base64_decode (lib.base64_encode b) ≡ ok b
  pub opens : (g : G) (nonce plain : Bytes) → lib.unseal g nonce (lib.seal g nonce plain) ≡ ok plain
  pub fills : (n : ℕ) (b : Bytes) → draw n ≡ ok b → length b ≡ n

not_short : (xs ys : Bytes) → ltb (length (xs ++ ys)) (length xs) ≡ false
not_short [] ys = ground arith
not_short (x ∷ xs) ys = ground (arith, not_short xs ys)

module _ {C G : Type 0} {lib : CryptoLibrary C G} {draw : ℕ → Result Bytes}
    (laws : CryptoLaws lib draw) where
  open_sealed-append :
      (g : G) (nonce plain : Bytes)
      → length nonce ≡ lib.nonce_size g
      → open_sealed lib g (nonce ++ lib.seal g nonce plain) ≡ ok plain
  open_sealed-append g nonce plain e =
      let body = lib.seal g nonce plain in
      rw (
        ← e,
        not_short nonce body,
        take-length-append nonce body,
        drop-length-append nonce body,
        laws.opens g nonce plain,
      )

  -- the key in use, and what decryption does under it
  decrypt_phone-under :
      (c : ℕ) (key_hex cipher key sealed : Bytes) (block : C) (gcm : G)
      → wrap_error (lib.hex_decode (c ∷ key_hex)) ≡ ok key
      → wrap_error (lib.new_cipher key) ≡ ok block
      → wrap_error (lib.new_gcm block) ≡ ok gcm
      → lib.base64_decode cipher ≡ ok sealed
      → decrypt_phone lib cipher (c ∷ key_hex) ≡ open_sealed lib gcm sealed
  unfolding decrypt_phone
  decrypt_phone-under c key_hex cipher key sealed block gcm e1 e2 e3 e4 = rw (e1, e4, e2, e3)

  -- A ciphertext that was returned for a plain text and a key is decrypted with that key to the plain
  -- text, under the documented behaviour of the encodings, of the cipher and of the random reader.
  pub decrypt_phone-encrypt_phone :
      (plain key cipher : Bytes)
      → encrypt_phone lib draw plain key ≡ ok cipher
      → decrypt_phone lib cipher key ≡ ok plain
  unfolding encrypt_phone
  decrypt_phone-encrypt_phone plain [] cipher h = absurd (cc)
  decrypt_phone-encrypt_phone plain (c ∷ key_hex) cipher h =
      let (key, e1, h1) = >>=-eq-ok (wrap_error (lib.hex_decode (c ∷ key_hex))) _ cipher h in
      let (block, e2, h2) = >>=-eq-ok (wrap_error (lib.new_cipher key)) _ cipher h1 in
      let (gcm, e3, h3) = >>=-eq-ok (wrap_error (lib.new_gcm block)) _ cipher h2 in
      let (nonce, e4, h4) = >>=-eq-ok (wrap_error (draw (lib.nonce_size gcm))) _ cipher h3 in
      let filled = laws.fills (lib.nonce_size gcm) nonce (wrap_error-eq-ok _ nonce e4) in
      let sealed = nonce ++ lib.seal gcm nonce plain in
      let same : lib.base64_encode sealed ≡ cipher = ground (arith, h4) in
      decrypt_phone-under c key_hex cipher key sealed block gcm e1 e2 e3
        (ap lib.base64_decode (sym same) ∙ laws.decodes sealed)
      ∙ open_sealed-append gcm nonce plain filled
