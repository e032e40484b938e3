-- ===== src/Crypto.antt =====
-- pkg/crypto: encryption of phone numbers, their hash, and the masks of the log. The standard library
-- is the parameter `CryptoLibrary`.
pub mod RoundTrip
use cooking_platform.Prelude.{
  ℕ, ◌-◌, List, [], ◌∷◌, ◌++◌, ltb, leb, if◌then◌else◌, length, take, drop,
}
use cooking_platform.Prelude.Text.{Bytes, codes}
use cooking_platform.Errcode.{empty_key, other}
use cooking_platform.Action.{Result, ok, err}
use cooking_platform.Action.Results.{◌>>=◌, wrap_error}

pub record CryptoLibrary (C G : Type 0) : Type 0 where
  pub hex_decode : Bytes → Result Bytes
  pub base64_encode : Bytes → Bytes
  pub base64_decode : Bytes → Result Bytes
  -- hex.EncodeToString of sha256.Sum256
  pub sha256_hex : Bytes → Bytes
  -- aes.NewCipher, cipher.NewGCM, NonceSize, Seal and Open without a destination and extra data
  pub new_cipher : Bytes → Result C
  pub new_gcm : C → Result G
  pub nonce_size : G → ℕ
  pub seal : G → Bytes → Bytes → Bytes
  pub unseal : G → Bytes → Bytes → Result Bytes

module _ {C G : Type 0} (lib : CryptoLibrary C G) where
  -- from the test of the length on
  abbrev pub open_sealed : G → Bytes → Result Bytes
  open_sealed gcm bytes =
      if ltb (length bytes) (lib.nonce_size gcm)
      then err other
      else wrap_error
          (lib.unseal gcm (take (lib.nonce_size gcm) bytes) (drop (lib.nonce_size gcm) bytes))

  -- `draw` is what `io.ReadFull(rand.Reader, nonce)` puts in a nonce of some size.
  unfoldable pub encrypt_phone : (ℕ → Result Bytes) → Bytes → Bytes → Result Bytes
  encrypt_phone draw plaintext [] = err empty_key
  encrypt_phone draw plaintext (c ∷ key_hex) = do
    key ← wrap_error (lib.hex_decode (c ∷ key_hex))
    block ← wrap_error (lib.new_cipher key)
    gcm ← wrap_error (lib.new_gcm block)
    nonce ← wrap_error (draw (lib.nonce_size gcm))
    ok (lib.base64_encode (nonce ++ lib.seal gcm nonce plaintext))

  unfoldable pub decrypt_phone : Bytes → Bytes → Result Bytes
  decrypt_phone ciphertext [] = err empty_key
  decrypt_phone ciphertext (c ∷ key_hex) = do
    key ← wrap_error (lib.hex_decode (c ∷ key_hex))
    sealed ← wrap_error (lib.base64_decode ciphertext)
    block ← wrap_error (lib.new_cipher key)
    gcm ← wrap_error (lib.new_gcm block)
    open_sealed gcm sealed

  unfoldable pub hash_phone : Bytes → Bytes → Bytes
  hash_phone phone pepper = lib.sha256_hex (phone ++ pepper)

-- the last `n` bytes
abbrev pub last_bytes : ℕ → Bytes → Bytes
last_bytes n s = drop (length s - n) s

unfoldable pub mask_phone : Bytes → Bytes
mask_phone phone =
    if ltb (length phone) 7 then phone else take 3 phone ++ codes "****" ++ last_bytes 4 phone

abbrev pub stars : Bytes → Bytes
stars [] = []
stars (c ∷ s) = b'*' ∷ stars s

unfoldable pub mask_token : Bytes → Bytes
mask_token token = if leb (length token) 8 then stars token else take 8 token ++ codes "..."
