-- ===== src/Tests/Clear.antt =====
-- A cryptographic library without secrets, for the tests.
use cooking_platform.Prelude.{ℕ, zero, suc, ◌≡◌, refl, ap, arith, ◌∷◌, [], length}
use cooking_platform.Prelude.Text.{Bytes}
use cooking_platform.Action.{Result, ok}
use cooking_platform.Crypto.{CryptoLibrary}
use cooking_platform.Crypto.RoundTrip.{CryptoLaws}

-- a library without secrets
abbrev pub zeros : ℕ → Bytes
zeros zero = []
zeros (suc n) = 0 ∷ zeros n

abbrev pub clear : CryptoLibrary (Unit {0}) (Unit {0})
clear = record {
  hex_decode = λ s. ok s;
  base64_encode = λ s. s;
  base64_decode = λ s. ok s;
  sha256_hex = λ s. s;
  new_cipher = λ k. ok tt;
  new_gcm = λ c. ok tt;
  nonce_size = λ g. 12;
  seal = λ g nonce plain. plain;
  unseal = λ g nonce sealed. ok sealed;
}

abbrev pub zero_nonce : ℕ → Result Bytes
zero_nonce n = ok (zeros n)

length-zeros : (n : ℕ) → length (zeros n) ≡ n
length-zeros zero = refl
length-zeros (suc n) = ap suc (length-zeros n)

pub clear-laws : CryptoLaws clear zero_nonce
clear-laws = record {
  decodes = λ b. refl;
  opens = λ g nonce plain. refl;
  fills = λ n b h. let same : zeros n ≡ b = ground (arith, h) in rw (← same) (length-zeros n);
}
