-- ===== src/Jwt.antt =====
-- pkg/jwt/jwt.go. The JWT package is the parameter `JwtLibrary`; times are Unix milliseconds.
pub mod RoundTrip
use cooking_platform.Prelude.{ℕ, ◌+◌, Bool, true, false, Option, none, some, [], ◌∷◌, if◌then◌else◌}
use cooking_platform.Prelude.Int.{ℤ, pos, ltb_ℤ}
use cooking_platform.Prelude.Text.{Bytes, codes}
use cooking_platform.Errcode.{expired_token, wrong_token}
use cooking_platform.Action.{Result, ok, err}
use cooking_platform.Action.Results.{◌>>=◌, wrap_error}
use cooking_platform.Events.{Stamp}

pub record Claims : Type 0 where
  pub user_id : ℤ
  pub jti : Bytes
  pub issued_at : ℕ
  pub not_before : ℕ
  pub expires_at : ℕ
  pub issuer : Bytes

-- What `ParseWithClaims` returns: an error, which is one of expiry or another, or whether the token is
-- valid beside its claims.
pub data Parsed : Type 0 where
  rejected : Bool → Parsed
  parsed : Bool → Claims → Parsed

pub record JwtLibrary : Type 0 where
  -- SignedString of a token signed with HS256
  pub signed_string : Bytes → Claims → Result Bytes
  -- whether the header of a token names an HMAC method
  pub is_hmac : Bytes → Bool
  -- ParseWithClaims at a time, with the key that the callback returns for the token
  pub parse_with_claims : Option Bytes → ℕ → Bytes → Parsed
  -- NewNumericDate
  pub numeric_date : ℕ → ℕ

-- `Manager`
pub record Manager : Type 0 where
  pub secret : Bytes
  pub access_token_ttl : ℕ
  pub refresh_token_ttl : ℕ

-- what `issue` returns without an error
pub record Issued : Type 0 where
  pub token : Bytes
  pub jti : Bytes
  pub expires_at : ℕ

-- the tests of `Parse` on the claims
abbrev pub checked : Claims → Bytes → Result Claims
checked c [] = err wrong_token
checked c (b ∷ jti) = if ltb_ℤ (pos 0) c.user_id then ok c else err wrong_token

abbrev pub classify : Parsed → Result Claims
classify (rejected true) = err expired_token
classify (rejected false) = err wrong_token
classify (parsed false c) = err wrong_token
classify (parsed true c) = checked c c.jti

module _ (lib : JwtLibrary) (m : Manager) where
  abbrev pub claims_of : ℕ → ℕ → Stamp → Claims
  claims_of user_id ttl stamp = record {
    user_id = pos user_id;
    jti = stamp.id;
    issued_at = lib.numeric_date stamp.now;
    not_before = lib.numeric_date stamp.now;
    expires_at = lib.numeric_date (stamp.now + ttl);
    issuer = codes "cooking-platform";
  }

  -- `issue`, with what `uuid.NewString()` and `time.Now()` return
  unfoldable pub issue : ℕ → ℕ → Stamp → Result Issued
  issue user_id ttl stamp = do
    signed ← wrap_error (lib.signed_string m.secret (claims_of user_id ttl stamp))
    ok (record { token = signed; jti = stamp.id; expires_at = stamp.now + ttl })

  unfoldable pub issue_access_token : ℕ → Stamp → Result Issued
  unfolding issue
  issue_access_token user_id stamp = issue user_id m.access_token_ttl stamp

  unfoldable pub issue_refresh_token : ℕ → Stamp → Result Issued
  unfolding issue
  issue_refresh_token user_id stamp = issue user_id m.refresh_token_ttl stamp

  -- the callback of `Parse`
  abbrev pub key_for : Bytes → Option Bytes
  key_for token = if lib.is_hmac token then some m.secret else none

  -- `Parse` at a time
  unfoldable pub parse : ℕ → Bytes → Result Claims
  parse now token = classify (lib.parse_with_claims (key_for token) now token)
