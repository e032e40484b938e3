-- ===== src/Jwt/RoundTrip.antt =====
-- A token that was issued is read back as it was issued.
use cooking_platform.Prelude.{ℕ, ◌+◌, ◌≡◌, true, some, ◌∷◌, arith, ltb, if◌then◌else◌, ◌<◌, ◌≤◌}
use cooking_platform.Prelude.Int.{pos, ltb_ℤ}
use cooking_platform.Prelude.Text.{Bytes}
use cooking_platform.Errcode.{expired_token}
use cooking_platform.Action.{ok, err}
use cooking_platform.Action.Results.{wrap_error, wrap_error-eq-ok, >>=-eq-ok}
use cooking_platform.Events.{Stamp}
use cooking_platform.Jwt.{
  Claims, rejected, parsed, JwtLibrary, Manager, Issued, checked, claims_of, issue, parse,
}

-- What the package documents: its signature is accepted under the key that made it, from the moment
-- the token may be used until it expires; then the error is one of expiry. Dates are cut to seconds.
pub record JwtLaws (lib : JwtLibrary) : Type 0 where
  pub signs_hmac :
      (key token : Bytes) (c : Claims)
      → lib.signed_string key c ≡ ok token
      → lib.is_hmac token ≡ true
  pub parses :
      (key token : Bytes) (c : Claims) (now : ℕ)
      → lib.signed_string key c ≡ ok token
      → c.not_before ≤ now
      → lib.parse_with_claims (some key) now token
        ≡ (if ltb now c.expires_at then parsed true c else rejected true)
  pub date-le : (t : ℕ) → lib.numeric_date t ≤ t

checked-eq-ok :
    (c : Claims) (b : ℕ) (s : Bytes) → ltb_ℤ (pos 0) c.user_id ≡ true → checked c (b ∷ s) ≡ ok c
checked-eq-ok c b s h = rw h

-- A token issued to a positive user id under some unique id that is not empty, and read with the same
-- secret at or after its issue: before the second of its expiry `Parse` returns the claims with which it
-- was signed, and from then on the error of expiry.
pub parse-issue :
    {lib : JwtLibrary}
    → JwtLaws lib
    → (m : Manager) (user_id ttl b : ℕ) (s : Bytes) (issued_at now : ℕ) (t : Issued) → 0 < user_id
    → issue lib m user_id ttl (record { id = b ∷ s; now = issued_at }) ≡ ok t
    → issued_at ≤ now
    → parse lib m now t.token ≡ (
        if ltb now (lib.numeric_date (issued_at + ttl))
        then ok (claims_of lib m user_id ttl (record { id = b ∷ s; now = issued_at }))
        else err expired_token)
unfolding issue parse
parse-issue {lib} laws m user_id ttl b s issued_at now t p h later =
    let stamp : Stamp = record { id = b ∷ s; now = issued_at } in
    let c = claims_of lib m user_id ttl stamp in
    let (token, e, h') = >>=-eq-ok (wrap_error (lib.signed_string m.secret c)) _ t h in
    let signed = wrap_error-eq-ok (lib.signed_string m.secret c) token e in
    let same : token ≡ t.token = ground (arith, h') in
    let read = laws.parses m.secret token c now signed (omega (arith, laws.date-le issued_at)) in
    rw (← same, laws.signs_hmac m.secret token c signed, read) (ground (arith, p))
