-- ===== src/Service/User/Session/Revoked.antt =====
-- A token that was logged out is refused.
use cooking_platform.Prelude.{
  ℕ, ◌+◌, ◌-◌, ◌≤◌, ◌<◌, ◌≡◌, refl, ap, ◌∙◌, true, false, Option, none, some, ◌∷◌, arith, ltb, leb,
  ltb→lt, if◌then◌else◌, Bool-cases, inl, inr,
}
use cooking_platform.Prelude.Text.{Bytes, codes}
use cooking_platform.Errcode.{
  app, wrapped, is_expired_token, expired_token, token_expired, token_invalid,
}
use cooking_platform.Action.{ok, err, wrap, map_error-eq-ok}
use cooking_platform.Events.{Stamp}
use cooking_platform.Jwt.{JwtLibrary, Manager, Claims, Issued, claims_of, issue, parse}
use cooking_platform.Jwt.RoundTrip.{JwtLaws, parse-issue}
use cooking_platform.Cache.User.{UserRedis, key_jwt_blacklist, blacklist_jwt, is_jwt_blacklisted}
use cooking_platform.Service.User.{UserEnv}
use cooking_platform.Service.User.Session.{revoke, logout, verify_access_token}

abbrev pub one_if_some : Option Bytes → ℕ
one_if_some none = 0
one_if_some (some v) = 1

-- What Redis documents of SET and EXISTS.
pub record RevocationLaws {W : Type 0} (r : UserRedis W) : Type 0 where
  pub text-set :
      (k v : Bytes) (t : ℕ) (s s' : W) → r.set k v t s ≡ (ok tt, s') → r.text_at k s' ≡ some v
  pub exists_lem :
      (k : Bytes) (n : ℕ) (s s' : W) → r.exists k s ≡ (ok n, s') → n ≡ one_if_some (r.text_at k s)

module _ {W : Type 0} {lib : JwtLibrary} (jwt : JwtLaws lib) (m : Manager) (env : UserEnv W)
    (laws : RevocationLaws env.redis) where
  revoke-text :
      (now : ℕ) (c : Claims) (s s' : W)
      → now < c.expires_at
      → revoke lib m env now (ok c) s ≡ (ok tt, s')
      → env.redis.text_at (key_jwt_blacklist c.jti) s' ≡ some (codes "1")
  unfolding blacklist_jwt
  revoke-text now c s s' h e =
      let later : leb c.expires_at now ≡ false = ground (arith, h) in
      let left : leb (c.expires_at - now) 0 ≡ false = ground (arith, h) in
      let set = env.redis.set (key_jwt_blacklist c.jti) (codes "1") (c.expires_at - now) in
      laws.text-set (key_jwt_blacklist c.jti) (codes "1") (c.expires_at - now) s s' (
        map_error-eq-ok wrapped set s s' tt
          (map_error-eq-ok wrapped (wrap set) s s' tt (rw (later, left) at e)))

  verify-blacklisted :
      (now : ℕ) (token : Bytes) (c : Claims) (n : ℕ) (s s' : W)
      → parse lib m now token ≡ ok c
      → env.redis.text_at (key_jwt_blacklist c.jti) s ≡ some (codes "1")
      → env.redis.exists (key_jwt_blacklist c.jti) s ≡ (ok n, s')
      → (verify_access_token lib m env now token s).0 ≡ err (app token_invalid)
  unfolding verify_access_token is_jwt_blacklisted
  verify-blacklisted now token c n s s' read there answer =
      let one = laws.exists_lem (key_jwt_blacklist c.jti) n s s' answer ∙ ap one_if_some there in
      rw (read, answer, one) refl

  verify-expired :
      (now : ℕ) (token : Bytes) (s : W)
      → parse lib m now token ≡ err expired_token
      → (verify_access_token lib m env now token s).0 ≡ err (app token_expired)
  unfolding verify_access_token is_expired_token
  verify-expired now token s read = rw read refl

  -- A token is issued, and read at or after its issue by a `Logout` that returns without an error. A
  -- later `VerifyAccessToken` of the token finds the blacklist as the logout left it for this token, and
  -- Redis answers its check. Then it refuses the token: as invalid before the second of its expiry, and
  -- as expired from then on.
  pub verify_access_token-logout :
      (user_id ttl b : ℕ) (id : Bytes) (issued_at now later : ℕ) (t : Issued) (s s' u u' : W)
      (n : ℕ)
      → 0 < user_id
      → issue lib m user_id ttl (record { id = b ∷ id; now = issued_at }) ≡ ok t
      → issued_at ≤ now
      → now ≤ later
      → logout lib m env now t.token s ≡ (ok tt, s')
      → env.redis.text_at (key_jwt_blacklist (b ∷ id)) u
        ≡ env.redis.text_at (key_jwt_blacklist (b ∷ id)) s'
      → env.redis.exists (key_jwt_blacklist (b ∷ id)) u ≡ (ok n, u')
      → (verify_access_token lib m env later t.token u).0
        ≡ err (
            app (
              if ltb later (lib.numeric_date (issued_at + ttl))
              then token_invalid
              else token_expired))
  unfolding logout
  verify_access_token-logout user_id ttl b id issued_at now later t s s' u u' n p h le le' out same
        answer =
      let stamp : Stamp = record { id = b ∷ id; now = issued_at } in
      let c = claims_of lib m user_id ttl stamp in
      let read = λ (at : ℕ) (after : issued_at ≤ at).
        parse-issue jwt m user_id ttl b id issued_at at t p h after in
      let read_later = read later (omega arith) in
      let read_now = read now le in
      elim (Bool-cases (ltb later (lib.numeric_date (issued_at + ttl)))) [
        | inl alive ↦
            let lt = ltb→lt later (lib.numeric_date (issued_at + ttl)) alive in
            let now_alive : ltb now (lib.numeric_date (issued_at + ttl)) ≡ true =
              ground (arith, lt) in
            let done = rw (read_now, now_alive) at out in
            rw alive (
              verify-blacklisted later t.token c n u u' (rw (read_later, alive) refl)
                (same ∙ revoke-text now c s s' (omega (arith, lt)) done) answer)
        | inr over ↦ rw over (verify-expired later t.token u (rw (read_later, over) refl))
      ]
