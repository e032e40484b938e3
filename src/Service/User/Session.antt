-- ===== src/Service/User/Session.antt =====
-- `Refresh`, `Logout`, `VerifyAccessToken` and `issueTokenPair` of internal/service/user_service.go.
-- What `time.Now()` and `uuid.NewString()` return stands in the stamps.
pub mod Revoked
use cooking_platform.Prelude.{ℕ, ◌-◌, Bool, true, false, leb, not, if◌then◌else◌}
use cooking_platform.Prelude.Int.{pos_part}
use cooking_platform.Prelude.Text.{Bytes, codes}
use cooking_platform.Errcode.{
  GoError, app, wrapped, is_user_missing, is_expired_token, token_expired, token_invalid,
  user_not_found, user_banned,
}
use cooking_platform.Action.{
  require, Result, ok, err, Action, ◌>>=◌, ◌>>◌, pure, fail, wrap, map_error,
}
use cooking_platform.Action.Results
use cooking_platform.Action.Results.{give}
use cooking_platform.Events.{Stamp}
use cooking_platform.Jwt.{
  JwtLibrary, Manager, Claims, Issued, parse, issue_access_token, issue_refresh_token,
}
use cooking_platform.Cache.User.{blacklist_jwt, is_jwt_blacklisted, is_user_banned}
use cooking_platform.Repository.Users.{find_by_id}
use cooking_platform.Service.User.{UserEnv, is_banned}

-- `dto.TokenPair`
pub record TokenPair : Type 0 where
  pub access_token : Bytes
  pub refresh_token : Bytes
  pub access_token_expires_at : ℕ
  pub token_type : Bytes

-- what a request is told of an unreadable token
abbrev pub token_error : GoError → GoError
token_error e = if is_expired_token e then app token_expired else app token_invalid

abbrev pub user_error : GoError → GoError
user_error e = if is_user_missing e then app user_not_found else wrapped e

-- a failing check does not stop the request
abbrev pub holds : Result Bool → Bool
holds (ok b) = b
holds (err e) = false

module _ (lib : JwtLibrary) (m : Manager) where
  -- `issueTokenPair`, with a stamp for each of the two tokens
  unfoldable pub issue_token_pair : Stamp → Stamp → ℕ → Result TokenPair
  issue_token_pair first second user_id =
      Results.◌>>=◌ (issue_access_token lib m user_id first) λ access.
        Results.◌>>=◌ (issue_refresh_token lib m user_id second) λ refresh. ok (record {
          access_token = access.token;
          refresh_token = refresh.token;
          access_token_expires_at = access.expires_at;
          token_type = codes "Bearer";
        })

module _ {W : Type 0} (lib : JwtLibrary) (m : Manager) (env : UserEnv W) where
  -- `Refresh` at a time
  unfoldable pub refresh : ℕ → Stamp → Stamp → Bytes → Action W TokenPair
  refresh now first second refresh_token = do
    claims ← map_error token_error (give (parse lib m now refresh_token))
    user ← map_error user_error (find_by_id env.users false (pos_part claims.user_id))
    require (not (is_banned user)) user_banned
    wrap (give (issue_token_pair lib m first second (pos_part claims.user_id)))

  abbrev pub revoke : ℕ → Result Claims → Action W (Unit {0})
  revoke now (ok claims) =
      if leb claims.expires_at now
      then pure tt
      else wrap (blacklist_jwt env.redis claims.jti (claims.expires_at - now))
  revoke now (err e) = pure tt

  -- `Logout`, whose token is read and whose remaining time is computed at one moment
  unfoldable pub logout : ℕ → Bytes → Action W (Unit {0})
  logout now access_token = revoke now (parse lib m now access_token)

  -- the two checks of `VerifyAccessToken`: an error of Redis lets the request pass
  abbrev pub refuse_if : Action W Bool → GoError → Action W (Unit {0})
  refuse_if check e s = let (found, s') = check s in (if holds found then err e else ok tt, s')

  -- `VerifyAccessToken`, which returns the id of the user and of the token
  unfoldable pub verify_access_token : ℕ → Bytes → Action W (ℕ × Bytes)
  verify_access_token now token = do
    claims ← map_error token_error (give (parse lib m now token))
    refuse_if (is_jwt_blacklisted env.redis claims.jti) (app token_invalid)
    refuse_if (is_user_banned env.redis (pos_part claims.user_id)) (app user_banned)
    pure (pos_part claims.user_id, claims.jti)
