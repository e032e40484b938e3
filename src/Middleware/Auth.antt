-- ===== src/Middleware/Auth.antt =====
-- internal/middleware/auth.go and the keys of internal/middleware/ratelimit.go. The values that a request's
-- context carries are a record, and the verifier of tokens is a parameter.
pub mod Bearer
use cooking_platform.Prelude.{
  ℕ, ◌+◌, ◌-◌, Bool, true, false, ◌&&◌, Option, none, some, [], ◌∷◌, ◌++◌, leb, ◌==◌, if◌then◌else◌,
  length, take, drop,
}
use cooking_platform.Prelude.Text.{Bytes, codes}
use cooking_platform.Strconv.{format_int}
use cooking_platform.Errcode.{GoError, AppError, app, wrapped, unauthorized, http_status, code}
use cooking_platform.Action.{Result, ok, err, Action}

-- the keys `auth_user_id` and `auth_jti` of the gin context
pub record RequestContext : Type 0 where
  pub user_id : Option ℕ
  pub jti : Option Bytes

-- whether the handler runs, with the context that it sees, or which status and code are sent instead
pub data Passage : Type 0 where
  next : RequestContext → Passage
  aborted : ℕ → ℕ → Passage

abbrev id_or_zero : Option ℕ → ℕ
id_or_zero none = 0
id_or_zero (some uid) = uid

abbrev jti_or_empty : Option Bytes → Bytes
jti_or_empty none = []
jti_or_empty (some jti) = jti

-- `GetUserID`, `GetJTI`
unfoldable pub get_user_id : RequestContext → ℕ
get_user_id ctx = id_or_zero ctx.user_id

unfoldable pub get_jti : RequestContext → Bytes
get_jti ctx = jti_or_empty ctx.jti

-- a letter in upper case becomes the one in lower case
abbrev pub fold : ℕ → ℕ
fold c = if leb b'A' c && leb c b'Z' then c + (b'a' - b'A') else c

abbrev pub same_letters : Bytes → Bytes → Bool
same_letters (a ∷ s) (b ∷ t) =
    let rest = same_letters s t in if fold a == fold b then rest else false
same_letters _ _ = true

-- `equalFold`
unfoldable pub equal_fold : Bytes → Bytes → Bool
equal_fold s t = let same = same_letters s t in if length s == length t then same else false

abbrev pub prefix : Bytes
prefix = codes "Bearer "

-- `extractBearerToken`, with `none` for an error
unfoldable pub extract_bearer_token : Bytes → Option Bytes
unfolding equal_fold
extract_bearer_token header =
    if leb (length header) (length prefix)
    then none
    else if equal_fold (take (length prefix) header) prefix
    then some (drop (length prefix) header)
    else none

-- `errors.As` for an application error
unfoldable pub as_app_error : GoError → Option AppError
as_app_error (app e) = some e
as_app_error (wrapped e) = as_app_error e
as_app_error _ = none

-- the response to an error of the verifier
abbrev pub refuse : Option AppError → Passage
refuse (some e) = aborted (http_status e) (code e)
refuse none = aborted 401 (code unauthorized)

-- the context with `c.Set` of both keys
abbrev pub signed_in : ℕ × Bytes → RequestContext
signed_in (uid, jti) = record { user_id = some uid; jti = some jti }

module _ {W : Type 0} (verify : Bytes → Action W (ℕ × Bytes)) where
  abbrev pub verified : Result (ℕ × Bytes) × W → Passage × W
  verified (ok identity, w) = (next (signed_in identity), w)
  verified (err e, w) = (refuse (as_app_error e), w)

  abbrev pub with_token : Option Bytes → W → Passage × W
  with_token none w = (aborted 401 (code unauthorized), w)
  with_token (some token) w = verified (verify token w)

  -- `Auth`, for the `Authorization` header of a request
  unfoldable pub auth : Bytes → W → Passage × W
  unfolding extract_bearer_token as_app_error http_status code
  auth header w = with_token (extract_bearer_token header) w

  abbrev pub verified_or_anonymous : RequestContext → Result (ℕ × Bytes) × W → RequestContext × W
  verified_or_anonymous ctx (ok identity, w) = (signed_in identity, w)
  verified_or_anonymous ctx (err e, w) = (ctx, w)

  abbrev pub with_any_token : RequestContext → Option Bytes → W → RequestContext × W
  with_any_token ctx none w = (ctx, w)
  with_any_token ctx (some token) w = verified_or_anonymous ctx (verify token w)

  -- `OptionalAuth`, after which the handler always runs
  unfoldable pub optional_auth : RequestContext → Bytes → W → RequestContext × W
  unfolding extract_bearer_token
  optional_auth ctx header w = with_any_token ctx (extract_bearer_token header) w

-- `PerUserKey`, `PerIPKey`
unfoldable pub per_user_key : Bytes → RequestContext → Bytes
unfolding get_user_id
per_user_key key_prefix ctx =
    if get_user_id ctx == 0 then [] else key_prefix ++ codes ":" ++ format_int (get_user_id ctx)

unfoldable pub per_ip_key : Bytes → Bytes → Bytes
per_ip_key key_prefix client_ip = key_prefix ++ codes ":" ++ client_ip
