-- ===== src/Tests/Middleware.antt =====
-- The theorems on the rate limit and on the authentication, at small inputs.
use cooking_platform.Prelude.{
  some, ℕ, ◌≡◌, refl, false, List, [], ◌∷◌, arith, if◌then◌else◌, length, elem,
}
use cooking_platform.Prelude.Int.{◌-ℤ◌}
use cooking_platform.Prelude.Text.{Bytes, codes, bytes_eq}
use cooking_platform.Strconv.{emit, format_int}
use cooking_platform.Errcode.{app, token_invalid, http_status, code}
use cooking_platform.Action.{ok, err, Action}
use cooking_platform.Middleware.Auth.{
  RequestContext, aborted, equal_fold, extract_bearer_token, as_app_error, get_user_id, get_jti,
  auth, per_user_key,
}
use cooking_platform.Middleware.Auth.Bearer.{Carries, auth-next}
use cooking_platform.Middleware.RateLimit.{WindowRedis, WindowLaws, above, rate_limit}
use cooking_platform.Middleware.RateLimit.Window.{allowed_times, IsFair, allowed_times-IsFair}

-- one set, in memory
abbrev memory_set : WindowRedis (List ℕ)
memory_set = record {
  remove_upto = λ k max s. (ok 0, above max s);
  card = λ k s. (ok (length s), s);
  add = λ k m s. (ok 1, if elem m s then s else m ∷ s);
  expire = λ k t s. (ok tt, s);
  entries = λ k s. s;
}

memory_set-laws : WindowLaws memory_set
memory_set-laws = record {
  removes = λ k max s. (0, above max s, refl, refl);
  counts = λ k s. refl;
  adds = λ k m s. (1, (if elem m s then s else m ∷ s), refl, refl);
  expires = λ k t s. (s, refl, refl);
}

-- two requests in ten milliseconds; a second request in one millisecond adds no entry
third_waits : (rate_limit memory_set 2 10 (codes "u:1") 7 (6 ∷ 5 ∷ [])).0 ≡ false
unfolding rate_limit above ◌-ℤ◌
third_waits = refl

same_time_passes : (rate_limit memory_set 2 10 (codes "u:1") 7 (7 ∷ [])).1 ≡ 7 ∷ []
unfolding rate_limit above ◌-ℤ◌
same_time_passes = refl

allowed_times-IsFair_example :
    IsFair memory_set-laws 2 10
      (codes "u:1")
      (allowed_times memory_set-laws 2 10 (codes "u:1") (5 ∷ 6 ∷ 7 ∷ 16 ∷ []) [] [])
allowed_times-IsFair_example =
    allowed_times-IsFair memory_set-laws 2 10 (codes "u:1") (5 ∷ 6 ∷ 7 ∷ 16 ∷ []) [] (omega arith)
      (omega arith, (omega arith, (omega arith, (omega arith, tt)))) refl

-- a verifier that accepts the token "t" of user 7
abbrev verify_t : Bytes → Action ℕ (ℕ × Bytes)
verify_t token s =
    (if bytes_eq token (codes "t") then ok (7, codes "j") else err (app token_invalid), s)

abbrev signed_in_7 : RequestContext
signed_in_7 = record { user_id = some 7; jti = some (codes "j") }

refused : (auth verify_t (codes "Bearer x") 0).0 ≡ aborted 401 401003
unfolding auth extract_bearer_token equal_fold bytes_eq as_app_error http_status code
refused = refl

user_key : per_user_key (codes "rl") signed_in_7 ≡ codes "rl:7"
unfolding per_user_key get_user_id format_int emit
user_key = refl

auth-next_example :
    (token : Bytes) × Carries (codes "bEARER t") token
    × (verify_t token 0 ≡ (ok (get_user_id signed_in_7, get_jti signed_in_7), 0))
unfolding auth extract_bearer_token equal_fold bytes_eq
auth-next_example = auth-next verify_t (codes "bEARER t") signed_in_7 0 0 refl
