-- ===== src/Errcode/Registry.antt =====
-- The numbers of the application errors identify them.
use cooking_platform.Prelude.{
  ℕ, ◌≡◌, refl, sym, ap, ◌∙◌, Option, none, some, some_injective, List, [], ◌∷◌, ◌==◌,
  if◌then◌else◌,
}
use cooking_platform.Errcode.{AppError, code}
use cooking_platform.Errcode.{
  invalid_params, unauthorized, token_expired, token_invalid, forbidden, not_found, too_many_req,
  server, database, cache_error, service_unavail, phone_format, code_format, code_not_found,
  code_mismatch, sms_window, sms_daily_phone, sms_daily_ip, user_not_found, user_banned,
  nickname_invalid, bio_too_long, avatar_url_invalid, title_empty, title_too_long,
  scene_tag_invalid, post_not_found, post_forbidden, cursor_invalid, page_size_invalid,
  content_too_long, cannot_follow_self, follow_limit_exceeded, follow_not_found,
  follow_cursor_invalid, search_keyword_empty, search_cursor_invalid, upload_file_type,
  upload_file_too_large, upload_presign_failed, upload_callback_invalid, upload_url_not_allowed,
  post_steps_invalid, audit_api_failed, audit_write_failed, encrypt_phone, decrypt_phone,
  phone_key_missing,
}

-- every error, in the order of the source
abbrev registry : List AppError
registry =
    invalid_params ∷ unauthorized ∷ token_expired ∷ token_invalid ∷ forbidden ∷ not_found
    ∷ too_many_req ∷ server ∷ database ∷ cache_error ∷ service_unavail ∷ phone_format ∷ code_format
    ∷ code_not_found ∷ code_mismatch ∷ sms_window ∷ sms_daily_phone ∷ sms_daily_ip ∷ user_not_found
    ∷ user_banned ∷ nickname_invalid ∷ bio_too_long ∷ avatar_url_invalid ∷ title_empty
    ∷ title_too_long ∷ scene_tag_invalid ∷ post_not_found ∷ post_forbidden ∷ cursor_invalid
    ∷ page_size_invalid ∷ content_too_long ∷ cannot_follow_self ∷ follow_limit_exceeded
    ∷ follow_not_found ∷ follow_cursor_invalid ∷ search_keyword_empty ∷ search_cursor_invalid
    ∷ upload_file_type ∷ upload_file_too_large ∷ upload_presign_failed ∷ upload_callback_invalid
    ∷ upload_url_not_allowed ∷ post_steps_invalid ∷ audit_api_failed ∷ audit_write_failed
    ∷ encrypt_phone ∷ decrypt_phone ∷ phone_key_missing ∷ []

first_with : ℕ → List AppError → Option AppError
first_with n [] = none
first_with n (e ∷ es) = if code e == n then some e else first_with n es

-- The registry holds each error, and no earlier error with its number.
first_with-code : (e : AppError) → first_with (code e) registry ≡ some e
unfolding first_with code
first_with-code invalid_params = refl
first_with-code unauthorized = refl
first_with-code token_expired = refl
first_with-code token_invalid = refl
first_with-code forbidden = refl
first_with-code not_found = refl
first_with-code too_many_req = refl
first_with-code server = refl
first_with-code database = refl
first_with-code cache_error = refl
first_with-code service_unavail = refl
first_with-code phone_format = refl
first_with-code code_format = refl
first_with-code code_not_found = refl
first_with-code code_mismatch = refl
first_with-code sms_window = refl
first_with-code sms_daily_phone = refl
first_with-code sms_daily_ip = refl
first_with-code user_not_found = refl
first_with-code user_banned = refl
first_with-code nickname_invalid = refl
first_with-code bio_too_long = refl
first_with-code avatar_url_invalid = refl
first_with-code title_empty = refl
first_with-code title_too_long = refl
first_with-code scene_tag_invalid = refl
first_with-code post_not_found = refl
first_with-code post_forbidden = refl
first_with-code cursor_invalid = refl
first_with-code page_size_invalid = refl
first_with-code content_too_long = refl
first_with-code cannot_follow_self = refl
first_with-code follow_limit_exceeded = refl
first_with-code follow_not_found = refl
first_with-code follow_cursor_invalid = refl
first_with-code search_keyword_empty = refl
first_with-code search_cursor_invalid = refl
first_with-code upload_file_type = refl
first_with-code upload_file_too_large = refl
first_with-code upload_presign_failed = refl
first_with-code upload_callback_invalid = refl
first_with-code upload_url_not_allowed = refl
first_with-code post_steps_invalid = refl
first_with-code audit_api_failed = refl
first_with-code audit_write_failed = refl
first_with-code encrypt_phone = refl
first_with-code decrypt_phone = refl
first_with-code phone_key_missing = refl

-- Two application errors with the same code are the same error, so that a client can tell every
-- failure by its number alone.
pub code_injective : (a b : AppError) → code a ≡ code b → a ≡ b
code_injective a b h =
    some_injective a b
      (sym (first_with-code a) ∙ ap (λ (n : ℕ). first_with n registry) h ∙ first_with-code b)
