-- ===== src/Errcode.antt =====
-- pkg/errcode/errcode.go and the error half of pkg/response/response.go: the application errors,
-- their numbers, and the status and body code that an error becomes on the wire.
pub mod Registry
use cooking_platform.Prelude.{ℕ, Bool, true, false}

-- Each `Err…` variable of the package, which holds a distinct pointer.
pub data AppError : Type 0 where
  invalid_params unauthorized token_expired token_invalid forbidden not_found too_many_req :
      AppError
  server database cache_error service_unavail phone_format code_format code_not_found : AppError
  code_mismatch sms_window sms_daily_phone sms_daily_ip user_not_found user_banned : AppError
  nickname_invalid bio_too_long avatar_url_invalid title_empty title_too_long : AppError
  scene_tag_invalid post_not_found post_forbidden cursor_invalid page_size_invalid : AppError
  content_too_long cannot_follow_self follow_limit_exceeded follow_not_found : AppError
  follow_cursor_invalid search_keyword_empty search_cursor_invalid upload_file_type : AppError
  upload_file_too_large upload_presign_failed upload_callback_invalid upload_url_not_allowed :
      AppError
  post_steps_invalid audit_api_failed audit_write_failed encrypt_phone decrypt_phone : AppError
  phone_key_missing : AppError

-- the field `Code`
unfoldable pub code : AppError → ℕ
code invalid_params = 400001
code unauthorized = 401001
code token_expired = 401002
code token_invalid = 401003
code forbidden = 403001
code not_found = 404001
code too_many_req = 429001
code server = 500001
code database = 500002
code cache_error = 500003
code service_unavail = 503001
code phone_format = 410101
code code_format = 410102
code code_not_found = 410103
code code_mismatch = 410104
code sms_window = 410105
code sms_daily_phone = 410106
code sms_daily_ip = 410107
code user_not_found = 410108
code user_banned = 410109
code nickname_invalid = 410110
code bio_too_long = 410111
code avatar_url_invalid = 410112
code title_empty = 412101
code title_too_long = 412102
code scene_tag_invalid = 412103
code post_not_found = 412104
code post_forbidden = 412105
code cursor_invalid = 412106
code page_size_invalid = 412107
code content_too_long = 412108
code cannot_follow_self = 440101
code follow_limit_exceeded = 440102
code follow_not_found = 440103
code follow_cursor_invalid = 440104
code search_keyword_empty = 450101
code search_cursor_invalid = 450102
code upload_file_type = 460101
code upload_file_too_large = 460102
code upload_presign_failed = 460103
code upload_callback_invalid = 460104
code upload_url_not_allowed = 460105
code post_steps_invalid = 460106
code audit_api_failed = 470101
code audit_write_failed = 470102
code encrypt_phone = 480101
code decrypt_phone = 480102
code phone_key_missing = 480103

-- the field `HTTPStatus`
unfoldable pub http_status : AppError → ℕ
http_status invalid_params = 400
http_status unauthorized = 401
http_status token_expired = 401
http_status token_invalid = 401
http_status forbidden = 403
http_status not_found = 404
http_status too_many_req = 429
http_status server = 500
http_status database = 500
http_status cache_error = 500
http_status service_unavail = 503
http_status phone_format = 400
http_status code_format = 400
http_status code_not_found = 400
http_status code_mismatch = 400
http_status sms_window = 429
http_status sms_daily_phone = 429
http_status sms_daily_ip = 429
http_status user_not_found = 404
http_status user_banned = 403
http_status nickname_invalid = 400
http_status bio_too_long = 400
http_status avatar_url_invalid = 400
http_status title_empty = 400
http_status title_too_long = 400
http_status scene_tag_invalid = 400
http_status post_not_found = 404
http_status post_forbidden = 403
http_status cursor_invalid = 400
http_status page_size_invalid = 400
http_status content_too_long = 400
http_status cannot_follow_self = 400
http_status follow_limit_exceeded = 400
http_status follow_not_found = 404
http_status follow_cursor_invalid = 400
http_status search_keyword_empty = 400
http_status search_cursor_invalid = 400
http_status upload_file_type = 400
http_status upload_file_too_large = 400
http_status upload_presign_failed = 500
http_status upload_callback_invalid = 400
http_status upload_url_not_allowed = 400
http_status post_steps_invalid = 400
http_status audit_api_failed = 500
http_status audit_write_failed = 500
http_status encrypt_phone = 500
http_status decrypt_phone = 500
http_status phone_key_missing = 500

-- A Go `error`: an application error; a sentinel (`gorm.ErrRecordNotFound`, `redis.Nil`,
-- `repository.ErrPostNotFound`, `repository.ErrUserNotFound`, `cache.ErrCacheNotFound`,
-- `crypto.ErrEmptyKey`, `jwt.ErrTokenExpired`, `jwt.ErrTokenInvalid`); one that `fmt.Errorf("…%w")`
-- wraps around another; or any other error.
pub data GoError : Type 0 where
  app : AppError → GoError
  row_missing nil_reply post_missing user_missing key_missing : GoError
  empty_key expired_token wrong_token : GoError
  wrapped : GoError → GoError
  other : GoError

-- `errors.Is(err, …)` looks through the wrappers.
unfoldable pub is_row_missing : GoError → Bool
is_row_missing row_missing = true
is_row_missing (wrapped e) = is_row_missing e
is_row_missing _ = false

unfoldable pub is_nil_reply : GoError → Bool
is_nil_reply nil_reply = true
is_nil_reply (wrapped e) = is_nil_reply e
is_nil_reply _ = false

unfoldable pub is_post_missing : GoError → Bool
is_post_missing post_missing = true
is_post_missing (wrapped e) = is_post_missing e
is_post_missing _ = false

unfoldable pub is_user_missing : GoError → Bool
is_user_missing user_missing = true
is_user_missing (wrapped e) = is_user_missing e
is_user_missing _ = false

unfoldable pub is_key_missing : GoError → Bool
is_key_missing key_missing = true
is_key_missing (wrapped e) = is_key_missing e
is_key_missing _ = false

unfoldable pub is_empty_key : GoError → Bool
is_empty_key empty_key = true
is_empty_key (wrapped e) = is_empty_key e
is_empty_key _ = false

unfoldable pub is_expired_token : GoError → Bool
is_expired_token expired_token = true
is_expired_token (wrapped e) = is_expired_token e
is_expired_token _ = false

-- the status and the code that `response.FromError` writes for a non-nil error: a type assertion,
-- which does not look through a wrapper
unfoldable pub from_error : GoError → ℕ × ℕ
unfolding code http_status
from_error (app e) = (http_status e, code e)
from_error _ = (http_status server, code server)
