-- ===== src/Cache/User.antt =====
-- internal/cache/user_cache.go: codes and counters of text messages, revoked tokens, bans, and the
-- profile cache. The Redis commands are parameters; durations are in milliseconds.
use cooking_platform.Prelude.{ℕ, Bool, true, false, Option, ◌++◌, ltb, leb, ◌==◌, if◌then◌else◌}
use cooking_platform.Prelude.Int.{ℤ, pos, negsuc}
use cooking_platform.Prelude.Text.{Bytes, codes}
use cooking_platform.Strconv.{format_int}
use cooking_platform.Errcode.{GoError, wrapped, key_missing, is_nil_reply}
use cooking_platform.Action.{Result, ok, err, Action, ◌>>=◌, ◌>>◌, pure, map_error, wrap}

pub record UserRedis (W : Type 0) : Type 0 where
  -- SET key value PX ttl; GET key, whose error for a missing key is `redis.Nil`; DEL key
  pub set : Bytes → Bytes → ℕ → Action W (Unit {0})
  pub get : Bytes → Action W Bytes
  pub del : Bytes → Action W (Unit {0})
  -- SET key value NX PX ttl; TTL key; INCR key; PEXPIRE key ttl; EXISTS key
  pub set_nx : Bytes → Bytes → ℕ → Action W Bool
  pub ttl : Bytes → Action W ℤ
  pub incr : Bytes → Action W ℕ
  pub expire : Bytes → ℕ → Action W (Unit {0})
  pub exists : Bytes → Action W ℕ
  -- what a state shows: the text at a key, and the number at a counter, 0 if there is none
  pub text_at : Bytes → W → Option Bytes
  pub count_at : Bytes → W → ℕ

unfoldable pub key_sms_code : Bytes → Bytes
key_sms_code phone_hash = codes "sms:code:" ++ phone_hash

unfoldable pub key_sms_window : Bytes → Bytes
key_sms_window phone_hash = codes "sms:window:" ++ phone_hash

unfoldable pub key_sms_daily_phone : Bytes → Bytes
key_sms_daily_phone phone_hash = codes "sms:limit:" ++ phone_hash

unfoldable pub key_sms_daily_ip : Bytes → Bytes
key_sms_daily_ip ip_hash = codes "sms:ip:" ++ ip_hash

unfoldable pub key_jwt_blacklist : Bytes → Bytes
key_jwt_blacklist jti = codes "jwt:bl:" ++ jti

unfoldable pub key_user_ban : ℕ → Bytes
key_user_ban user_id = codes "user:ban:" ++ format_int user_id

unfoldable pub key_user_info : ℕ → Bytes
key_user_info user_id = codes "user:info:" ++ format_int user_id

-- `redis.Nil` becomes `ErrCacheNotFound`
abbrev pub missing_or_wrapped : GoError → GoError
missing_or_wrapped e = if is_nil_reply e then key_missing else wrapped e

-- the retry hint of a taken window
abbrev pub retry_hint : ℕ → Result ℤ → ℕ
retry_hint window (ok (pos t)) = t
retry_hint window (ok (negsuc t)) = window
retry_hint window (err e) = window

module _ {W : Type 0} (r : UserRedis W) where
  -- `SaveSMSCode`, `GetSMSCode`, `DeleteSMSCode`
  unfoldable pub save_sms_code : Bytes → Bytes → ℕ → Action W (Unit {0})
  save_sms_code phone_hash code ttl = wrap (r.set (key_sms_code phone_hash) code ttl)

  unfoldable pub get_sms_code : Bytes → Action W Bytes
  get_sms_code phone_hash = map_error missing_or_wrapped (r.get (key_sms_code phone_hash))

  unfoldable pub delete_sms_code : Bytes → Action W (Unit {0})
  delete_sms_code phone_hash = wrap (r.del (key_sms_code phone_hash))

  -- the answer of a window that is taken
  abbrev pub window_taken : Bytes → ℕ → Action W (Bool × ℕ)
  window_taken key window s = let (t, s') = r.ttl key s in (ok (false, retry_hint window t), s')

  -- `CheckAndConsumeSMSWindow`: whether the message is allowed, and when to try again
  unfoldable pub check_and_consume_sms_window : Bytes → ℕ → Action W (Bool × ℕ)
  check_and_consume_sms_window phone_hash window = do
    fresh ← wrap (r.set_nx (key_sms_window phone_hash) (codes "1") window)
    if fresh then pure (true, 0) else window_taken (key_sms_window phone_hash) window

  -- the expiry of a counter that was just created
  abbrev pub anchor : Bool → Bytes → ℕ → Action W (Unit {0})
  anchor true key ttl = wrap (r.expire key ttl)
  anchor false key ttl = pure tt

  -- `incrAndCheck`, and the two methods that call it
  unfoldable pub incr_and_check : Bytes → ℕ → ℕ → Action W Bool
  incr_and_check key limit ttl = do
    count ← wrap (r.incr key)
    anchor (count == 1) key ttl
    pure (leb count limit)

  unfoldable pub increment_and_check_sms_phone_daily : ℕ → Bytes → ℕ → Action W Bool
  unfolding incr_and_check
  increment_and_check_sms_phone_daily sms_daily_ttl phone_hash limit =
      incr_and_check (key_sms_daily_phone phone_hash) limit sms_daily_ttl

  unfoldable pub increment_and_check_sms_ip_daily : ℕ → Bytes → ℕ → Action W Bool
  unfolding incr_and_check
  increment_and_check_sms_ip_daily sms_daily_ttl ip_hash limit =
      incr_and_check (key_sms_daily_ip ip_hash) limit sms_daily_ttl

  -- `BlacklistJWT`, for a time to live that is not negative
  unfoldable pub blacklist_jwt : Bytes → ℕ → Action W (Unit {0})
  blacklist_jwt jti ttl =
      if leb ttl 0 then pure tt else wrap (r.set (key_jwt_blacklist jti) (codes "1") ttl)

  unfoldable pub is_jwt_blacklisted : Bytes → Action W Bool
  is_jwt_blacklisted jti = do n ← wrap (r.exists (key_jwt_blacklist jti)); pure (ltb 0 n)

  unfoldable pub is_user_banned : ℕ → Action W Bool
  is_user_banned user_id = do n ← wrap (r.exists (key_user_ban user_id)); pure (ltb 0 n)

  -- `SaveUserInfo`, `GetUserInfo`, `DeleteUserInfo`
  unfoldable pub save_user_info : ℕ → Bytes → ℕ → Action W (Unit {0})
  save_user_info user_id payload ttl = wrap (r.set (key_user_info user_id) payload ttl)

  unfoldable pub get_user_info : ℕ → Action W Bytes
  get_user_info user_id = map_error missing_or_wrapped (r.get (key_user_info user_id))

  unfoldable pub delete_user_info : ℕ → Action W (Unit {0})
  delete_user_info user_id = wrap (r.del (key_user_info user_id))
