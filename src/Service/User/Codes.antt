-- ===== src/Service/User/Codes.antt =====
-- `SendCode` of internal/service/user_service.go.
pub mod Limits
pub mod Daily
use cooking_platform.Prelude.{
  ℕ, zero, suc, ◌+◌, ◌/◌, Bool, true, false, List, [], ◌∷◌, if◌then◌else◌,
}
use cooking_platform.Prelude.Text.{Bytes}
use cooking_platform.Errcode.{GoError, wrapped, sms_window, sms_daily_phone, sms_daily_ip}
use cooking_platform.Action.{require, Result, ok, err, Action, ◌>>=◌, ◌>>◌, pure, fail, wrap}
use cooking_platform.Action.Results
use cooking_platform.Action.Results.{give}
use cooking_platform.Crypto.{CryptoLibrary, hash_phone}
use cooking_platform.Cache.User.{
  check_and_consume_sms_window, increment_and_check_sms_phone_daily,
  increment_and_check_sms_ip_daily, save_sms_code, delete_sms_code,
}
use cooking_platform.Service.User.{UserEnv, UserConfig}

-- one digit in front of the digits that follow
abbrev pub digit : ℕ → Result Bytes → Result Bytes
digit n (ok code) = ok ((b'0' + n) ∷ code)
digit n (err e) = err e

abbrev pub digit_or_error : Result ℕ → Result Bytes → Result Bytes
digit_or_error (ok n) rest = digit n rest
digit_or_error (err e) rest = err e

-- `generateNumericCode`, from the `i`-th call of `rand.Int(rand.Reader, 10)` on
unfoldable pub generate_numeric_code : (ℕ → Result ℕ) → ℕ → ℕ → Result Bytes
generate_numeric_code draw i zero = ok []
generate_numeric_code draw i (suc n) =
    digit_or_error (draw i) (generate_numeric_code draw (suc i) n)

module _ {C G W : Type 0} (lib : CryptoLibrary C G) (env : UserEnv W) (cfg : UserConfig) where
  -- the code is dropped when the message could not be sent
  abbrev pub after_send : Bytes → Result (Unit {0}) × W → Result (Unit {0}) × W
  after_send phone_hash (ok _, s) = (ok tt, s)
  after_send phone_hash (err e, s) = (err (wrapped e), (delete_sms_code env.redis phone_hash s).1)

  abbrev pub deliver : Bytes → Bytes → Bytes → Action W (Unit {0})
  deliver phone phone_hash code s = after_send phone_hash (env.send_code phone code s)

  -- once the limits are passed
  abbrev pub dispatch : (ℕ → Result ℕ) → Bytes → Bytes → Action W ℕ
  dispatch draw phone phone_hash = do
    code ← wrap (give (generate_numeric_code draw 0 cfg.code_length))
    wrap (save_sms_code env.redis phone_hash code cfg.code_ttl)
    deliver phone phone_hash code
    pure (cfg.code_ttl / 1000)

  -- the two daily limits, which count the message whether or not it is sent
  abbrev pub daily_phone : Bytes → Action W (Unit {0})
  daily_phone phone_hash = do
    allowed ← wrap (
        increment_and_check_sms_phone_daily env.redis cfg.sms_daily_ttl phone_hash
          cfg.sms_per_phone_per_day)
    require allowed sms_daily_phone

  abbrev pub daily_ip : Bytes → Action W (Unit {0})
  daily_ip ip_hash = do
    allowed ← wrap (
        increment_and_check_sms_ip_daily env.redis cfg.sms_daily_ttl ip_hash cfg.sms_per_ip_per_day)
    require allowed sms_daily_ip

  abbrev pub phone_window : Bytes → Action W (Unit {0})
  phone_window phone_hash = do
    window ← wrap (check_and_consume_sms_window env.redis phone_hash cfg.sms_phone_window)
    require window.0 sms_window

  -- `SendCode`, which returns the seconds until the code expires
  unfoldable pub send_code : (ℕ → Result ℕ) → Bytes → Bytes → Action W ℕ
  send_code draw phone client_ip = do
    phone_window (hash_phone lib phone cfg.phone_pepper)
    daily_phone (hash_phone lib phone cfg.phone_pepper)
    daily_ip (lib.sha256_hex client_ip)
    dispatch draw phone (hash_phone lib phone cfg.phone_pepper)
