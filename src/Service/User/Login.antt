-- ===== src/Service/User/Login.antt =====
-- `Login` of internal/service/user_service.go: the code, then the user, who is registered at the first
-- login, then the tokens.
pub mod Once
use cooking_platform.Prelude.{
  ℕ, suc, ◌-◌, Bool, true, false, not, [], ◌∷◌, ◌++◌, ltb, length, if◌then◌else◌,
}
use cooking_platform.Prelude.Text.{Bytes, bytes_eq}
use cooking_platform.Errcode.{
  GoError, app, wrapped, is_key_missing, is_user_missing, is_empty_key, code_not_found,
  code_mismatch, phone_key_missing, encrypt_phone, user_banned,
}
use cooking_platform.Action.{
  require, Result, ok, err, Action, ◌>>=◌, ◌>>◌, pure, fail, wrap, map_error,
}
use cooking_platform.Action.Results.{give}
use cooking_platform.Events.{Stamp}
use cooking_platform.Crypto.{CryptoLibrary, last_bytes, hash_phone}
use cooking_platform.Crypto
use cooking_platform.Jwt.{JwtLibrary, Manager}
use cooking_platform.Model.{User, user_status_normal}
use cooking_platform.Cache.User.{get_sms_code, delete_sms_code}
use cooking_platform.Repository.Users.{find_by_phone_hash, create}
use cooking_platform.Service.User.{UserEnv, UserConfig, UserPublicResp, to_public_resp, is_banned}
use cooking_platform.Service.User.Session.{TokenPair, issue_token_pair}

-- `dto.LoginResp`
pub record LoginResp : Type 0 where
  pub tokens : TokenPair
  pub user : UserPublicResp

-- what the system gives one login: the nonce of the encryption, the time, and the two tokens' stamps
pub record LoginDraws : Type 0 where
  pub nonce : ℕ → Result Bytes
  pub now : ℕ
  pub first : Stamp
  pub second : Stamp

abbrev pub code_error : GoError → GoError
code_error e = if is_key_missing e then app code_not_found else wrapped e

abbrev pub encrypt_error : GoError → GoError
encrypt_error e = if is_empty_key e then app phone_key_missing else app encrypt_phone

-- "厨友" in UTF-8
abbrev pub cook_friend : Bytes
cook_friend = 229 ∷ 142 ∷ 168 ∷ 229 ∷ 143 ∷ 139 ∷ []

-- `defaultNickname`
unfoldable pub default_nickname : Bytes → Bytes
default_nickname phone =
    if ltb (length phone) 4 then cook_friend else cook_friend ++ last_bytes 4 phone

abbrev pub new_user : ℕ → Bytes → Bytes → Bytes → User
new_user now phone_hash encrypted phone = record {
  id = 0;
  phone_hash = phone_hash;
  phone_encrypted = encrypted;
  nickname = default_nickname phone;
  avatar_url = [];
  bio = [];
  status = user_status_normal;
  post_count = 0;
  total_likes = 0;
  follower_count = 0;
  following_count = 0;
  created_at = now;
  updated_at = now;
}

module _ {C G W : Type 0} (crypto : CryptoLibrary C G) (jwt : JwtLibrary) (m : Manager)
    (env : UserEnv W) (cfg : UserConfig) where
  -- the registration of a first login
  abbrev pub register : LoginDraws → Bytes → Bytes → Action W User
  register draws phone phone_hash = do
    encrypted ←
        map_error encrypt_error (give (Crypto.encrypt_phone crypto draws.nonce phone cfg.phone_key))
    wrap (create env.users (new_user draws.now phone_hash encrypted phone))

  abbrev pub found_or_new : LoginDraws → Bytes → Bytes → Result User × W → Result User × W
  found_or_new draws phone phone_hash (ok user, s) = (ok user, s)
  found_or_new draws phone phone_hash (err e, s) =
      if is_user_missing e then register draws phone phone_hash s else (err (wrapped e), s)

  abbrev pub load_user : LoginDraws → Bytes → Bytes → Action W User
  load_user draws phone phone_hash s =
      found_or_new draws phone phone_hash (find_by_phone_hash env.users phone_hash s)

  -- a code is used up, unless its deletion fails, which is only logged
  abbrev pub use_up : Bytes → Action W (Unit {0})
  use_up phone_hash s = (ok tt, (delete_sms_code env.redis phone_hash s).1)

  -- the check of the code
  abbrev pub check_code : Bytes → Bytes → Action W (Unit {0})
  check_code phone_hash code = do
    stored ← map_error code_error (get_sms_code env.redis phone_hash)
    require (bytes_eq stored code) code_mismatch
    use_up phone_hash

  -- the user, and the tokens
  abbrev pub admit : LoginDraws → Bytes → Bytes → Action W LoginResp
  admit draws phone phone_hash = do
    user ← load_user draws phone phone_hash
    require (not (is_banned user)) user_banned
    pair ← wrap (give (issue_token_pair jwt m draws.first draws.second user.id))
    pure (record { tokens = pair; user = to_public_resp user })

  -- `Login`
  unfoldable pub login : LoginDraws → Bytes → Bytes → Action W LoginResp
  login draws phone code = do
    check_code (hash_phone crypto phone cfg.phone_pepper) code
    admit draws phone (hash_phone crypto phone cfg.phone_pepper)
