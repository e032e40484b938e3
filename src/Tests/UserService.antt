-- ===== src/Tests/UserService.antt =====
-- Runs of the user service, of the tokens and of the encryption, with the theorems applied to them.
use cooking_platform.Prelude.{
  ℕ, zero, suc, ◌*◌, ◌/◌, ◌≤◌, ◌≡◌, ◌≢◌, refl, true, false, Option, none, some, [], ◌∷◌, ◌++◌,
  arith, ltb, if◌then◌else◌, length, take, drop, take-length-append, drop-length-append,
}
use cooking_platform.Prelude.Int.{ℤ, pos, negsuc}
use cooking_platform.Prelude.Text.{Bytes, codes, bytes_eq}
use cooking_platform.Errcode.{app, token_invalid, token_expired, expired_token}
use cooking_platform.Action.{ok, err}
use cooking_platform.Events.{Stamp}
use cooking_platform.Crypto.{hash_phone, encrypt_phone, decrypt_phone, mask_phone}
use cooking_platform.Crypto.RoundTrip.{decrypt_phone-encrypt_phone}
use cooking_platform.Jwt.{
  Claims, Parsed, rejected, parsed, JwtLibrary, Manager, Issued, claims_of, issue, parse,
  issue_access_token, issue_refresh_token,
}
use cooking_platform.Repository.Users.{find_by_phone_hash}
use cooking_platform.Jwt.RoundTrip.{JwtLaws, parse-issue}
use cooking_platform.Cache.User.{key_sms_code, key_jwt_blacklist, blacklist_jwt, get_sms_code}
use cooking_platform.Service.User.{to_public_resp}
use cooking_platform.Service.User.Codes.Daily.{SendRequest, sent, to_phone, from_ip, sent-le-limits}
use cooking_platform.Service.User.Login.{LoginResp, LoginDraws, login}
use cooking_platform.Service.User.Login.Once.{login-once}
use cooking_platform.Service.User.Session.{issue_token_pair, logout, verify_access_token}
use cooking_platform.Service.User.Session.Revoked.{verify_access_token-logout}
use cooking_platform.Tests.Clear.{clear, zeros, zero_nonce, clear-laws}
use cooking_platform.Tests.MemoryUsers.{
  cook, Memory, nothing_stored, memory_user_env, small_config, memory_counter-laws,
  memory_code-laws, memory_revocation-laws,
}

decrypt_phone-encrypt_phone_example :
    decrypt_phone clear (zeros 12 ++ codes "13812345678") (codes "k") ≡ ok (codes "13812345678")
unfolding encrypt_phone
decrypt_phone-encrypt_phone_example =
    decrypt_phone-encrypt_phone clear-laws (codes "13812345678") (codes "k")
      (zeros 12 ++ codes "13812345678") refl

masked : mask_phone (codes "13812345678") ≡ codes "138****5678"
unfolding mask_phone
masked = refl

-- tokens that are their claims, with the length of the id in front of the two texts
abbrev sign : ℤ → ℕ
sign (pos n) = 0
sign (negsuc n) = 1

abbrev size : ℤ → ℕ
size (pos n) = n
size (negsuc n) = n

abbrev encode : Claims → Bytes
encode c =
    sign c.user_id
    ∷ size c.user_id
    ∷ c.issued_at
    ∷ c.not_before
    ∷ c.expires_at
    ∷ length c.jti
    ∷ (c.jti ++ c.issuer)

abbrev signed : ℕ → ℕ → ℤ
signed zero n = pos n
signed (suc s) n = negsuc n

signed-sign : (a : ℤ) → signed (sign a) (size a) ≡ a
signed-sign (pos n) = refl
signed-sign (negsuc n) = refl

abbrev read : ℕ → Bytes → Parsed
read now (s ∷ n ∷ iat ∷ nbf ∷ exp ∷ l ∷ texts) =
    if ltb now exp
    then parsed true (record {
      user_id = signed s n;
      jti = take l texts;
      issued_at = iat;
      not_before = nbf;
      expires_at = exp;
      issuer = drop l texts;
    })
    else rejected true
read now _ = rejected false

abbrev parse_some : Option Bytes → ℕ → Bytes → Parsed
parse_some none now token = rejected false
parse_some (some key) now token = read now token

abbrev plain_jwt : JwtLibrary
plain_jwt = record {
  signed_string = λ key c. ok (encode c);
  is_hmac = λ token. true;
  parse_with_claims = parse_some;
  numeric_date = λ t. t / 1000 * 1000;
}

read-encode :
    (c : Claims) (now : ℕ)
    → read now (encode c) ≡ (if ltb now c.expires_at then parsed true c else rejected true)
read-encode c now =
    rw (signed-sign c.user_id, take-length-append c.jti c.issuer, drop-length-append c.jti c.issuer)
      refl

plain_jwt-laws : JwtLaws plain_jwt
plain_jwt-laws = record {
  signs_hmac = λ key token c h. refl;
  parses = λ key token c now h later.
      let same : encode c ≡ token = ground (arith, h) in rw (← same) (read-encode c now);
  date-le = λ t. omega arith;
}

abbrev manager : Manager
manager = record { secret = codes "s"; access_token_ttl = 7200000; refresh_token_ttl = 9000000 }

abbrev seven : Stamp
seven = record { id = b'i' ∷ []; now = 5000 }

abbrev token_seven : Issued
token_seven = record {
  token = encode (claims_of plain_jwt manager 7 9000 seven);
  jti = b'i' ∷ [];
  expires_at = 14000;
}

parse-issue_example : parse plain_jwt manager 6000 token_seven.token ≡ (
    if ltb 6000 (plain_jwt.numeric_date 14000)
    then ok (claims_of plain_jwt manager 7 9000 seven)
    else err expired_token)
unfolding issue
parse-issue_example =
    parse-issue plain_jwt-laws manager 7 9000 b'i' [] 5000 6000 token_seven (omega arith) refl
      (omega arith)

-- the memory after a logout at 6000
abbrev logged_out : Memory
logged_out = (logout plain_jwt manager memory_user_env 6000 token_seven.token nothing_stored).1

verify_access_token-logout_example :
    (verify_access_token plain_jwt manager memory_user_env 7000 token_seven.token logged_out).0
    ≡ err (app (if ltb 7000 (plain_jwt.numeric_date 14000) then token_invalid else token_expired))
unfolding issue logout parse blacklist_jwt bytes_eq key_jwt_blacklist
verify_access_token-logout_example =
    verify_access_token-logout plain_jwt-laws manager memory_user_env memory_revocation-laws 7 9000
      b'i' [] 5000 6000 7000 token_seven nothing_stored logged_out logged_out logged_out 1
      (omega arith) refl (omega arith) (omega arith) refl refl refl

-- two messages to one phone, where the window was waited for
abbrev asks : SendRequest
asks = record { draw = λ i. ok 4; phone = codes "13812345678"; client_ip = codes "1.2.3.4" }

sent-le-limits_example :
    (sent clear memory_user_env small_config
        (to_phone clear memory_user_env small_config (codes "13812345678"))
        (asks ∷ asks ∷ asks ∷ [])
        nothing_stored
      ≤ 2)
    × (sent clear memory_user_env small_config
          (from_ip clear memory_user_env small_config (codes "1.2.3.4"))
          (asks ∷ asks ∷ asks ∷ [])
          nothing_stored
        ≤ 3)
sent-le-limits_example =
    sent-le-limits clear small_config memory_counter-laws (asks ∷ asks ∷ asks ∷ []) nothing_stored
      (codes "13812345678") (codes "1.2.3.4")

-- the phone hash of this library is the phone, and its code is stored
abbrev phone : Bytes
phone = codes "13812345678"

abbrev code_stored : Memory
code_stored = record {
  texts = λ k. if bytes_eq (codes "sms:code:13812345678") k then some (codes "42") else none;
  counts = λ k. 0;
}

abbrev draws : LoginDraws
draws = record {
  nonce = zero_nonce;
  now = 5000;
  first = seven;
  second = record { id = b'j' ∷ []; now = 5000 };
}

abbrev cook_login : LoginResp
cook_login = record {
  tokens = record {
    access_token = encode (claims_of plain_jwt manager 7 7200000 seven);
    refresh_token = encode (claims_of plain_jwt manager 7 9000000 draws.second);
    access_token_expires_at = 7205000;
    token_type = codes "Bearer";
  };
  user = to_public_resp cook;
}

abbrev after_login : Memory
after_login =
    (login clear plain_jwt manager memory_user_env small_config draws phone (codes "42")
      code_stored).1

login-once_example :
    (code_stored.texts (key_sms_code (hash_phone clear phone [])) ≡ some (codes "42"))
    × (after_login.texts (key_sms_code (hash_phone clear phone [])) ≡ none)
    × ((again : LoginDraws) (other_code : Bytes) (s'' : Memory) (r' : LoginResp)
        → login clear plain_jwt manager memory_user_env small_config again phone other_code
            after_login
          ≢ (ok r', s''))
unfolding login get_sms_code bytes_eq key_sms_code hash_phone find_by_phone_hash issue_token_pair
    issue_access_token issue_refresh_token
login-once_example =
    login-once clear plain_jwt manager memory_user_env small_config memory_code-laws draws phone
      (codes "42") code_stored after_login cook_login refl
