-- ===== src/Service/Upload.antt =====
-- internal/service/upload_service.go and internal/cache/upload_cache.go. Redis and the object store act
-- on one state; the JSON text of a record and the random reader are parameters. The limits that the
-- request binding sets are not repeated here.
pub mod Nonce
use cooking_platform.Prelude.{
  ℕ, ◌+◌, ◌-◌, ◌/◌, ◌%◌, Bool, true, false, not, ◌||◌, Option, none, some, List, [], ◌∷◌, ◌++◌, ltb,
  ◌==◌, if◌then◌else◌,
}
use cooking_platform.Prelude.Text.{Bytes, codes, bytes_eq}
use cooking_platform.Errcode.{
  GoError, app, wrapped, key_missing, other, is_nil_reply, is_key_missing, upload_file_too_large,
  invalid_params, upload_presign_failed, upload_callback_invalid, server,
}
use cooking_platform.Action.{
  Result, ok, err, Action, ◌>>=◌, ◌>>◌, pure, fail, wrap, map_error, require,
}
use cooking_platform.Action.Results.{give, wrap_error}
use cooking_platform.Action.Results

-- `NonceRecord`
pub record NonceRecord : Type 0 where
  pub user_id : ℕ
  pub object_key : Bytes
  pub public_url : Bytes
  pub purpose : Bytes
  pub content_type : Bytes
  pub size : ℕ

-- `dto.PresignReq`, `dto.PresignResp`, `dto.CallbackResp`
pub record PresignReq : Type 0 where
  pub filename : Bytes
  pub content_type : Bytes
  pub size : ℕ
  pub purpose : Bytes

pub record PresignResp : Type 0 where
  pub upload_url : Bytes
  pub public_url : Bytes
  pub method : Bytes
  pub headers : List (Bytes × Bytes)
  pub nonce : Bytes
  pub expires_at : ℕ

pub record CallbackResp : Type 0 where
  pub url : Bytes
  pub object_key : Bytes

-- `oss.PresignParams`, `oss.PresignResult`
pub record PresignParams : Type 0 where
  pub user_id : ℕ
  pub filename : Bytes
  pub content_type : Bytes
  pub size : ℕ
  pub purpose : Bytes

pub record PresignResult : Type 0 where
  pub upload_url : Bytes
  pub public_url : Bytes
  pub method : Bytes
  pub headers : List (Bytes × Bytes)
  pub object_key : Bytes
  pub expires_at : ℕ

pub record UploadEnv (W : Type 0) : Type 0 where
  -- SET key value PX ttl; GETDEL key, whose error for a missing key is `redis.Nil`
  pub set : Bytes → Bytes → ℕ → Action W (Unit {0})
  pub get_del : Bytes → Action W Bytes
  -- `oss.Client.Presign`
  pub presign_url : PresignParams → Action W PresignResult
  pub marshal : NonceRecord → Result Bytes
  pub unmarshal : Bytes → Result NonceRecord
  pub max_image_size : ℕ
  pub presign_ttl : ℕ
  -- the text at a key
  pub text_at : Bytes → W → Option Bytes

unfoldable pub key_upload_nonce : Bytes → Bytes
key_upload_nonce nonce = codes "upload:nonce:" ++ nonce

-- `PresignPurpose.IsValid`
unfoldable pub is_valid_purpose : Bytes → Bool
is_valid_purpose p =
    bytes_eq p (codes "avatar") || (bytes_eq p (codes "cover") || bytes_eq p (codes "step"))

abbrev hex_digit : ℕ → ℕ
hex_digit n = if ltb n 10 then b'0' + n else b'a' + (n - 10)

-- `hex.EncodeToString`
unfoldable pub hex_encode : Bytes → Bytes
hex_encode [] = []
hex_encode (b ∷ bytes) = hex_digit (b / 16) ∷ hex_digit (b % 16) ∷ hex_encode bytes

-- `generateNonce`, from what `rand.Read` puts in 16 bytes
unfoldable pub generate_nonce : Result Bytes → Result Bytes
unfolding hex_encode
generate_nonce drawn = Results.◌>>=◌ (wrap_error drawn) λ buf. ok (hex_encode buf)

abbrev pub presign_failed : GoError → GoError
presign_failed e = app upload_presign_failed

abbrev pub missing_or_wrapped : GoError → GoError
missing_or_wrapped e = if is_nil_reply e then key_missing else wrapped e

-- a record that cannot be read counts as missing
abbrev pub read_record : Result NonceRecord → Result NonceRecord
read_record (ok rec) = ok rec
read_record (err e) = err key_missing

abbrev pub callback_error : GoError → GoError
callback_error e = if is_key_missing e then app upload_callback_invalid else app server

abbrev pub record_of : ℕ → PresignReq → PresignResult → NonceRecord
record_of user_id req result = record {
  user_id = user_id;
  object_key = result.object_key;
  public_url = result.public_url;
  purpose = req.purpose;
  content_type = req.content_type;
  size = req.size;
}

abbrev pub presign_params : ℕ → PresignReq → PresignParams
presign_params user_id req = record {
  user_id = user_id;
  filename = req.filename;
  content_type = req.content_type;
  size = req.size;
  purpose = req.purpose;
}

abbrev pub presign_resp : PresignResult → Bytes → PresignResp
presign_resp result nonce = record {
  upload_url = result.upload_url;
  public_url = result.public_url;
  method = result.method;
  headers = result.headers;
  nonce = nonce;
  expires_at = result.expires_at;
}

abbrev pub callback_resp : NonceRecord → CallbackResp
callback_resp rec = record { url = rec.public_url; object_key = rec.object_key }

module _ {W : Type 0} (env : UploadEnv W) where
  -- `SaveNonce`
  unfoldable pub save_nonce : Bytes → NonceRecord → ℕ → Action W (Unit {0})
  save_nonce nonce rec ttl = do
    payload ← wrap (give (env.marshal rec))
    wrap (env.set (key_upload_nonce nonce) payload ttl)

  -- `ConsumeNonce`
  unfoldable pub consume_nonce : Bytes → Action W NonceRecord
  consume_nonce nonce = do
    payload ← map_error missing_or_wrapped (env.get_del (key_upload_nonce nonce))
    give (read_record (env.unmarshal payload))

  -- `Presign`
  unfoldable pub presign : Result Bytes → ℕ → PresignReq → Action W PresignResp
  presign drawn user_id req = do
    require (not (ltb env.max_image_size req.size)) upload_file_too_large
    require (is_valid_purpose req.purpose) invalid_params
    result ← map_error presign_failed (env.presign_url (presign_params user_id req))
    nonce ← map_error presign_failed (give (generate_nonce drawn))
    map_error presign_failed (save_nonce nonce (record_of user_id req result) env.presign_ttl)
    pure (presign_resp result nonce)

  -- `Callback`
  unfoldable pub callback : ℕ → Bytes → Action W CallbackResp
  callback user_id nonce = do
    rec ← map_error callback_error (consume_nonce nonce)
    require (rec.user_id == user_id) upload_callback_invalid
    pure (callback_resp rec)
