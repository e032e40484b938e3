-- ===== src/Tests/Upload.antt =====
-- A run of the upload service, on a memory that holds the records as texts with their lengths in front.
use cooking_platform.Prelude.{
  ◌≡◌, refl, ap, Option, none, some, [], ◌∷◌, ◌++◌, ◌==◌, arith, if◌then◌else◌, length, take, drop,
  take-length-append, drop-length-append,
}
use cooking_platform.Prelude.Text.{Bytes, codes, bytes_eq, bytes_eq_refl}
use cooking_platform.Errcode.{app, nil_reply, upload_callback_invalid, key_missing}
use cooking_platform.Action.{Result, ok, err}
use cooking_platform.Service.Upload.{
  NonceRecord, PresignReq, PresignResp, UploadEnv, key_upload_nonce, is_valid_purpose,
  generate_nonce, save_nonce, presign, callback,
}
use cooking_platform.Service.Upload.Nonce.{NonceLaws, callback-presign}

abbrev Memory : Type 0
Memory = Bytes → Option Bytes

abbrev put : Bytes → Bytes → Memory → Memory
put k v memory j = if bytes_eq k j then some v else memory j

abbrev without : Bytes → Memory → Memory
without k memory j = if bytes_eq k j then none else memory j

abbrev fetch : Option Bytes → Bytes → Memory → Result Bytes × Memory
fetch none k memory = (err nil_reply, memory)
fetch (some v) k memory = (ok v, without k memory)

abbrev written : NonceRecord → Bytes
written rec =
    rec.user_id
    ∷ rec.size
    ∷ length rec.object_key
    ∷ length rec.public_url
    ∷ length rec.purpose
    ∷ (rec.object_key ++ (rec.public_url ++ (rec.purpose ++ rec.content_type)))

abbrev read : Bytes → Result NonceRecord
read (user ∷ size ∷ a ∷ b ∷ c ∷ texts) = ok (record {
  user_id = user;
  size = size;
  object_key = take a texts;
  public_url = take b (drop a texts);
  purpose = take c (drop b (drop a texts));
  content_type = drop c (drop b (drop a texts));
})
read _ = err key_missing

read-written : (rec : NonceRecord) → read (written rec) ≡ ok rec
read-written rec =
    let last = rec.purpose ++ rec.content_type in
    let mid = rec.public_url ++ last in
    rw
      (
        drop-length-append rec.object_key mid,
        take-length-append rec.object_key mid,
        drop-length-append rec.public_url last,
        take-length-append rec.public_url last,
        drop-length-append rec.purpose rec.content_type,
        take-length-append rec.purpose rec.content_type,
      )
      refl

abbrev memory_upload : UploadEnv Memory
memory_upload = record {
  set = λ k v t s. (ok tt, put k v s);
  get_del = λ k s. fetch (s k) k s;
  presign_url = λ params s. (
    ok (record {
      upload_url = codes "u";
      public_url = codes "p";
      method = codes "PUT";
      headers = [];
      object_key = codes "o";
      expires_at = 900;
    }),
    s,
  );
  marshal = λ rec. ok (written rec);
  unmarshal = read;
  max_image_size = 100;
  presign_ttl = 900;
  text_at = λ k s. s k;
}

fetch-ok :
    (found : Option Bytes) (k v : Bytes) (s s' : Memory)
    → fetch found k s ≡ (ok v, s')
    → (found ≡ some v) × (s' k ≡ none)
fetch-ok none k v s s' h = ground (arith, h)
fetch-ok (some w) k v s s' h =
    let same : w ≡ v = ground (arith, h) in
    let after : without k s ≡ s' = ap (λ x. x.1) h in
    (ap some same, rw (← after, bytes_eq_refl k) refl)

memory_upload-laws : NonceLaws memory_upload
memory_upload-laws = record {
  text-set = λ k v t s s' h.
      let after : put k v s ≡ s' = ap (λ x. x.1) h in rw (← after, bytes_eq_refl k) refl;
  get_del_lem = λ k v s s' h. fetch-ok (s k) k v s s' h;
  reads = λ rec payload h.
      let same : written rec ≡ payload = ground (arith, h) in rw (← same) (read-written rec);
}

abbrev avatar : PresignReq
avatar = record {
  filename = codes "a.png";
  content_type = codes "image/png";
  size = 5;
  purpose = codes "avatar";
}

abbrev empty : Memory
empty k = none

abbrev drawn : Result Bytes
drawn = ok (171 ∷ 16 ∷ [])

abbrev granted : PresignResp
granted = record {
  upload_url = codes "u";
  public_url = codes "p";
  method = codes "PUT";
  headers = [];
  nonce = codes "ab10";
  expires_at = 900;
}

abbrev stored : Memory
stored = (presign memory_upload drawn 7 avatar empty).1

abbrev payload : Bytes
payload = written (record {
  user_id = 7;
  object_key = codes "o";
  public_url = codes "p";
  purpose = codes "avatar";
  content_type = codes "image/png";
  size = 5;
})

callback-presign_example :
    ((object_key : Bytes) × ((callback memory_upload 7 (codes "ab10") stored).0 ≡ (
        if 7 == 7
        then ok (record { url = codes "p"; object_key = object_key })
        else err (app upload_callback_invalid))))
    × ((callback memory_upload 7 (codes "ab10") stored).1 (codes "upload:nonce:ab10") ≡ none)
unfolding presign is_valid_purpose bytes_eq generate_nonce save_nonce key_upload_nonce
callback-presign_example =
    callback-presign memory_upload memory_upload-laws drawn 7 7 avatar empty stored stored
      (without (codes "upload:nonce:ab10") stored) granted payload refl refl refl
