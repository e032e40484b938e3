-- ===== src/Service/Upload/Nonce.antt =====
-- A nonce confirms one upload, to the user who asked for it.
use cooking_platform.Prelude.{
  ℕ, ◌≡◌, refl, ap, sym, ◌∙◌, not, none, some, arith, ltb, ◌==◌, if◌then◌else◌, Bool-cases, inl,
  inr, some_injective,
}
use cooking_platform.Prelude.Text.{Bytes}
use cooking_platform.Errcode.{app, wrapped, upload_callback_invalid}
use cooking_platform.Action.{Result, ok, err, wrap, map_error, require, bind-eq-ok, map_error-eq-ok}
use cooking_platform.Action.Results.{give}
use cooking_platform.Service.Upload.{
  NonceRecord, PresignReq, PresignResp, PresignResult, UploadEnv, key_upload_nonce,
  is_valid_purpose, generate_nonce, presign_failed, record_of, presign_params, presign_resp,
  callback_resp, save_nonce, consume_nonce, presign, callback,
}

-- What Redis documents of SET and GETDEL, where they answer; a record is read as it was written.
pub record NonceLaws {W : Type 0} (env : UploadEnv W) : Type 0 where
  pub text-set :
      (k v : Bytes) (t : ℕ) (s s' : W) → env.set k v t s ≡ (ok tt, s') → env.text_at k s' ≡ some v
  pub get_del_lem :
      (k v : Bytes) (s s' : W)
      → env.get_del k s ≡ (ok v, s')
      → (env.text_at k s ≡ some v) × (env.text_at k s' ≡ none)
  pub reads :
      (rec : NonceRecord) (payload : Bytes)
      → env.marshal rec ≡ ok payload
      → env.unmarshal payload ≡ ok rec

module _ {W : Type 0} (env : UploadEnv W) (laws : NonceLaws env) where
  save_nonce-text :
      (nonce : Bytes) (rec : NonceRecord) (ttl : ℕ) (s s' : W)
      → save_nonce env nonce rec ttl s ≡ (ok tt, s')
      → (payload : Bytes) × (env.text_at (key_upload_nonce nonce) s' ≡ some payload)
        × (env.unmarshal payload ≡ ok rec)
  unfolding save_nonce
  save_nonce-text nonce rec ttl s s' h =
      let (payload, u, e1, h1) = bind-eq-ok (wrap (give (env.marshal rec))) _ s s' tt h in
      let made = map_error-eq-ok wrapped (give (env.marshal rec)) s u payload e1 in
      let set = env.set (key_upload_nonce nonce) payload ttl in
      (
        payload,
        laws.text-set (key_upload_nonce nonce) payload ttl u s'
            (map_error-eq-ok wrapped set u s' tt h1),
        laws.reads rec payload (ap (λ x. x.0) made),
      )

  -- what a successful `Presign` has stored
  presign-record :
      (drawn : Result Bytes) (user : ℕ) (req : PresignReq) (s s' : W) (p : PresignResp)
      → presign env drawn user req s ≡ (ok p, s')
      → (result : PresignResult) × (p.public_url ≡ result.public_url)
        × ((payload : Bytes) × (env.text_at (key_upload_nonce p.nonce) s' ≡ some payload)
            × (env.unmarshal payload ≡ ok (record_of user req result)))
  unfolding presign
  presign-record drawn user req s s' p h =
      let (x1, a, e1, h1) =
        bind-eq-ok (require (not (ltb env.max_image_size req.size)) _) _ s s' p h in
      let (x2, b, e2, h2) = bind-eq-ok (require (is_valid_purpose req.purpose) _) _ a s' p h1 in
      let ask = map_error presign_failed (env.presign_url (presign_params user req)) in
      let (result, c, e3, h3) = bind-eq-ok ask _ b s' p h2 in
      let (nonce, d, e4, h4) =
        bind-eq-ok (map_error presign_failed (give (generate_nonce drawn))) _ c s' p h3 in
      let save = save_nonce env nonce (record_of user req result) env.presign_ttl in
      let (x5, e, e5, h5) = bind-eq-ok (map_error presign_failed save) _ d s' p h4 in
      let (payload, there, read) =
        save_nonce-text nonce (record_of user req result) env.presign_ttl d e
          (map_error-eq-ok presign_failed save d e tt e5) in
      let resp : presign_resp result nonce ≡ p = ground (arith, ap (λ x. x.0) h5) in
      let same : e ≡ s' = ap (λ x. x.1) h5 in
      (
        result,
        ap (λ (r : PresignResp). r.public_url) (sym resp),
        (
          payload,
          ap (env.text_at (key_upload_nonce p.nonce)) (sym same)
              ∙ ap (λ (r : PresignResp). env.text_at (key_upload_nonce r.nonce) e) (sym resp)
              ∙ there,
          read,
        ),
      )

  callback-stored :
      (user other_user : ℕ) (nonce payload v : Bytes) (rec : NonceRecord) (t t' : W)
      → env.get_del (key_upload_nonce nonce) t ≡ (ok v, t')
      → env.text_at (key_upload_nonce nonce) t ≡ some payload
      → env.unmarshal payload ≡ ok rec
      → callback env other_user nonce t ≡ (
        (if rec.user_id == other_user
            then ok (callback_resp rec)
            else err (app upload_callback_invalid)),
        t',
      )
  unfolding callback consume_nonce
  callback-stored user other_user nonce payload v rec t t' g there read =
      let (text, gone) = laws.get_del_lem (key_upload_nonce nonce) v t t' g in
      let same : v ≡ payload = some_injective v payload (sym text ∙ there) in
      elim (Bool-cases (rec.user_id == other_user)) [
        | inl holds ↦ rw (g, same, read, holds) refl
        | inr fails ↦ rw (g, same, read, fails) refl
      ]

  -- After a `Presign` that succeeded, a later `Callback` with its nonce, while the nonce is stored as it was
  -- and Redis answers: the user who asked gets the URL that the presign named, and any other user the
  -- error of an invalid callback. Either way the nonce is gone then.
  pub callback-presign :
      (drawn : Result Bytes) (user other_user : ℕ) (req : PresignReq) (s s' t t' : W)
      (p : PresignResp) (v : Bytes)
      → presign env drawn user req s ≡ (ok p, s')
      → env.text_at (key_upload_nonce p.nonce) t ≡ env.text_at (key_upload_nonce p.nonce) s'
      → env.get_del (key_upload_nonce p.nonce) t ≡ (ok v, t')
      → ((object_key : Bytes) × ((callback env other_user p.nonce t).0 ≡ (
            if user == other_user
            then ok (record { url = p.public_url; object_key = object_key })
            else err (app upload_callback_invalid))))
        × (env.text_at (key_upload_nonce p.nonce) (callback env other_user p.nonce t).1 ≡ none)
  callback-presign drawn user other_user req s s' t t' p v h kept g =
      let (result, url, (payload, there, read)) = presign-record drawn user req s s' p h in
      let rec = record_of user req result in
      let answer =
        callback-stored user other_user p.nonce payload v rec t t' g (kept ∙ there) read in
      let gone = (laws.get_del_lem (key_upload_nonce p.nonce) v t t' g).1 in
      (
        (result.object_key, ap (λ x. x.0) answer ∙ rw url refl),
        ap (λ x. env.text_at (key_upload_nonce p.nonce) x.1) answer ∙ gone,
      )
