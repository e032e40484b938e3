-- ===== src/Middleware/Auth/Bearer.antt =====
-- Who passes the authentication.
use cooking_platform.Prelude.{
  ℕ, zero, suc, ◌≡◌, ◌≢◌, refl, ap, ◌∙◌, inl, inr, true, false, Option, none, some, [], ◌∷◌, ◌++◌,
  arith, leb, ◌==◌, ==_iff, length, take, drop, Bool-cases, some_injective,
}
use cooking_platform.Prelude.Text.{Bytes, codes}
use cooking_platform.Strings.{to_lower}
use cooking_platform.Errcode.{GoError, AppError}
use cooking_platform.Action.{Result, ok, err, Action}
use cooking_platform.Middleware.Auth.{
  RequestContext, Passage, next, aborted, get_user_id, get_jti, fold, same_letters, equal_fold,
  prefix, extract_bearer_token, refuse, as_app_error, signed_in, verified, with_token, auth,
  verified_or_anonymous, with_any_token, optional_auth,
}

same_letters-lower :
    (s t : Bytes) → length s ≡ length t → same_letters s t ≡ true → to_lower s ≡ to_lower t
unfolding to_lower
same_letters-lower [] [] e h = refl
same_letters-lower [] (b ∷ t) e h = absurd (ground (arith, e))
same_letters-lower (a ∷ s) [] e h = absurd (ground (arith, e))
same_letters-lower (a ∷ s) (b ∷ t) e h = elim (Bool-cases (fold a == fold b)) [
  | inr other ↦ absurd (ground (arith, h, other))
  | inl same ↦
      let rest : same_letters s t ≡ true = rw (← h, same) refl in
      let first : fold a ≡ fold b = (==_iff (fold a) (fold b)).0 same in
      rw (first, same_letters-lower s t (omega (arith, e)) rest) refl
]

equal_fold-lower : (s t : Bytes) → equal_fold s t ≡ true → to_lower s ≡ to_lower t
unfolding equal_fold
equal_fold-lower s t h = elim (Bool-cases (length s == length t)) [
  | inl same ↦ same_letters-lower s t ((==_iff (length s) (length t)).0 same) (rw (← h, same) refl)
  | inr other ↦ absurd (ground (arith, h, other))
]

take-append-drop : (n : ℕ) (s : Bytes) → s ≡ take n s ++ drop n s
take-append-drop zero s = refl
take-append-drop (suc n) [] = refl
take-append-drop (suc n) (a ∷ s) = ap (λ t. a ∷ t) (take-append-drop n s)

length-drop-pos : (n : ℕ) (s : Bytes) → leb (length s) n ≡ false → drop n s ≢ []
length-drop-pos zero [] h = absurd (ground (arith, h))
length-drop-pos zero (a ∷ s) h = λ e. absurd (ground (arith, e))
length-drop-pos (suc n) [] h = absurd (ground (arith, h))
length-drop-pos (suc n) (a ∷ s) h = length-drop-pos n s (ground (arith, h))

-- the header is the scheme, in any case, and the token
abbrev pub Carries : Bytes → Bytes → Type 0
Carries header token =
    (to_lower (take 7 header) ≡ codes "bearer ") × (header ≡ take 7 header ++ token) × (token ≢ [])

extract-Carries :
    (header token : Bytes) → extract_bearer_token header ≡ some token → Carries header token
unfolding extract_bearer_token to_lower
extract-Carries header token h = elim (Bool-cases (leb (length header) 7)) [
  | inl short ↦
      let none_some : none ≡ some token = rw (← h, short) refl in absurd (ground (arith, none_some))
  | inr long ↦ elim (Bool-cases (equal_fold (take 7 header) prefix)) [
    | inr other ↦
        let none_some : none ≡ some token = rw (← h, long, other) refl in
        absurd (ground (arith, none_some))
    | inl same ↦
        let found : some (drop 7 header) ≡ some token = rw (← h, long, same) refl in
        let rest = some_injective (drop 7 header) token found in
        (
          equal_fold-lower (take 7 header) prefix same,
          take-append-drop 7 header ∙ ap (λ t. take 7 header ++ t) rest,
          λ empty. length-drop-pos 7 header long (rest ∙ empty),
        )
  ]
]

refuse-ne-next : (e : GoError) (ctx : RequestContext) → refuse (as_app_error e) ≢ next ctx
unfolding as_app_error
refuse-ne-next e ctx h = go (as_app_error e) h
  where
    go : (found : Option AppError) → refuse found ≢ next ctx
    go none k = absurd (ground (arith, k))
    go (some x) k = absurd (ground (arith, k))

module _ {W : Type 0} (verify : Bytes → Action W (ℕ × Bytes)) where
  abbrev passage : Passage × W → Passage
  passage r = r.0

  verified-next :
      (token : Bytes) (ctx : RequestContext) (w w' : W) (r : Result (ℕ × Bytes) × W)
      → verify token w ≡ r
      → verified verify r ≡ (next ctx, w')
      → verify token w ≡ (ok (get_user_id ctx, get_jti ctx), w')
  unfolding get_user_id get_jti
  verified-next token ctx w w' (ok identity, u) e h =
      let seen : signed_in identity ≡ ctx = ground (arith, ap passage h) in
      let after : u ≡ w' = ap (λ (x : Passage × W). x.1) h in e ∙ rw (← seen, after) refl
  verified-next token ctx w w' (err x, u) e h = absurd (refuse-ne-next x ctx (ap passage h))

  -- A request that passes `Auth` carries a token that is not empty behind the scheme "Bearer ", in upper or
  -- lower case, and the verifier accepted that token: the handler sees the user and the id of the token
  -- that the verifier returned.
  pub auth-next :
      (header : Bytes) (ctx : RequestContext) (w w' : W)
      → auth verify header w ≡ (next ctx, w')
      → (token : Bytes) × Carries header token
        × (verify token w ≡ (ok (get_user_id ctx, get_jti ctx), w'))
  unfolding auth
  auth-next header ctx w w' h = go (extract_bearer_token header) refl h
    where
      go :
          (found : Option Bytes)
          → extract_bearer_token header ≡ found
          → with_token verify found w ≡ (next ctx, w')
          → (token : Bytes) × Carries header token
            × (verify token w ≡ (ok (get_user_id ctx, get_jti ctx), w'))
      go none e k = absurd (ground (arith, ap passage k))
      go (some token) e k = (
        token,
        extract-Carries header token e,
        verified-next token ctx w w' (verify token w) refl k,
      )

  -- the context of a request that passes, and the one that it came with where it would not
  abbrev pub or_anonymous : RequestContext → Passage × W → RequestContext × W
  or_anonymous anonymous (next ctx, w) = (ctx, w)
  or_anonymous anonymous (aborted status code, w) = (anonymous, w)

  -- `OptionalAuth` shows the handler the identity that `Auth` would, where `Auth` would let the request pass,
  -- and leaves the request as it came where `Auth` would refuse it; both ask the verifier alike.
  pub optional_auth-auth :
      (anonymous : RequestContext) (header : Bytes) (w : W)
      → optional_auth verify anonymous header w ≡ or_anonymous anonymous (auth verify header w)
  unfolding optional_auth auth
  optional_auth-auth anonymous header w = go (extract_bearer_token header)
    where
      refused :
          (found : Option AppError) (u : W)
          → (anonymous, u) ≡ or_anonymous anonymous (refuse found, u)
      refused none u = refl
      refused (some e) u = refl

      answered :
          (r : Result (ℕ × Bytes) × W)
          → verified_or_anonymous verify anonymous r ≡ or_anonymous anonymous (verified verify r)
      answered (ok identity, u) = refl
      answered (err e, u) = refused (as_app_error e) u

      go :
          (found : Option Bytes)
          → with_any_token verify anonymous found w
            ≡ or_anonymous anonymous (with_token verify found w)
      go none = refl
      go (some token) = answered (verify token w)
