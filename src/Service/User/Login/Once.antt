-- ===== src/Service/User/Login/Once.antt =====
-- A code logs in once.
use cooking_platform.Prelude.{◌≡◌, ◌≢◌, ap, ◌∙◌, subst, none, some, Bool-cases, inl, inr}
use cooking_platform.Prelude.Text.{Bytes, bytes_eq, bytes_eq→eq}
use cooking_platform.Errcode.{wrapped, is_user_missing, code_mismatch}
use cooking_platform.Action.{
  require, require-eq-ok, Result, ok, err, map_error, bind-eq-ok, map_error-eq-ok,
}
use cooking_platform.Action.Keeps.{Keeps, Keeps-after, keeps_rules, on_error-state}
use cooking_platform.Crypto.{CryptoLibrary, hash_phone}
use cooking_platform.Jwt.{JwtLibrary, Manager}
use cooking_platform.Model.{User}
use cooking_platform.Cache.User.{key_sms_code, missing_or_wrapped, get_sms_code, delete_sms_code}
use cooking_platform.Repository.Users.{find_by_phone_hash, create}
use cooking_platform.Service.User.{UserEnv, UserConfig}
use cooking_platform.Service.User.Login.{
  LoginResp, LoginDraws, code_error, register, found_or_new, load_user, check_code, admit, login,
}

-- What Redis documents of GET; DEL is carried out; the statements on users leave Redis alone.
pub record CodeLaws {W : Type 0} (env : UserEnv W) : Type 0 where
  pub get_lem :
      (k v : Bytes) (s s' : W) → env.redis.get k s ≡ (ok v, s') → env.redis.text_at k s ≡ some v
  pub deletes : (k : Bytes) (s : W) → env.redis.text_at k (env.redis.del k s).1 ≡ none
  pub text-select :
      (h k : Bytes) (s : W)
      → env.redis.text_at k (env.users.select_by_phone_hash h s).1 ≡ env.redis.text_at k s
  pub text-insert :
      (x : User) (k : Bytes) (s : W)
      → env.redis.text_at k (env.users.insert x s).1 ≡ env.redis.text_at k s

module _ {C G W : Type 0} (crypto : CryptoLibrary C G) (jwt : JwtLibrary) (m : Manager)
    (env : UserEnv W) (cfg : UserConfig) (laws : CodeLaws env) where
  abbrev NoCode : Bytes → W → Type 0
  NoCode h s = env.redis.text_at (key_sms_code h) s ≡ none

  insert-Keeps : (h : Bytes) (x : User) → Keeps (NoCode h) (env.users.insert x)
  insert-Keeps h x = record { at = λ s k. laws.text-insert x (key_sms_code h) s ∙ k }

  select-Keeps : (h a : Bytes) → Keeps (NoCode h) (env.users.select_by_phone_hash a)
  select-Keeps h a = record { at = λ s k. laws.text-select a (key_sms_code h) s ∙ k }

  register-Keeps :
      (h : Bytes) (d : LoginDraws) (phone a : Bytes)
      → Keeps (NoCode h) (register crypto jwt m env cfg d phone a)
  unfolding create
  register-Keeps h d phone a = search (keeps_rules, insert-Keeps)

  find-Keeps : (h a : Bytes) → Keeps (NoCode h) (find_by_phone_hash env.users a)
  unfolding find_by_phone_hash
  find-Keeps h a = search (keeps_rules, select-Keeps)

  found_or_new-NoCode :
      (h : Bytes) (d : LoginDraws) (phone a : Bytes) (x : Result User × W)
      → NoCode h x.1
      → NoCode h (found_or_new crypto jwt m env cfg d phone a x).1
  found_or_new-NoCode h d phone a (ok x, s) k = k
  found_or_new-NoCode h d phone a (err e, s) k = elim (Bool-cases (is_user_missing e)) [
    | inl missing ↦ rw missing ((register-Keeps h d phone a).at s k)
    | inr other_error ↦ rw other_error k
  ]

  load-Keeps :
      (h : Bytes) (d : LoginDraws) (phone a : Bytes)
      → Keeps (NoCode h) (load_user crypto jwt m env cfg d phone a)
  load-Keeps h d phone a = record {
    at = λ s k.
        found_or_new-NoCode h d phone a (find_by_phone_hash env.users a s)
          ((find-Keeps h a).at s k);
  }

  admit-Keeps :
      (h : Bytes) (d : LoginDraws) (phone a : Bytes)
      → Keeps (NoCode h) (admit crypto jwt m env cfg d phone a)
  admit-Keeps h d phone a = search (keeps_rules, load-Keeps)

  -- A code that is accepted was stored, and is no longer.
  check_code-eq-ok :
      (h code : Bytes) (s s' : W)
      → check_code crypto jwt m env cfg h code s ≡ (ok tt, s')
      → (env.redis.text_at (key_sms_code h) s ≡ some code) × NoCode h s'
  unfolding get_sms_code delete_sms_code
  check_code-eq-ok h code s s' e =
      let get = get_sms_code env.redis h in
      let (stored, u, e1, h1) = bind-eq-ok (map_error code_error get) _ s s' tt e in
      let got = laws.get_lem (key_sms_code h) stored s u (
        map_error-eq-ok missing_or_wrapped (env.redis.get (key_sms_code h)) s u stored
          (map_error-eq-ok code_error get s u stored e1)) in
      let (x, v, e2, h2) = bind-eq-ok (require (bytes_eq stored code) code_mismatch) _ u s' tt h1 in
      let (same, stays) = require-eq-ok (bytes_eq stored code) code_mismatch u v e2 in
      (
        got ∙ ap some (bytes_eq→eq stored code same),
        subst (NoCode h) (ap (λ y. y.1) h2) (
            rw (on_error-state (env.redis.del (key_sms_code h) v) wrapped)
              (laws.deletes (key_sms_code h) v)),
      )

  -- A login that succeeds was made with the code that was stored for the phone; afterwards no code is
  -- stored for it, and no login for the phone succeeds, whatever code it is made with. A deletion of the
  -- code is carried out, and Redis does what it documents.
  pub login-once :
      (draws : LoginDraws) (phone code : Bytes) (s s' : W) (r : LoginResp)
      → login crypto jwt m env cfg draws phone code s ≡ (ok r, s')
      → (env.redis.text_at (key_sms_code (hash_phone crypto phone cfg.phone_pepper)) s ≡ some code)
        × (env.redis.text_at (key_sms_code (hash_phone crypto phone cfg.phone_pepper)) s' ≡ none)
        × ((again : LoginDraws) (other_code : Bytes) (s'' : W) (r' : LoginResp)
            → login crypto jwt m env cfg again phone other_code s' ≢ (ok r', s''))
  unfolding login
  login-once draws phone code s s' r e =
      let h = hash_phone crypto phone cfg.phone_pepper in
      let (x, u, e1, h1) = bind-eq-ok (check_code crypto jwt m env cfg h code) _ s s' r e in
      let (stored, gone) = check_code-eq-ok h code s u e1 in
      let no_code : NoCode h s' =
        Keeps-after (admit crypto jwt m env cfg draws phone h) u s' (ok r)
          (admit-Keeps h draws phone h) h1 gone in
      (
        stored,
        no_code,
        λ again other_code s'' r' second.
            let (y, v, e2, h2) =
              bind-eq-ok (check_code crypto jwt m env cfg h other_code) _ s' s'' r' second in
            let there = (check_code-eq-ok h other_code s' v e2).0 in cc (no_code, there),
      )
