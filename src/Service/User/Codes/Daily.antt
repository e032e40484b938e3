-- ===== src/Service/User/Codes/Daily.antt =====
-- The daily limits of `SendCode` hold over any sequence of calls.
use cooking_platform.Prelude.{
  ℕ, suc, ◌+◌, ◌≤◌, ◌≡◌, refl, ap, ◌∙◌, subst, Bool, true, false, ◌&&◌, List, [], ◌∷◌, arith, leb,
  leb→le, ◌==◌, if◌then◌else◌,
}
use cooking_platform.Prelude.Text.{Bytes, bytes_eq, bytes_eq→eq}
use cooking_platform.Errcode.{AppError, wrapped, sms_daily_phone, sms_daily_ip}
use cooking_platform.Action.{
  require, require-eq-ok, Result, ok, err, ◌>>=◌, wrap, bind-eq-ok, map_error-eq-ok, pure-eq-ok,
}
use cooking_platform.Action.Keeps.{Keeps-after}
use cooking_platform.Crypto.{CryptoLibrary, hash_phone}
use cooking_platform.Cache.User.{
  key_sms_daily_phone, key_sms_daily_ip, anchor, incr_and_check,
  increment_and_check_sms_phone_daily, increment_and_check_sms_ip_daily,
}
use cooking_platform.Service.User.{UserEnv, UserConfig}
use cooking_platform.Service.User.Codes.{dispatch, daily_phone, daily_ip, phone_window, send_code}
use cooking_platform.Service.User.Codes.Limits.{
  CounterLaws, IsCounter, daily_phone-IsCounter, daily_ip-IsCounter, anchor-Keeps,
  daily_phone-Keeps, daily_ip-Keeps, phone_window-Keeps, dispatch-Keeps, send_code-Keeps,
}

-- the arguments of a call, with what the random reader returns
pub record SendRequest : Type 0 where
  pub draw : ℕ → Result ℕ
  pub phone : Bytes
  pub client_ip : Bytes

abbrev pub is_ok : {A : Type 0} → Result A → Bool
is_ok (ok a) = true
is_ok (err e) = false

module _ {C G W : Type 0} (lib : CryptoLibrary C G) (env : UserEnv W) (cfg : UserConfig) where
  -- how many calls of some kind return without an error, one after the other
  abbrev pub sent : (SendRequest → Bool) → List SendRequest → W → ℕ
  sent p [] s = 0
  sent p (r ∷ rs) s =
      let (reply, s') = send_code lib env cfg r.draw r.phone r.client_ip s in
      (if p r && is_ok reply then 1 else 0) + sent p rs s'

  abbrev pub to_phone : Bytes → SendRequest → Bool
  to_phone phone_hash r = bytes_eq (hash_phone lib r.phone cfg.phone_pepper) phone_hash

  abbrev pub from_ip : Bytes → SendRequest → Bool
  from_ip ip_hash r = bytes_eq (lib.sha256_hex r.client_ip) ip_hash

module _ {C G W : Type 0} (lib : CryptoLibrary C G) {env : UserEnv W} (cfg : UserConfig)
    (laws : CounterLaws env) where
  -- A counter was below its limit, and was raised.
  abbrev Counted : Bytes → ℕ → W → W → Type 0
  Counted k limit s s' =
      (suc (env.redis.count_at k s) ≤ limit)
      × (suc (env.redis.count_at k s) ≤ env.redis.count_at k s')

  incr_and_check-Counted :
      (k : Bytes) (limit ttl : ℕ) (s s' : W)
      → incr_and_check env.redis k limit ttl s ≡ (ok true, s')
      → Counted k limit s s'
  unfolding incr_and_check
  incr_and_check-Counted k limit ttl s s' h =
      let (n, u, e1, h1) = bind-eq-ok (wrap (env.redis.incr k)) _ s s' true h in
      let counted = laws.incr_lem k s u n (map_error-eq-ok wrapped (env.redis.incr k) s u n e1) in
      let (x, v, e2, h2) = bind-eq-ok (anchor env.redis (n == 1) k ttl) _ u s' true h1 in
      let kept =
        Keeps-after (anchor env.redis (n == 1) k ttl) u v (ok x)
          (anchor-Keeps laws k n (n == 1) k ttl) e2 (omega (arith, counted.1)) in
      let (below, same) = pure-eq-ok (leb n limit) true v s' h2 in
      let le = leb→le n limit below in
      let at_end = subst (λ w. n ≤ env.redis.count_at k w) same kept in
      omega (arith, counted.0, le, at_end)

  checked-Counted :
      (k : Bytes) (limit ttl : ℕ) (e : AppError) (s s' : W)
      → (do allowed ← wrap (incr_and_check env.redis k limit ttl); require allowed e) s
        ≡ (ok tt, s')
      → Counted k limit s s'
  checked-Counted k limit ttl e s s' h =
      let check = incr_and_check env.redis k limit ttl in
      let (allowed, u, e1, h1) = bind-eq-ok (wrap check) (λ a. require a e) s s' tt h in
      let (below, same) = require-eq-ok allowed e u s' h1 in
      incr_and_check-Counted k limit ttl s s' (
        map_error-eq-ok wrapped check s u allowed e1
        ∙ (ap (λ b. (ok b, u)) below ∙ ap (λ w. (ok true, w)) same))

  -- A call that succeeds counts for its phone and for its address.
  send_code-Counted :
      (draw : ℕ → Result ℕ) (phone ip : Bytes) (v : ℕ) (s s' : W)
      → send_code lib env cfg draw phone ip s ≡ (ok v, s')
      → Counted
          (key_sms_daily_phone (hash_phone lib phone cfg.phone_pepper))
          cfg.sms_per_phone_per_day
          s
          s'
        × Counted (key_sms_daily_ip (lib.sha256_hex ip)) cfg.sms_per_ip_per_day s s'
  unfolding send_code increment_and_check_sms_phone_daily increment_and_check_sms_ip_daily
  send_code-Counted draw phone ip v s s' h =
      let hash = hash_phone lib phone cfg.phone_pepper in
      let ip_hash = lib.sha256_hex ip in
      let (x, a, e1, h1) = bind-eq-ok (phone_window lib env cfg hash) _ s s' v h in
      let (y, b, e2, h2) = bind-eq-ok (daily_phone lib env cfg hash) _ a s' v h1 in
      let (z, c, e3, h3) = bind-eq-ok (daily_ip lib env cfg ip_hash) _ b s' v h2 in
      let by_phone =
        checked-Counted (key_sms_daily_phone hash) cfg.sms_per_phone_per_day cfg.sms_daily_ttl
          sms_daily_phone a b e2 in
      let by_ip =
        checked-Counted (key_sms_daily_ip ip_hash) cfg.sms_per_ip_per_day cfg.sms_daily_ttl
          sms_daily_ip b c e3 in
      let phone_counter = daily_phone-IsCounter hash in
      let ip_counter = daily_ip-IsCounter ip_hash in
      let start = λ (j : Bytes) (counter : IsCounter j).
        Keeps-after (phone_window lib env cfg hash) s a (ok x)
          (phone_window-Keeps lib cfg laws counter (env.redis.count_at j s) hash) e1
          (omega arith) in
      let finish = λ (j : Bytes) (counter : IsCounter j).
        Keeps-after (dispatch lib env cfg draw phone hash) c s' (ok v)
          (dispatch-Keeps lib cfg laws counter (env.redis.count_at j c) draw phone hash) h3
          (omega arith) in
      let middle_phone =
        Keeps-after (daily_ip lib env cfg ip_hash) b c (ok z)
          (daily_ip-Keeps lib cfg laws phone_counter
            (env.redis.count_at (key_sms_daily_phone hash) b) ip_hash)
          e3 (omega arith) in
      let middle_ip =
        Keeps-after (daily_phone lib env cfg hash) a b (ok y)
          (daily_phone-Keeps lib cfg laws ip_counter
            (env.redis.count_at (key_sms_daily_ip ip_hash) a) hash)
          e2 (omega arith) in
      let start_phone = start (key_sms_daily_phone hash) phone_counter in
      let start_ip = start (key_sms_daily_ip ip_hash) ip_counter in
      let finish_phone = finish (key_sms_daily_phone hash) phone_counter in
      let finish_ip = finish (key_sms_daily_ip ip_hash) ip_counter in omega arith

  -- A bound on the rest bounds a call and the rest.
  sent-step :
      (k : Bytes) (limit acc n : ℕ) (b : Bool) (s : W) (x : Result ℕ × W)
      → acc ≤ limit
      → acc ≤ env.redis.count_at k s
      → acc ≤ env.redis.count_at k x.1
      → ((v : ℕ) → b ≡ true → x.0 ≡ ok v → Counted k limit s x.1)
      → ((more : ℕ) → more ≤ env.redis.count_at k x.1 → more ≤ limit → more + n ≤ limit)
      → acc + ((if b && is_ok x.0 then 1 else 0) + n) ≤ limit
  sent-step k limit acc n true s (ok v, s') l a a' counts rest =
      let counted = counts v refl refl in
      let bound = rest (acc + 1) (omega (arith, counted.1)) (omega (arith, counted.0)) in
      omega (arith, bound)
  sent-step k limit acc n true s (err e, s') l a a' counts rest = omega (arith, rest acc a' l)
  sent-step k limit acc n false s (r, s') l a a' counts rest = omega (arith, rest acc a' l)

  -- The two daily limits in one: calls of a kind that counts under one key.
  sent-within :
      (p : SendRequest → Bool) (k : Bytes) (limit : ℕ)
      → IsCounter k
      → ((r : SendRequest) (v : ℕ) (s s' : W)
          → p r ≡ true
          → send_code lib env cfg r.draw r.phone r.client_ip s ≡ (ok v, s')
          → Counted k limit s s')
      → (rs : List SendRequest) (s : W) (acc : ℕ) → acc ≤ env.redis.count_at k s
      → acc ≤ limit
      → acc + sent lib env cfg p rs s ≤ limit
  sent-within p k limit counter counts [] s acc a l = omega arith
  sent-within p k limit counter counts (r ∷ rs) s acc a l =
      let x = send_code lib env cfg r.draw r.phone r.client_ip s in
      let grows = (send_code-Keeps lib cfg laws counter acc r.draw r.phone r.client_ip).at s a in
      sent-step k limit acc (sent lib env cfg p rs x.1) (p r) s x l a grows
        (λ v holds answer. counts r v s x.1 holds (ap (λ a. (a, x.1)) answer))
        (sent-within p k limit counter counts rs x.1)

  -- However many calls of `SendCode` follow one another, of any phones and addresses and whatever fails in
  -- them: at most `SMSPerPhonePerDay` of them succeed for phones with one hash, and at most
  -- `SMSPerIPPerDay` for addresses with one hash. The two counters do not expire in between.
  pub sent-le-limits :
      (rs : List SendRequest) (s : W) (phone_hash ip_hash : Bytes)
      → (sent lib env cfg (to_phone lib env cfg phone_hash) rs s ≤ cfg.sms_per_phone_per_day)
        × (sent lib env cfg (from_ip lib env cfg ip_hash) rs s ≤ cfg.sms_per_ip_per_day)
  sent-le-limits rs s phone_hash ip_hash =
      let by_phone =
        sent-within (to_phone lib env cfg phone_hash) (key_sms_daily_phone phone_hash)
          cfg.sms_per_phone_per_day (daily_phone-IsCounter phone_hash)
          (λ r v t t' same h.
            subst (λ k. Counted (key_sms_daily_phone k) cfg.sms_per_phone_per_day t t')
              (bytes_eq→eq (hash_phone lib r.phone cfg.phone_pepper) phone_hash same)
              (send_code-Counted r.draw r.phone r.client_ip v t t' h).0)
          rs s 0 (omega arith) (omega arith) in
      let by_ip =
        sent-within (from_ip lib env cfg ip_hash) (key_sms_daily_ip ip_hash) cfg.sms_per_ip_per_day
          (daily_ip-IsCounter ip_hash)
          (λ r v t t' same h.
            subst (λ k. Counted (key_sms_daily_ip k) cfg.sms_per_ip_per_day t t')
              (bytes_eq→eq (lib.sha256_hex r.client_ip) ip_hash same)
              (send_code-Counted r.draw r.phone r.client_ip v t t' h).1)
          rs s 0 (omega arith) (omega arith) in
      (omega (arith, by_phone), omega (arith, by_ip))
