-- ===== src/Service/User/Codes/Limits.antt =====
-- How many messages `SendCode` sends within a day.
use cooking_platform.Prelude.{ℕ, suc, ◌≤◌, ◌≡◌, refl, Bool, true, false, arith}
use cooking_platform.Prelude.Text.{Bytes, bytes_eq}
use cooking_platform.Errcode.{wrapped}
use cooking_platform.Action.{Result, ok, err}
use cooking_platform.Action.Keeps.{Keeps, Keeps-pure, Keeps-map_error, keeps_rules}
use cooking_platform.Crypto.{CryptoLibrary}
use cooking_platform.Cache.User.{
  key_sms_code, key_sms_window, key_sms_daily_phone, key_sms_daily_ip, anchor, window_taken,
  check_and_consume_sms_window, increment_and_check_sms_phone_daily, incr_and_check,
  increment_and_check_sms_ip_daily, save_sms_code, delete_sms_code,
}
use cooking_platform.Service.User.{UserEnv, UserConfig}
use cooking_platform.Service.User.Codes.{
  after_send, deliver, dispatch, daily_phone, daily_ip, phone_window, send_code,
}

-- What Redis documents of the commands on a counter that does not expire: INCR raises it by one and
-- returns it, an error may stand for an INCR that was carried out, and the rest leaves it alone.
pub record CounterLaws {W : Type 0} (env : UserEnv W) : Type 0 where
  pub incr_lem :
      (k : Bytes) (s s' : W) (n : ℕ)
      → env.redis.incr k s ≡ (ok n, s')
      → (n ≡ suc (env.redis.count_at k s)) × (env.redis.count_at k s' ≡ n)
  pub count-incr :
      (k j : Bytes) (s : W) → env.redis.count_at j s ≤ env.redis.count_at j (env.redis.incr k s).1
  pub count-set :
      (k v : Bytes) (t : ℕ) (j : Bytes) (s : W)
      → bytes_eq k j ≡ false
      → env.redis.count_at j (env.redis.set k v t s).1 ≡ env.redis.count_at j s
  pub count-set_nx :
      (k v : Bytes) (t : ℕ) (j : Bytes) (s : W)
      → bytes_eq k j ≡ false
      → env.redis.count_at j (env.redis.set_nx k v t s).1 ≡ env.redis.count_at j s
  pub count-del :
      (k j : Bytes) (s : W)
      → bytes_eq k j ≡ false
      → env.redis.count_at j (env.redis.del k s).1 ≡ env.redis.count_at j s
  pub count-ttl :
      (k j : Bytes) (s : W) → env.redis.count_at j (env.redis.ttl k s).1 ≡ env.redis.count_at j s
  pub count-expire :
      (k : Bytes) (t : ℕ) (j : Bytes) (s : W)
      → env.redis.count_at j (env.redis.expire k t s).1 ≡ env.redis.count_at j s
  pub count-send_code :
      (phone code j : Bytes) (s : W)
      → env.redis.count_at j (env.send_code phone code s).1 ≡ env.redis.count_at j s

module _ {W : Type 0} {env : UserEnv W} (laws : CounterLaws env) (j : Bytes) (n : ℕ) where
  abbrev pub AtLeast : W → Type 0
  AtLeast s = n ≤ env.redis.count_at j s

  incr-Keeps : (k : Bytes) → Keeps AtLeast (env.redis.incr k)
  incr-Keeps k = record { at = λ s h. omega (arith, laws.count-incr k j s) }

  expire-Keeps : (k : Bytes) (t : ℕ) → Keeps AtLeast (env.redis.expire k t)
  expire-Keeps k t = record { at = λ s h. rw (laws.count-expire k t j s) h }

  pub anchor-Keeps : (first : Bool) (k : Bytes) (t : ℕ) → Keeps AtLeast (anchor env.redis first k t)
  anchor-Keeps true k t = Keeps-map_error wrapped (env.redis.expire k t) (expire-Keeps k t)
  anchor-Keeps false k t = Keeps-pure tt

  incr_and_check-Keeps :
      (k : Bytes) (limit t : ℕ) → Keeps AtLeast (incr_and_check env.redis k limit t)
  unfolding incr_and_check
  incr_and_check-Keeps k limit t = search (keeps_rules, incr-Keeps, anchor-Keeps)

  window_taken-Keeps : (k : Bytes) (window : ℕ) → Keeps AtLeast (window_taken env.redis k window)
  window_taken-Keeps k window = record { at = λ s h. rw (laws.count-ttl k j s) h }

  set-Keeps : (k v : Bytes) (t : ℕ) → bytes_eq k j ≡ false → Keeps AtLeast (env.redis.set k v t)
  set-Keeps k v t e = record { at = λ s h. rw (laws.count-set k v t j s e) h }

  set_nx-Keeps :
      (k v : Bytes) (t : ℕ) → bytes_eq k j ≡ false → Keeps AtLeast (env.redis.set_nx k v t)
  set_nx-Keeps k v t e = record { at = λ s h. rw (laws.count-set_nx k v t j s e) h }

  del-Keeps : (k : Bytes) → bytes_eq k j ≡ false → Keeps AtLeast (env.redis.del k)
  del-Keeps k e = record { at = λ s h. rw (laws.count-del k j s e) h }

  send-Keeps : (phone code : Bytes) → Keeps AtLeast (env.send_code phone code)
  send-Keeps phone code = record { at = λ s h. rw (laws.count-send_code phone code j s) h }

-- A key that is a counter's, so that no command on a code or a window is about it.
pub record IsCounter (j : Bytes) : Type 0 where
  pub no_code : (h : Bytes) → bytes_eq (key_sms_code h) j ≡ false
  pub no_window : (h : Bytes) → bytes_eq (key_sms_window h) j ≡ false

pub daily_phone-IsCounter : (h : Bytes) → IsCounter (key_sms_daily_phone h)
unfolding bytes_eq key_sms_code key_sms_window key_sms_daily_phone
daily_phone-IsCounter h = record { no_code = λ x. refl; no_window = λ x. refl }

pub daily_ip-IsCounter : (h : Bytes) → IsCounter (key_sms_daily_ip h)
unfolding bytes_eq key_sms_code key_sms_window key_sms_daily_ip
daily_ip-IsCounter h = record { no_code = λ x. refl; no_window = λ x. refl }

module _ {C G W : Type 0} (lib : CryptoLibrary C G) {env : UserEnv W} (cfg : UserConfig)
    (laws : CounterLaws env) {j : Bytes} (counter : IsCounter j) (n : ℕ) where
  after_send-AtLeast :
      (h : Bytes) (x : Result (Unit {0}) × W)
      → AtLeast laws j n x.1
      → AtLeast laws j n (after_send lib env cfg h x).1
  unfolding delete_sms_code
  after_send-AtLeast h (ok _, s) k = k
  after_send-AtLeast h (err e, s) k =
      (Keeps-map_error wrapped (env.redis.del (key_sms_code h))
          (del-Keeps laws j n (key_sms_code h) (counter.no_code h))).at
        s k

  deliver-Keeps :
      (phone h code : Bytes) → Keeps (AtLeast laws j n) (deliver lib env cfg phone h code)
  deliver-Keeps phone h code = record {
    at = λ s k.
        after_send-AtLeast h (env.send_code phone code s) ((send-Keeps laws j n phone code).at s k);
  }

  save-Keeps :
      (h code : Bytes) (t : ℕ) → Keeps (AtLeast laws j n) (save_sms_code env.redis h code t)
  unfolding save_sms_code
  save-Keeps h code t =
      Keeps-map_error wrapped (env.redis.set (key_sms_code h) code t)
        (set-Keeps laws j n (key_sms_code h) code t (counter.no_code h))

  pub dispatch-Keeps :
      (draw : ℕ → Result ℕ) (phone h : Bytes)
      → Keeps (AtLeast laws j n) (dispatch lib env cfg draw phone h)
  dispatch-Keeps draw phone h = search (keeps_rules, save-Keeps, deliver-Keeps)

  pub daily_phone-Keeps : (h : Bytes) → Keeps (AtLeast laws j n) (daily_phone lib env cfg h)
  unfolding increment_and_check_sms_phone_daily
  daily_phone-Keeps h = search (keeps_rules, incr_and_check-Keeps)

  pub daily_ip-Keeps : (h : Bytes) → Keeps (AtLeast laws j n) (daily_ip lib env cfg h)
  unfolding increment_and_check_sms_ip_daily
  daily_ip-Keeps h = search (keeps_rules, incr_and_check-Keeps)

  window-Keeps :
      (h : Bytes) (t : ℕ) → Keeps (AtLeast laws j n) (check_and_consume_sms_window env.redis h t)
  unfolding check_and_consume_sms_window
  window-Keeps h t =
      search (
        keeps_rules,
        set_nx-Keeps laws j n (key_sms_window h),
        counter.no_window,
        window_taken-Keeps,
      )

  pub phone_window-Keeps : (h : Bytes) → Keeps (AtLeast laws j n) (phone_window lib env cfg h)
  phone_window-Keeps h = search (keeps_rules, window-Keeps)

  pub send_code-Keeps :
      (draw : ℕ → Result ℕ) (phone ip : Bytes)
      → Keeps (AtLeast laws j n) (send_code lib env cfg draw phone ip)
  unfolding send_code
  send_code-Keeps draw phone ip =
      search (keeps_rules, phone_window-Keeps, daily_phone-Keeps, daily_ip-Keeps, dispatch-Keeps)
