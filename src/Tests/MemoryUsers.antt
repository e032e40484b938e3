-- ===== src/Tests/MemoryUsers.antt =====
-- The parameters of the user service held in memory.
use cooking_platform.Prelude.{
  ℕ, suc, ◌+◌, ◌≡◌, refl, ap, sym, ◌∙◌, Bool, true, false, Option, none, some, [], arith,
  if◌then◌else◌,
}
use cooking_platform.Prelude.Int.{pos}
use cooking_platform.Prelude.Text.{Bytes, codes, bytes_eq, bytes_eq_refl}
use cooking_platform.Errcode.{nil_reply}
use cooking_platform.Action.{Result, ok, err}
use cooking_platform.Model.{User}
use cooking_platform.Cache.User.{UserRedis}
use cooking_platform.Cache.Marker.{MarkerRedis}
use cooking_platform.Repository.Users.{UserTable}
use cooking_platform.Repository.Follows.{FollowTable}
use cooking_platform.Service.User.{UserEnv, UserConfig}
use cooking_platform.Service.User.Codes.Limits.{CounterLaws}
use cooking_platform.Service.User.Login.Once.{CodeLaws}
use cooking_platform.Service.User.Session.Revoked.{one_if_some, RevocationLaws}

pub record Memory : Type 0 where
  pub texts : Bytes → Option Bytes
  pub counts : Bytes → ℕ

abbrev pub nothing_stored : Memory
nothing_stored = record { texts = λ k. none; counts = λ k. 0 }

abbrev put : Bytes → Bytes → (Bytes → Option Bytes) → Bytes → Option Bytes
put k v texts j = if bytes_eq k j then some v else texts j

abbrev reply : Option Bytes → Result Bytes
reply none = err nil_reply
reply (some v) = ok v

abbrev absent : Option Bytes → Bool
absent none = true
absent (some v) = false

abbrev pub memory_user_redis : UserRedis Memory
memory_user_redis = record {
  set = λ k v t s. (ok tt, record s { texts = put k v s.texts });
  get = λ k s. (reply (s.texts k), s);
  del = λ k s. (ok tt, record s { texts = λ j. if bytes_eq k j then none else s.texts j });
  set_nx = λ k v t s. (
    ok (absent (s.texts k)),
    record s { texts = if absent (s.texts k) then put k v s.texts else s.texts },
  );
  ttl = λ k s. (ok (pos 30), s);
  incr = λ k s. (
    ok (suc (s.counts k)),
    record s { counts = λ j. s.counts j + (if bytes_eq k j then 1 else 0) },
  );
  expire = λ k t s. (ok tt, s);
  exists = λ k s. (ok (one_if_some (s.texts k)), s);
  text_at = λ k s. s.texts k;
  count_at = λ k s. s.counts k;
}

abbrev pub cook : User
cook = record {
  id = 7;
  phone_hash = [];
  phone_encrypted = [];
  nickname = codes "cook";
  avatar_url = [];
  bio = [];
  status = 0;
  post_count = 0;
  total_likes = 0;
  follower_count = 0;
  following_count = 0;
  created_at = 1;
  updated_at = 1;
}

abbrev pub memory_users : {W : Type 0} → UserTable W
memory_users = record {
  select_by_phone_hash = λ h s. (ok cook, s);
  select_by_id = λ force id s. (ok cook, s);
  insert = λ u s. (ok 8, s);
  update_fields = λ id fields s. (ok tt, s);
}

abbrev no_follows : {W : Type 0} → FollowTable W
no_follows = record {
  insert_ignore = λ a b s. (ok 0, s);
  delete_edge = λ a b s. (ok 0, s);
  select_exists = λ f a b s. (ok false, s);
  select_count = λ f a s. (ok 0, s);
  select_join = λ f dir a c n s. (ok [], s);
  edge = λ f a b s. false;
  degree = λ f a s. 0;
  listed = λ f dir a s. [];
}

abbrev pub no_marker : {W : Type 0} → MarkerRedis W
no_marker = record { set = λ k v t s. (ok tt, s); exists = λ k s. (ok 0, s) }

abbrev pub memory_user_env : UserEnv Memory
memory_user_env = record {
  redis = memory_user_redis;
  marker = no_marker;
  users = memory_users;
  follows = no_follows;
  send_code = λ phone code s. (ok tt, s);
}

abbrev pub small_config : UserConfig
small_config = record {
  code_length = 2;
  code_ttl = 300000;
  sms_phone_window = 60000;
  sms_per_phone_per_day = 2;
  sms_per_ip_per_day = 3;
  sms_daily_ttl = 86400000;
  url_prefix = codes "https://oss/";
  phone_key = codes "k";
  phone_pepper = [];
  marker_ttl = 5000;
}

count_own :
    (s : Memory) (k : Bytes) → s.counts k + (if bytes_eq k k then 1 else 0) ≡ suc (s.counts k)
count_own s k = rw (bytes_eq_refl k) (omega arith)

pub memory_counter-laws : CounterLaws memory_user_env
memory_counter-laws = record {
  incr_lem = λ k s s' n h.
      let reply : suc (s.counts k) ≡ n = ground (arith, ap (λ x. x.0) h) in
      (sym reply, ap (λ x. x.1.counts k) (sym h) ∙ count_own s k ∙ reply);
  count-incr = λ k j s. omega arith;
  count-set = λ k v t j s e. refl;
  count-set_nx = λ k v t j s e. refl;
  count-del = λ k j s e. refl;
  count-ttl = λ k j s. refl;
  count-expire = λ k t j s. refl;
  count-send_code = λ p c j s. refl;
}

got : (o : Option Bytes) (v : Bytes) → reply o ≡ ok v → o ≡ some v
got none v h = absurd (cc h)
got (some w) v h = ground (arith, h)

pub memory_code-laws : CodeLaws memory_user_env
memory_code-laws = record {
  get_lem = λ k v s s' h. got (s.texts k) v (ap (λ x. x.0) h);
  deletes = λ k s. rw (bytes_eq_refl k) refl;
  text-select = λ h k s. refl;
  text-insert = λ u k s. refl;
}

put_own : (k v : Bytes) (texts : Bytes → Option Bytes) → put k v texts k ≡ some v
put_own k v texts = rw (bytes_eq_refl k) refl

pub memory_revocation-laws : RevocationLaws memory_user_redis
memory_revocation-laws = record {
  text-set = λ k v t s s' h. ap (λ x. x.1.texts k) (sym h) ∙ put_own k v s.texts;
  exists_lem = λ k n s s' h. ground (arith, ap (λ x. x.0) h);
}
