-- ===== src/Config/Validation.antt =====
-- `validate` of pkg/config/config.go, in the order of its tests.
pub mod Sound
use cooking_platform.Prelude.{
  ℕ, Bool, true, false, ◌&&◌, ◌||◌, not, Option, none, some, String, List, [], ◌∷◌, ◌++◌, ltb, leb,
  ◌==◌, if◌then◌else◌, length,
}
use cooking_platform.Prelude.Int.{ℤ, pos, negsuc, ltb_ℤ}
use cooking_platform.Prelude.Text.{Bytes, codes, bytes_eq}
use cooking_platform.Strings.{to_lower}
use cooking_platform.Config.{
  ServerConfig, RedisConfig, JwtConfig, MqConfig, SmsConfig, OssConfig, AuditConfig,
  EncryptionConfig, BatchConfig, ConsumerConfig, CacheConfig, SearchConfig, FollowConfig,
  CorsConfig, MetricsConfig, RatelimitConfig, Config,
}
use cooking_platform.Config.Checks.{
  Checks, not_positive, empty, server_checks, redis_checks, jwt_checks, mq_checks, sms_checks,
  audit_checks, oss_checks,
}

-- the error of the first test that holds
unfoldable pub first_error : Checks → Option String
first_error [] = none
first_error ((failed, message) ∷ checks) =
    let rest = first_error checks in if failed then some message else rest

unfoldable pub ratelimit_checks : RatelimitConfig → Checks
ratelimit_checks c =
    (not_positive c.sms_phone_window, "ratelimit.sms_phone_window must be positive")
    ∷ (not_positive c.sms_per_phone_per_day, "ratelimit.sms_per_phone_per_day must be positive")
    ∷ (not_positive c.sms_per_ip_per_day, "ratelimit.sms_per_ip_per_day must be positive")
    ∷ []

unfoldable pub consumer_checks : ConsumerConfig → Checks
consumer_checks c =
    (not_positive c.like.batch_size, "consumer.like.batch_size must be positive")
    ∷ (not_positive c.like.flush_interval, "consumer.like.flush_interval must be positive")
    ∷ (not_positive c.pv.batch_size, "consumer.pv.batch_size must be positive")
    ∷ (not_positive c.pv.flush_interval, "consumer.pv.flush_interval must be positive")
    ∷ (not_positive c.count.batch_size, "consumer.count.batch_size must be positive")
    ∷ (not_positive c.count.flush_interval, "consumer.count.flush_interval must be positive")
    ∷ []

unfoldable pub cache_checks : CacheConfig → Checks
cache_checks c =
    (not_positive c.like_state_ttl, "cache.like_state_ttl must be positive")
    ∷ (not_positive c.feed_cache_ttl, "cache.feed_cache_ttl must be positive")
    ∷ (not_positive c.pv_dedup_ttl, "cache.pv_dedup_ttl must be positive")
    ∷ (not_positive c.dedup_ttl, "cache.dedup_ttl must be positive")
    ∷ (not_positive c.user_sms_daily_ttl, "cache.user_sms_daily_ttl must be positive")
    ∷ []

unfoldable pub list_checks : SearchConfig → FollowConfig → Checks
list_checks s f =
    (not_positive s.max_keyword_len, "search.max_keyword_len must be positive")
    ∷ (empty s.boolean_operators, "search.boolean_operators must be non-empty")
    ∷ (not_positive f.max_following, "follow.max_following must be positive")
    ∷ (
      not_positive f.default_list_size || ltb_ℤ f.max_list_size f.default_list_size,
      "follow.default_list_size must be in (0, max_list_size]",
    )
    ∷ (not_positive f.max_list_size, "follow.max_list_size must be positive")
    ∷ []

-- one of the origins is "*"
abbrev pub any_star : List Bytes → Bool
any_star [] = false
any_star (origin ∷ origins) = bytes_eq origin (codes "*") || any_star origins

abbrev pub release : Bytes → Bool
release mode = bytes_eq mode (codes "release")

unfoldable pub operation_checks : Bytes → CorsConfig → AuditConfig → MetricsConfig → Checks
operation_checks mode c a m =
    (
      empty c.allowed_origins,
      "cors.allowed_origins must be non-empty (use [\"*\"] for dev permissive)",
    )
    ∷ (
      release mode && any_star c.allowed_origins,
      "cors.allowed_origins must not contain \"*\" in release mode (CSRF risk)",
    )
    ∷ (not_positive a.timeout, "audit.timeout must be positive")
    ∷ (ltb_ℤ a.max_retries (pos 0), "audit.max_retries must be >= 0")
    ∷ (
      m.enabled && empty m.namespace,
      "metrics.namespace must be non-empty when metrics.enabled=true",
    )
    ∷ []

abbrev pub is_hex : ℕ → Bool
is_hex c = leb b'0' c && leb c b'9' || (leb b'a' c && leb c b'f' || leb b'A' c && leb c b'F')

abbrev pub all_hex : Bytes → Bool
all_hex [] = true
all_hex (c ∷ key) = is_hex c && all_hex key

unfoldable pub encryption_checks : Bytes → EncryptionConfig → Checks
encryption_checks mode c =
    (
      release mode && empty c.phone_key,
      "encryption.phone_key must be set in release mode (inject APP_ENCRYPTION_PHONE_KEY)",
    )
    ∷ (
      not (empty c.phone_key) && not (length c.phone_key == 64),
      "encryption.phone_key must be 64 hex characters (32 bytes)",
    )
    ∷ (
      not (empty c.phone_key) && not (all_hex c.phone_key),
      "encryption.phone_key contains non-hex character",
    )
    ∷ []

-- the tests of `validate`, section by section
unfoldable pub sections : Config → List Checks
unfolding server_checks redis_checks jwt_checks mq_checks sms_checks audit_checks oss_checks
    ratelimit_checks consumer_checks cache_checks list_checks operation_checks encryption_checks
sections cfg =
    server_checks cfg.server cfg.dsn
    ∷ redis_checks cfg.redis
    ∷ jwt_checks cfg.jwt
    ∷ mq_checks cfg.mq
    ∷ sms_checks cfg.sms
    ∷ audit_checks cfg.audit
    ∷ oss_checks cfg.oss
    ∷ ratelimit_checks cfg.ratelimit
    ∷ consumer_checks cfg.consumer
    ∷ cache_checks cfg.cache
    ∷ list_checks cfg.search cfg.follow
    ∷ operation_checks cfg.server.mode cfg.cors cfg.audit cfg.metrics
    ∷ encryption_checks cfg.server.mode cfg.encryption
    ∷ []

-- one section after the other
abbrev pub in_turn : List Checks → Checks
in_turn [] = []
in_turn (section ∷ rest) = section ++ in_turn rest

-- `validate`, with `none` for nil
unfoldable pub validate : Config → Option String
unfolding first_error sections
validate cfg = first_error (in_turn (sections cfg))
