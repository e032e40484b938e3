-- ===== src/Config/Checks.antt =====
-- The tests of `validate` of pkg/config/config.go on the server, its stores and its providers. An error is its
-- format string up to the values that are filled in.
use cooking_platform.Prelude.{
  Bool, true, false, ◌&&◌, ◌||◌, not, String, List, [], ◌∷◌, ltb, if◌then◌else◌, length,
}
use cooking_platform.Prelude.Int.{ℤ, pos, ltb_ℤ}
use cooking_platform.Prelude.Text.{Bytes, codes, bytes_eq}
use cooking_platform.Strings.{to_lower}
use cooking_platform.Config.{
  ServerConfig, RedisConfig, JwtConfig, MqConfig, SmsConfig, OssConfig, AuditConfig,
}

-- a test that refuses the settings, with its error
abbrev pub Checks : Type 0
Checks = List (Bool × String)

-- `n <= 0`, `s == ""`, `len(l) == 0`
abbrev pub not_positive : ℤ → Bool
not_positive n = not (ltb_ℤ (pos 0) n)

abbrev pub empty {ℓ} : {A : Type ℓ} → List A → Bool
empty [] = true
empty (c ∷ s) = false

-- the text is none of the cases of a `switch`
abbrev pub unknown : Bytes → List Bytes → Bool
unknown s [] = true
unknown s (known ∷ cases) = not (bytes_eq s known) && unknown s cases

abbrev pub aliyun : Bytes
aliyun = codes "aliyun"

unfoldable pub server_checks : ServerConfig → Bytes → Checks
server_checks c dsn =
    (not_positive c.port || ltb_ℤ (pos 65535) c.port, "server.port out of range")
    ∷ (not_positive c.shutdown_timeout, "server.shutdown_timeout must be positive")
    ∷ (empty dsn, "database.dsn is required")
    ∷ []

unfoldable pub redis_checks : RedisConfig → Checks
redis_checks c =
    if bytes_eq c.mode [] || bytes_eq c.mode (codes "plain")
    then (empty c.addr, "redis.addr is required when redis.mode=plain") ∷ []
    else if bytes_eq c.mode (codes "sentinel")
    then (empty c.master_name, "redis.master_name is required when redis.mode=sentinel")
      ∷ (empty c.sentinel_addrs, "redis.sentinel_addrs is required when redis.mode=sentinel")
      ∷ []
    else (true, "redis.mode must be 'plain' or 'sentinel'") ∷ []

unfoldable pub jwt_checks : JwtConfig → Checks
jwt_checks c =
    (ltb (length c.secret) 32, "jwt.secret must be at least 32 characters")
    ∷ (not_positive c.access_token_ttl, "jwt.access_token_ttl must be positive")
    ∷ (
      not (ltb_ℤ c.access_token_ttl c.refresh_token_ttl),
      "jwt.refresh_token_ttl must be greater than access_token_ttl",
    )
    ∷ []

unfoldable pub mq_checks : MqConfig → Checks
mq_checks c =
    (
      unknown c.provider (codes "channel" ∷ codes "rabbitmq" ∷ [] ∷ []),
      "mq.provider must be 'channel' or 'rabbitmq'",
    )
    ∷ (ltb_ℤ c.reconnect_max_retries (pos 0), "mq.reconnect_max_retries must be >= 0")
    ∷ (not_positive c.reconnect_initial_delay, "mq.reconnect_initial_delay must be positive")
    ∷ []

unfoldable pub sms_checks : SmsConfig → Checks
sms_checks c =
    (
      unknown c.provider (codes "mock" ∷ aliyun ∷ [] ∷ []),
      "sms.provider must be 'mock' or 'aliyun'",
    )
    ∷ (
      ltb_ℤ c.code_length (pos 4) || ltb_ℤ (pos 8) c.code_length,
      "sms.code_length must be between 4 and 8",
    )
    ∷ (not_positive c.code_ttl, "sms.code_ttl must be positive")
    ∷ (
      bytes_eq c.provider aliyun && (empty c.access_key_id || empty c.access_key_secret),
      "sms.access_key_id and sms.access_key_secret are required when provider=aliyun",
    )
    ∷ (
      bytes_eq c.provider aliyun && (empty c.sign_name || empty c.template_code),
      "sms.sign_name and sms.template_code are required when provider=aliyun",
    )
    ∷ []

unfoldable pub audit_checks : AuditConfig → Checks
audit_checks c =
    (
      unknown c.provider (codes "mock" ∷ aliyun ∷ [] ∷ []),
      "audit.provider must be 'mock' or 'aliyun'",
    )
    ∷ (
      bytes_eq c.provider aliyun && (empty c.access_key_id || empty c.access_key_secret),
      "audit.access_key_id and audit.access_key_secret are required when provider=aliyun",
    )
    ∷ (
      unknown c.mock_result (codes "pass" ∷ codes "suspect" ∷ codes "reject" ∷ [] ∷ []),
      "audit.mock_result must be 'pass', 'suspect', or 'reject'",
    )
    ∷ []

unfoldable pub oss_checks : OssConfig → Checks
oss_checks c =
    (
      unknown c.provider (codes "mock" ∷ aliyun ∷ [] ∷ []),
      "oss.provider must be 'mock' or 'aliyun'",
    )
    ∷ (empty c.url_prefix, "oss.url_prefix is required (whitelist baseline)")
    ∷ (not (bytes_eq c.url_prefix (to_lower c.url_prefix)), "oss.url_prefix must be lower case")
    ∷ (not_positive c.presign_ttl, "oss.presign_ttl must be positive")
    ∷ (not_positive c.max_image_size, "oss.max_image_size must be positive")
    ∷ (not_positive c.upload_hourly, "oss.upload_hourly must be positive")
    ∷ (
      bytes_eq c.provider aliyun && (empty c.access_key_id || empty c.access_key_secret),
      "oss.access_key_id and oss.access_key_secret are required when provider=aliyun",
    )
    ∷ (
      bytes_eq c.provider aliyun && empty c.endpoint,
      "oss.endpoint is required when provider=aliyun",
    )
    ∷ (bytes_eq c.provider aliyun && empty c.bucket, "oss.bucket is required when provider=aliyun")
    ∷ (
      bytes_eq c.provider (codes "mock") && empty c.mock_listen_addr,
      "oss.mock_listen_addr is required when provider=mock",
    )
    ∷ []
