-- ===== src/Config.antt =====
-- pkg/config/config.go: the settings that `validate` looks at. Durations are nanoseconds; texts are bytes.
pub mod Checks
pub mod Validation
use cooking_platform.Prelude.{Bool, List}
use cooking_platform.Prelude.Int.{ℤ}
use cooking_platform.Prelude.Text.{Bytes}

pub record ServerConfig : Type 0 where
  pub port : ℤ
  pub mode : Bytes
  pub read_timeout : ℤ
  pub write_timeout : ℤ
  pub idle_timeout : ℤ
  pub shutdown_timeout : ℤ

pub record RedisConfig : Type 0 where
  pub mode : Bytes
  pub addr : Bytes
  pub master_name : Bytes
  pub sentinel_addrs : List Bytes
  pub password : Bytes
  pub db : ℤ
  pub pool_size : ℤ
  pub dial_timeout : ℤ
  pub read_timeout : ℤ
  pub write_timeout : ℤ

pub record JwtConfig : Type 0 where
  pub secret : Bytes
  pub access_token_ttl : ℤ
  pub refresh_token_ttl : ℤ

pub record MqConfig : Type 0 where
  pub provider : Bytes
  pub url : Bytes
  pub timeout : ℤ
  pub reconnect_max_retries : ℤ
  pub reconnect_initial_delay : ℤ

pub record SmsConfig : Type 0 where
  pub provider : Bytes
  pub access_key_id : Bytes
  pub access_key_secret : Bytes
  pub sign_name : Bytes
  pub template_code : Bytes
  pub code_length : ℤ
  pub code_ttl : ℤ

pub record OssConfig : Type 0 where
  pub provider : Bytes
  pub access_key_id : Bytes
  pub access_key_secret : Bytes
  pub endpoint : Bytes
  pub bucket : Bytes
  pub url_prefix : Bytes
  pub presign_ttl : ℤ
  pub max_image_size : ℤ
  pub upload_hourly : ℤ
  pub mock_listen_addr : Bytes

pub record AuditConfig : Type 0 where
  pub provider : Bytes
  pub access_key_id : Bytes
  pub access_key_secret : Bytes
  pub region : Bytes
  pub mock_result : Bytes
  pub timeout : ℤ
  pub max_retries : ℤ

pub record EncryptionConfig : Type 0 where
  pub phone_key : Bytes
  pub phone_pepper : Bytes

-- `LikeConsumerConfig`, `PVConsumerConfig` and `CountConsumerConfig` have the same fields
pub record BatchConfig : Type 0 where
  pub batch_size : ℤ
  pub flush_interval : ℤ

pub record ConsumerConfig : Type 0 where
  pub like : BatchConfig
  pub pv : BatchConfig
  pub count : BatchConfig

pub record CacheConfig : Type 0 where
  pub like_state_ttl : ℤ
  pub feed_cache_ttl : ℤ
  pub pv_dedup_ttl : ℤ
  pub dedup_ttl : ℤ
  pub user_sms_daily_ttl : ℤ

pub record SearchConfig : Type 0 where
  pub max_keyword_len : ℤ
  pub boolean_operators : Bytes

pub record FollowConfig : Type 0 where
  pub max_following : ℤ
  pub default_list_size : ℤ
  pub max_list_size : ℤ

pub record CorsConfig : Type 0 where
  pub allowed_origins : List Bytes
  pub allowed_methods : List Bytes
  pub allowed_headers : List Bytes
  pub expose_headers : List Bytes

pub record MetricsConfig : Type 0 where
  pub enabled : Bool
  pub namespace : Bytes

pub record RatelimitConfig : Type 0 where
  pub sms_phone_window : ℤ
  pub sms_per_phone_per_day : ℤ
  pub sms_per_ip_per_day : ℤ

-- without `Log`, and of `Database` the address of the master
pub record Config : Type 0 where
  pub server : ServerConfig
  pub dsn : Bytes
  pub redis : RedisConfig
  pub jwt : JwtConfig
  pub mq : MqConfig
  pub sms : SmsConfig
  pub oss : OssConfig
  pub audit : AuditConfig
  pub encryption : EncryptionConfig
  pub ratelimit : RatelimitConfig
  pub consumer : ConsumerConfig
  pub cache : CacheConfig
  pub metrics : MetricsConfig
  pub search : SearchConfig
  pub follow : FollowConfig
  pub cors : CorsConfig
