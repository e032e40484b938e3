-- ===== src/Tests/Config.antt =====
-- Settings of a release, with the theorem applied to them.
use cooking_platform.Prelude.{ℕ, zero, suc, ◌≡◌, refl, true, some, [], ◌∷◌}
use cooking_platform.Prelude.Int.{pos}
use cooking_platform.Prelude.Text.{Bytes, codes, bytes_eq}
use cooking_platform.Strings.{to_lower}
use cooking_platform.Config.{Config}
use cooking_platform.Config.Checks.{
  server_checks, redis_checks, jwt_checks, mq_checks, sms_checks, audit_checks, oss_checks,
}
use cooking_platform.Config.Validation.{
  first_error, sections, ratelimit_checks, consumer_checks, cache_checks, list_checks,
  operation_checks, encryption_checks, validate,
}
use cooking_platform.Config.Validation.Sound.{
  ServerSound, JwtSound, MqSound, SmsSound, OssSound, ConsumerSound, FollowSound, ReleaseSound,
  validate-Sound,
}

abbrev repeat : ℕ → Bytes
repeat zero = []
repeat (suc n) = b'a' ∷ repeat n

abbrev production : Config
production = record {
  server = record {
    port = pos 8080;
    mode = codes "release";
    read_timeout = pos 10;
    write_timeout = pos 10;
    idle_timeout = pos 60;
    shutdown_timeout = pos 30;
  };
  dsn = codes "dsn";
  redis = record {
    mode = codes "plain";
    addr = codes "redis:6379";
    master_name = [];
    sentinel_addrs = [];
    password = [];
    db = pos 0;
    pool_size = pos 10;
    dial_timeout = pos 5;
    read_timeout = pos 3;
    write_timeout = pos 3;
  };
  jwt = record { secret = repeat 32; access_token_ttl = pos 2; refresh_token_ttl = pos 9 };
  mq = record {
    provider = codes "rabbitmq";
    url = codes "amqp";
    timeout = pos 5;
    reconnect_max_retries = pos 3;
    reconnect_initial_delay = pos 1;
  };
  sms = record {
    provider = codes "mock";
    access_key_id = [];
    access_key_secret = [];
    sign_name = [];
    template_code = [];
    code_length = pos 6;
    code_ttl = pos 5;
  };
  oss = record {
    provider = codes "aliyun";
    access_key_id = codes "k";
    access_key_secret = codes "s";
    endpoint = codes "e";
    bucket = codes "b";
    url_prefix = codes "https";
    presign_ttl = pos 15;
    max_image_size = pos 5;
    upload_hourly = pos 30;
    mock_listen_addr = [];
  };
  audit = record {
    provider = codes "mock";
    access_key_id = [];
    access_key_secret = [];
    region = [];
    mock_result = codes "pass";
    timeout = pos 5;
    max_retries = pos 2;
  };
  encryption = record { phone_key = repeat 64; phone_pepper = codes "p" };
  ratelimit = record {
    sms_phone_window = pos 60;
    sms_per_phone_per_day = pos 5;
    sms_per_ip_per_day = pos 10;
  };
  consumer = record {
    like = record { batch_size = pos 100; flush_interval = pos 1 };
    pv = record { batch_size = pos 100; flush_interval = pos 1 };
    count = record { batch_size = pos 100; flush_interval = pos 1 };
  };
  cache = record {
    like_state_ttl = pos 1;
    feed_cache_ttl = pos 1;
    pv_dedup_ttl = pos 1;
    dedup_ttl = pos 1;
    user_sms_daily_ttl = pos 1;
  };
  metrics = record { enabled = true; namespace = codes "cooking" };
  search = record { max_keyword_len = pos 50; boolean_operators = codes "+-" };
  follow = record { max_following = pos 5000; default_list_size = pos 20; max_list_size = pos 50 };
  cors = record {
    allowed_origins = codes "https://cooking" ∷ [];
    allowed_methods = [];
    allowed_headers = [];
    expose_headers = [];
  };
}

-- the same settings without a key
keyless :
    validate
      (record production { encryption = record { phone_key = []; phone_pepper = codes "p" } })
    ≡ some "encryption.phone_key must be set in release mode (inject APP_ENCRYPTION_PHONE_KEY)"
unfolding validate first_error sections server_checks redis_checks jwt_checks mq_checks sms_checks
    audit_checks oss_checks ratelimit_checks consumer_checks cache_checks list_checks
    operation_checks encryption_checks bytes_eq to_lower
keyless = refl

validate-Sound_example :
    ServerSound production
    × JwtSound production
    × MqSound production
    × SmsSound production
    × OssSound production
    × ConsumerSound production
    × FollowSound production
    × ReleaseSound production
unfolding validate first_error sections server_checks redis_checks jwt_checks mq_checks sms_checks
    audit_checks oss_checks ratelimit_checks consumer_checks cache_checks list_checks
    operation_checks encryption_checks bytes_eq to_lower
validate-Sound_example = validate-Sound production refl
