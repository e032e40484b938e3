-- ===== src/Config/Validation/Sound.antt =====
-- What settings that pass `validate` promise to the components.
use cooking_platform.Prelude.{
  ◌≡◌, ◌≢◌, ◌⊎◌, inl, inr, Bool-cases, refl, sym, Bool, true, false, ◌&&◌, ◌||◌, not, none, String,
  List, [], ◌∷◌, ◌++◌, arith, ◌==◌, ==_iff, length, All,
}
use cooking_platform.Prelude.Int.{ℤ, pos, negsuc, ltb_ℤ, ◌≤ℤ◌}
use cooking_platform.Prelude.Text.{bytes_eq, bytes_eq→eq}
use cooking_platform.Strings.{to_lower}
use cooking_platform.Config.{Config}
use cooking_platform.Config.Checks.{
  Checks, not_positive, empty, server_checks, jwt_checks, mq_checks, sms_checks, oss_checks,
}
use cooking_platform.Config.Validation.{
  first_error, consumer_checks, list_checks, operation_checks, any_star, release, all_hex,
  encryption_checks, sections, in_turn, validate,
}

-- no test holds
abbrev Pass : Checks → Type 0
Pass = All (λ (check : Bool × String). check.0 ≡ false)

first_error-Pass : (checks : Checks) → first_error checks ≡ none → Pass checks
unfolding first_error
first_error-Pass [] h = tt
first_error-Pass ((true, message) ∷ checks) h = absurd (ground (arith, h))
first_error-Pass ((false, message) ∷ checks) h = (refl, first_error-Pass checks h)

Pass-append : (xs ys : Checks) → Pass (xs ++ ys) → Pass xs × Pass ys
Pass-append [] ys h = (tt, h)
Pass-append (x ∷ xs) ys (first, rest) = let (l, r) = Pass-append xs ys rest in ((first, l), r)

in_turn-Pass : (checks : List Checks) → Pass (in_turn checks) → All Pass checks
in_turn-Pass [] h = tt
in_turn-Pass (section ∷ rest) h =
    let (now, later) = Pass-append section (in_turn rest) h in (now, in_turn-Pass rest later)

positive : (n : ℤ) → not_positive n ≡ false → pos 1 ≤ℤ n
positive (pos n) h = ground (arith, h)
positive (negsuc n) h = absurd (ground (arith, h))

at_most : (a b : ℤ) → ltb_ℤ a b ≡ false → b ≤ℤ a
at_most (pos a) (pos b) h = ground (arith, h)
at_most (pos a) (negsuc b) h = ground (arith, h)
at_most (negsuc a) (pos b) h = ground (arith, h)
at_most (negsuc a) (negsuc b) h = ground (arith, h)

or_false : (a b : Bool) → (a || b) ≡ false → (a ≡ false) × (b ≡ false)
or_false true b h = absurd (cc h)
or_false false b h = (refl, h)

and_false : (a b : Bool) → (a && b) ≡ false → a ≡ true → b ≡ false
and_false true b h e = h
and_false false b h e = absurd (cc e)

not-false : (a : Bool) → not a ≡ false → a ≡ true
not-false true h = refl
not-false false h = absurd (cc h)

given : {A : Type 0} (s : List A) → empty s ≡ false → s ≢ []
given [] h = absurd (cc h)
given (c ∷ s) h = λ e. absurd (ground (arith, e))

module _ (cfg : Config) where
  -- the port is a TCP port
  abbrev pub ServerSound : Type 0
  ServerSound = (pos 1 ≤ℤ cfg.server.port) × (cfg.server.port ≤ℤ pos 65535)

  server-Sound : Pass (server_checks cfg.server cfg.dsn) → ServerSound
  unfolding server_checks
  server-Sound (port, _) =
      let (low, high) =
        or_false (not_positive cfg.server.port) (ltb_ℤ (pos 65535) cfg.server.port) port in
      (positive cfg.server.port low, at_most (pos 65535) cfg.server.port high)

  -- an access token lives, and a refresh token outlives it
  abbrev pub JwtSound : Type 0
  JwtSound =
      (pos 1 ≤ℤ cfg.jwt.access_token_ttl)
      × (ltb_ℤ cfg.jwt.access_token_ttl cfg.jwt.refresh_token_ttl ≡ true)

  jwt-Sound : Pass (jwt_checks cfg.jwt) → JwtSound
  unfolding jwt_checks
  jwt-Sound (secret, (access, (refresh, _))) = (
    positive cfg.jwt.access_token_ttl access,
    not-false (ltb_ℤ cfg.jwt.access_token_ttl cfg.jwt.refresh_token_ttl) refresh,
  )

  -- the retries of the bus are a number, and it waits between them
  abbrev pub MqSound : Type 0
  MqSound = (pos 0 ≤ℤ cfg.mq.reconnect_max_retries) × (pos 1 ≤ℤ cfg.mq.reconnect_initial_delay)

  mq-Sound : Pass (mq_checks cfg.mq) → MqSound
  unfolding mq_checks
  mq-Sound (provider, (retries, (delay, _))) = (
    at_most cfg.mq.reconnect_max_retries (pos 0) retries,
    positive cfg.mq.reconnect_initial_delay delay,
  )

  abbrev pub SmsSound : Type 0
  SmsSound = (pos 4 ≤ℤ cfg.sms.code_length) × (cfg.sms.code_length ≤ℤ pos 8)

  sms-Sound : Pass (sms_checks cfg.sms) → SmsSound
  unfolding sms_checks
  sms-Sound (provider, (size, _)) =
      let (low, high) =
        or_false (ltb_ℤ cfg.sms.code_length (pos 4)) (ltb_ℤ (pos 8) cfg.sms.code_length) size in
      (at_most cfg.sms.code_length (pos 4) low, at_most (pos 8) cfg.sms.code_length high)

  -- the prefix of allowed URLs is there, in lower case
  abbrev pub OssSound : Type 0
  OssSound =
      (cfg.oss.url_prefix ≢ [])
      × (to_lower cfg.oss.url_prefix ≡ cfg.oss.url_prefix)
      × (pos 1 ≤ℤ cfg.oss.max_image_size)

  oss-Sound : Pass (oss_checks cfg.oss) → OssSound
  unfolding oss_checks
  oss-Sound (provider, (there, (lower, (ttl, (size, _))))) = (
    given cfg.oss.url_prefix there,
    sym (
        bytes_eq→eq cfg.oss.url_prefix (to_lower cfg.oss.url_prefix)
          (not-false (bytes_eq cfg.oss.url_prefix (to_lower cfg.oss.url_prefix)) lower)),
    positive cfg.oss.max_image_size size,
  )

  -- the batches of the three consumers
  abbrev pub ConsumerSound : Type 0
  ConsumerSound =
      (pos 1 ≤ℤ cfg.consumer.like.batch_size)
      × (pos 1 ≤ℤ cfg.consumer.pv.batch_size)
      × (pos 1 ≤ℤ cfg.consumer.count.batch_size)

  consumer-Sound : Pass (consumer_checks cfg.consumer) → ConsumerSound
  unfolding consumer_checks
  consumer-Sound (like, (_, (pv, (_, (count, _))))) = (
    positive cfg.consumer.like.batch_size like,
    positive cfg.consumer.pv.batch_size pv,
    positive cfg.consumer.count.batch_size count,
  )

  -- the sizes of a page of followers
  abbrev pub FollowSound : Type 0
  FollowSound =
      (pos 1 ≤ℤ cfg.follow.default_list_size)
      × (cfg.follow.default_list_size ≤ℤ cfg.follow.max_list_size)
      × (pos 1 ≤ℤ cfg.follow.max_following)

  list-Sound : Pass (list_checks cfg.search cfg.follow) → FollowSound
  unfolding list_checks
  list-Sound (_, (_, (most, (size, _)))) =
      let (low, high) =
        or_false (not_positive cfg.follow.default_list_size)
          (ltb_ℤ cfg.follow.max_list_size cfg.follow.default_list_size) size in
      (
        positive cfg.follow.default_list_size low,
        at_most cfg.follow.max_list_size cfg.follow.default_list_size high,
        positive cfg.follow.max_following most,
      )

  -- in release mode no origin is "*", and the key of the phone numbers is 64 hexadecimal digits
  abbrev pub ReleaseSound : Type 0
  ReleaseSound =
      (release cfg.server.mode ≡ false)
      ⊎ ((any_star cfg.cors.allowed_origins ≡ false)
          × (length cfg.encryption.phone_key ≡ 64)
          × (all_hex cfg.encryption.phone_key ≡ true))

  release-Sound :
      Pass (operation_checks cfg.server.mode cfg.cors cfg.audit cfg.metrics)
      → Pass (encryption_checks cfg.server.mode cfg.encryption)
      → ReleaseSound
  unfolding operation_checks encryption_checks
  release-Sound (_, (star, _)) (set, (size, (hex, _))) =
      elim (Bool-cases (release cfg.server.mode)) [
        | inr other ↦ inl other
        | inl mode ↦
            let key = cfg.encryption.phone_key in
            let there : not (empty key) ≡ true =
              rw (and_false (release cfg.server.mode) (empty key) set mode) refl in
            let long =
              not-false (length key == 64)
                (and_false (not (empty key)) (not (length key == 64)) size there) in
            inr (
              and_false (release cfg.server.mode) (any_star cfg.cors.allowed_origins) star mode,
              (==_iff (length key) 64).0 long,
              not-false (all_hex key) (and_false (not (empty key)) (not (all_hex key)) hex there),
            )
      ]

  -- Settings that pass `validate`: the port is a TCP port; an access token lives and a refresh token outlives
  -- it; the retries of the bus are not negative and wait; a code has 4 to 8 digits; the prefix of
  -- allowed URLs is there in lower case; the batches and the page sizes are positive, the default one
  -- within the largest; and in release mode no origin is "*" and the key is 64 hexadecimal digits.
  pub validate-Sound :
      validate cfg ≡ none
      → ServerSound × JwtSound × MqSound × SmsSound × OssSound × ConsumerSound × FollowSound
        × ReleaseSound
  unfolding validate sections
  validate-Sound h =
      let (
        server,
        (
          _,
          (
            jwt,
            (mq, (sms, (_, (oss, (_, (consumer, (_, (lists, (operation, (encryption, _)))))))))),
          ),
        ),
      ) =
        in_turn-Pass (sections cfg) (first_error-Pass (in_turn (sections cfg)) h) in
      (
        server-Sound server,
        jwt-Sound jwt,
        mq-Sound mq,
        sms-Sound sms,
        oss-Sound oss,
        consumer-Sound consumer,
        list-Sound lists,
        release-Sound operation encryption,
      )
