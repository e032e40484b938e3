-- ===== src/Cache/Redis.antt =====
-- The Redis commands that the like cache sends, as a parameter: a command takes the server's state
-- and returns the reply or an error. Text keys and members are those of the source.
use cooking_platform.Prelude.{
  ℕ, ◌+◌, ◌<◌, ◌≡◌, Bool, false, ◌&&◌, ◌||◌, not, Option, none, some, if◌then◌else◌,
}
use cooking_platform.Prelude.Int.{ℤ, pos, ◌+ℤ◌, ◌-ℤ◌}
use cooking_platform.Prelude.Text.{Bytes, bytes_eq}
use cooking_platform.Action.{ok, Action}

pub record Redis (R : Type 0) : Type 0 where
  -- SISMEMBER key member, SADD key member, SREM key member
  pub sismember : Bytes → Bytes → Action R Bool
  pub sadd : Bytes → Bytes → Action R ℕ
  pub srem : Bytes → Bytes → Action R ℕ
  -- EXPIRE key seconds
  pub expire : Bytes → ℕ → Action R (Unit {0})
  -- GET key read as an int64, with `none` for a missing key; SET key value EX seconds; INCR; DECR
  pub get_int : Bytes → Action R (Option ℤ)
  pub set_int : Bytes → ℤ → ℕ → Action R (Unit {0})
  pub incr : Bytes → Action R ℤ
  pub decr : Bytes → Action R ℤ
  -- what the commands show of a state: members and size of a set, the integer at a key
  pub member : Bytes → Bytes → R → Bool
  pub card : Bytes → R → ℕ
  pub int_at : Bytes → R → Option ℤ

-- INCR and DECR take a missing key for 0.
abbrev pub value : Option ℤ → ℤ
value none = pos 0
value (some n) = n

-- Two states that no command tells apart.
pub record Same {R : Type 0} (r : Redis R) (s s' : R) : Type 0 where
  pub members : (k m : Bytes) → r.member k m s' ≡ r.member k m s
  pub cards : (k : Bytes) → r.card k s' ≡ r.card k s
  pub ints : (k : Bytes) → r.int_at k s' ≡ r.int_at k s

-- What Redis documents of the commands, where they succeed.
pub record RedisLaws {R : Type 0} (r : Redis R) : Type 0 where
  pub sismember_lem :
      (k m : Bytes) (s s' : R) (b : Bool)
      → r.sismember k m s ≡ (ok b, s')
      → (b ≡ r.member k m s) × Same r s s'
  pub sadd_reply :
      (k m : Bytes) (s s' : R) (n : ℕ)
      → r.sadd k m s ≡ (ok n, s')
      → n ≡ (if r.member k m s then 0 else 1)
  pub member-sadd :
      (k m : Bytes) (s s' : R) (n : ℕ) (j a : Bytes)
      → r.sadd k m s ≡ (ok n, s')
      → r.member j a s' ≡ (bytes_eq k j && bytes_eq m a || r.member j a s)
  pub card-sadd :
      (k m : Bytes) (s s' : R) (n : ℕ) (j : Bytes)
      → r.sadd k m s ≡ (ok n, s')
      → r.card j s' ≡ r.card j s + (if bytes_eq k j then n else 0)
  pub int-sadd :
      (k m : Bytes) (s s' : R) (n : ℕ) (j : Bytes)
      → r.sadd k m s ≡ (ok n, s')
      → r.int_at j s' ≡ r.int_at j s
  pub srem_reply :
      (k m : Bytes) (s s' : R) (n : ℕ)
      → r.srem k m s ≡ (ok n, s')
      → n ≡ (if r.member k m s then 1 else 0)
  pub member-srem :
      (k m : Bytes) (s s' : R) (n : ℕ) (j a : Bytes)
      → r.srem k m s ≡ (ok n, s')
      → r.member j a s' ≡ (r.member j a s && not (bytes_eq k j && bytes_eq m a))
  pub card-srem :
      (k m : Bytes) (s s' : R) (n : ℕ) (j : Bytes)
      → r.srem k m s ≡ (ok n, s')
      → r.card j s ≡ r.card j s' + (if bytes_eq k j then n else 0)
  pub int-srem :
      (k m : Bytes) (s s' : R) (n : ℕ) (j : Bytes)
      → r.srem k m s ≡ (ok n, s')
      → r.int_at j s' ≡ r.int_at j s
  -- an expiry in the future
  pub expire_lem :
      (k : Bytes) (t : ℕ) (s s' : R) → 0 < t → r.expire k t s ≡ (ok tt, s') → Same r s s'
  pub get_lem :
      (k : Bytes) (s s' : R) (v : Option ℤ)
      → r.get_int k s ≡ (ok v, s')
      → (v ≡ r.int_at k s) × Same r s s'
  pub set_lem :
      (k : Bytes) (v : ℤ) (t : ℕ) (s s' : R) (j : Bytes)
      → r.set_int k v t s ≡ (ok tt, s')
      → r.int_at j s' ≡ (if bytes_eq k j then some v else r.int_at j s)
  pub incr_reply :
      (k : Bytes) (s s' : R) (n : ℤ) → r.incr k s ≡ (ok n, s') → n ≡ value (r.int_at k s) +ℤ pos 1
  pub int-incr :
      (k : Bytes) (s s' : R) (n : ℤ) (j : Bytes)
      → r.incr k s ≡ (ok n, s')
      → r.int_at j s' ≡ (if bytes_eq k j then some n else r.int_at j s)
  pub decr_reply :
      (k : Bytes) (s s' : R) (n : ℤ) → r.decr k s ≡ (ok n, s') → n ≡ value (r.int_at k s) -ℤ pos 1
  pub int-decr :
      (k : Bytes) (s s' : R) (n : ℤ) (j : Bytes)
      → r.decr k s ≡ (ok n, s')
      → r.int_at j s' ≡ (if bytes_eq k j then some n else r.int_at j s)
  -- SET replaces a set at its key; the other commands on integers leave the sets alone
  pub sets-set :
      (k : Bytes) (v : ℤ) (t : ℕ) (s s' : R)
      → r.set_int k v t s ≡ (ok tt, s')
      → ((j a : Bytes) → r.member j a s' ≡ (if bytes_eq k j then false else r.member j a s))
        × ((j : Bytes) → r.card j s' ≡ (if bytes_eq k j then 0 else r.card j s))
  pub sets-incr :
      (k : Bytes) (s s' : R) (n : ℤ)
      → r.incr k s ≡ (ok n, s')
      → ((j a : Bytes) → r.member j a s' ≡ r.member j a s)
        × ((j : Bytes) → r.card j s' ≡ r.card j s)
  pub sets-decr :
      (k : Bytes) (s s' : R) (n : ℤ)
      → r.decr k s ≡ (ok n, s')
      → ((j a : Bytes) → r.member j a s' ≡ r.member j a s)
        × ((j : Bytes) → r.card j s' ≡ r.card j s)
