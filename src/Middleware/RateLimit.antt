-- ===== src/Middleware/RateLimit.antt =====
-- internal/middleware/ratelimit.go. The Redis commands on sorted sets are parameters; times are Unix
-- milliseconds, and an entry is its member, which is also its score.
pub mod Window
use cooking_platform.Prelude.{
  ℕ, ◌+◌, ◌≡◌, Bool, true, false, List, [], ◌∷◌, leb, ◌==◌, if◌then◌else◌, length, elem,
}
use cooking_platform.Prelude.Int.{ℤ, pos, ◌-ℤ◌, ltb_ℤ}
use cooking_platform.Prelude.Text.{Bytes}
use cooking_platform.Action.{Result, ok, err, Action, ◌>>=◌, pure, pipe}

pub record WindowRedis (R : Type 0) : Type 0 where
  -- ZREMRANGEBYSCORE key 0 max, ZCARD key, ZADD key member member, EXPIRE key, for milliseconds
  pub remove_upto : Bytes → ℤ → Action R ℕ
  pub card : Bytes → Action R ℕ
  pub add : Bytes → ℕ → Action R ℕ
  pub expire : Bytes → ℕ → Action R (Unit {0})
  -- the members of a sorted set
  pub entries : Bytes → R → List ℕ

-- the members above a score
unfoldable pub above : ℤ → List ℕ → List ℕ
above max [] = []
above max (m ∷ ms) = let rest = above max ms in if ltb_ℤ max (pos m) then m ∷ rest else rest

-- The commands are answered as Redis documents them, and the set does not expire in between.
pub record WindowLaws {R : Type 0} (r : WindowRedis R) : Type 0 where
  pub removes :
      (k : Bytes) (max : ℤ) (s : R)
      → (n : ℕ) × (s' : R) × (r.remove_upto k max s ≡ (ok n, s'))
        × (r.entries k s' ≡ above max (r.entries k s))
  pub counts : (k : Bytes) (s : R) → r.card k s ≡ (ok (length (r.entries k s)), s)
  pub adds :
      (k : Bytes) (m : ℕ) (s : R)
      → (n : ℕ) × (s' : R) × (r.add k m s ≡ (ok n, s'))
        × (r.entries k s' ≡ (if elem m (r.entries k s) then r.entries k s else m ∷ r.entries k s))
  pub expires :
      (k : Bytes) (t : ℕ) (s : R)
      → (s' : R) × (r.expire k t s ≡ (ok tt, s')) × (r.entries k s' ≡ r.entries k s)

module _ {R : Type 0} (r : WindowRedis R) (limit window : ℕ) where
  -- the second pipeline of `slidingWindowAllow`
  abbrev pub record_request : Bytes → ℕ → Action R Bool
  record_request key now = do added ← pipe (r.add key now) (r.expire key (window + 1000)); pure true

  abbrev pub admit : Bool → Bytes → ℕ → Action R Bool
  admit full key now = if full then pure false else record_request key now

  -- `slidingWindowAllow`
  unfoldable pub sliding_window_allow : Bytes → ℕ → Action R Bool
  sliding_window_allow key now = do
    counted ← pipe (r.remove_upto key (pos now -ℤ pos window)) (r.card key)
    admit (leb limit counted.1) key now

  -- an error lets the request pass
  abbrev pub passes : Result Bool → Bool
  passes (ok allowed) = allowed
  passes (err e) = true

  -- `RateLimit`: whether the request goes on to its handler
  unfoldable pub rate_limit : Bytes → ℕ → R → Bool × R
  unfolding sliding_window_allow
  rate_limit [] now s = (true, s)
  rate_limit (c ∷ key) now s =
      let (reply, s') = sliding_window_allow (c ∷ key) now s in (passes reply, s')
