-- ===== src/Cache/Dedup.antt =====
-- internal/cache/event_dedup_cache.go. The Redis command is a parameter.
use cooking_platform.Prelude.{ℕ, ◌≡◌, Bool, true, false, ◌||◌, not, [], ◌∷◌, ◌++◌}
use cooking_platform.Prelude.Text.{Bytes, codes, bytes_eq, bytes_eq-append}
use cooking_platform.Action.{Result, ok, err, Action, ◌>>=◌, pure, wrap}

pub record DedupRedis (R : Type 0) : Type 0 where
  -- SET key 1 NX EX seconds
  pub set_nx : Bytes → ℕ → Action R Bool
  -- whether the key exists
  pub present : Bytes → R → Bool

-- The command is answered, as Redis documents it, and no marker expires between two commands.
pub record DedupLaws {R : Type 0} (r : DedupRedis R) : Type 0 where
  pub after : Bytes → ℕ → R → R
  pub answers :
      (k : Bytes) (ttl : ℕ) (s : R) → r.set_nx k ttl s ≡ (ok (not (r.present k s)), after k ttl s)
  pub present-after :
      (k : Bytes) (ttl : ℕ) (s : R) (j : Bytes)
      → r.present j (after k ttl s) ≡ (bytes_eq k j || r.present j s)

-- `keyEventDedup`
unfoldable pub key_event_dedup : Bytes → Bytes → Bytes
key_event_dedup topic event_id = codes "dedup:" ++ topic ++ codes ":" ++ event_id

pub dedup_key-eq :
    (topic a b : Bytes)
    → bytes_eq (key_event_dedup topic a) (key_event_dedup topic b) ≡ bytes_eq a b
unfolding key_event_dedup
dedup_key-eq topic a b = bytes_eq-append (codes "dedup:" ++ topic ++ codes ":") a b

module _ {R : Type 0} (r : DedupRedis R) (ttl : ℕ) where
  -- `SeenOrMark`
  unfoldable pub seen_or_mark : Bytes → Bytes → Action R Bool
  seen_or_mark topic [] = pure false
  seen_or_mark topic (c ∷ event_id) = do
    fresh ← wrap (r.set_nx (key_event_dedup topic (c ∷ event_id)) ttl)
    pure (not fresh)

  -- the event goes on if it is new, or if the check failed
  abbrev pub proceed : Result Bool → Bool
  proceed (ok seen) = not seen
  proceed (err e) = true

  -- the check in front of a handler, as the consumers write it
  unfoldable pub accept : Bytes → Bytes → R → Bool × R
  unfolding seen_or_mark
  accept topic event_id s = let (seen, s') = seen_or_mark topic event_id s in (proceed seen, s')
