-- ===== src/Bus/Rabbit/Retries.antt =====
-- What the retries of `Publish` guarantee.
use cooking_platform.Prelude.{
  ℕ, zero, suc, ◌+◌, ◌-◌, ◌*◌, ◌^◌, ◌≤◌, ◌<◌, ◌≡◌, refl, ap, ◌∙◌, Bool, true, false, ◌||◌, ◌==◌,
  arith, if◌then◌else◌, Bool-cases, inl, inr,
}
use native.Mathlib.Nat.{pow-succ', mul_left_comm}
use cooking_platform.Errcode.{GoError}
use cooking_platform.Action.{Result, ok, err}
use cooking_platform.Bus.Rabbit.{
  PublishResult, published, publish_on_closed, closed_during_retry, context_done,
  max_retries_exceeded, send_failed, RabbitClient, max_delay, reconnect_delay, after_send,
  after_reopen, after_wait, attempts, publish,
}

module _ {S : Type 0} (c : RabbitClient S) (initial : ℕ) where
  -- The state was left by a publish that the broker took.
  abbrev pub Sent : S → Type 0
  Sent s' = (s : S) × (c.send s ≡ (ok tt, s'))

  abbrev Sound : (S → PublishResult × S) → Type 0
  Sound f = (s s' : S) → f s ≡ (published, s') → Sent s'

  status : (x y : PublishResult × S) → x ≡ y → x.0 ≡ y.0
  status x y h = ap (λ (z : PublishResult × S). z.0) h

  after_send-Sound :
      (retry : S → PublishResult × S) (s s' : S) (r : Result (Unit {0}) × S)
      → Sound retry
      → c.send s ≡ r
      → after_send c initial r retry ≡ (published, s')
      → Sent s'
  unfolding after_send
  after_send-Sound retry s s' (ok _, u) sound e h = (s, e ∙ (λ i. (ok tt, (h i).1)))
  after_send-Sound retry s s' (err x, u) sound e h = go (c.cancelled u || c.closed u) h
    where
      go :
          (b : Bool)
          → ◌≡◌ {A = PublishResult × S} (if b then (send_failed, u) else retry u) (published, s')
          → Sent s'
      go true k = absurd (ground (arith, status (send_failed, u) (published, s') k))
      go false k = sound u s' k

  after_reopen-Sound :
      (retry : S → PublishResult × S) (s' : S) (r : Result (Unit {0}) × S)
      → Sound retry
      → after_reopen c initial r retry ≡ (published, s')
      → Sent s'
  unfolding after_reopen
  after_reopen-Sound retry s' (ok _, u) sound h =
      after_send-Sound retry u s' (c.send u) sound refl h
  after_reopen-Sound retry s' (err x, u) sound h = sound u s' h

  after_wait-Sound :
      (retry : S → PublishResult × S) (s' : S) (r : Bool × S)
      → Sound retry
      → after_wait c initial r retry ≡ (published, s')
      → Sent s'
  unfolding after_wait
  after_wait-Sound retry s' (false, u) sound h =
      absurd (ground (arith, status (context_done, u) (published, s') h))
  after_wait-Sound retry s' (true, u) sound h = go (c.closed u) h
    where
      go :
          (b : Bool)
          → ◌≡◌ {A = PublishResult × S}
              (if b then (closed_during_retry, u) else after_reopen c initial (c.reopen u) retry)
              (published, s')
          → Sent s'
      go true k = absurd (ground (arith, status (closed_during_retry, u) (published, s') k))
      go false k = after_reopen-Sound retry s' (c.reopen u) sound k

  attempts-Sound : (left attempt : ℕ) → Sound (attempts c initial left attempt)
  unfolding attempts
  attempts-Sound zero attempt s s' h =
      absurd (ground (arith, status (max_retries_exceeded, s) (published, s') h))
  attempts-Sound (suc left) attempt s s' h = go (attempts-Sound left (suc attempt)) (attempt == 0) h
    where
      go :
          Sound (attempts c initial left (suc attempt))
          → (b : Bool)
          → (if b
              then after_send c initial (c.send s) (attempts c initial left (suc attempt))
              else after_wait c initial
                  (c.wait (reconnect_delay initial attempt) s)
                  (attempts c initial left (suc attempt)))
            ≡ (published, s')
          → Sent s'
      go sound true k =
          after_send-Sound (attempts c initial left (suc attempt)) s s' (c.send s) sound refl k
      go sound false k =
          after_wait-Sound (attempts c initial left (suc attempt)) s'
            (c.wait (reconnect_delay initial attempt) s) sound k

  -- If `Publish` reports success, then the broker took the event in the last step, and the bus was
  -- open at the start.
  pub publish-Sent :
      (max_retries : ℕ) (s s' : S)
      → publish c initial max_retries s ≡ (published, s')
      → Sent s' × (c.closed s ≡ false)
  unfolding publish
  publish-Sent max_retries s s' h = go (c.closed s) refl h
    where
      go :
          (b : Bool)
          → c.closed s ≡ b
          → ◌≡◌ {A = PublishResult × S}
              (if b then (publish_on_closed, s) else attempts c initial (suc max_retries) 0 s)
              (published, s')
          → Sent s' × (c.closed s ≡ false)
      go true e k = absurd (ground (arith, status (publish_on_closed, s) (published, s') k))
      go false e k = (attempts-Sound (suc max_retries) 0 s s' k, e)

  -- An outage: how many more failures the broker answers with. Each failure of a publish or of a
  -- reopening lowers it, the timer always fires, and nobody closes the bus or cancels the context.
  pub record Outage : Type 0 where
    pub failures : S → ℕ
    pub open_bus : (s : S) → c.closed s ≡ false
    pub live : (s : S) → c.cancelled s ≡ false
    pub fires : (n : ℕ) (s : S) → (s' : S) × (c.wait n s ≡ (true, s')) × (failures s' ≤ failures s)
    pub send_fails : (s s' : S) (e : GoError) → c.send s ≡ (err e, s') → failures s' < failures s
    pub reopens : (s s' : S) → c.reopen s ≡ (ok tt, s') → failures s' ≤ failures s
    pub reopen_fails :
        (s s' : S) (e : GoError) → c.reopen s ≡ (err e, s') → failures s' < failures s

  module _ (o : Outage) where
    abbrev Succeeds : ℕ → (S → PublishResult × S) → Type 0
    Succeeds n f = (s : S) → o.failures s < n → (f s).0 ≡ published

    after_send-Succeeds :
        (n : ℕ) (retry : S → PublishResult × S) (s : S) (r : Result (Unit {0}) × S)
        → Succeeds n retry
        → o.failures s < suc n
        → c.send s ≡ r
        → (after_send c initial r retry).0 ≡ published
    unfolding after_send
    after_send-Succeeds n retry s (ok _, u) f l e = refl
    after_send-Succeeds n retry s (err x, u) f l e =
        rw (o.live u, o.open_bus u) (f u (omega (arith, o.send_fails s u x e)))

    after_reopen-Succeeds :
        (n : ℕ) (retry : S → PublishResult × S) (s : S) (r : Result (Unit {0}) × S)
        → Succeeds n retry
        → o.failures s < suc n
        → c.reopen s ≡ r
        → (after_reopen c initial r retry).0 ≡ published
    unfolding after_reopen
    after_reopen-Succeeds n retry s (ok _, u) f l e =
        after_send-Succeeds n retry u (c.send u) f (omega (arith, o.reopens s u e)) refl
    after_reopen-Succeeds n retry s (err x, u) f l e = f u (omega (arith, o.reopen_fails s u x e))

    attempts-Succeeds : (left attempt : ℕ) → Succeeds left (attempts c initial left attempt)
    unfolding attempts after_wait
    attempts-Succeeds zero attempt s l = absurd (omega arith)
    attempts-Succeeds (suc left) attempt s l =
        let retry = attempts c initial left (suc attempt) in
        let later = attempts-Succeeds left (suc attempt) in
        let (u, fired, fewer) = o.fires (reconnect_delay initial attempt) s in
        elim (Bool-cases (attempt == 0)) [
          | inl first ↦ rw first (after_send-Succeeds left retry s (c.send s) later l refl)
          | inr again ↦
              rw (again, fired, o.open_bus u)
                (after_reopen-Succeeds left retry u (c.reopen u) later (omega arith) refl)
        ]

    -- Through an outage in which the broker fails at most as often as there are retries, while nobody
    -- closes the bus or cancels the context, `Publish` succeeds.
    pub publish-published :
        (max_retries : ℕ) (s : S)
        → o.failures s ≤ max_retries
        → (publish c initial max_retries s).0 ≡ published
    unfolding publish
    publish-published max_retries s h =
        rw (o.open_bus s) (attempts-Succeeds (suc max_retries) 0 s (omega arith))

doubled : (initial n : ℕ) → initial * 2 ^ (n + 2 - 1) ≡ 2 * (initial * 2 ^ (n + 1 - 1))
doubled initial n =
    let e : n + 2 - 1 ≡ suc n = omega arith in
    let f : n + 1 - 1 ≡ n = omega arith in
    rw (e, f, pow-succ' 2 n) (mul_left_comm initial 2 (2 ^ n))

-- From the first retry on the delay is never above 30 seconds, never falls from one attempt to the
-- next, and is twice the one before as long as that is within the cap.
pub reconnect_delay_lem :
    (initial n : ℕ)
    → (reconnect_delay initial (n + 1) ≤ max_delay)
      × (reconnect_delay initial (n + 1) ≤ reconnect_delay initial (n + 2))
      × (2 * reconnect_delay initial (n + 1) ≤ max_delay
          → reconnect_delay initial (n + 2) ≡ 2 * reconnect_delay initial (n + 1))
unfolding reconnect_delay
reconnect_delay_lem initial n = ground (arith, doubled initial n)
