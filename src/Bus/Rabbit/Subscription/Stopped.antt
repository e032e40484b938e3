-- ===== src/Bus/Rabbit/Subscription/Stopped.antt =====
-- When `Subscribe` returns nil.
use cooking_platform.Prelude.{
  ℕ, zero, suc, ◌≡◌, ◌⊎◌, refl, ap, sym, ◌∙◌, inl, inr, Bool, true, false, some, List, arith, ◌==◌,
  if◌then◌else◌,
}
use cooking_platform.Prelude.Text.{Bytes}
use cooking_platform.Action.{Result, ok, err}
use cooking_platform.Bus.Rabbit.{reconnect_delay}
use cooking_platform.Bus.Rabbit.Connection.{
  Amqp, Bus, channel_of, ensure_conn, exchange, dlx_exchange, queue_name,
}
use cooking_platform.Bus.Rabbit.Subscription.{
  Delivery, Session, Ending, channel_closed, context_done, SubscribeResult, stopped, Consumption,
  handle_all, finish, after_consume, after_bind, after_declare, after_open, subscribe_once,
  after_session, after_redial, after_wait, attempts, subscribe,
}

module _ {W Conn Chan : Type 0} (amqp : Amqp W Conn Chan) (c : Consumption W Chan) where
  abbrev Outcome : Type 0
  Outcome = SubscribeResult × Bus amqp

  finish-lost : (e : Ending) (w : W) → e ≡ channel_closed → (finish amqp c e w).0 ≡ true
  finish-lost channel_closed w h = refl
  finish-lost (context_done left) w h = absurd (ground (arith, h))

  module _ (topic : Bytes) (session : Session) (closed : session.ending ≡ channel_closed) where
    after_consume-lost :
        (ch : Chan) (r : Result (Unit {0}) × W) → (after_consume amqp c ch session r).0 ≡ true
    after_consume-lost ch (err e, w) = refl
    after_consume-lost ch (ok _, w) =
        finish-lost session.ending (handle_all amqp c session.deliveries w) closed

    after_bind-lost :
        (ch : Chan) (r : Result (Unit {0}) × W) → (after_bind amqp c topic ch session r).0 ≡ true
    after_bind-lost ch (err e, w) = refl
    after_bind-lost ch (ok _, w) = after_consume-lost ch (c.consume ch (queue_name topic) w)

    after_declare-lost :
        (ch : Chan) (r : Result ℕ × W) → (after_declare amqp c topic ch session r).0 ≡ true
    after_declare-lost ch (err e, w) = refl
    after_declare-lost ch (ok n, w) =
        after_bind-lost ch (amqp.queue_bind ch (queue_name topic) topic exchange w)

    after_open-lost : (r : Result Chan × W) → (after_open amqp c topic session r).0 ≡ true
    after_open-lost (err e, w) = refl
    after_open-lost (ok ch, w) =
        after_declare-lost ch (amqp.queue_declare ch (queue_name topic) (some dlx_exchange) w)

    subscribe_once-lost : (b : Bus amqp) → (subscribe_once amqp c topic session b).0 ≡ true
    unfolding subscribe_once
    subscribe_once-lost b = after_open-lost (channel_of amqp b.conn b.world)

  -- the context was done: `ctx.Err()` says so, a session received it, or the wait for the timer did
  abbrev pub ContextDone : (ℕ → Session) → Bus amqp → Type 0
  ContextDone sessions b =
      (c.cancelled b.world ≡ true)
      ⊎ ((k : ℕ) × (left : List Delivery) × ((sessions k).ending ≡ context_done left))
      ⊎ ((n : ℕ) × (w : W) × (c.wait n w ≡ (false, b.world)))

  Ending-cases :
      (e : Ending) → (e ≡ channel_closed) ⊎ ((left : List Delivery) × (e ≡ context_done left))
  Ending-cases channel_closed = inl refl
  Ending-cases (context_done left) = inr (left, refl)

  module _ (topic : Bytes) (sessions : ℕ → Session) where
    abbrev Sound : (Bus amqp → Outcome) → Type 0
    Sound f = (b b' : Bus amqp) → f b ≡ (stopped, b') → ContextDone sessions b'

    -- a session that does not count as lost received the end of the context
    session-ended :
        (k : ℕ) (b b' : Bus amqp)
        → (subscribe_once amqp c topic (sessions k) b).0 ≡ false
        → ContextDone sessions b'
    session-ended k b b' h = elim (Ending-cases (sessions k).ending) [
      | inl closed ↦ absurd (cc (subscribe_once-lost topic (sessions k) closed b, h))
      | inr (left, ended) ↦ inr (inl (k, left, ended))
    ]

    after_session-Sound :
        (k : ℕ) (retry : Bus amqp → Outcome) (b' : Bus amqp) (r : Bool × Bus amqp)
        → Sound retry
        → (r.0 ≡ false → ContextDone sessions b')
        → after_session amqp c r retry ≡ (stopped, b')
        → ContextDone sessions b'
    after_session-Sound k retry b' (false, b) sound ended h = ended refl
    after_session-Sound k retry b' (true, b) sound ended h = go (c.cancelled b.world) refl h
      where
        go :
            (d : Bool)
            → c.cancelled b.world ≡ d
            → ◌≡◌ {A = Outcome} (if d then (stopped, b) else retry b) (stopped, b')
            → ContextDone sessions b'
        go true e same = inl (ap (λ (x : Outcome). c.cancelled x.1.world) (sym same) ∙ e)
        go false e same = sound b b' same

    after_redial-Sound :
        (k : ℕ) (retry : Bus amqp → Outcome) (b' : Bus amqp) (r : Result (Unit {0}) × Bus amqp)
        → Sound retry
        → after_redial amqp c topic (sessions k) r retry ≡ (stopped, b')
        → ContextDone sessions b'
    after_redial-Sound k retry b' (err e, b) sound h = sound b b' h
    after_redial-Sound k retry b' (ok _, b) sound h =
        after_session-Sound k retry b' (subscribe_once amqp c topic (sessions k) b) sound
          (session-ended k b b') h

    after_wait-Sound :
        (n k : ℕ) (retry : Bus amqp → Outcome) (b b' : Bus amqp) (r : Bool × W)
        → c.wait n b.world ≡ r
        → Sound retry
        → after_wait amqp c topic (sessions k) r b retry ≡ (stopped, b')
        → ContextDone sessions b'
    after_wait-Sound n k retry b b' (false, w) e sound h =
        inr (inr (n, b.world, e ∙ ap (λ (x : Outcome). (false, x.1.world)) h))
    after_wait-Sound n k retry b b' (true, w) e sound h =
        after_redial-Sound k retry b' (ensure_conn amqp (record b { world = w })) sound h

    attempts-Sound :
        (initial left attempt : ℕ) → Sound (attempts amqp c initial topic sessions left attempt)
    unfolding attempts
    attempts-Sound initial zero attempt b b' h =
        absurd (ground (arith, ap (λ (x : Outcome). x.0) h))
    attempts-Sound initial (suc left) attempt b b' h =
        go (attempts-Sound initial left (suc attempt)) (attempt == 0) h
      where
        retry : Bus amqp → Outcome
        retry = attempts amqp c initial topic sessions left (suc attempt)

        go :
            Sound retry
            → (first : Bool)
            → (if first
                then after_session amqp c (subscribe_once amqp c topic (sessions attempt) b) retry
                else after_wait amqp c topic
                    (sessions attempt)
                    (c.wait (reconnect_delay initial attempt) b.world)
                    b
                    retry)
              ≡ (stopped, b')
            → ContextDone sessions b'
        go sound true same =
            after_session-Sound attempt retry b' (subscribe_once amqp c topic (sessions attempt) b)
              sound (session-ended attempt b b') same
        go sound false same =
            after_wait-Sound (reconnect_delay initial attempt) attempt retry b b'
              (c.wait (reconnect_delay initial attempt) b.world) refl sound same

    -- `Subscribe` returns nil only when the context was done: `ctx.Err()` says so, or a session received it, or
    -- the wait before a reconnection did.
    pub subscribe-stopped :
        (initial max_retries : ℕ) (b b' : Bus amqp)
        → subscribe amqp c initial topic sessions max_retries b ≡ (stopped, b')
        → ContextDone sessions b'
    unfolding subscribe
    subscribe-stopped initial max_retries b b' h = attempts-Sound initial (suc max_retries) 0 b b' h
