-- ===== src/Bus/Rabbit.antt =====
-- `Publish` of internal/event/rabbitmq.go, with its retries. The AMQP client, the timer, the context
-- and the flag `closed` are parameters over a state; log lines and the mutex are left out.
pub mod Retries
pub mod Connection
pub mod Subscription
use cooking_platform.Prelude.{
  ℕ, zero, suc, ◌+◌, ◌-◌, ◌*◌, ◌^◌, Bool, true, false, ◌||◌, not, ltb, ◌==◌, if◌then◌else◌,
}
use cooking_platform.Action.{Result, ok, err, Action}

-- what `Publish` returns
pub data PublishResult : Type 0 where
  published publish_on_closed closed_during_retry context_done max_retries_exceeded : PublishResult
  send_failed : PublishResult

pub record RabbitClient (S : Type 0) : Type 0 where
  -- `pubCh.PublishWithContext`, `reopenPubChLocked`
  pub send : Action S (Unit {0})
  pub reopen : Action S (Unit {0})
  -- the `select` on the timer and the context: whether the timer fired
  pub wait : ℕ → S → Bool × S
  -- `b.closed.Load()`, `ctx.Err() != nil`
  pub closed : S → Bool
  pub cancelled : S → Bool

-- `reconnectDelay` in nanoseconds, with the attempt counted from 1. A power of two times a
-- `Duration` is exact as a float64 as far as the cap.
abbrev pub max_delay : ℕ
max_delay = 30000000000

unfoldable pub reconnect_delay : ℕ → ℕ → ℕ
reconnect_delay initial attempt =
    let d = initial * 2 ^ (attempt - 1) in if ltb max_delay d then max_delay else d

module _ {S : Type 0} (c : RabbitClient S) (initial : ℕ) where
  -- after a publish that failed: the reply, or the next attempts
  after_send : Result (Unit {0}) × S → (S → PublishResult × S) → PublishResult × S
  after_send (ok _, s) retry = (published, s)
  after_send (err e, s) retry = if c.cancelled s || c.closed s then (send_failed, s) else retry s

  -- after an attempt to reopen the channel: a failure goes on to the next attempt
  after_reopen : Result (Unit {0}) × S → (S → PublishResult × S) → PublishResult × S
  unfolding after_send
  after_reopen (ok _, s) retry = after_send (c.send s) retry
  after_reopen (err e, s) retry = retry s

  after_wait : Bool × S → (S → PublishResult × S) → PublishResult × S
  unfolding after_reopen
  after_wait (false, s) retry = (context_done, s)
  after_wait (true, s) retry =
      if c.closed s then (closed_during_retry, s) else after_reopen (c.reopen s) retry

  -- the loop, from an attempt on, with the number of attempts that are left
  unfoldable pub attempts : ℕ → ℕ → S → PublishResult × S
  unfolding after_wait after_send
  attempts zero attempt s = (max_retries_exceeded, s)
  attempts (suc left) attempt s =
      let retry = attempts left (suc attempt) in
      if attempt == 0
      then after_send (c.send s) retry
      else after_wait (c.wait (reconnect_delay initial attempt) s) retry

  -- `Publish`
  unfoldable pub publish : ℕ → S → PublishResult × S
  unfolding attempts
  publish max_retries s =
      if c.closed s then (publish_on_closed, s) else attempts (suc max_retries) 0 s
