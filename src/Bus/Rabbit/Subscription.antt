-- ===== src/Bus/Rabbit/Subscription.antt =====
-- `Subscribe`, `subscribeOnce` and `handleDelivery` of internal/event/rabbitmq.go. What the `select` of a
-- session receives is given as a `Session`; the handler and the timer act on the world of the client.

pub mod Attempts
pub mod Handling
pub mod Opening
pub mod Settled
pub mod Stopped
use cooking_platform.Prelude.{
  ℕ, zero, suc, Bool, true, false, some, List, [], ◌∷◌, ◌==◌, if◌then◌else◌,
}
use cooking_platform.Prelude.Text.{Bytes}
use cooking_platform.Action.{Result, ok, err, Action}
use cooking_platform.Bus.Rabbit.{reconnect_delay}
use cooking_platform.Bus.Rabbit.Connection.{
  Amqp, exchange, dlx_exchange, queue_name, channel_of, ensure_conn, Bus,
}

pub record Delivery : Type 0 where
  pub tag : ℕ
  pub body : Bytes

-- how a session ends: the channel of deliveries is closed, or the context is done, with what is left in
-- the channel then
pub data Ending : Type 0 where
  channel_closed : Ending
  context_done : List Delivery → Ending

-- what one session receives
pub record Session : Type 0 where
  pub deliveries : List Delivery
  pub ending : Ending

-- what `Subscribe` returns: nil, or the error after the last attempt
pub data SubscribeResult : Type 0 where
  stopped max_retries_exceeded : SubscribeResult

pub record Consumption (W Chan : Type 0) : Type 0 where
  -- `subCh.Consume`, `d.Ack(false)`, `d.Nack(false, false)`; the errors of the last two are ignored
  pub consume : Chan → Bytes → Action W (Unit {0})
  pub ack : Delivery → W → W
  pub nack : Delivery → W → W
  -- the payload in the JSON text of an event
  pub unmarshal : Bytes → Result Bytes
  pub handler : Bytes → Action W (Unit {0})
  -- the `select` on the timer and the context: whether the timer fired; `ctx.Err() != nil`
  pub wait : ℕ → W → Bool × W
  pub cancelled : W → Bool

module _ {W Conn Chan : Type 0} (amqp : Amqp W Conn Chan) (c : Consumption W Chan) where
  abbrev pub settle : Delivery → Result (Unit {0}) × W → W
  settle d (ok _, w) = c.ack d w
  settle d (err e, w) = c.nack d w

  abbrev pub handle_payload : Delivery → Result Bytes → W → W
  handle_payload d (ok payload) w = settle d (c.handler payload w)
  handle_payload d (err e) w = c.nack d w

  -- `handleDelivery`
  unfoldable pub handle_delivery : Delivery → W → W
  handle_delivery d w = handle_payload d (c.unmarshal d.body) w

  unfoldable pub handle_all : List Delivery → W → W
  unfolding handle_delivery
  handle_all [] w = w
  handle_all (d ∷ ds) w = handle_all ds (handle_delivery d w)

  -- the end of a session: whether the connection was lost
  abbrev pub finish : Ending → W → Bool × W
  finish channel_closed w = (true, w)
  finish (context_done left) w = (false, handle_all left w)

  -- the loop over the deliveries on a channel that is open; the channel is closed at the end
  abbrev pub serve : Chan → Session → W → Bool × W
  serve ch session w =
      let (lost, w') = finish session.ending (handle_all session.deliveries w) in
      (lost, amqp.close_chan ch w')

  abbrev pub closing : Chan → W → Bool × W
  closing ch w = (true, amqp.close_chan ch w)

  abbrev pub after_consume : Chan → Session → Result (Unit {0}) × W → Bool × W
  after_consume ch session (err e, w) = closing ch w
  after_consume ch session (ok _, w) = serve ch session w

  abbrev pub after_bind : Bytes → Chan → Session → Result (Unit {0}) × W → Bool × W
  after_bind topic ch session (err e, w) = closing ch w
  after_bind topic ch session (ok _, w) =
      after_consume ch session (c.consume ch (queue_name topic) w)

  abbrev pub after_declare : Bytes → Chan → Session → Result ℕ × W → Bool × W
  after_declare topic ch session (err e, w) = closing ch w
  after_declare topic ch session (ok messages, w) =
      after_bind topic ch session (amqp.queue_bind ch (queue_name topic) topic exchange w)

  abbrev pub after_open : Bytes → Session → Result Chan × W → Bool × W
  after_open topic session (err e, w) = (true, w)
  after_open topic session (ok ch, w) =
      after_declare topic ch session
        (amqp.queue_declare ch (queue_name topic) (some dlx_exchange) w)

  -- `subscribeOnce`: whether the connection was lost
  unfoldable pub subscribe_once : Bytes → Session → Bus amqp → Bool × Bus amqp
  subscribe_once topic session b =
      let (lost, w) = after_open topic session (channel_of amqp b.conn b.world) in
      (lost, record b { world = w })

  -- after a session
  abbrev pub after_session :
      Bool × Bus amqp → (Bus amqp → SubscribeResult × Bus amqp) → SubscribeResult × Bus amqp
  after_session (false, b) retry = (stopped, b)
  after_session (true, b) retry = if c.cancelled b.world then (stopped, b) else retry b

  abbrev pub after_redial :
      Bytes
      → Session
      → Result (Unit {0}) × Bus amqp
      → (Bus amqp → SubscribeResult × Bus amqp)
      → SubscribeResult × Bus amqp
  after_redial topic session (err e, b) retry = retry b
  after_redial topic session (ok _, b) retry = after_session (subscribe_once topic session b) retry

  abbrev pub after_wait :
      Bytes
      → Session
      → Bool × W
      → Bus amqp
      → (Bus amqp → SubscribeResult × Bus amqp)
      → SubscribeResult × Bus amqp
  after_wait topic session (false, w) b retry = (stopped, record b { world = w })
  after_wait topic session (true, w) b retry =
      after_redial topic session (ensure_conn amqp (record b { world = w })) retry

  -- the loop from an attempt on, with the number of attempts that are left; `sessions` gives what each
  -- attempt's session receives, if there is one
  unfoldable pub attempts :
      ℕ → Bytes → (ℕ → Session) → ℕ → ℕ → Bus amqp → SubscribeResult × Bus amqp
  unfolding subscribe_once
  attempts initial topic sessions zero attempt b = (max_retries_exceeded, b)
  attempts initial topic sessions (suc left) attempt b =
      let retry = attempts initial topic sessions left (suc attempt) in
      if attempt == 0
      then after_session (subscribe_once topic (sessions attempt) b) retry
      else after_wait topic (sessions attempt) (c.wait (reconnect_delay initial attempt) b.world) b
          retry

  -- `Subscribe`
  unfoldable pub subscribe : ℕ → Bytes → (ℕ → Session) → ℕ → Bus amqp → SubscribeResult × Bus amqp
  unfolding attempts
  subscribe initial topic sessions max_retries b =
      attempts initial topic sessions (suc max_retries) 0 b
