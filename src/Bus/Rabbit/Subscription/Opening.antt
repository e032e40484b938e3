-- ===== src/Bus/Rabbit/Subscription/Opening.antt =====
-- What opening a session takes: the channel, its queue, the binding of it and the consumption of it.
use cooking_platform.Prelude.{ℕ, ◌≡◌, ◌⊎◌, Option, some}
use cooking_platform.Prelude.Text.{Bytes}
use cooking_platform.Errcode.{GoError}
use cooking_platform.Action.{ok, err}
use cooking_platform.Bus.Rabbit.Connection.{Amqp, exchange, dlx_exchange, queue_name, channel_of}
use cooking_platform.Bus.Rabbit.Subscription.{Consumption}

module _ {W Conn Chan : Type 0} (amqp : Amqp W Conn Chan) (c : Consumption W Chan) where
  -- the steps of opening a session, in their order, each from the state that the one before left: all of
  -- them succeed
  abbrev pub Consumes : Bytes → Chan → W → Type 0
  Consumes topic ch w = (u : W) × (c.consume ch (queue_name topic) w ≡ (ok tt, u))

  abbrev pub Binds : Bytes → Chan → W → Type 0
  Binds topic ch w =
      (u : W) × (amqp.queue_bind ch (queue_name topic) topic exchange w ≡ (ok tt, u))
      × Consumes topic ch u

  abbrev pub Declares : Bytes → Chan → W → Type 0
  Declares topic ch w =
      (u : W) × (n : ℕ) × (amqp.queue_declare ch (queue_name topic) (some dlx_exchange) w
        ≡ (ok n, u))
      × Binds topic ch u

  abbrev pub Opens : Bytes → Option (Conn × Chan) → W → Type 0
  Opens topic conn w =
      (u : W) × (ch : Chan) × (channel_of amqp conn w ≡ (ok ch, u)) × Declares topic ch u

  -- one of them fails
  abbrev pub NoConsume : Bytes → Chan → W → Type 0
  NoConsume topic ch w = (u : W) × (e : GoError) × (c.consume ch (queue_name topic) w ≡ (err e, u))

  abbrev pub NoBind : Bytes → Chan → W → Type 0
  NoBind topic ch w =
      ((u : W) × (e : GoError) × (amqp.queue_bind ch (queue_name topic) topic exchange w
          ≡ (err e, u)))
      ⊎ ((u : W) × (amqp.queue_bind ch (queue_name topic) topic exchange w ≡ (ok tt, u))
          × NoConsume topic ch u)

  abbrev pub NoQueue : Bytes → Chan → W → Type 0
  NoQueue topic ch w =
      ((u : W) × (e : GoError) × (amqp.queue_declare ch (queue_name topic) (some dlx_exchange) w
          ≡ (err e, u)))
      ⊎ ((u : W) × (n : ℕ) × (amqp.queue_declare ch (queue_name topic) (some dlx_exchange) w
            ≡ (ok n, u))
          × NoBind topic ch u)

  abbrev pub NoSession : Bytes → Option (Conn × Chan) → W → Type 0
  NoSession topic conn w =
      ((u : W) × (e : GoError) × (channel_of amqp conn w ≡ (err e, u)))
      ⊎ ((u : W) × (ch : Chan) × (channel_of amqp conn w ≡ (ok ch, u)) × NoQueue topic ch u)
