-- ===== src/Bus/Rabbit/Connection.antt =====
-- The connection of internal/event/rabbitmq.go: dialling, the topology, reopening and closing. The AMQP
-- client acts on a world `W`; a connection and its channel are set together. The mutex is left out.
use cooking_platform.Prelude.{ℕ, Bool, true, false, Option, none, some, [], ◌++◌, if◌then◌else◌}
use cooking_platform.Prelude.Text.{Bytes, codes}
use cooking_platform.Errcode.{other}
use cooking_platform.Action.{Result, ok, err, Action, ◌>>=◌, ◌>>◌, pure, fail, wrap}

pub record Amqp (W Conn Chan : Type 0) : Type 0 where
  pub dial : Action W Conn
  pub open_channel : Conn → Action W Chan
  pub is_closed : Conn → W → Bool
  -- the errors of closing a channel are ignored everywhere
  pub close_conn : Conn → Action W (Unit {0})
  pub close_chan : Chan → W → W
  -- name and kind; name and dead-letter exchange, with the number of messages; queue, key and exchange
  pub exchange_declare : Chan → Bytes → Bytes → Action W (Unit {0})
  pub queue_declare : Chan → Bytes → Option Bytes → Action W ℕ
  pub queue_bind : Chan → Bytes → Bytes → Bytes → Action W (Unit {0})

-- `RabbitMQBus` beside the world; `conn` holds the connection and `pubCh`
pub record RabbitMqBus (W Conn Chan : Type 0) : Type 0 where
  pub conn : Option (Conn × Chan)
  pub closed : Bool
  pub world : W

abbrev pub exchange : Bytes
exchange = codes "cooking.events"

abbrev pub dlx_exchange : Bytes
dlx_exchange = codes "cooking.events.dlx"

abbrev pub dlx_queue : Bytes
dlx_queue = codes "cooking.events.dlx.queue"

-- `queueName`
unfoldable pub queue_name : Bytes → Bytes
queue_name topic = codes "cooking." ++ topic

module _ {W Conn Chan : Type 0} (amqp : Amqp W Conn Chan) where
  -- `declareTopology`
  unfoldable pub declare_topology : Chan → Action W (Unit {0})
  declare_topology ch = do
    wrap (amqp.exchange_declare ch exchange (codes "topic"))
    wrap (amqp.exchange_declare ch dlx_exchange (codes "fanout"))
    messages ← wrap (amqp.queue_declare ch dlx_queue none)
    wrap (amqp.queue_bind ch dlx_queue [] dlx_exchange)

  -- what is closed after an error
  abbrev pub close_after : {A : Type 0} → Result A × W → (W → W) → Result A × W
  close_after (ok a, w) close = (ok a, w)
  close_after (err e, w) close = (err e, close w)

  abbrev pub close_quietly : Conn → W → W
  close_quietly conn w = (amqp.close_conn conn w).1

  -- a new connection with its channel, before it is put in place
  unfoldable pub fresh : Action W (Conn × Chan)
  unfolding declare_topology
  fresh = do
    conn ← wrap amqp.dial
    ch ← λ w. close_after (wrap (amqp.open_channel conn) w) (close_quietly conn)
    λ w. close_after (declare_topology ch w) λ w'. close_quietly conn (amqp.close_chan ch w')
    pure (conn, ch)

  abbrev pub release : Option (Conn × Chan) → W → W
  release none w = w
  release (some (conn, ch)) w = close_quietly conn (amqp.close_chan ch w)

  abbrev pub Bus : Type 0
  Bus = RabbitMqBus W Conn Chan

  abbrev pub install : Result (Conn × Chan) × W → Bus → Result (Unit {0}) × Bus
  install (err e, w) b = (err e, record b { world = w })
  install (ok pair, w) b = (ok tt, record b { conn = some pair; world = release b.conn w })

  -- `dialAndDeclareLocked`
  unfoldable pub dial_and_declare : Action Bus (Unit {0})
  unfolding fresh
  dial_and_declare b = install (fresh b.world) b

  -- `NewRabbitMQBus`
  unfoldable pub new_rabbitmq_bus : Action W Bus
  unfolding dial_and_declare
  new_rabbitmq_bus w =
      started (dial_and_declare (record { conn = none; closed = false; world = w }))
    where
      started : Result (Unit {0}) × Bus → Result Bus × W
      started (ok _, b) = (ok b, b.world)
      started (err e, b) = (err e, b.world)

  abbrev pub is_dead : Option (Conn × Chan) → W → Bool
  is_dead none w = true
  is_dead (some (conn, ch)) w = amqp.is_closed conn w

  -- `ensureConnLocked`
  unfoldable pub ensure_conn : Action Bus (Unit {0})
  unfolding dial_and_declare
  ensure_conn b = if is_dead b.conn b.world then dial_and_declare b else (ok tt, b)

  -- a channel on the connection in place; there always is one once the bus was made
  abbrev pub channel_of : Option (Conn × Chan) → Action W Chan
  channel_of none = fail other
  channel_of (some (conn, ch)) = amqp.open_channel conn

  abbrev pub with_channel : Chan → Option (Conn × Chan) → Option (Conn × Chan)
  with_channel ch none = none
  with_channel ch (some (conn, old)) = some (conn, ch)

  abbrev pub replace : Result Chan × W → Bus → Result (Unit {0}) × Bus
  replace (ok ch, w) b = (ok tt, record b { conn = with_channel ch b.conn; world = w })
  replace (err e, w) b = dial_and_declare (record b { world = w })

  abbrev pub close_channel : Option (Conn × Chan) → W → W
  close_channel none w = w
  close_channel (some (conn, ch)) w = amqp.close_chan ch w

  -- `reopenPubChLocked`
  unfoldable pub reopen_pub_ch : Action Bus (Unit {0})
  unfolding dial_and_declare
  reopen_pub_ch b =
      let w = close_channel b.conn b.world in
      let shut = record b { world = w } in
      if is_dead b.conn w then dial_and_declare shut else replace (channel_of b.conn w) shut

  abbrev pub lift : {A : Type 0} → Action W A → Action Bus A
  lift m b = let (r, w) = m b.world in (r, record b { world = w })

  abbrev pub depth_on : Chan → Action Bus ℕ
  depth_on ch b =
      let (r, w) = wrap (amqp.queue_declare ch dlx_queue none) b.world in
      (r, record b { world = amqp.close_chan ch w })

  abbrev pub inspect : Action Bus ℕ
  inspect b = (wrap (lift (channel_of b.conn)) >>= depth_on) b

  -- `DLXQueueDepth`
  unfoldable pub dlx_queue_depth : Action Bus ℕ
  unfolding ensure_conn
  dlx_queue_depth b = if b.closed then (err other, b) else (wrap ensure_conn >> inspect) b

  abbrev pub shut : Option (Conn × Chan) → Action W (Unit {0})
  shut none w = (ok tt, w)
  shut (some (conn, ch)) w = wrap (amqp.close_conn conn) (amqp.close_chan ch w)

  -- `Close`
  unfoldable pub close : Action Bus (Unit {0})
  close b = if b.closed then (ok tt, b) else lift (shut b.conn) (record b { closed = true })
