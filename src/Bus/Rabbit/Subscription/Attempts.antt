-- ===== src/Bus/Rabbit/Subscription/Attempts.antt =====
-- How many sessions `Subscribe` makes before it gives up.
use cooking_platform.Prelude.{
  ℕ, zero, suc, ◌+◌, ◌≡◌, refl, ◌∙◌, inl, inr, Bool, true, false, Option, none, some, List, [], ◌∷◌,
  arith, ◌==◌, Bool-cases,
}
use cooking_platform.Prelude.Text.{Bytes, codes}
use cooking_platform.Action.{Result, ok, err}
use cooking_platform.Bus.Rabbit.{reconnect_delay}
use cooking_platform.Bus.Rabbit.Connection.{
  Amqp, Bus, exchange, dlx_exchange, dlx_queue, queue_name, declare_topology, fresh, release,
  is_dead, dial_and_declare, ensure_conn,
}
use cooking_platform.Bus.Rabbit.Subscription.{
  Delivery, Session, channel_closed, SubscribeResult, max_retries_exceeded, Consumption, settle,
  handle_payload, handle_delivery, handle_all, after_open, subscribe_once, attempts, subscribe,
}

-- A broker that answers everything, always, and a context that is never done. `sessions` is the number
-- of consumptions that the broker has begun, which nothing but `Consume` changes.
pub record Answering {W Conn Chan : Type 0} (amqp : Amqp W Conn Chan) (c : Consumption W Chan)
    (sessions : W → ℕ) : Type 0 where
  pub dials :
      (w : W) → (conn : Conn) × (u : W) × (amqp.dial w ≡ (ok conn, u)) × (sessions u ≡ sessions w)
  pub opens :
      (conn : Conn) (w : W)
      → (ch : Chan) × (u : W) × (amqp.open_channel conn w ≡ (ok ch, u)) × (sessions u ≡ sessions w)
  pub exchanges :
      (ch : Chan) (name kind : Bytes) (w : W)
      → (u : W) × (amqp.exchange_declare ch name kind w ≡ (ok tt, u)) × (sessions u ≡ sessions w)
  pub queues :
      (ch : Chan) (q : Bytes) (dlx : Option Bytes) (w : W)
      → (n : ℕ) × (u : W) × (amqp.queue_declare ch q dlx w ≡ (ok n, u)) × (sessions u ≡ sessions w)
  pub binds :
      (ch : Chan) (q k x : Bytes) (w : W)
      → (u : W) × (amqp.queue_bind ch q k x w ≡ (ok tt, u)) × (sessions u ≡ sessions w)
  pub consumes :
      (ch : Chan) (q : Bytes) (w : W)
      → (u : W) × (c.consume ch q w ≡ (ok tt, u)) × (sessions u ≡ suc (sessions w))
  pub close_conn-keeps : (conn : Conn) (w : W) → sessions (amqp.close_conn conn w).1 ≡ sessions w
  pub close_chan-keeps : (ch : Chan) (w : W) → sessions (amqp.close_chan ch w) ≡ sessions w
  pub ack-keeps : (d : Delivery) (w : W) → sessions (c.ack d w) ≡ sessions w
  pub nack-keeps : (d : Delivery) (w : W) → sessions (c.nack d w) ≡ sessions w
  pub handler-keeps : (payload : Bytes) (w : W) → sessions (c.handler payload w).1 ≡ sessions w
  pub fires : (n : ℕ) (w : W) → (u : W) × (c.wait n w ≡ (true, u)) × (sessions u ≡ sessions w)
  pub live : (w : W) → c.cancelled w ≡ false

module _ {W Conn Chan : Type 0} {amqp : Amqp W Conn Chan} {c : Consumption W Chan}
    {sessions : W → ℕ} (up : Answering amqp c sessions) where
  settle-keeps :
      (d : Delivery) (r : Result (Unit {0}) × W) → sessions (settle amqp c d r) ≡ sessions r.1
  settle-keeps d (ok _, w) = up.ack-keeps d w
  settle-keeps d (err e, w) = up.nack-keeps d w

  handle_payload-keeps :
      (d : Delivery) (r : Result Bytes) (w : W)
      → sessions (handle_payload amqp c d r w) ≡ sessions w
  handle_payload-keeps d (ok payload) w =
      settle-keeps d (c.handler payload w) ∙ up.handler-keeps payload w
  handle_payload-keeps d (err e) w = up.nack-keeps d w

  handle_all-keeps : (ds : List Delivery) (w : W) → sessions (handle_all amqp c ds w) ≡ sessions w
  unfolding handle_all handle_delivery
  handle_all-keeps [] w = refl
  handle_all-keeps (d ∷ ds) w =
      handle_all-keeps ds (handle_delivery amqp c d w)
      ∙ handle_payload-keeps d (c.unmarshal d.body) w

  -- one session, on a connection
  abbrev One : W → Bool × W → Type 0
  One w r = (u : W) × (r ≡ (true, u)) × (sessions u ≡ suc (sessions w))

  session-One :
      (topic : Bytes) (conn : Conn) (session : Session) (w : W)
      → session.ending ≡ channel_closed
      → One w (after_open amqp c topic session (amqp.open_channel conn w))
  session-One topic conn session w closed =
      let q = queue_name topic in
      let (ch, w1, e1, n1) = up.opens conn w in
      let (m, w2, e2, n2) = up.queues ch q (some dlx_exchange) w1 in
      let (w3, e3, n3) = up.binds ch q topic exchange w2 in
      let (w4, e4, n4) = up.consumes ch q w3 in
      let w5 = handle_all amqp c session.deliveries w4 in
      let n5 = handle_all-keeps session.deliveries w4 in
      let n6 = up.close_chan-keeps ch w5 in
      (
        amqp.close_chan ch w5,
        rw (e1, e2, e3, e4, closed) refl,
        omega (arith, n1, n2, n3, n4, n5, n6),
      )

  subscribe_once-One :
      (topic : Bytes) (session : Session) (b : Bus amqp) (pair : Conn × Chan)
      → b.conn ≡ some pair
      → session.ending ≡ channel_closed
      → (u : W) × (subscribe_once amqp c topic session b ≡ (true, record b { world = u }))
        × (sessions u ≡ suc (sessions b.world))
  unfolding subscribe_once
  subscribe_once-One topic session b (conn, ch) there closed =
      let (u, e, n) = session-One topic conn session b.world closed in (u, rw (there, e) refl, n)

  fresh-answers :
      (w : W)
      → (pair : Conn × Chan) × (u : W) × (fresh amqp w ≡ (ok pair, u)) × (sessions u ≡ sessions w)
  unfolding fresh declare_topology
  fresh-answers w =
      let (conn, w1, e1, n1) = up.dials w in
      let (ch, w2, e2, n2) = up.opens conn w1 in
      let (w3, e3, n3) = up.exchanges ch exchange (codes "topic") w2 in
      let (w4, e4, n4) = up.exchanges ch dlx_exchange (codes "fanout") w3 in
      let (m, w5, e5, n5) = up.queues ch dlx_queue none w4 in
      let (w6, e6, n6) = up.binds ch dlx_queue [] dlx_exchange w5 in
      ((conn, ch), w6, rw (e1, e2, e3, e4, e5, e6) refl, omega (arith, n1, n2, n3, n4, n5, n6))

  release-keeps : (old : Option (Conn × Chan)) (w : W) → sessions (release amqp old w) ≡ sessions w
  release-keeps none w = refl
  release-keeps (some (conn, ch)) w =
      up.close_conn-keeps conn (amqp.close_chan ch w) ∙ up.close_chan-keeps ch w

  -- a connection is there, and no session was begun
  abbrev Connected : Bus amqp → Result (Unit {0}) × Bus amqp → Type 0
  Connected b r =
      (b' : Bus amqp) × (pair : Conn × Chan) × (r ≡ (ok tt, b'))
      × (b'.conn ≡ some pair)
      × (sessions b'.world ≡ sessions b.world)

  ensure_conn-Connected :
      (b : Bus amqp) (pair : Conn × Chan) → b.conn ≡ some pair → Connected b (ensure_conn amqp b)
  unfolding ensure_conn dial_and_declare
  ensure_conn-Connected b pair there = elim (Bool-cases (is_dead amqp b.conn b.world)) [
    | inl dead ↦
        let (new, u, e, n) = fresh-answers b.world in
        (
          record b { conn = some new; world = release amqp b.conn u },
          new,
          rw (dead, e) refl,
          refl,
          release-keeps b.conn u ∙ n,
        )
    | inr alive ↦ (b, pair, rw alive refl, there, refl)
  ]

  module _ (initial : ℕ) (topic : Bytes) (received : ℕ → Session)
      (closed : (k : ℕ) → (received k).ending ≡ channel_closed) where
    abbrev GivesUp : ℕ → Bus amqp → SubscribeResult × Bus amqp → Type 0
    GivesUp n b r =
        (b' : Bus amqp) × (r ≡ (max_retries_exceeded, b'))
        × (sessions b'.world ≡ n + sessions b.world)

    attempts-GivesUp :
        (left attempt : ℕ) (b : Bus amqp) (pair : Conn × Chan)
        → b.conn ≡ some pair
        → GivesUp left b (attempts amqp c initial topic received left attempt b)
    unfolding attempts
    attempts-GivesUp zero attempt b pair there = (b, refl, omega arith)
    attempts-GivesUp (suc left) attempt b pair there = elim (Bool-cases (attempt == 0)) [
      | inl first ↦
          let (u, e, n) =
            subscribe_once-One topic (received attempt) b pair there (closed attempt) in
          let (b', gives_up, total) =
            attempts-GivesUp left (suc attempt) (record b { world = u }) pair there in
          (b', rw (first, e, up.live u) gives_up, omega (arith, n, total))
      | inr again ↦
          let (w, fired, n0) = up.fires (reconnect_delay initial attempt) b.world in
          let (b1, pair', dialled, there', n1) =
            ensure_conn-Connected (record b { world = w }) pair there in
          let (u, e, n2) =
            subscribe_once-One topic (received attempt) b1 pair' there' (closed attempt) in
          let (b', gives_up, total) =
            attempts-GivesUp left (suc attempt) (record b1 { world = u }) pair' there' in
          (b', rw (again, fired, dialled, e, up.live u) gives_up, omega (arith, n0, n1, n2, total))
    ]

    -- Where the broker answers everything, every reconnection included, the context is never done and every
    -- session ends by the loss of its connection: `Subscribe` makes exactly `max_retries + 1` sessions and
    -- then gives up, however many deliveries the sessions between them handled.
    pub subscribe-max_retries_exceeded :
        (max_retries : ℕ) (b : Bus amqp) (pair : Conn × Chan)
        → b.conn ≡ some pair
        → (b' : Bus amqp) × (subscribe amqp c initial topic received max_retries b
            ≡ (max_retries_exceeded, b'))
          × (sessions b'.world ≡ suc max_retries + sessions b.world)
    unfolding subscribe
    subscribe-max_retries_exceeded max_retries b pair there =
        attempts-GivesUp (suc max_retries) 0 b pair there
