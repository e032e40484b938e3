-- ===== src/Bus/Rabbit/Subscription/Settled.antt =====
-- Every delivery that a session receives is settled once.
use cooking_platform.Prelude.{
  ℕ, ◌≡◌, ◌⊎◌, refl, ap, sym, ◌∙◌, inl, inr, Bool, true, false, Option, none, some, [], ◌++◌,
  append_assoc, append-nil,
}
use cooking_platform.Prelude.Text.{Bytes}
use cooking_platform.Action.{Result, ok, err}
use cooking_platform.Bus.Rabbit.Connection.{
  Amqp, Bus, exchange, dlx_exchange, queue_name, channel_of,
}
use cooking_platform.Bus.Rabbit.Subscription.Opening.{
  Consumes, Binds, Declares, Opens, NoConsume, NoBind, NoQueue, NoSession,
}
use cooking_platform.Bus.Rabbit.Subscription.{
  Session, Ending, channel_closed, context_done, Consumption, handle_all, finish, serve,
  after_consume, after_bind, after_declare, after_open, subscribe_once,
}
use cooking_platform.Bus.Rabbit.Subscription.Handling.{
  Log, SettleLaws, left_over, received, Handled, Handled-append, All, handle_all-All,
}

module _ {W Conn Chan : Type 0} (amqp : Amqp W Conn Chan) (c : Consumption W Chan)
    (settled : W → Log) (laws : SettleLaws amqp c settled) where
  abbrev lost : Ending → Bool
  lost channel_closed = true
  lost (context_done left) = false

  -- Either the session was opened and all that was received is settled, or it was not, nothing was settled
  -- and the connection counts as lost.
  abbrev Outcome : Type 0 → Type 0 → Session → W → Bool × W → Type 0
  Outcome Opened Failed session w r =
      (log : Log) × (settled r.1 ≡ settled w ++ log)
      × ((Opened × Handled amqp c (received session) log × (r.0 ≡ lost session.ending))
          ⊎ (Failed × (log ≡ []) × (r.0 ≡ true)))

  nothing :
      {Opened Failed : Type 0}
      → (session : Session) (w w' : W) → settled w' ≡ settled w
      → Failed
      → Outcome Opened Failed session w (true, w')
  nothing session w w' h failed = ([], h ∙ sym (append-nil (settled w)), inr (failed, refl, refl))

  -- an outcome, seen from an earlier step
  from_earlier :
      {Opened Failed Opened' Failed' : Type 0}
      → (session : Session) (w : W) (r : Bool × W) → (Opened → Opened')
      → (Failed → Failed')
      → Outcome Opened Failed session w r
      → Outcome Opened' Failed' session w r
  from_earlier session w r f g (log, h, inl (opened, handled, ended)) =
      (log, h, inl (f opened, handled, ended))
  from_earlier session w r f g (log, h, inr (failed, empty, ended)) =
      (log, h, inr (g failed, empty, ended))

  finish-All :
      (e : Ending) (w : W)
      → All amqp c settled laws (left_over e) w (finish amqp c e w).1
        × ((finish amqp c e w).0 ≡ lost e)
  finish-All channel_closed w = (([], sym (append-nil (settled w)), tt), refl)
  finish-All (context_done left) w = (handle_all-All amqp c settled laws left w, refl)

  serve-Outcome :
      {Opened Failed : Type 0}
      → (ch : Chan) (session : Session) (w u : W) → settled u ≡ settled w
      → Opened
      → Outcome Opened Failed session w (serve amqp c ch session u)
  serve-Outcome ch session w u same opened =
      let (log, first, handled) = handle_all-All amqp c settled laws session.deliveries u in
      let v = handle_all amqp c session.deliveries u in
      let ((more, second, handled'), ended) = finish-All session.ending v in
      (
        log ++ more,
        laws.close-keeps ch (finish amqp c session.ending v).1
            ∙ second
            ∙ ap (λ x. x ++ more) first
            ∙ append_assoc (settled u) log more
            ∙ ap (λ x. x ++ (log ++ more)) same,
        inl (
          opened,
          Handled-append amqp c session.deliveries (left_over session.ending) log more handled
              handled',
          ended,
        ),
      )

  after_consume-Outcome :
      (topic : Bytes) (ch : Chan) (session : Session) (w v : W) (r : Result (Unit {0}) × W)
      → c.consume ch (queue_name topic) v ≡ r
      → settled r.1 ≡ settled w
      → Outcome
          (Consumes amqp c topic ch v)
          (NoConsume amqp c topic ch v)
          session
          w
          (after_consume amqp c ch session r)
  after_consume-Outcome topic ch session w v (err e, u) s h =
      nothing session w (amqp.close_chan ch u) (laws.close-keeps ch u ∙ h) (u, e, s)
  after_consume-Outcome topic ch session w v (ok _, u) s h = serve-Outcome ch session w u h (u, s)

  after_bind-Outcome :
      (topic : Bytes) (ch : Chan) (session : Session) (w v : W) (r : Result (Unit {0}) × W)
      → amqp.queue_bind ch (queue_name topic) topic exchange v ≡ r
      → settled r.1 ≡ settled w
      → Outcome
          (Binds amqp c topic ch v)
          (NoBind amqp c topic ch v)
          session
          w
          (after_bind amqp c topic ch session r)
  after_bind-Outcome topic ch session w v (err e, u) s h =
      nothing session w (amqp.close_chan ch u) (laws.close-keeps ch u ∙ h) (inl (u, e, s))
  after_bind-Outcome topic ch session w v (ok _, u) s h =
      from_earlier session w (after_consume amqp c ch session (c.consume ch (queue_name topic) u))
        (λ opened. (u, s, opened)) (λ failed. inr (u, s, failed))
        (after_consume-Outcome topic ch session w u (c.consume ch (queue_name topic) u) refl
          (laws.consume-keeps ch (queue_name topic) u ∙ h))

  after_declare-Outcome :
      (topic : Bytes) (ch : Chan) (session : Session) (w v : W) (r : Result ℕ × W)
      → amqp.queue_declare ch (queue_name topic) (some dlx_exchange) v ≡ r
      → settled r.1 ≡ settled w
      → Outcome
          (Declares amqp c topic ch v)
          (NoQueue amqp c topic ch v)
          session
          w
          (after_declare amqp c topic ch session r)
  after_declare-Outcome topic ch session w v (err e, u) s h =
      nothing session w (amqp.close_chan ch u) (laws.close-keeps ch u ∙ h) (inl (u, e, s))
  after_declare-Outcome topic ch session w v (ok n, u) s h =
      let bound = amqp.queue_bind ch (queue_name topic) topic exchange u in
      from_earlier session w (after_bind amqp c topic ch session bound)
        (λ opened. (u, n, s, opened)) (λ failed. inr (u, n, s, failed))
        (after_bind-Outcome topic ch session w u bound refl
          (laws.bind-keeps ch (queue_name topic) topic exchange u ∙ h))

  after_open-Outcome :
      (topic : Bytes) (conn : Option (Conn × Chan)) (session : Session) (w v : W)
      (r : Result Chan × W)
      → channel_of amqp conn v ≡ r
      → settled r.1 ≡ settled w
      → Outcome
          (Opens amqp c topic conn v)
          (NoSession amqp c topic conn v)
          session
          w
          (after_open amqp c topic session r)
  after_open-Outcome topic conn session w v (err e, u) s h = nothing session w u h (inl (u, e, s))
  after_open-Outcome topic conn session w v (ok ch, u) s h =
      let declared = amqp.queue_declare ch (queue_name topic) (some dlx_exchange) u in
      from_earlier session w (after_declare amqp c topic ch session declared)
        (λ opened. (u, ch, s, opened)) (λ failed. inr (u, ch, s, failed))
        (after_declare-Outcome topic ch session w u declared refl
          (laws.declare-keeps ch (queue_name topic) (some dlx_exchange) u ∙ h))

  channel_of-keeps :
      (conn : Option (Conn × Chan)) (w : W) → settled (channel_of amqp conn w).1 ≡ settled w
  channel_of-keeps none w = refl
  channel_of-keeps (some (conn, ch)) w = laws.open-keeps conn w

  -- Where a step of opening a session fails (the channel, its queue, the binding of it or the consumption),
  -- nothing is settled and the connection counts as lost. Where all of them succeed, the session settles
  -- every delivery that it receives once and in order, those that are left in the channel at the
  -- cancellation included: by an acknowledgement only if it could be read and its handler succeeded, and
  -- by a rejection only if not; and the connection counts as lost unless the context was done.
  pub subscribe_once-Handled :
      (topic : Bytes) (session : Session) (b : Bus amqp)
      → (log : Log) × (settled (subscribe_once amqp c topic session b).1.world
          ≡ settled b.world ++ log)
        × ((Opens amqp c topic b.conn b.world
              × Handled amqp c (received session) log
              × ((subscribe_once amqp c topic session b).0 ≡ lost session.ending))
            ⊎ (NoSession amqp c topic b.conn b.world
                × (log ≡ [])
                × ((subscribe_once amqp c topic session b).0 ≡ true)))
  unfolding subscribe_once
  subscribe_once-Handled topic session b =
      after_open-Outcome topic b.conn session b.world b.world (channel_of amqp b.conn b.world) refl
        (channel_of-keeps b.conn b.world)
