-- ===== src/Bus/Rabbit/Subscription/Handling.antt =====
-- What a session does with the deliveries that it receives.
use cooking_platform.Prelude.{
  ℕ, ◌≡◌, ◌⊎◌, refl, sym, ◌∙◌, inl, inr, Bool, true, false, Option, List, [], ◌∷◌, ◌++◌,
  append_assoc, append-nil,
}
use cooking_platform.Prelude.Text.{Bytes}
use cooking_platform.Errcode.{GoError}
use cooking_platform.Action.{Result, ok, err}
use cooking_platform.Bus.Rabbit.Connection.{Amqp}
use cooking_platform.Bus.Rabbit.Subscription.{
  Delivery, Session, Ending, channel_closed, context_done, Consumption, settle, handle_payload,
  handle_delivery, handle_all,
}

-- the tags in the order in which they were settled, with true for an acknowledgement
abbrev pub Log : Type 0
Log = List (ℕ × Bool)

-- `settled` is what the client has settled so far; only the two settlements change it.
pub record SettleLaws {W Conn Chan : Type 0} (amqp : Amqp W Conn Chan) (c : Consumption W Chan)
    (settled : W → Log) : Type 0 where
  pub acks : (d : Delivery) (w : W) → settled (c.ack d w) ≡ settled w ++ (d.tag, true) ∷ []
  pub nacks : (d : Delivery) (w : W) → settled (c.nack d w) ≡ settled w ++ (d.tag, false) ∷ []
  pub handler-keeps : (payload : Bytes) (w : W) → settled (c.handler payload w).1 ≡ settled w
  pub open-keeps : (conn : Conn) (w : W) → settled (amqp.open_channel conn w).1 ≡ settled w
  pub close-keeps : (ch : Chan) (w : W) → settled (amqp.close_chan ch w) ≡ settled w
  pub declare-keeps :
      (ch : Chan) (q : Bytes) (x : Option Bytes) (w : W)
      → settled (amqp.queue_declare ch q x w).1 ≡ settled w
  pub bind-keeps :
      (ch : Chan) (q k x : Bytes) (w : W) → settled (amqp.queue_bind ch q k x w).1 ≡ settled w
  pub consume-keeps : (ch : Chan) (q : Bytes) (w : W) → settled (c.consume ch q w).1 ≡ settled w

abbrev pub left_over : Ending → List Delivery
left_over channel_closed = []
left_over (context_done left) = left

-- all that a session receives
abbrev pub received : Session → List Delivery
received session = session.deliveries ++ left_over session.ending

module _ {W Conn Chan : Type 0} (amqp : Amqp W Conn Chan) (c : Consumption W Chan) where
  -- An acknowledged delivery could be read and its handler succeeded; another could not be read or its
  -- handler failed.
  abbrev pub Verdict : Delivery → Bool → Type 0
  Verdict d true =
      (payload : Bytes) × (w w' : W) × (c.unmarshal d.body ≡ ok payload)
      × (c.handler payload w ≡ (ok tt, w'))
  Verdict d false =
      ((e : GoError) × (c.unmarshal d.body ≡ err e))
      ⊎ ((payload : Bytes) × (w w' : W) × (e : GoError) × (c.unmarshal d.body ≡ ok payload)
          × (c.handler payload w ≡ (err e, w')))

  abbrev pub Handled : List Delivery → Log → Type 0
  Handled [] [] = Unit {0}
  Handled [] (entry ∷ log) = ⊥
  Handled (d ∷ ds) [] = ⊥
  Handled (d ∷ ds) ((tag, acked) ∷ log) = (tag ≡ d.tag) × Verdict d acked × Handled ds log

  pub Handled-append :
      (ds es : List Delivery) (log more : Log)
      → Handled ds log
      → Handled es more
      → Handled (ds ++ es) (log ++ more)
  Handled-append [] es [] more h k = k
  Handled-append [] es (entry ∷ log) more h k = absurd h
  Handled-append (d ∷ ds) es [] more h k = absurd h
  Handled-append (d ∷ ds) es ((tag, acked) ∷ log) more (e, v, h) k =
      (e, v, Handled-append ds es log more h k)

  module _ (settled : W → Log) (laws : SettleLaws amqp c settled) where
    abbrev One : Delivery → W → W → Type 0
    One d w w' = (acked : Bool) × (settled w' ≡ settled w ++ (d.tag, acked) ∷ []) × Verdict d acked

    settle-One :
        (d : Delivery) (payload : Bytes) (w : W) (r : Result (Unit {0}) × W)
        → c.unmarshal d.body ≡ ok payload
        → c.handler payload w ≡ r
        → One d w (settle amqp c d r)
    settle-One d payload w (ok _, u) read h =
        let keeps : settled u ≡ settled w = rw (← laws.handler-keeps payload w, h) refl in
        (true, laws.acks d u ∙ rw keeps refl, (payload, w, u, read, h))
    settle-One d payload w (err e, u) read h =
        let keeps : settled u ≡ settled w = rw (← laws.handler-keeps payload w, h) refl in
        (false, laws.nacks d u ∙ rw keeps refl, inr (payload, w, u, e, read, h))

    handle_payload-One :
        (d : Delivery) (r : Result Bytes) (w : W)
        → c.unmarshal d.body ≡ r
        → One d w (handle_payload amqp c d r w)
    handle_payload-One d (ok payload) w h = settle-One d payload w (c.handler payload w) h refl
    handle_payload-One d (err e) w h = (false, laws.nacks d w, inl (e, h))

    abbrev pub All : List Delivery → W → W → Type 0
    All ds w w' = (log : Log) × (settled w' ≡ settled w ++ log) × Handled ds log

    pub handle_all-All : (ds : List Delivery) (w : W) → All ds w (handle_all amqp c ds w)
    unfolding handle_all handle_delivery
    handle_all-All [] w = ([], sym (append-nil (settled w)), tt)
    handle_all-All (d ∷ ds) w =
        let (acked, one, verdict) = handle_payload-One d (c.unmarshal d.body) w refl in
        let (log, rest, handled) = handle_all-All ds (handle_delivery amqp c d w) in
        (
          (d.tag, acked) ∷ log,
          rest ∙ rw one refl ∙ append_assoc (settled w) ((d.tag, acked) ∷ []) log,
          (refl, verdict, handled),
        )
