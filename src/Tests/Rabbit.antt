-- ===== src/Tests/Rabbit.antt =====
-- A subscription of the RabbitMQ bus to a broker that accepts everything, with the theorems applied.
use cooking_platform.Prelude.{
  ℕ, suc, ◌+◌, ◌≡◌, ◌⊎◌, refl, true, false, some, [], ◌∷◌, ◌++◌, ◌==◌, if◌then◌else◌,
}
use cooking_platform.Prelude.Text.{Bytes, codes}
use cooking_platform.Errcode.{other}
use cooking_platform.Action.{Result, ok, err}
use cooking_platform.Bus.Rabbit.Connection.{
  Amqp, RabbitMqBus, declare_topology, dial_and_declare, reopen_pub_ch, close,
}
use cooking_platform.Bus.Rabbit.Subscription.{
  Delivery, Session, channel_closed, context_done, Consumption, max_retries_exceeded, handle_all,
  handle_delivery, subscribe_once, subscribe,
}
use cooking_platform.Bus.Rabbit.Subscription.Attempts.{Answering, subscribe-max_retries_exceeded}
use cooking_platform.Bus.Rabbit.Subscription.Opening.{Opens, NoSession}
use cooking_platform.Bus.Rabbit.Subscription.Handling.{Log, SettleLaws, Handled, received}
use cooking_platform.Bus.Rabbit.Subscription.Settled.{subscribe_once-Handled}
use cooking_platform.Bus.Rabbit.Subscription.Stopped.{ContextDone, subscribe-stopped}

-- the world is what was settled; connections and channels are numbers
abbrev broker : Amqp Log ℕ ℕ
broker = record {
  dial = λ w. (ok 2, w);
  open_channel = λ conn w. (ok 1, w);
  is_closed = λ conn w. false;
  close_conn = λ conn w. (ok tt, w);
  close_chan = λ ch w. w;
  exchange_declare = λ ch name kind w. (ok tt, w);
  queue_declare = λ ch name dlx w. (ok 0, w);
  queue_bind = λ ch q k x w. (ok tt, w);
}

-- an empty body cannot be read, and a payload that begins with 0 fails
abbrev read : Bytes → Result Bytes
read [] = err other
read (x ∷ body) = ok (x ∷ body)

abbrev handle : Bytes → Result (Unit {0})
handle [] = ok tt
handle (x ∷ payload) = if x == 0 then err other else ok tt

abbrev consumption : Consumption Log ℕ
consumption = record {
  consume = λ ch q w. (ok tt, w);
  ack = λ d w. w ++ (d.tag, true) ∷ [];
  nack = λ d w. w ++ (d.tag, false) ∷ [];
  unmarshal = read;
  handler = λ payload w. (handle payload, w);
  wait = λ n w. (true, w);
  cancelled = λ w. false;
}

settle-laws : SettleLaws broker consumption (λ w. w)
settle-laws = record {
  acks = λ d w. refl;
  nacks = λ d w. refl;
  handler-keeps = λ payload w. refl;
  open-keeps = λ conn w. refl;
  close-keeps = λ ch w. refl;
  declare-keeps = λ ch q x w. refl;
  bind-keeps = λ ch q k x w. refl;
  consume-keeps = λ ch q w. refl;
}

abbrev bus : RabbitMqBus Log ℕ ℕ
bus = record { conn = some (1, 1); closed = false; world = [] }

abbrev good : Delivery
good = record { tag = 1; body = 5 ∷ [] }

abbrev unreadable : Delivery
unreadable = record { tag = 2; body = [] }

abbrev failing : Delivery
failing = record { tag = 3; body = 0 ∷ [] }

abbrev last_session : Session
last_session = record { deliveries = good ∷ unreadable ∷ []; ending = context_done (failing ∷ []) }

settled :
    (subscribe_once broker consumption (codes "t") last_session bus).1.world
    ≡ (1, true) ∷ (2, false) ∷ (3, false) ∷ []
unfolding subscribe_once handle_all handle_delivery
settled = refl

subscribe_once-Handled_example :
    (log : Log) × ((subscribe_once broker consumption (codes "t") last_session bus).1.world
      ≡ [] ++ log)
    × ((Opens broker consumption (codes "t") bus.conn bus.world
          × Handled broker consumption (received last_session) log
          × ((subscribe_once broker consumption (codes "t") last_session bus).0 ≡ false))
        ⊎ (NoSession broker consumption (codes "t") bus.conn bus.world
            × (log ≡ [])
            × ((subscribe_once broker consumption (codes "t") last_session bus).0 ≡ true)))
subscribe_once-Handled_example =
    subscribe_once-Handled broker consumption (λ w. w) settle-laws (codes "t") last_session bus

abbrev lost_session : Session
lost_session = record { deliveries = good ∷ []; ending = channel_closed }

-- the same broker and client, with the number of consumptions beside what was settled
abbrev World : Type 0
World = Log × ℕ

abbrev counting_broker : Amqp World ℕ ℕ
counting_broker = record {
  dial = λ w. (ok 2, w);
  open_channel = λ conn w. (ok 1, w);
  is_closed = λ conn w. true;
  close_conn = λ conn w. (ok tt, w);
  close_chan = λ ch w. w;
  exchange_declare = λ ch name kind w. (ok tt, w);
  queue_declare = λ ch name dlx w. (ok 0, w);
  queue_bind = λ ch q k x w. (ok tt, w);
}

abbrev counting : Consumption World ℕ
counting = record {
  consume = λ ch q w. (ok tt, (w.0, suc w.1));
  ack = λ d w. (w.0 ++ (d.tag, true) ∷ [], w.1);
  nack = λ d w. (w.0 ++ (d.tag, false) ∷ [], w.1);
  unmarshal = read;
  handler = λ payload w. (handle payload, w);
  wait = λ n w. (true, w);
  cancelled = λ w. false;
}

counting-answers : Answering counting_broker counting (λ w. w.1)
counting-answers = record {
  dials = λ w. (2, w, refl, refl);
  opens = λ conn w. (1, w, refl, refl);
  exchanges = λ ch name kind w. (w, refl, refl);
  queues = λ ch q dlx w. (0, w, refl, refl);
  binds = λ ch q k x w. (w, refl, refl);
  consumes = λ ch q w. ((w.0, suc w.1), refl, refl);
  close_conn-keeps = λ conn w. refl;
  close_chan-keeps = λ ch w. refl;
  ack-keeps = λ d w. refl;
  nack-keeps = λ d w. refl;
  handler-keeps = λ payload w. refl;
  fires = λ n w. (w, refl, refl);
  live = λ w. refl;
}

abbrev counting_bus : RabbitMqBus World ℕ ℕ
counting_bus = record { conn = some (1, 1); closed = false; world = ([], 0) }

subscribe-max_retries_exceeded_example :
    (b' : RabbitMqBus World ℕ ℕ) × (subscribe counting_broker counting 5
        (codes "t")
        (λ k. lost_session)
        3
        counting_bus
      ≡ (max_retries_exceeded, b'))
    × (b'.world.1 ≡ 4 + 0)
subscribe-max_retries_exceeded_example =
    subscribe-max_retries_exceeded counting-answers 5 (codes "t") (λ k. lost_session) (λ k. refl) 3
      counting_bus (1, 1) refl

abbrev after_last : RabbitMqBus Log ℕ ℕ
after_last = record bus { world = (1, true) ∷ (2, false) ∷ (3, false) ∷ [] }

subscribe-stopped_example : ContextDone broker consumption (λ k. last_session) after_last
unfolding subscribe subscribe_once handle_all handle_delivery
subscribe-stopped_example =
    subscribe-stopped broker consumption (codes "t") (λ k. last_session) 5 3 bus after_last refl

-- a bus is made with one connection, and reopening its channel keeps the connection
reopened : (reopen_pub_ch broker bus).1.conn ≡ some (1, 1)
unfolding reopen_pub_ch
reopened = refl

dialled : (dial_and_declare broker bus).1.conn ≡ some (2, 1)
unfolding dial_and_declare declare_topology
dialled = refl

closed_once : (close broker (close broker bus).1).0 ≡ ok tt
unfolding close
closed_once = refl
