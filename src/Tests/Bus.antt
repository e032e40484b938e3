-- ===== src/Tests/Bus.antt =====
-- The theorems on the event buses, at a broker that fails a number of times and at two subscribers.
use cooking_platform.Prelude.{ℕ, zero, suc, ◌+◌, ◌≤◌, ◌≡◌, refl, ap, true, false, arith}
use cooking_platform.Prelude.{List, [], ◌∷◌, ◌++◌, some, length}
use cooking_platform.Prelude.Text.{Bytes, codes, bytes_eq}
use cooking_platform.Events.{Event, post_deleted_event, topic_like, topic_post_deleted}
use cooking_platform.Bus.Channel.{
  ChannelBus, Op, op_publish, op_subscribe, op_receive, op_cancel, queue_of, run, cancel,
}
use cooking_platform.Bus.Channel.Queues.{topic_of, handled_for, Stays}
use cooking_platform.Bus.Channel.Queues
use cooking_platform.Bus.Channel.Order.{run-Conserves, run-cancel-all}
use cooking_platform.Errcode.{GoError, other}
use cooking_platform.Action.{Result, ok, err, Action}
use cooking_platform.Bus.Rabbit.{RabbitClient, published, max_retries_exceeded, publish}
use cooking_platform.Bus.Rabbit.Retries.{Outage, publish-published}

-- the state is the number of failures to come
abbrev broken_send : Action ℕ Unit
broken_send zero = (ok tt, 0)
broken_send (suc n) = (err other, n)

abbrev broken : RabbitClient ℕ
broken = record {
  send = broken_send;
  reopen = λ s. (ok tt, s);
  wait = λ n s. (true, s);
  closed = λ s. false;
  cancelled = λ s. false;
}

send_broken : (s s' : ℕ) (e : GoError) → broken_send s ≡ (err e, s') → suc s' ≤ s
send_broken zero s' e h = absurd (ground (arith, ap (λ (x : Result (Unit {0}) × ℕ). x.0) h))
send_broken (suc n) s' e h = omega (arith, ap (λ (x : Result (Unit {0}) × ℕ). x.1) h)

abbrev outage : Outage broken 500
outage = record {
  failures = λ s. s;
  open_bus = λ s. refl;
  live = λ s. refl;
  fires = λ n s. (s, refl, omega arith);
  send_fails = send_broken;
  reopens = λ s s' h. omega (arith, ap (λ (x : Result (Unit {0}) × ℕ). x.1) h);
  reopen_fails = λ s s' e h. absurd (ground (arith, ap (λ (x : Result (Unit {0}) × ℕ). x.0) h));
}

third_try : publish broken 500 3 2 ≡ (published, 0)
unfolding publish
third_try = refl

too_long : (publish broken 500 1 2).0 ≡ max_retries_exceeded
unfolding publish
too_long = refl

publish-published_example : (publish broken 500 3 2).0 ≡ published
publish-published_example = publish-published broken 500 outage 3 2 (omega arith)

abbrev event_on : Bytes → ℕ → Event
event_on topic post = record {
  id = codes "e";
  topic = topic;
  timestamp = 7;
  payload = post_deleted_event post 1;
}

abbrev two_listeners : ChannelBus
two_listeners = record {
  subs =
      (record { key = 0; topic = topic_post_deleted; queue = [] })
      ∷ (record { key = 1; topic = topic_post_deleted; queue = post_deleted_event 4 1 ∷ [] })
      ∷ [];
  next_key = 2;
  closed = false;
}

abbrev script : List (Op 3)
script =
    op_publish (event_on topic_post_deleted 5)
    ∷ op_receive 1
    ∷ op_cancel 0
    ∷ op_publish (event_on topic_like 6)
    ∷ op_subscribe topic_post_deleted
    ∷ op_publish (event_on topic_post_deleted 7)
    ∷ []

one-Stays : Stays 3 1 script
one-Stays = (λ h. absurd (omega (arith, h)), tt)

one_listens : topic_of 1 two_listeners.subs ≡ some topic_post_deleted
one_listens = refl

fits :
    length (queue_of 1 two_listeners.subs) + length (Queues.published 3 topic_post_deleted script)
    ≤ 3
unfolding bytes_eq
fits = omega arith

run-Conserves_example :
    handled_for 1 (run 3 script two_listeners).0 ++ queue_of 1 (run 3 script two_listeners).1.subs
    ≡ queue_of 1 two_listeners.subs ++ Queues.published 3 topic_post_deleted script
run-Conserves_example =
    run-Conserves 3 1 topic_post_deleted script two_listeners one_listens refl one-Stays fits

run-cancel-all_example :
    handled_for 1 (run 3 script two_listeners).0
      ++ handled_for 1 (cancel 3 1 (run 3 script two_listeners).1).0
    ≡ queue_of 1 two_listeners.subs ++ Queues.published 3 topic_post_deleted script
run-cancel-all_example =
    run-cancel-all 3 1 topic_post_deleted script two_listeners one_listens refl one-Stays fits
