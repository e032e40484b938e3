-- ===== src/Bus/Channel.antt =====
-- internal/event/channel.go. The goroutines act one at a time on the bus: a publish, a registration,
-- one receive of a subscriber's loop, a cancellation with its drain, and a close. A subscriber has a
-- number in place of its channel's identity; what it hands to its handler is logged, and the handler's
-- error, which is only printed, is left out.
pub mod Queues
pub mod Order
use cooking_platform.Prelude.{
  ℕ, suc, ◌+◌, Bool, true, false, ◌&&◌, not, List, [], ◌∷◌, ◌++◌, map, ltb, ◌==◌, if◌then◌else◌,
  length, take, drop,
}
use cooking_platform.Prelude.Text.{Bytes, bytes_eq}
use cooking_platform.Events.{Payload, Event}

pub record Subscriber : Type 0 where
  pub key : ℕ
  pub topic : Bytes
  pub queue : List Payload

pub record ChannelBus : Type 0 where
  pub subs : List Subscriber
  pub next_key : ℕ
  pub closed : Bool

-- a subscriber and a payload that its handler was given
abbrev pub Handled : Type 0
Handled = ℕ × Payload

-- the first subscriber with a key: its channel
abbrev pub queue_of : ℕ → List Subscriber → List Payload
queue_of k [] = []
queue_of k (s ∷ ss) = if s.key == k then s.queue else queue_of k ss

abbrev pub handled_by : ℕ → List Payload → List Handled
handled_by k = map (λ p. (k, p))

-- the list without a subscriber
unfoldable pub remove : ℕ → List Subscriber → List Subscriber
remove k [] = []
remove k (s ∷ ss) = let rest = remove k ss in if s.key == k then rest else s ∷ rest

-- one message less in a subscriber's channel
abbrev pub pop : ℕ → Subscriber → Subscriber
pop k s = if s.key == k then record s { queue = drop 1 s.queue } else s

module _ (buf_size : ℕ) where
  -- the `select` of `Publish`: a message for a full channel is dropped
  unfoldable pub offer : Event → Subscriber → Subscriber
  offer e s =
      if bytes_eq s.topic e.topic && ltb (length s.queue) buf_size
      then record s { queue = s.queue ++ e.payload ∷ [] }
      else s

  -- `Publish`, with `false` for its error
  unfoldable pub publish : Event → ChannelBus → Bool × ChannelBus
  publish e b = if b.closed then (false, b) else (true, record b { subs = map (offer e) b.subs })

  -- the registration in `Subscribe`
  unfoldable pub subscribe : Bytes → ChannelBus → ChannelBus
  subscribe topic b = record b {
    subs = b.subs ++ (record { key = b.next_key; topic = topic; queue = [] }) ∷ [];
    next_key = suc b.next_key;
  }

  -- the loop of `Subscribe` receives at most one message
  unfoldable pub receive : ℕ → ChannelBus → List Handled × ChannelBus
  receive k b = (handled_by k (take 1 (queue_of k b.subs)), record b { subs = map (pop k) b.subs })

  -- the cancellation: `drain`, and then the deferred removal
  unfoldable pub cancel : ℕ → ChannelBus → List Handled × ChannelBus
  unfolding remove
  cancel k b = (handled_by k (queue_of k b.subs), record b { subs = remove k b.subs })

  -- `Close`
  unfoldable pub close : ChannelBus → ChannelBus
  close b = record b { closed = true }

  pub data Op : Type 0 where
    op_publish : Event → Op
    op_subscribe : Bytes → Op
    op_receive op_cancel : ℕ → Op
    op_close : Op

  unfoldable pub step : Op → ChannelBus → List Handled × ChannelBus
  unfolding publish subscribe receive cancel close
  step (op_publish e) b = ([], (publish e b).1)
  step (op_subscribe topic) b = ([], subscribe topic b)
  step (op_receive k) b = receive k b
  step (op_cancel k) b = cancel k b
  step op_close b = ([], close b)

  unfoldable pub run : List Op → ChannelBus → List Handled × ChannelBus
  unfolding step
  run [] b = ([], b)
  run (o ∷ os) b = let (now, b') = step o b in let (later, b'') = run os b' in (now ++ later, b'')
