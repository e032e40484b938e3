-- ===== src/Bus/Channel/Queues.antt =====
-- The queue of one subscriber of the channel bus, and what the operations do to it.
use cooking_platform.Prelude.{
  ℕ, suc, ◌+◌, ◌≤◌, ◌≡◌, ◌≢◌, refl, ap, ◌∙◌, true, false, ◌&&◌, Option, none, some, List, [], ◌∷◌,
  ◌++◌, map, ltb, ◌==◌, arith, if◌then◌else◌, length, take, drop, Bool-cases, inl, inr,
  some_injective, some_injective,
}
use cooking_platform.Prelude.Text.{Bytes, bytes_eq}
use cooking_platform.Events.{Payload, Event}
use cooking_platform.Bus.Channel.{
  Subscriber, Handled, queue_of, handled_by, remove, pop, offer, Op, op_publish, op_cancel,
  op_close,
}

-- the topic of the first subscriber with a key
abbrev pub topic_of : ℕ → List Subscriber → Option Bytes
topic_of k [] = none
topic_of k (s ∷ ss) = if s.key == k then some s.topic else topic_of k ss

-- what one subscriber was given, and what was published on one topic
abbrev pub handled_for : ℕ → List Handled → List Payload
handled_for k [] = []
handled_for k ((j, p) ∷ hs) = let rest = handled_for k hs in if j == k then p ∷ rest else rest

abbrev pub published : (buf_size : ℕ) → Bytes → List (Op buf_size) → List Payload
published n topic [] = []
published n topic (op_publish e ∷ os) =
    let rest = published n topic os in if bytes_eq topic e.topic then e.payload ∷ rest else rest
published n topic (_ ∷ os) = published n topic os

-- the subscriber is not cancelled and the bus is not closed
abbrev pub Stays : (buf_size : ℕ) → ℕ → List (Op buf_size) → Type 0
Stays n k [] = Unit
Stays n k (op_cancel j ∷ os) = (j ≢ k) × Stays n k os
Stays n k (op_close ∷ os) = ⊥
Stays n k (_ ∷ os) = Stays n k os

pub handled_for-append :
    (k : ℕ) (xs ys : List Handled) → handled_for k (xs ++ ys) ≡ handled_for k xs ++ handled_for k ys
handled_for-append k [] ys = refl
handled_for-append k ((j, p) ∷ xs) ys = ground (arith, handled_for-append k xs ys)

pub handled_for-own : (k : ℕ) (ps : List Payload) → handled_for k (handled_by k ps) ≡ ps
handled_for-own k [] = refl
handled_for-own k (p ∷ ps) = ground (arith, handled_for-own k ps)

pub handled_for-other : (k j : ℕ) (ps : List Payload) → j ≢ k → handled_for k (handled_by j ps) ≡ []
handled_for-other k j [] h = refl
handled_for-other k j (p ∷ ps) h = ground (arith, handled_for-other k j ps h)

-- each operation on the list, as the subscriber sees it
pub topic_of-offer :
    (n k : ℕ) (e : Event) (ss : List Subscriber) → topic_of k (map (offer n e) ss) ≡ topic_of k ss
unfolding offer
topic_of-offer n k e [] = refl
topic_of-offer n k e (s ∷ ss) = ground (arith, topic_of-offer n k e ss)

key-offer : (n : ℕ) (e : Event) (s : Subscriber) → (offer n e s).key ≡ s.key
unfolding offer
key-offer n e s = ground arith

queue-offer :
    (n : ℕ) (e : Event) (s : Subscriber)
    → (offer n e s).queue ≡ (
        if bytes_eq s.topic e.topic && ltb (length s.queue) n
        then s.queue ++ e.payload ∷ []
        else s.queue)
unfolding offer
queue-offer n e s = ground arith

own_topic :
    (k : ℕ) (s : Subscriber) (ss : List Subscriber)
    → (s.key == k) ≡ true
    → some s.topic ≡ topic_of k (s ∷ ss)
own_topic k s ss h = rw h refl

other_topic :
    (k : ℕ) (s : Subscriber) (ss : List Subscriber)
    → (s.key == k) ≡ false
    → topic_of k ss ≡ topic_of k (s ∷ ss)
other_topic k s ss h = rw h refl

pub queue_of-offer :
    (n k : ℕ) (topic : Bytes) (e : Event) (ss : List Subscriber)
    → topic_of k ss ≡ some topic
    → queue_of k (map (offer n e) ss) ≡ (
        if bytes_eq topic e.topic && ltb (length (queue_of k ss)) n
        then queue_of k ss ++ e.payload ∷ []
        else queue_of k ss)
unfolding offer
queue_of-offer n k topic e [] h = absurd (ground arith)
queue_of-offer n k topic e (s ∷ ss) h = elim (Bool-cases (s.key == k)) [
  | inl own ↦
      let same : s.topic ≡ topic = some_injective s.topic topic (own_topic k s ss own ∙ h) in
      rw (key-offer n e s, own)
        (queue-offer n e s
          ∙ ap
              (λ (x : Bytes).
                if bytes_eq x e.topic && ltb (length s.queue) n
                then s.queue ++ e.payload ∷ []
                else s.queue)
              same)
  | inr differ ↦
      rw (key-offer n e s, differ) (queue_of-offer n k topic e ss (other_topic k s ss differ ∙ h))
]

pub topic_of-pop : (k j : ℕ) (ss : List Subscriber) → topic_of k (map (pop j) ss) ≡ topic_of k ss
topic_of-pop k j [] = refl
topic_of-pop k j (s ∷ ss) = ground (arith, topic_of-pop k j ss)

pub queue_of-pop :
    (k j : ℕ) (ss : List Subscriber)
    → queue_of k (map (pop j) ss) ≡ (if j == k then drop 1 (queue_of k ss) else queue_of k ss)
queue_of-pop k j [] = ground arith
queue_of-pop k j (s ∷ ss) = ground (arith, queue_of-pop k j ss)

pub topic_of-remove :
    (k j : ℕ) (ss : List Subscriber) → j ≢ k → topic_of k (remove j ss) ≡ topic_of k ss
unfolding remove
topic_of-remove k j [] h = refl
topic_of-remove k j (s ∷ ss) h = ground (arith, topic_of-remove k j ss h)

pub queue_of-remove :
    (k j : ℕ) (ss : List Subscriber) → j ≢ k → queue_of k (remove j ss) ≡ queue_of k ss
unfolding remove
queue_of-remove k j [] h = refl
queue_of-remove k j (s ∷ ss) h = ground (arith, queue_of-remove k j ss h)

pub topic_of-append :
    (k : ℕ) (topic : Bytes) (ss ts : List Subscriber)
    → topic_of k ss ≡ some topic
    → topic_of k (ss ++ ts) ≡ some topic
topic_of-append k topic [] ts h = absurd (ground arith)
topic_of-append k topic (s ∷ ss) ts h = ground (arith, topic_of-append k topic ss ts)

pub queue_of-append :
    (k : ℕ) (topic : Bytes) (ss ts : List Subscriber)
    → topic_of k ss ≡ some topic
    → queue_of k (ss ++ ts) ≡ queue_of k ss
queue_of-append k topic [] ts h = absurd (ground arith)
queue_of-append k topic (s ∷ ss) ts h = ground (arith, queue_of-append k topic ss ts)

pub split_queue : (q : List Payload) → take 1 q ++ drop 1 q ≡ q
split_queue [] = refl
split_queue (p ∷ q) = refl

pub length-snoc : (q : List Payload) (p : Payload) → length (q ++ p ∷ []) ≡ length q + 1
length-snoc [] p = refl
length-snoc (x ∷ q) p = omega (arith, length-snoc q p)

pub has_room :
    (q ps : List Payload) (n : ℕ) → length q + suc (length ps) ≤ n → ltb (length q) n ≡ true
has_room q ps n h = ground arith

pub length-drop_one : (q : List Payload) → length (drop 1 q) ≤ length q
length-drop_one [] = omega arith
length-drop_one (p ∷ q) = omega arith
