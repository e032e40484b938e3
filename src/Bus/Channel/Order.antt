-- ===== src/Bus/Channel/Order.antt =====
-- What a subscriber of the channel bus is given, whatever the others do.
use cooking_platform.Prelude.{
  ℕ, ◌+◌, ◌≤◌, ◌≡◌, refl, sym, ap, ◌∙◌, false, some, List, [], ◌∷◌, ◌++◌, append_assoc, append-nil,
  map, ◌==◌, ==_iff, arith, length, take, drop, Bool-cases, inl, inr,
}
use cooking_platform.Prelude.Text.{Bytes, bytes_eq}
use cooking_platform.Events.{Payload, Event}
use cooking_platform.Bus.Channel.{
  Subscriber, ChannelBus, queue_of, handled_by, remove, pop, offer, publish, subscribe, receive,
  cancel, Op, op_publish, op_subscribe, op_receive, op_cancel, op_close, step, run,
}
use cooking_platform.Bus.Channel.Queues.{
  topic_of, handled_for, published, Stays, handled_for-append, handled_for-own, handled_for-other,
  topic_of-offer, queue_of-offer, topic_of-pop, queue_of-pop, topic_of-remove, queue_of-remove,
  topic_of-append, queue_of-append, split_queue, length-snoc, has_room, length-drop_one,
}

module _ (n k : ℕ) (topic : Bytes) where
  publish-open :
      (e : Event) (b : ChannelBus)
      → b.closed ≡ false
      → (publish n e b).1 ≡ (record b { subs = map (offer n e) b.subs })
  unfolding publish
  publish-open e b h = rw h refl

  -- what is kept while some operations run, and what is left to show after the first of them
  abbrev Fits : List (Op n) → ChannelBus → Type 0
  Fits os b = length (queue_of k b.subs) + length (published n topic os) ≤ n

  abbrev Conserves : List (Op n) → ChannelBus → Type 0
  Conserves os b =
      handled_for k (run n os b).0 ++ queue_of k (run n os b).1.subs
      ≡ queue_of k b.subs ++ published n topic os

  abbrev Later : List (Op n) → ChannelBus → Type 0
  Later os b = topic_of k b.subs ≡ some topic → b.closed ≡ false → Fits os b → Conserves os b

  publish-Conserves :
      (e : Event) (os : List (Op n)) (b : ChannelBus)
      → Later os (record b { subs = map (offer n e) b.subs })
      → Later (op_publish e ∷ os) b
  unfolding run step
  publish-Conserves e os b later t o l =
      let b' : ChannelBus = record b { subs = map (offer n e) b.subs } in
      let q = queue_of k b.subs in
      let here = topic_of-offer n k e b.subs ∙ t in
      let offered = queue_of-offer n k topic e b.subs t in
      elim (Bool-cases (bytes_eq topic e.topic)) [
        | inl ours ↦
            let room = rw ours at l in
            let added : queue_of k b'.subs ≡ q ++ e.payload ∷ [] =
              offered ∙ rw (ours, has_room q (published n topic os) n room) refl in
            rw (publish-open e b o, ours)
              (later here o (rw added (omega (arith, room, length-snoc q e.payload)))
                ∙ ap (λ (x : List Payload). x ++ published n topic os) added
                ∙ append_assoc q (e.payload ∷ []) (published n topic os))
        | inr theirs ↦
            let kept : queue_of k b'.subs ≡ q = offered ∙ rw theirs refl in
            rw (publish-open e b o, theirs)
              (later here o (rw kept (rw theirs at l))
                ∙ ap (λ (x : List Payload). x ++ published n topic os) kept)
      ]

  receive-Conserves :
      (j : ℕ) (os : List (Op n)) (b : ChannelBus)
      → Later os (record b { subs = map (pop j) b.subs })
      → Later (op_receive j ∷ os) b
  unfolding run step receive
  receive-Conserves j os b later t o l =
      let b' : ChannelBus = record b { subs = map (pop j) b.subs } in
      let q = queue_of k b.subs in
      let here = topic_of-pop k j b.subs ∙ t in
      let popped = queue_of-pop k j b.subs in
      let given =
        handled_for-append k (handled_by j (take 1 (queue_of j b.subs))) (run n os b').0 in
      elim (Bool-cases (j == k)) [
        | inl own ↦
            let left : queue_of k b'.subs ≡ drop 1 q = popped ∙ rw own refl in
            let head : handled_for k (handled_by j (take 1 (queue_of j b.subs))) ≡ take 1 q =
              rw ((==_iff j k).0 own) (handled_for-own k (take 1 q)) in
            rw (given, head)
              (append_assoc (take 1 q) (handled_for k (run n os b').0)
                  (queue_of k (run n os b').1.subs)
                ∙ ap (λ (x : List Payload). take 1 q ++ x)
                    (later here o (rw left (omega (arith, l, length-drop_one q)))
                      ∙ ap (λ (x : List Payload). x ++ published n topic os) left)
                ∙ sym (append_assoc (take 1 q) (drop 1 q) (published n topic os))
                ∙ ap (λ (x : List Payload). x ++ published n topic os) (split_queue q))
        | inr differ ↦
            let kept : queue_of k b'.subs ≡ q = popped ∙ rw differ refl in
            rw
              (
                given,
                handled_for-other k j (take 1 (queue_of j b.subs)) (λ e. ground (arith, differ)),
              )
              (later here o (rw kept l) ∙ ap (λ (x : List Payload). x ++ published n topic os) kept)
      ]

  -- While the bus is open and the subscriber not cancelled, and as long as what is queued for it and
  -- what is published on its topic fit in the channel: the subscriber is given the queued and then the
  -- published messages, each once and in order, up to a rest that is still queued; whatever other
  -- subscribers come, go and receive.
  pub run-Conserves :
      (os : List (Op n)) (b : ChannelBus)
      → topic_of k b.subs ≡ some topic
      → b.closed ≡ false
      → Stays n k os
      → length (queue_of k b.subs) + length (published n topic os) ≤ n
      → handled_for k (run n os b).0 ++ queue_of k (run n os b).1.subs
        ≡ queue_of k b.subs ++ published n topic os
  unfolding run step subscribe receive cancel
  run-Conserves [] b t o st l = sym (append-nil (queue_of k b.subs))
  run-Conserves (op_publish e ∷ os) b t o st l =
      publish-Conserves e os b
        (λ here open_bus fits.
          run-Conserves os (record b { subs = map (offer n e) b.subs }) here open_bus st fits)
        t o l
  run-Conserves (op_subscribe other ∷ os) b t o st l =
      let fresh : List Subscriber = (record { key = b.next_key; topic = other; queue = [] }) ∷ [] in
      let kept = queue_of-append k topic b.subs fresh t in
      run-Conserves os (subscribe n other b) (topic_of-append k topic b.subs fresh t) o st
        (rw kept l)
      ∙ ap (λ (x : List Payload). x ++ published n topic os) kept
  run-Conserves (op_receive j ∷ os) b t o st l =
      receive-Conserves j os b
        (λ here open_bus fits.
          run-Conserves os (record b { subs = map (pop j) b.subs }) here open_bus st fits)
        t o l
  run-Conserves (op_cancel j ∷ os) b t o st l =
      let b' : ChannelBus = record b { subs = remove j b.subs } in
      let kept = queue_of-remove k j b.subs st.0 in
      rw
        (
          handled_for-append k (handled_by j (queue_of j b.subs)) (run n os b').0,
          handled_for-other k j (queue_of j b.subs) st.0,
        )
        (run-Conserves os b' (topic_of-remove k j b.subs st.0 ∙ t) o st.1 (rw kept l)
          ∙ ap (λ (x : List Payload). x ++ published n topic os) kept)
  run-Conserves (op_close ∷ os) b t o st l = absurd st

  -- Under the same conditions, a cancellation afterwards gives the subscriber all the rest: it was
  -- given every message that was queued and then every message that was published on its topic, each
  -- once and in order.
  pub run-cancel-all :
      (os : List (Op n)) (b : ChannelBus)
      → topic_of k b.subs ≡ some topic
      → b.closed ≡ false
      → Stays n k os
      → length (queue_of k b.subs) + length (published n topic os) ≤ n
      → handled_for k (run n os b).0 ++ handled_for k (cancel n k (run n os b).1).0
        ≡ queue_of k b.subs ++ published n topic os
  unfolding cancel
  run-cancel-all os b t o st l =
      ap (λ (x : List Payload). handled_for k (run n os b).0 ++ x)
        (handled_for-own k (queue_of k (run n os b).1.subs))
      ∙ run-Conserves os b t o st l
