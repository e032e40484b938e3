-- ===== src/Consumer/View/Handler.antt =====
-- The handler that `Start` of internal/consumer/pv_consumer.go subscribes: it drops a redelivered
-- event and pushes the post of a new one on the channel, unless the context is done. A payload that is
-- no JSON is not modelled.
use cooking_platform.Prelude.{
  ℕ, ◌≡◌, ◌≢◌, refl, ap, ◌∙◌, Bool, true, false, ◌||◌, not, List, [], ◌∷◌, ◌++◌, if◌then◌else◌, All,
}
use cooking_platform.Prelude.Text.{Bytes, bytes_eq}
use cooking_platform.Events.{topic_pv}
use cooking_platform.Cache.Dedup.{
  DedupRedis, DedupLaws, key_event_dedup, dedup_key-eq, seen_or_mark, accept,
}

-- the id and the post of a `PVEvent`
pub record ViewEvent : Type 0 where
  pub event_id : Bytes
  pub post_id : ℕ

-- the case that the `select` of the handler takes: the channel takes the post, or the context is done
pub data Choice : Type 0 where
  pushed done : Choice

-- what the channel gets of a post
abbrev pub to_channel : Choice → ℕ → List ℕ
to_channel pushed post = post ∷ []
to_channel done post = []

module _ {R : Type 0} (r : DedupRedis R) (ttl : ℕ) where
  -- the posts pushed on the channel
  unfoldable pub handle : ViewEvent → Choice → R → List ℕ × R
  handle e choice s =
      let (go, s') = accept r ttl topic_pv e.event_id s in
      (if go then to_channel choice e.post_id else [], s')

  -- deliveries, each with the case that the `select` takes if the handler comes to it
  unfoldable pub handle_all : List (ViewEvent × Choice) → R → List ℕ × R
  unfolding handle
  handle_all [] s = ([], s)
  handle_all ((e, choice) ∷ es) s =
      let (posts, s') = handle e choice s in
      let (rest, s'') = handle_all es s' in (posts ++ rest, s'')

-- What becomes of deliveries: the first with each id, among ids that were not seen before, is counted if
-- the channel takes it, and no other is.
abbrev pub first_of_each : (Bytes → Bool) → List (ViewEvent × Choice) → List ℕ
first_of_each seen [] = []
first_of_each seen ((e, choice) ∷ es) =
    let rest = first_of_each (λ j. bytes_eq e.event_id j || seen j) es in
    if seen e.event_id then rest else to_channel choice e.post_id ++ rest

-- it matters only what is seen
first_of_each-same :
    (p q : Bytes → Bool) (es : List (ViewEvent × Choice))
    → ((j : Bytes) → p j ≡ q j)
    → first_of_each p es ≡ first_of_each q es
first_of_each-same p q [] h = refl
first_of_each-same p q ((e, choice) ∷ es) h =
    rw
      (
        h e.event_id,
        first_of_each-same (λ j. bytes_eq e.event_id j || p j) (λ j. bytes_eq e.event_id j || q j)
            es (λ j. ap (λ (b : Bool). bytes_eq e.event_id j || b) (h j)),
      )
      refl

module _ {R : Type 0} {r : DedupRedis R} (laws : DedupLaws r) (ttl : ℕ) where
  twice : (b : Bool) {s : R} → Path (Bool × R) (not (not (not b)), s) (not b, s)
  twice true = refl
  twice false = refl

  accept_lem :
      (id : Bytes) (s : R)
      → id ≢ []
      → accept r ttl topic_pv id s ≡ (
        not (r.present (key_event_dedup topic_pv id) s),
        laws.after (key_event_dedup topic_pv id) ttl s,
      )
  unfolding accept seen_or_mark
  accept_lem [] s h = absurd (h refl)
  accept_lem (c ∷ id) s h =
      rw (laws.answers (key_event_dedup topic_pv (c ∷ id)) ttl s)
        (twice (r.present (key_event_dedup topic_pv (c ∷ id)) s))

  branch :
      (b : Bool) (posts rest : List ℕ)
      → (if not b then posts else []) ++ rest ≡ (if b then rest else posts ++ rest)
  branch true posts rest = refl
  branch false posts rest = refl

  -- Where Redis answers and no marker expires, and every event has an id: of the events delivered,
  -- with redeliveries in any order, the post of the first event of each id is counted, if the id was
  -- not marked before and the channel takes it, and no other. A first event that the end of the
  -- context drops is marked all the same: no redelivery of it is ever counted.
  pub handle_all-pushes :
      (es : List (ViewEvent × Choice)) (s : R)
      → All (λ (e : ViewEvent × Choice). e.0.event_id ≢ []) es
      → (handle_all r ttl es s).0 ≡ first_of_each (λ j. r.present (key_event_dedup topic_pv j) s) es
  unfolding handle_all handle
  handle_all-pushes [] s h = refl
  handle_all-pushes ((e, choice) ∷ es) s h =
      let k = key_event_dedup topic_pv e.event_id in
      let later =
        handle_all-pushes es (laws.after k ttl s) h.1
        ∙ first_of_each-same (λ j. r.present (key_event_dedup topic_pv j) (laws.after k ttl s))
            (λ j. bytes_eq e.event_id j || r.present (key_event_dedup topic_pv j) s) es
            (λ j.
              laws.present-after k ttl s (key_event_dedup topic_pv j)
              ∙ ap (λ (b : Bool). b || r.present (key_event_dedup topic_pv j) s)
                  (dedup_key-eq topic_pv e.event_id j)) in
      rw (accept_lem e.event_id s h.0, later)
        (branch (r.present k s) (to_channel choice e.post_id) _)
