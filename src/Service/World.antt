-- ===== src/Service/World.antt =====
-- The state around a service: Redis, MySQL, and what was handed to the event bus. A publish that
-- fails is only logged by the services, so its answer does not come back to them.
use cooking_platform.Prelude.{◌≡◌, sym, List, [], ◌∷◌, ◌++◌}
use cooking_platform.Action.{ok, Action, map_error, wrap, map_error-eq-ok}
use cooking_platform.Errcode.{GoError, wrapped}
use cooking_platform.Events.{Event}

pub record World (R D : Type 0) : Type 0 where
  pub redis : R
  pub db : D
  pub outbox : List Event

module _ {R D A : Type 0} where
  abbrev pub in_redis : Action R A → Action (World R D) A
  in_redis m w = let (a, s) = m w.redis in (a, record w { redis = s })

  abbrev pub in_db : Action D A → Action (World R D) A
  in_db m w = let (a, d) = m w.db in (a, record w { db = d })

-- `bus.Publish(ctx, evt)`
abbrev pub publish : {R D : Type 0} → Event → Action (World R D) (Unit {0})
publish e w = (ok tt, record w { outbox = w.outbox ++ e ∷ [] })

module _ {R D A : Type 0} where
  -- What a command on one part leaves of the others.
  pub in_redis-eq-ok :
      (m : Action R A) (w w' : World R D) (a : A)
      → wrap (in_redis m) w ≡ (ok a, w')
      → (m w.redis ≡ (ok a, w'.redis)) × (w'.db ≡ w.db) × (w'.outbox ≡ w.outbox)
  in_redis-eq-ok m w w' a h =
      let e = map_error-eq-ok wrapped (in_redis m) w w' a h in
      (λ i. ((e i).0, (e i).1.redis), λ i. (sym e i).1.db, λ i. (sym e i).1.outbox)

  pub in_db-eq-ok :
      (f : GoError → GoError) (m : Action D A) (w w' : World R D) (a : A)
      → map_error f (in_db m) w ≡ (ok a, w')
      → (m w.db ≡ (ok a, w'.db)) × (w'.redis ≡ w.redis) × (w'.outbox ≡ w.outbox)
  in_db-eq-ok f m w w' a h =
      let e = map_error-eq-ok f (in_db m) w w' a h in
      (λ i. ((e i).0, (e i).1.db), λ i. (sym e i).1.redis, λ i. (sym e i).1.outbox)
