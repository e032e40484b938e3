-- ===== src/Consumer/Signal.antt =====
-- What the `select` of a consumer's flush loop receives before its cancellation.
use cooking_platform.Prelude.{List, [], ◌∷◌}

pub data Signal (A : Type 0) : Type 0 where
  item : A → Signal A
  tick : Signal A

-- the items, in order
abbrev pub items : {A : Type 0} → List (Signal A) → List A
items [] = []
items (item a ∷ ss) = a ∷ items ss
items (tick ∷ ss) = items ss
