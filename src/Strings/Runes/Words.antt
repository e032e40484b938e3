-- ===== src/Strings/Runes/Words.antt =====
-- The words of a text, with single spaces between them.
use cooking_platform.Prelude.{
  ℕ, ◌+◌, ◌≤◌, ◌≡◌, ◌⊎◌, refl, ap, inl, inr, Bool, true, false, ◌||◌, List, [], ◌∷◌, ◌++◌, arith,
  ◌==◌, if◌then◌else◌, length, elem, any, Bool-cases,
}
use cooking_platform.Strings.Runes.{
  Runes, is_white_space, add_front, parts, drop_empty, fields, join_words,
}

-- the runes of some words with a separator after each
abbrev weight : List Runes → ℕ
weight [] = 0
weight (word ∷ words) = length word + 1 + weight words

length-append : (s t : Runes) → length (s ++ t) ≡ length s + length t
length-append [] t = ground arith
length-append (c ∷ s) t = ground (arith, length-append s t)

weight-add_front :
    (c : ℕ) (words : List Runes) → 1 ≤ weight words → weight (add_front c words) ≡ 1 + weight words
weight-add_front c [] h = absurd (omega (arith, h))
weight-add_front c (word ∷ words) h = ground arith

weight-parts : (s : Runes) → weight (parts s) ≡ length s + 1
unfolding parts
weight-parts [] = refl
weight-parts (c ∷ s) = elim (Bool-cases (is_white_space c)) [
  | inl space ↦ rw space (ground (arith, weight-parts s))
  | inr other ↦
      let pos : 1 ≤ weight (parts s) = omega (arith, weight-parts s) in
      rw other (ground (arith, weight-add_front c (parts s) pos, weight-parts s))
]

weight-drop_empty : (words : List Runes) → weight (drop_empty words) ≤ weight words
weight-drop_empty [] = ground arith
weight-drop_empty ([] ∷ words) = ground (arith, weight-drop_empty words)
weight-drop_empty ((c ∷ word) ∷ words) = ground (arith, weight-drop_empty words)

length-join_words :
    (word : Runes) (words : List Runes)
    → length (join_words (word ∷ words)) + 1 ≤ weight (word ∷ words)
unfolding join_words
length-join_words word [] = ground arith
length-join_words word (next ∷ words) =
    ground
      (arith, length-append word (32 ∷ join_words (next ∷ words)), length-join_words next words)

-- Putting single spaces between the words never makes a text longer.
pub length-join_words-fields : (s : Runes) → length (join_words (fields s)) ≤ length s
unfolding fields join_words
length-join_words-fields s = go (drop_empty (parts s)) (weight-drop_empty (parts s))
  where
    go :
        (words : List Runes)
        → weight words ≤ weight (parts s)
        → length (join_words words) ≤ length s
    go [] h = ground arith
    go (word ∷ words) h = omega (arith, h, length-join_words word words, weight-parts s)

elem-append : (c : ℕ) (s t : Runes) → elem c (s ++ t) ≡ true → (elem c s ≡ true) ⊎ (elem c t ≡ true)
elem-append c [] t h = inr h
elem-append c (d ∷ s) t h = elim (Bool-cases (d == c)) [
  | inl same ↦ inl (rw same refl)
  | inr other ↦
      let rest : elem c (s ++ t) ≡ true = ground (arith, h, other) in
      elim (elem-append c s t rest) [ inl k ↦ inl (rw (other, k) refl) | inr k ↦ inr k ]
]

-- a rune of one of the words
abbrev in_words : ℕ → List Runes → Bool
in_words c = any (elem c)

in_words-add_front :
    (c d : ℕ) (words : List Runes)
    → in_words c (add_front d words) ≡ true
    → ((d == c) ≡ true) ⊎ (in_words c words ≡ true)
in_words-add_front c d [] h = ground (arith, h)
in_words-add_front c d (word ∷ words) h = elim (Bool-cases (d == c)) [
  | inl same ↦ inl same
  | inr other ↦ inr (rw (← h, other) refl)
]

in_words-parts : (c : ℕ) (s : Runes) → in_words c (parts s) ≡ true → elem c s ≡ true
unfolding parts
in_words-parts c [] h = h
in_words-parts c (d ∷ s) h = elim (Bool-cases (d == c)) [
  | inl same ↦ rw same refl
  | inr other ↦ rw other (in_words-parts c s (later (is_white_space d) h other))
]
  where
    later :
        (space : Bool)
        → in_words c (if space then [] ∷ parts s else add_front d (parts s)) ≡ true
        → (d == c) ≡ false
        → in_words c (parts s) ≡ true
    later true k other = k
    later false k other = elim (in_words-add_front c d (parts s) k) [
      | inl same ↦ absurd (cc (same, other))
      | inr there ↦ there
    ]

in_words-drop_empty :
    (c : ℕ) (words : List Runes) → in_words c (drop_empty words) ≡ in_words c words
in_words-drop_empty c [] = refl
in_words-drop_empty c ([] ∷ words) = in_words-drop_empty c words
in_words-drop_empty c ((d ∷ word) ∷ words) =
    ap (λ b. elem c (d ∷ word) || b) (in_words-drop_empty c words)

in_words-join_words :
    (c : ℕ) (words : List Runes)
    → elem c (join_words words) ≡ true
    → ((32 == c) ≡ true) ⊎ (in_words c words ≡ true)
unfolding join_words
in_words-join_words c [] h = inr h
in_words-join_words c (word ∷ []) h = inr (rw h refl)
in_words-join_words c (word ∷ next ∷ words) h =
    elim (elem-append c word (32 ∷ join_words (next ∷ words)) h) [
      | inl first ↦ inr (rw first refl)
      | inr rest ↦ elim (Bool-cases (32 == c)) [
        | inl space ↦ inl space
        | inr other ↦
            let more : elem c (join_words (next ∷ words)) ≡ true = ground (arith, rest, other) in
            elim (in_words-join_words c (next ∷ words) more) [
              | inl space ↦ inl space
              | inr there ↦ inr (ground (arith, there))
            ]
      ]
    ]

-- A rune of the words with single spaces between them is a space or a rune of the text.
pub elem-join_words-fields :
    (c : ℕ) (s : Runes)
    → elem c (join_words (fields s)) ≡ true
    → ((32 == c) ≡ true) ⊎ (elem c s ≡ true)
unfolding fields
elem-join_words-fields c s h = elim (in_words-join_words c (drop_empty (parts s)) h) [
  | inl space ↦ inl space
  | inr there ↦ inr (in_words-parts c s (rw (← in_words-drop_empty c (parts s)) there))
]
