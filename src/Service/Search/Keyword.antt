-- ===== src/Service/Search/Keyword.antt =====
-- What reaches the full-text statement.
use cooking_platform.Prelude.{
  ℕ, zero, suc, ◌≤◌, ◌≢◌, ◌≡◌, ◌⊎◌, refl, inl, inr, Bool, true, false, [], ◌∷◌, arith, ltb, ◌==◌,
  ==_iff, ==_refl, All, if◌then◌else◌, length, take, elem, Bool-cases,
}
use cooking_platform.Prelude.Int.{ℤ, pos, negsuc}
use cooking_platform.Errcode.{GoError, app, search_keyword_empty, search_cursor_invalid}
use cooking_platform.Action.{Result, ok, err}
use cooking_platform.Strings.Runes.{Runes, trim_space}
use cooking_platform.Strings.Runes.Words.{length-join_words-fields, elem-join_words-fields}
use cooking_platform.Service.World.{World}
use cooking_platform.Service.Post.{normalise_size}
use cooking_platform.Service.Search.{
  SearchEnv, SearchQuery, normalise_keyword, drop_operators, sanitise_boolean, parse_search_cursor,
  is_given, search_page, search,
}

length-take-le : (n : ℕ) (s : Runes) → length (take n s) ≤ n
length-take-le zero s = ground arith
length-take-le (suc n) [] = ground arith
length-take-le (suc n) (c ∷ s) = ground (arith, length-take-le n s)

length-normalise_keyword : (max : ℕ) (raw : Runes) → length (normalise_keyword max raw) ≤ max
unfolding normalise_keyword
length-normalise_keyword max raw = elim (Bool-cases (ltb max (length (trim_space raw)))) [
  | inl long ↦ rw long (length-take-le max (trim_space raw))
  | inr short ↦ rw short (ground (arith, short))
]

length-drop_operators : (ops s : Runes) → length (drop_operators ops s) ≤ length s
unfolding drop_operators
length-drop_operators ops [] = ground arith
length-drop_operators ops (c ∷ s) = elim (Bool-cases (elem c ops)) [
  | inl dropped ↦ rw dropped (ground (arith, length-drop_operators ops s))
  | inr kept ↦ rw kept (ground (arith, length-drop_operators ops s))
]

elem-drop_operators :
    (c : ℕ) (ops s : Runes) → elem c (drop_operators ops s) ≡ true → elem c ops ≡ false
unfolding drop_operators
elem-drop_operators c ops [] h = absurd (cc h)
elem-drop_operators c ops (d ∷ s) h = go (λ k. elem-drop_operators c ops s k) (elem d ops) refl h
  where
    go :
        (elem c (drop_operators ops s) ≡ true → elem c ops ≡ false)
        → (b : Bool) → elem d ops ≡ b
        → elem c (if b then drop_operators ops s else d ∷ drop_operators ops s) ≡ true
        → elem c ops ≡ false
    go rest true e k = rest k
    go rest false e k = elim (Bool-cases (d == c)) [
      | inl same ↦ let eq : d ≡ c = (==_iff d c).0 same in rw (← eq) e
      | inr other ↦ rest (ground (arith, k, other))
    ]

is_given-cases : (s : Runes) → (is_given s ≡ false) ⊎ ((is_given s ≡ true) × (s ≢ []))
is_given-cases [] = inl refl
is_given-cases (c ∷ s) = inr (refl, λ h. absurd (ground (arith, h)))

Result-cases : {A : Type 0} (r : Result A) → ((a : A) × (r ≡ ok a)) ⊎ ((e : GoError) × (r ≡ err e))
Result-cases (ok a) = inl (a, refl)
Result-cases (err e) = inr (e, refl)

normalise_size-range : (size : ℤ) → (1 ≤ normalise_size size) × (normalise_size size ≤ 50)
unfolding normalise_size
normalise_size-range (negsuc n) = ground arith
normalise_size-range (pos n) = ground arith

-- what holds of every rune that is in a text holds of all its runes
All-elem : {P : ℕ → Type 0} (s : Runes) → ((c : ℕ) → elem c s ≡ true → P c) → All P s
All-elem [] f = tt
All-elem (d ∷ s) f = (f d (rw (==_refl d) refl), All-elem s λ c there. f c (behind c there))
  where
    behind : (c : ℕ) → elem c s ≡ true → elem c (d ∷ s) ≡ true
    behind c there = ground (arith, there)

module _ (max_len : ℕ) (operators raw : Runes) where
  abbrev safe : Runes
  safe = sanitise_boolean operators (normalise_keyword max_len raw)

  length-safe : length safe ≤ max_len
  unfolding sanitise_boolean
  length-safe =
      let keyword = normalise_keyword max_len raw in
      omega (
        arith,
        length-join_words-fields (drop_operators operators keyword),
        length-drop_operators operators keyword,
        length-normalise_keyword max_len raw,
      )

  safe-All : All (λ c. (elem c operators ≡ false) ⊎ (32 ≡ c)) safe
  unfolding sanitise_boolean
  safe-All =
      let keyword = normalise_keyword max_len raw in
      All-elem safe λ c there.
        elim (elem-join_words-fields c (drop_operators operators keyword) there) [
          | inl space ↦ inr ((==_iff 32 c).0 space)
          | inr kept ↦ inl (elem-drop_operators c operators keyword kept)
        ]

-- `Search` either refuses a query and sends nothing to the database or to Redis, or it answers what the
-- statement gives for a text that is not empty, has at most as many runes as a keyword may have, and
-- holds no operator other than a space, with a page size from 1 to 50.
pub search-safe :
    {R D : Type 0} (env : SearchEnv R D) (viewer_id : ℕ) (q : SearchQuery) (w : World R D)
    → ((e : GoError) × (search env viewer_id q w ≡ (err e, w)))
      ⊎ ((safe : Runes) × (offset size : ℕ) × (safe ≢ [])
          × (length safe ≤ env.max_keyword_len)
          × All (λ c. (elem c env.boolean_operators ≡ false) ⊎ (32 ≡ c)) safe
          × (1 ≤ size)
          × (size ≤ 50)
          × (search env viewer_id q w ≡ search_page env viewer_id safe q.scene_tag offset size w))
unfolding search
search-safe env viewer_id q w =
    let keyword = normalise_keyword env.max_keyword_len q.keyword in
    let text = safe env.max_keyword_len env.boolean_operators q.keyword in
    elim (is_given-cases keyword) [
      | inl blank ↦ inl (app search_keyword_empty, rw blank refl)
      | inr (given, _) ↦ elim (is_given-cases text) [
        | inl blank ↦ inl (app search_keyword_empty, rw (given, blank) refl)
        | inr (left, some_text) ↦ elim (Result-cases (parse_search_cursor q.cursor)) [
          | inr (e, bad) ↦ inl (app search_cursor_invalid, rw (given, left, bad) refl)
          | inl (offset, good) ↦
              let (least, most) = normalise_size-range q.size in
              inr (
                text,
                offset,
                normalise_size q.size,
                some_text,
                length-safe env.max_keyword_len env.boolean_operators q.keyword,
                safe-All env.max_keyword_len env.boolean_operators q.keyword,
                least,
                most,
                rw (given, left, good) refl,
              )
        ]
      ]
    ]
