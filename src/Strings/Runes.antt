-- ===== src/Strings/Runes.antt =====
-- What the source uses of the package strings on runes: white space is that of `unicode.IsSpace`.
pub mod Words
use cooking_platform.Prelude.{
  ℕ, ◌+◌, ◌≤◌, ◌≡◌, ◌⊎◌, refl, ap, ◌∙◌, inl, inr, Bool, true, false, ◌&&◌, ◌||◌, List, [], ◌∷◌,
  ◌++◌, arith, leb, ◌==◌, ==_iff, if◌then◌else◌, length, elem, Bool-cases,
}

-- a text as the list of its runes
abbrev pub Runes : Type 0
Runes = List ℕ

abbrev pub is_white_space : ℕ → Bool
is_white_space c =
    c == 32
    || (leb 9 c && leb c 13
        || (c == 133
            || (c == 160
                || (c == 5760
                    || (leb 8192 c && leb c 8202
                        || (c == 8232
                            || (c == 8233 || (c == 8239 || (c == 8287 || c == 12288)))))))))

unfoldable pub trim_left : Runes → Runes
trim_left [] = []
trim_left (c ∷ s) = let rest = trim_left s in if is_white_space c then rest else c ∷ s

abbrev pub keep_front : ℕ → Runes → Runes
keep_front c [] = if is_white_space c then [] else c ∷ []
keep_front c (d ∷ s) = c ∷ d ∷ s

unfoldable pub trim_right : Runes → Runes
trim_right [] = []
trim_right (c ∷ s) = keep_front c (trim_right s)

-- `strings.TrimSpace`
unfoldable pub trim_space : Runes → Runes
unfolding trim_left trim_right
trim_space s = trim_right (trim_left s)

abbrev pub add_front : ℕ → List Runes → List Runes
add_front c [] = (c ∷ []) ∷ []
add_front c (word ∷ words) = (c ∷ word) ∷ words

-- the parts between white space, the empty ones included
unfoldable pub parts : Runes → List Runes
parts [] = [] ∷ []
parts (c ∷ s) = let rest = parts s in if is_white_space c then [] ∷ rest else add_front c rest

abbrev pub drop_empty : List Runes → List Runes
drop_empty [] = []
drop_empty ([] ∷ words) = drop_empty words
drop_empty ((c ∷ word) ∷ words) = (c ∷ word) ∷ drop_empty words

-- `strings.Fields`
unfoldable pub fields : Runes → List Runes
unfolding parts
fields s = drop_empty (parts s)

-- `strings.Join(words, " ")`
unfoldable pub join_words : List Runes → Runes
join_words [] = []
join_words (word ∷ []) = word
join_words (word ∷ next ∷ words) = word ++ 32 ∷ join_words (next ∷ words)
