-- ===== src/Strings.antt =====
-- What the source uses of the package strings, on the bytes of UTF-8: white space is that of Unicode, the
-- case of letters that of ASCII.
pub mod Runes
use cooking_platform.Prelude.{
  ℕ, zero, suc, ◌+◌, Bool, true, false, ◌&&◌, ◌||◌, List, [], ◌∷◌, leb, ◌==◌, if◌then◌else◌,
}
use cooking_platform.Prelude.Text.{Bytes}

-- the white space of ASCII
abbrev pub is_space : ℕ → Bool
is_space c = c == 32 || leb 9 c && leb c 13

abbrev pub lower : ℕ → ℕ
lower c = if leb b'A' c && leb c b'Z' then c + 32 else c

-- `strings.ToLower`
unfoldable pub to_lower : Bytes → Bytes
to_lower [] = []
to_lower (c ∷ s) = lower c ∷ to_lower s

-- the runes of three bytes that are white space: U+1680, U+2000 to U+200A, U+2028, U+2029, U+202F,
-- U+205F and U+3000
abbrev is_wide_space : ℕ → ℕ → ℕ → Bool
is_wide_space a b c =
    a == 225 && b == 154 && c == 128
    || (a == 226 && b == 128 && (leb 128 c && leb c 138 || (c == 168 || (c == 169 || c == 175)))
        || (a == 226 && b == 129 && c == 159 || a == 227 && b == 128 && c == 128))

abbrev wide_space_len : ℕ → ℕ → Bytes → ℕ
wide_space_len a b [] = 0
wide_space_len a b (c ∷ s) = if is_wide_space a b c then 3 else 0

-- U+0085 and U+00A0 have two bytes
abbrev long_space_len : ℕ → Bytes → ℕ
long_space_len a [] = 0
long_space_len a (b ∷ s) = if a == 194 && (b == 133 || b == 160) then 2 else wide_space_len a b s

-- the length in bytes of the white space rune in front, 0 if there is none
unfoldable pub space_len : Bytes → ℕ
space_len [] = 0
space_len (c ∷ s) = if is_space c then 1 else long_space_len c s

abbrev pub after_space : ℕ → Bytes → (ℕ → Bytes) → Bytes
after_space zero s skip = s
after_space (suc n) s skip = skip n

-- a text without its first bytes and then without the white space in front
unfoldable pub trim_after : Bytes → ℕ → Bytes
unfolding space_len
trim_after [] n = []
trim_after (c ∷ s) (suc n) = trim_after s n
trim_after (c ∷ s) zero = after_space (space_len (c ∷ s)) (c ∷ s) (trim_after s)

unfoldable pub trim_left : Bytes → Bytes
unfolding trim_after
trim_left s = trim_after s 0

abbrev is_nothing : Bytes → Bool
is_nothing [] = true
is_nothing (c ∷ s) = false

-- a text ends where only white space is left
unfoldable pub trim_right : Bytes → Bytes
unfolding trim_left
trim_right [] = []
trim_right (c ∷ s) =
    let rest = trim_right s in if is_nothing (trim_left (c ∷ s)) then [] else c ∷ rest

-- `strings.TrimSpace` of a text in UTF-8
unfoldable pub trim_space : Bytes → Bytes
unfolding trim_left trim_right
trim_space s = trim_right (trim_left s)

abbrev pub add_front : ℕ → List Bytes → List Bytes
add_front c [] = (c ∷ []) ∷ []
add_front c (part ∷ parts) = (c ∷ part) ∷ parts

-- `strings.Split` at one byte
unfoldable pub split : ℕ → Bytes → List Bytes
split at [] = [] ∷ []
split at (c ∷ s) = let rest = split at s in if c == at then [] ∷ rest else add_front c rest
