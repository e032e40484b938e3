-- ===== src/Tests/Text.antt =====
-- The theorems on decimals and on error codes, at small inputs.
use cooking_platform.Prelude.{◌≡◌, refl, some, none}
use cooking_platform.Prelude.Int.{negsuc}
use cooking_platform.Prelude.Text.{codes}
use cooking_platform.Strconv.{parse_int}

parse_negative : parse_int (codes "-12") ≡ some (negsuc 11)
unfolding parse_int
parse_negative = refl

parse_word : parse_int (codes "12x") ≡ none
unfolding parse_int
parse_word = refl
