-- ===== src/Strconv.antt =====
-- `strconv.FormatInt(n, 10)` of a non-negative number and `strconv.ParseInt(s, 10, 64)`, as the
-- source uses them for cache keys, cursors and path parameters.
pub mod RoundTrip
use cooking_platform.Prelude.{
  ℕ, zero, suc, ◌+◌, ◌-◌, ◌*◌, ◌/◌, ◌%◌, ◌^◌, Bool, ◌&&◌, Option, none, some, [], ◌∷◌, ltb, leb,
  ◌==◌, if◌then◌else◌,
}
use cooking_platform.Prelude.Int.{ℤ, pos, negsuc}
use cooking_platform.Prelude.Text.{Bytes}

abbrev pub max_int64 : ℕ
max_int64 = 2 ^ 63 - 1

-- the digits of `n` in front of `out`; `n + 1` rounds are more than enough
unfoldable pub emit : ℕ → ℕ → Bytes → Bytes
emit zero n out = out
emit (suc fuel) n out =
    let rest = emit fuel (n / 10) ((b'0' + n % 10) ∷ out) in
    if ltb n 10 then (b'0' + n) ∷ out else rest

unfoldable pub format_int : ℕ → Bytes
unfolding emit
format_int n = emit (suc n) n []

unfoldable pub read_digits : Bytes → ℕ → Option ℕ
read_digits [] n = some n
read_digits (c ∷ s) n =
    let rest = read_digits s (n * 10 + (c - b'0')) in
    if leb b'0' c && leb c b'9' then rest else none

-- one digit at least
unfoldable pub parse_digits : Bytes → Option ℕ
unfolding read_digits
parse_digits [] = none
parse_digits (c ∷ s) = read_digits (c ∷ s) 0

-- the range of an int64
abbrev signed : Bool → Option ℕ → Option ℤ
signed neg none = none
signed Bool.false (some n) = if leb n max_int64 then some (pos n) else none
signed Bool.true (some zero) = some (pos 0)
signed Bool.true (some (suc n)) = if leb n max_int64 then some (negsuc n) else none

-- `none` is an error, of syntax or of range
unfoldable pub parse_int : Bytes → Option ℤ
unfolding parse_digits
parse_int [] = none
parse_int (c ∷ s) =
    if c == b'-'
    then signed Bool.true (parse_digits s)
    else if c == b'+'
    then signed Bool.false (parse_digits s)
    else signed Bool.false (parse_digits (c ∷ s))
