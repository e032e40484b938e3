-- ===== src/Strconv/RoundTrip.antt =====
-- A number is read back from its decimal print, and so two numbers have different prints.
use cooking_platform.Prelude.{
  ℕ, ◌++◌, ◌&&◌, zero, suc, ◌+◌, ◌/◌, ◌%◌, ◌≤◌, ◌<◌, ◌≡◌, ◌≢◌, refl, sym, ap, ◌∙◌, some,
  some_injective, [], ◌∷◌, arith, ltb, ◌==◌, ==_iff, Bool-cases, inl, inr,
}
use cooking_platform.Prelude.Int.{pos}
use cooking_platform.Prelude.Text.{Bytes, bytes_eq, bytes_eq→eq, bytes_eq_refl}
use cooking_platform.Strconv.{max_int64, emit, format_int, read_digits, parse_int}

read_digits_small :
    (n : ℕ) (out : Bytes) → n < 10 → read_digits ((b'0' + n) ∷ out) 0 ≡ read_digits out n
unfolding read_digits
read_digits_small n out h = ground arith

read_digits_back :
    (n : ℕ) (out : Bytes) → read_digits ((b'0' + n % 10) ∷ out) (n / 10) ≡ read_digits out n
unfolding read_digits
read_digits_back n out = ground arith

read_digits-emit :
    (fuel n : ℕ) (out : Bytes) → n < fuel → read_digits (emit fuel n out) 0 ≡ read_digits out n
unfolding emit
read_digits-emit zero n out h = absurd (omega arith)
read_digits-emit (suc fuel) n out h = elim (Bool-cases (ltb n 10)) [
  | inl small ↦ rw small (read_digits_small n out (ground arith))
  | inr large ↦ rw large (
      read_digits-emit fuel (n / 10) ((b'0' + n % 10) ∷ out) (ground arith)
      ∙ read_digits_back n out)
]

-- the first byte of a print is a digit
abbrev StartsWithDigit : Bytes → Type 0
StartsWithDigit [] = ⊥
StartsWithDigit (c ∷ s) = (b'0' ≤ c) × (c ≤ b'9')

emit-StartsWithDigit : (fuel n : ℕ) (out : Bytes) → n < fuel → StartsWithDigit (emit fuel n out)
unfolding emit
emit-StartsWithDigit zero n out h = absurd (omega arith)
emit-StartsWithDigit (suc fuel) n out h = elim (Bool-cases (ltb n 10)) [
  | inl small ↦ rw small (ground arith)
  | inr large ↦ rw large (emit-StartsWithDigit fuel (n / 10) ((b'0' + n % 10) ∷ out) (ground arith))
]

-- and so are all its bytes
abbrev pub IsDigits : Bytes → Type 0
IsDigits [] = Unit {0}
IsDigits (c ∷ s) = (b'0' ≤ c) × (c ≤ b'9') × IsDigits s

emit-IsDigits : (fuel n : ℕ) (out : Bytes) → IsDigits out → IsDigits (emit fuel n out)
unfolding emit
emit-IsDigits zero n out h = h
emit-IsDigits (suc fuel) n out h = elim (Bool-cases (ltb n 10)) [
  | inl small ↦ rw small (ground arith, ground arith, h)
  | inr large ↦
      rw large (emit-IsDigits fuel (n / 10) ((b'0' + n % 10) ∷ out) (omega arith, omega arith, h))
]

pub format_int-IsDigits : (n : ℕ) → IsDigits (format_int n)
unfolding format_int
format_int-IsDigits n = emit-IsDigits (suc n) n [] tt

-- A colon ends digits: two texts are equal if the digits are and what follows.
pub bytes_eq-digits :
    (a b s t : Bytes)
    → IsDigits a
    → IsDigits b
    → bytes_eq (a ++ b':' ∷ s) (b ++ b':' ∷ t) ≡ (bytes_eq a b && bytes_eq s t)
unfolding bytes_eq
bytes_eq-digits [] [] s t h k = refl
bytes_eq-digits [] (y ∷ b) s t h k = ground arith
bytes_eq-digits (x ∷ a) [] s t h k = ground arith
bytes_eq-digits (x ∷ a) (y ∷ b) s t h k =
    let rest = bytes_eq-digits a b s t h.2 k.2 in ground (arith, rest)

parse_int-read :
    (s : Bytes) (n : ℕ)
    → StartsWithDigit s
    → read_digits s 0 ≡ some n
    → n ≤ max_int64
    → parse_int s ≡ some (pos n)
unfolding parse_int
parse_int-read [] n d h fits = absurd d
parse_int-read (c ∷ s) n d h fits = ground arith

-- Every non-negative int64 is read back from its decimal print.
pub parse_int-format_int : (n : ℕ) → n ≤ max_int64 → parse_int (format_int n) ≡ some (pos n)
unfolding format_int
parse_int-format_int n h =
    parse_int-read (emit (suc n) n []) n (emit-StartsWithDigit (suc n) n [] (omega arith))
      (read_digits-emit (suc n) n [] (omega arith) ∙ unfold read_digits in refl) h

pub format_int-ne-nil : (n : ℕ) → format_int n ≢ []
unfolding format_int
format_int-ne-nil n h = let d = emit-StartsWithDigit (suc n) n [] (omega arith) in rw h at d

-- `format_int` is injective on all numbers.
pub format_int_injective : (m n : ℕ) → format_int m ≡ format_int n → m ≡ n
unfolding format_int
format_int_injective m n h = some_injective m n (
    sym (read_digits-emit (suc m) m [] (omega arith) ∙ unfold read_digits in refl)
    ∙ ap (λ (s : Bytes). read_digits s 0) h
    ∙ read_digits-emit (suc n) n [] (omega arith)
    ∙ unfold read_digits in refl)

-- An equality test on two prints is one on the numbers.
pub bytes_eq-format_int : (m n : ℕ) → bytes_eq (format_int m) (format_int n) ≡ (m == n)
bytes_eq-format_int m n = elim (Bool-cases (m == n)) [
  | inl same ↦ rw (same, (==_iff m n).0 same) (bytes_eq_refl (format_int n))
  | inr differ ↦ elim (Bool-cases (bytes_eq (format_int m) (format_int n))) [
    | inl t ↦
        absurd
          (ground (arith, format_int_injective m n (bytes_eq→eq (format_int m) (format_int n) t)))
    | inr f ↦ f ∙ sym differ
  ]
]
