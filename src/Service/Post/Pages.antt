-- ===== src/Service/Post/Pages.antt =====
-- A client that reads an author's page by page, each time with the cursor of the page before, until
-- `has_more` is false.
use cooking_platform.Prelude.{
  ℕ, ◌<◌, ◌≤◌, ◌≡◌, ◌≢◌, refl, ap, ◌∙◌, inl, inr, true, false, List, [], ◌∷◌, ◌++◌, ltb, leb, arith,
  if◌then◌else◌, length, Bool-cases,
}
use cooking_platform.Prelude.Text.{Bytes}
use cooking_platform.Strconv.{max_int64, format_int, parse_int}
use cooking_platform.Strconv.RoundTrip.{parse_int-format_int, format_int-ne-nil}
use cooking_platform.Action.{ok}
use cooking_platform.Model.{Post}
use cooking_platform.Service.Post.{parse_cursor, positive_cursor, last_created_at, next_cursor_of}

parse_cursor_ne : (s : Bytes) → s ≢ [] → parse_cursor s ≡ positive_cursor (parse_int s)
unfolding parse_cursor
parse_cursor_ne [] h = absurd (h refl)
parse_cursor_ne (c ∷ s) h = refl

pub parse_cursor-format_int : (n : ℕ) → 0 < n → n ≤ max_int64 → parse_cursor (format_int n) ≡ ok n
parse_cursor-format_int n h k =
    parse_cursor_ne (format_int n) (format_int-ne-nil n)
    ∙ ap positive_cursor (parse_int-format_int n k)
    ∙ ground arith

last_created_at-append :
    (ps : List Post) (p : Post) → last_created_at (ps ++ p ∷ []) ≡ format_int p.created_at
last_created_at-append [] p = refl
last_created_at-append (q ∷ []) p = refl
last_created_at-append (q ∷ q' ∷ ps) p = last_created_at-append (q' ∷ ps) p

-- The cursor of a full page is read back as the time of its last post, for a time that is a positive
-- int64; the cursor of a shorter page is read as the zero time.
pub parse_cursor-next_cursor_of :
    (ps : List Post) (p : Post) (size : ℕ)
    → 0 < p.created_at
    → p.created_at ≤ max_int64
    → parse_cursor (next_cursor_of (ps ++ p ∷ []) size)
      ≡ ok (if leb size (length (ps ++ p ∷ [])) then p.created_at else 0)
unfolding next_cursor_of parse_cursor
parse_cursor-next_cursor_of ps p size h k = elim (Bool-cases (ltb (length (ps ++ p ∷ [])) size)) [
  | inl short ↦
      let not_full : leb size (length (ps ++ p ∷ [])) ≡ false = ground (arith, short) in
      rw (short, not_full) refl
  | inr full ↦
      let is_full : leb size (length (ps ++ p ∷ [])) ≡ true = ground (arith, full) in
      rw (full, is_full, last_created_at-append ps p) (parse_cursor-format_int p.created_at h k)
]
