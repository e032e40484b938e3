-- ===== src/Middleware/RateLimit/Window.antt =====
-- How many requests of one key the rate limit lets pass.
use cooking_platform.Prelude.{
  ℕ, ◌+◌, ◌≤◌, ◌<◌, ◌≡◌, refl, ap, ◌∙◌, Bool, true, false, List, [], ◌∷◌, leb, ltb, arith,
  if◌then◌else◌, length, elem, All, Bool-cases, inl, inr,
}
use cooking_platform.Prelude.Int.{pos, ◌-ℤ◌}
use cooking_platform.Prelude.Text.{Bytes}
use cooking_platform.Action.{ok}
use cooking_platform.Middleware.RateLimit.{
  WindowRedis, WindowLaws, above, sliding_window_allow, passes,
}

-- of some times, newest first, those less than a window before another
abbrev pub within : ℕ → ℕ → List ℕ → List ℕ
within window now [] = []
within window now (m ∷ ms) =
    let rest = within window now ms in if ltb now (m + window) then m ∷ rest else rest

above-within :
    (window now : ℕ) (ms : List ℕ) → above (pos now -ℤ pos window) ms ≡ within window now ms
unfolding above ◌-ℤ◌
above-within window now [] = refl
above-within window now (m ∷ ms) = ground (arith, above-within window now ms)

within-within :
    (window now later : ℕ) (ms : List ℕ)
    → now ≤ later
    → within window later (within window now ms) ≡ within window later ms
within-within window now later [] h = refl
within-within window now later (m ∷ ms) h = ground (arith, within-within window now later ms h)

length-within : (window now : ℕ) (ms : List ℕ) → length (within window now ms) ≤ length ms
length-within window now [] = omega arith
length-within window now (m ∷ ms) = ground (arith, length-within window now ms)

All-within :
    (window now t : ℕ) (ms : List ℕ) → All (λ m. m < t) ms → elem t (within window now ms) ≡ false
All-within window now t [] h = refl
All-within window now t (m ∷ ms) h = ground (arith, All-within window now t ms h.1, h.0)

module _ {R : Type 0} {r : WindowRedis R} (laws : WindowLaws r) (limit window : ℕ)
    (key : Bytes) where
  -- One request, in front of which the entries are some times below its own.
  pub record Step (now : ℕ) (s : R) : Type 0 where
    pub after : R
    pub allowed : Bool
    pub runs : sliding_window_allow r limit window key now s ≡ (ok allowed, after)
    pub rule : allowed ≡ ltb (length (within window now (r.entries key s))) limit
    pub entries_after : r.entries key after ≡ (
        if allowed
        then now ∷ within window now (r.entries key s)
        else within window now (r.entries key s))

  step_lem : (now : ℕ) (s : R) → All (λ m. m < now) (r.entries key s) → Step now s
  unfolding sliding_window_allow
  step_lem now s h =
      let (n, t, removed, kept) = laws.removes key (pos now -ℤ pos window) s in
      let left = kept ∙ above-within window now (r.entries key s) in
      let (k, u, added, grown) = laws.adds key now t in
      let (v, expired, same) = laws.expires key (window + 1000) u in
      elim (Bool-cases (leb limit (length (r.entries key t)))) [
        | inl full ↦ record {
          after = t;
          allowed = false;
          runs = rw (removed, laws.counts key t, full) refl;
          rule = ground (arith, full, ap length left);
          entries_after = left;
        }
        | inr room ↦ record {
          after = v;
          allowed = true;
          runs = rw (removed, laws.counts key t, room, added, expired) refl;
          rule = ground (arith, room, ap length left);
          entries_after =
              same ∙ grown ∙ rw (left, All-within window now now (r.entries key s) h) refl;
        }
      ]

  -- the times of the requests that passed, newest first, after some more requests
  pub allowed_times : List ℕ → R → List ℕ → List ℕ
  allowed_times [] s passed = passed
  allowed_times (t ∷ ts) s passed =
      let (reply, s') = sliding_window_allow r limit window key t s in
      allowed_times ts s' (if passes r limit window reply then t ∷ passed else passed)

  -- the times after another, in ascending order
  abbrev pub After : ℕ → List ℕ → Type 0
  After last [] = Unit
  After last (t ∷ ts) = (last < t) × After t ts

  -- Counted back from each request that passed, at most `limit` passed within one window.
  abbrev pub IsFair : List ℕ → Type 0
  IsFair [] = Unit
  IsFair (t ∷ ts) = (length (within window t (t ∷ ts)) ≤ limit) × IsFair ts

  All-lt : (last t : ℕ) (ms : List ℕ) → last < t → All (λ m. m ≤ last) ms → All (λ m. m < t) ms
  All-lt last t [] h a = tt
  All-lt last t (m ∷ ms) h a = (omega (arith, h, a.0), All-lt last t ms h a.1)

  All-le : (last t : ℕ) (ms : List ℕ) → last < t → All (λ m. m ≤ last) ms → All (λ m. m ≤ t) ms
  All-le last t [] h a = tt
  All-le last t (m ∷ ms) h a = (omega (arith, h, a.0), All-le last t ms h a.1)

  All-lt_within :
      (last t : ℕ) (ms : List ℕ) → All (λ m. m < t) ms → All (λ m. m < t) (within window last ms)
  All-lt_within last t [] h = tt
  All-lt_within last t (m ∷ ms) h =
      elim (ltb last (m + window))
        as (λ b.
          All (λ m. m < t) (if b then m ∷ within window last ms else within window last ms)) [
            | true ↦ (h.0, All-lt_within last t ms h.1)
            | false ↦ All-lt_within last t ms h.1
          ]

  IsFair-from :
      0 < window
      → (ts : List ℕ) (last : ℕ) (s : R) (passed : List ℕ) → After last ts
      → r.entries key s ≡ within window last passed
      → All (λ m. m ≤ last) passed
      → IsFair passed
      → IsFair (allowed_times ts s passed)
  unfolding allowed_times
  IsFair-from w [] last s passed h e a f = f
  IsFair-from w (t ∷ ts) last s passed h e a f =
      let older = All-lt last t passed h.0 a in
      let step = step_lem t s (rw e (All-lt_within last t passed older)) in
      let seen : within window t (r.entries key s) ≡ within window t passed =
        ap (within window t) e ∙ within-within window last t passed (omega (arith, h.0)) in
      elim (Bool-cases step.allowed) [
        | inl let_through ↦
            rw (step.runs, let_through)
              (IsFair-from w ts t step.after (t ∷ passed) h.1
                (step.entries_after ∙ rw (let_through, seen) (ground (arith, w)))
                (omega arith, All-le last t passed h.0 a)
                (ground (arith, step.rule, let_through, ap length seen), f))
        | inr held ↦
            rw (step.runs, held)
              (IsFair-from w ts t step.after passed h.1 (step.entries_after ∙ rw (held, seen) refl)
                (All-le last t passed h.0 a) f)
      ]

  -- From an empty set, for a window of at least a millisecond and requests in different milliseconds,
  -- while Redis answers: counted back from each request that passed, at most `limit` requests passed
  -- within one window.
  pub allowed_times-IsFair :
      (ts : List ℕ) (s : R)
      → 0 < window
      → After 0 ts
      → r.entries key s ≡ []
      → IsFair (allowed_times ts s [])
  allowed_times-IsFair ts s w h e = IsFair-from w ts 0 s [] h e tt tt
