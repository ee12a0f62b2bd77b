-- ===== src/Batches/Cover.antt =====
-- internal/util/batches/batches.go: `Window` covers the range.
use cdc_sink_redshift.Common.{
  ℕ, zero, suc, ◌+◌, ◌-◌, ◌≤◌, ◌<◌, ◌≡◌, refl, Option, none, some, List, [], ◌∷◌, inl, inr,
  if◌then◌else◌, ltb, ◌==◌, arith, Bool-cases, Option-cases,
}
use cdc_sink_redshift.Batches.{Callback, window_loop, window}

-- Windows from `i` on that follow one another, none wider than `bound`, the last of which ends at
-- `stop`; there is at least one.
abbrev pub Covers : ℕ → ℕ → ℕ → List (ℕ × ℕ) → Type 0
Covers bound i stop [] = ⊥
Covers bound i stop ((b, e) ∷ []) = (b ≡ i) × (i ≤ e) × (e ≤ i + bound) × (e ≡ stop)
Covers bound i stop ((b, e) ∷ w ∷ ws) =
    (b ≡ i) × (i < e) × (e ≤ i + bound) × Covers bound e stop (w ∷ ws)

-- The width of a window: the limit or what is left.
abbrev width : ℕ → ℕ → ℕ
width size count = if ltb count size then count else size

-- The windows that the loop passes to the callback.
ranges : ℕ → ℕ → ℕ → ℕ → List (ℕ × ℕ)
ranges zero size idx count = []
ranges (suc fuel) size idx count =
    let w = width size count in
    let rest = ranges fuel w (idx + w) (count - w) in
    (idx, idx + w) ∷ (if w == count then [] else rest)

Covers-cons :
    (bound i e stop : ℕ) (ws : List (ℕ × ℕ))
    → i < e
    → e ≤ i + bound
    → Covers bound e stop ws
    → Covers bound i stop ((i, e) ∷ ws)
Covers-cons bound i e stop [] a b c = elim c [ ]
Covers-cons bound i e stop (w ∷ ws) a b c = (refl, a, b, c)

ranges-Covers :
    (bound fuel size idx count stop : ℕ)
    → count < fuel
    → 0 < size
    → size ≤ bound
    → idx + count ≡ stop
    → Covers bound idx stop (ranges fuel size idx count)
unfolding ranges
ranges-Covers bound zero size idx count stop f p b e = elim f [ ]
ranges-Covers bound (suc fuel) size idx count stop f p b e =
    elim (Bool-cases (width size count == count)) [
      | inl last ↦ rw last (refl, ground arith, ground arith, ground arith)
      | inr more ↦
          let w : width size count ≡ size = ground arith in
          let c : size < count = ground arith in
          rw (more, w)
            (Covers-cons bound idx (idx + size) stop _ (omega arith) (omega arith) (
              ranges-Covers bound fuel size (idx + size) (count - size) stop (omega arith) p b
                (omega arith)))
    ]

module _ {ℓ κ} {S : Type ℓ} {E : Type κ} (fn : Callback S E) where
  -- The callback on each window in turn, up to the first error.
  pub each : List (ℕ × ℕ) → S → S × Option E
  each [] s = (s, none)
  each ((b, e) ∷ ws) s =
      let (s', err) = fn b e s in elim err [ some x ↦ (s', some x) | none ↦ each ws s' ]

  window_loop-each :
      (fuel size idx count : ℕ) (s : S)
      → count < fuel
      → 0 < size
      → window_loop fn fuel size idx count s ≡ some (each (ranges fuel size idx count) s)
  unfolding window_loop each ranges
  window_loop-each zero size idx count s f p = elim f [ ]
  window_loop-each (suc fuel) size idx count s f p =
      let w = width size count in
      elim (Option-cases (fn idx (idx + w) s).1) [
        | inr (x, e) ↦ rw (e, window_loop, each)
        | inl e ↦ elim (Bool-cases (w == count)) [
          | inl last ↦ rw (e, last, window_loop, each)
          | inr more ↦
              rw (e, more, window_loop, each)
                (window_loop-each fuel w (idx + w) (count - w) (fn idx (idx + w) s).0 (ground arith)
                  (ground arith))
        ]
      ]

  -- With a positive width `Window` ends, and it passes to the callback windows that follow one
  -- another from 0 to the count, none wider than the limit, up to the callback's first error, which
  -- it returns. A count of 0 gives one empty window.
  pub window-each :
      (size count : ℕ)
      → 0 < size
      → (ws : List (ℕ × ℕ)) × Covers size 0 count ws
        × ((s : S) → window fn size count s ≡ some (each ws s))
  unfolding window
  window-each size count p = (
    ranges (suc count) size 0 count,
    ranges-Covers size (suc count) size 0 count count (omega arith) p (omega arith) (omega arith),
    λ s. window_loop-each (suc count) size 0 count s (omega arith) p,
  )
