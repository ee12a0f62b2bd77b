-- ===== src/Cdc/Marks/Order.antt =====
-- internal/source/cdc/resolver.go: marks rise, and the least pending one is selected.
use cdc_sink_redshift.Common.{
  ◌≡◌, ◌↔◌, ◌⊎◌, inl, inr, refl, sym, subst, Bool, true, false, Option, none, some, List, [], ◌∷◌,
  arith, if◌then◌else◌, Bool-cases, All, ℕ, suc, get_elem?, not_true,
}
use cdc_sink_redshift.Hlc.{Time, Before}
use cdc_sink_redshift.Cdc.Stamps.Order.{Before-asym, Before-total}
use cdc_sink_redshift.Cdc.Stamps.Steps.{NotAfter}
use cdc_sink_redshift.Sql.{pair_lt}
use cdc_sink_redshift.Sql.Order.{pair_lt_iff, not_lt, Before-up, Before-trans}
use cdc_sink_redshift.Cdc.Marks.{Mark, greatest, least, mark_time, is_pending, select_timestamp}

-- What `greatest` finds: nothing in no rows, else a time that no row is after.
abbrev Top : List Mark → Option Time → Type 0
Top rows none = rows ≡ []
Top rows (some t) = All (λ (r : Mark). NotAfter r.time t) rows

All-NotAfter_up :
    (a b : Time)
    → Before a b
    → (rows : List Mark) → All (λ (r : Mark). NotAfter r.time a) rows
    → All (λ (r : Mark). NotAfter r.time b) rows
All-NotAfter_up a b p [] h = tt
All-NotAfter_up a b p (r ∷ rows) h =
    (Before-asym r.time b (Before-up r.time a b h.0 p), All-NotAfter_up a b p rows h.1)

Top-pick :
    (rows : List Mark) (r : Mark) (t : Time) (b : Bool)
    → pair_lt t r.time ≡ b
    → All (λ (x : Mark). NotAfter x.time t) rows
    → Top (r ∷ rows) (some (if b then r.time else t))
Top-pick rows r t true e h = (
  λ p. absurd (Before-asym r.time r.time p p),
  All-NotAfter_up t r.time ((pair_lt_iff t r.time).0 e) rows h,
)
Top-pick rows r t false e h = (not_lt t r.time e, h)

greatest-Top : (rows : List Mark) → Top rows (greatest rows)
unfolding greatest
greatest-Top [] = refl
greatest-Top (r ∷ rows) = go (greatest rows) (greatest-Top rows)
  where
    go :
        (o : Option Time)
        → Top rows o
        → Top
            (r ∷ rows)
            (elim o [ none ↦ some r.time | some t ↦ some (if pair_lt t r.time then r.time else t) ])
    go none h = (
      λ p. absurd (Before-asym r.time r.time p p),
      subst (All (λ (x : Mark). NotAfter x.time r.time)) (sym h) tt,
    )
    go (some t) h = Top-pick rows r t (pair_lt t r.time) refl h

-- What holds of every time holds of the greatest.
Found : (Time → Type 0) → Option Time → Type 0
Found P none = Unit
Found P (some t) = P t

Found-pick :
    (P : Time → Type 0) (a t : Time) (b : Bool) → P a → P t → Found P (some (if b then a else t))
unfolding Found
Found-pick P a t true pa pt = pa
Found-pick P a t false pa pt = pt

greatest-All :
    (P : Time → Type 0) (rows : List Mark)
    → All (λ (r : Mark). P r.time) rows
    → Found P (greatest rows)
unfolding greatest Found
greatest-All P [] h = tt
greatest-All P (r ∷ rows) h = go (greatest rows) (greatest-All P rows h.1)
  where
    go :
        (o : Option Time)
        → Found P o
        → Found P
            (elim o [ none ↦ some r.time | some u ↦ some (if pair_lt u r.time then r.time else u) ])
    go none k = h.0
    go (some u) k = Found-pick P r.time u (pair_lt u r.time) h.0 k

-- `Mark` inserts a timestamp exactly if every row is before it; it then adds one pending row, and
-- otherwise it changes nothing.
pub mark_time-rises :
    (rows : List Mark) (ts : Time)
    → (((mark_time rows ts).1 ≡ true) ↔ All (λ (r : Mark). Before r.time ts) rows)
      × ((mark_time rows ts).0
          ≡ (if (mark_time rows ts).1 then record { time = ts; applied = false } ∷ rows else rows))
unfolding mark_time Found
mark_time-rises rows ts = go (greatest rows) (greatest-Top rows) (λ P h. greatest-All P rows h)
  where
    outcome : Option Time → List Mark × Bool
    outcome none = (record { time = ts; applied = false } ∷ rows, true)
    outcome (some t) =
        if pair_lt t ts then (record { time = ts; applied = false } ∷ rows, true) else (rows, false)

    up :
        (t : Time)
        → Before t ts
        → (xs : List Mark) → All (λ (r : Mark). NotAfter r.time t) xs
        → All (λ (r : Mark). Before r.time ts) xs
    up t p [] h = tt
    up t p (x ∷ xs) h = (Before-up x.time t ts h.0 p, up t p xs h.1)

    go :
        (o : Option Time)
        → Top rows o
        → ((P : Time → Type 0) → All (λ (r : Mark). P r.time) rows → Found P o)
        → (((outcome o).1 ≡ true) ↔ All (λ (r : Mark). Before r.time ts) rows)
          × ((outcome o).0
              ≡ (if (outcome o).1 then record { time = ts; applied = false } ∷ rows else rows))
    go none h f = ((λ e. subst (All (λ (x : Mark). Before x.time ts)) (sym h) tt, λ k. refl), refl)
    go (some t) h f = elim (Bool-cases (pair_lt t ts)) [
      | inl later ↦ rw later ((λ e. up t ((pair_lt_iff t ts).0 later) rows h, λ k. refl), refl)
      | inr not_later ↦ rw not_later (
        (
          λ e. absurd (ground arith),
          λ k. absurd (not_lt t ts not_later (f (λ (x : Time). Before x ts) k)),
        ),
        refl,
      )
    ]

-- What `least` finds among the rows that the test takes: nothing if there is none, else the time of one
-- that is after no other.
abbrev pub Chosen : (Mark → Bool) → List Mark → Option Time → Type 0
Chosen takes rows none = All (λ (x : Mark). takes x ≡ false) rows
Chosen takes rows (some t) =
    ((i : ℕ) × (r : Mark) × (get_elem? rows i ≡ some r) × (takes r ≡ true) × (r.time ≡ t))
    × All (λ (x : Mark). takes x ≡ true → NotAfter t x.time) rows

module _ (takes : Mark → Bool) where
  none-All :
      (t : Time) (rows : List Mark)
      → All (λ (x : Mark). takes x ≡ false) rows
      → All (λ (x : Mark). takes x ≡ true → NotAfter t x.time) rows
  none-All t [] h = tt
  none-All t (x ∷ xs) h = ((λ e. absurd (ground (arith, h.0, e))), none-All t xs h.1)

  lower-All :
      (s t : Time) (rows : List Mark)
      → Before s t
      → All (λ (x : Mark). takes x ≡ true → NotAfter t x.time) rows
      → All (λ (x : Mark). takes x ≡ true → NotAfter s x.time) rows
  lower-All s t [] p h = tt
  lower-All s t (x ∷ xs) p h =
      ((λ e q. h.0 e (Before-trans x.time s t q p)), lower-All s t xs p h.1)

  Chosen-skip :
      (r : Mark) (rows : List Mark) (o : Option Time)
      → takes r ≡ false
      → Chosen takes rows o
      → Chosen takes (r ∷ rows) o
  Chosen-skip r rows none e h = (e, h)
  Chosen-skip r rows (some t) e ((i, x, at, k, q), h) =
      ((suc i, x, at, k, q), ((λ f. absurd (ground (arith, e, f))), h))

  Chosen-pick :
      (r : Mark) (rows : List Mark) (t : Time) (b : Bool)
      → pair_lt t r.time ≡ b
      → takes r ≡ true
      → Chosen takes rows (some t)
      → Chosen takes (r ∷ rows) (some (if b then t else r.time))
  Chosen-pick r rows t true e k ((i, x, at, kx, q), h) =
      ((suc i, x, at, kx, q), ((λ f. Before-asym t r.time ((pair_lt_iff t r.time).0 e)), h))
  Chosen-pick r rows t false e k (w, h) = (
    (0, r, refl, k, refl),
    ((λ f p. absurd (Before-asym r.time r.time p p)), down (Before-total r.time t)),
  )
    where
      down :
          (Before r.time t ⊎ (r.time ≡ t) ⊎ Before t r.time)
          → All (λ (x : Mark). takes x ≡ true → NotAfter r.time x.time) rows
      down (inl p) = lower-All r.time t rows p h
      down (inr (inl q)) =
          subst (λ u. All (λ (x : Mark). takes x ≡ true → NotAfter u x.time) rows) (sym q) h
      down (inr (inr p)) = absurd (not_lt t r.time e p)

  least-Chosen : (rows : List Mark) → Chosen takes rows (least takes rows)
  unfolding least
  least-Chosen [] = tt
  least-Chosen (r ∷ rows) = go (takes r) refl (least takes rows) (least-Chosen rows)
    where
      go :
          (b : Bool)
          → takes r ≡ b
          → (o : Option Time) → Chosen takes rows o
          → Chosen takes (r ∷ rows) (elim b [
            | false ↦ o
            | true ↦ elim o [
              | none ↦ some r.time
              | some t ↦ some (if pair_lt t r.time then t else r.time)
            ]
          ])
      go false e o h = Chosen-skip r rows o e h
      go true e none h = (
        (0, r, refl, e, refl),
        ((λ f p. absurd (Before-asym r.time r.time p p)), none-All r.time rows h),
      )
      go true e (some t) h = Chosen-pick r rows t (pair_lt t r.time) refl e h

-- `selectTimestamp` finds no work exactly if no row is pending, and otherwise the time of a pending row
-- that is after no other pending row; pending rows are those not applied whose time is not before the
-- one given.
pub select_timestamp-Chosen :
    (rows : List Mark) (after : Time)
    → Chosen (is_pending after) rows (select_timestamp rows after)
      × ((r : Mark) → (is_pending after r ≡ true) ↔ ((r.applied ≡ false) × NotAfter after r.time))
unfolding select_timestamp is_pending
select_timestamp-Chosen rows after = (
  least-Chosen (is_pending after) rows,
  λ r. (
    λ e. (ground arith, not_lt r.time after (ground arith)),
    λ h.
        let e = not_true (pair_lt r.time after) (λ q. h.1 ((pair_lt_iff r.time after).0 q)) in
        ground (arith, e),
  ),
)
