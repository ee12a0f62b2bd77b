-- ===== src/Logical/Points/Toggles.antt =====
-- internal/source/logical/loop.go: the choice of the way to read the source agrees with the routine that changes it.
use cdc_sink_redshift.Common.{
  ◌≡◌, refl, Bool, true, false, not, ◌&&◌, some, if◌then◌else◌, Bool-cases, inl, inr, arith,
}
use cdc_sink_redshift.Common.Int.{ℤ, pos, ltb_ℤ}
use cdc_sink_redshift.Logical.Points.{choose_fill_strategy, can_backfill, stops}

ltb_ℤ-asym : (a b : ℤ) → ltb_ℤ a b ≡ true → ltb_ℤ b a ≡ false
ltb_ℤ-asym a b h = ground (arith, h)

-- A dialect backfills exactly if it can and its point is not young.
choose_lem :
    (immediate backfiller : Bool) (window age : ℤ)
    → (choose_fill_strategy immediate backfiller window (some age)).2
      ≡ (can_backfill backfiller window && not (ltb_ℤ age window))
unfolding choose_fill_strategy can_backfill
choose_lem immediate false window age = refl
choose_lem immediate true window age = elim (Bool-cases (ltb_ℤ (pos 0) window)) [
  | inl enabled ↦ elim (Bool-cases (ltb_ℤ age window)) [
    | inl young ↦ rw (enabled, young) refl
    | inr old ↦ rw (enabled, old) refl
  ]
  | inr disabled ↦ rw disabled refl
]

-- What is left when the tests are Booleans.
settled :
    (flag can young older : Bool)
    → (young ≡ true → older ≡ false)
    → flag ≡ (can && not young)
    → (if flag then young else if can then older else false) ≡ false
settled flag can young older i e = ground (arith, i, e)

followed :
    (mode flag can young older : Bool)
    → (young ≡ true → older ≡ false)
    → flag ≡ (can && not young)
    → (mode ≡ true → can ≡ true)
    → (if mode then young else if can then older else false) ≡ true
    → flag ≡ not mode
followed true flag can young older i e c h = ground (arith, i, e, h)
followed false flag can young older i e c h = ground (arith, i, e, h)

-- At the age at which it was chosen the way to read the source is not stopped, and one that is stopped, which backfills
-- only if it can, is followed by the other one at that age.
pub choose-stops :
    (immediate backfiller : Bool) (window age : ℤ)
    → (stops
          (choose_fill_strategy immediate backfiller window (some age)).2
          (can_backfill backfiller window)
          window
          age
        ≡ false)
      × ((mode : Bool)
          → (mode ≡ true → can_backfill backfiller window ≡ true)
          → stops mode (can_backfill backfiller window) window age ≡ true
          → (choose_fill_strategy immediate backfiller window (some age)).2 ≡ not mode)
unfolding stops
choose-stops immediate backfiller window age =
    let flag = (choose_fill_strategy immediate backfiller window (some age)).2 in
    let can = can_backfill backfiller window in
    let young = ltb_ℤ age window in
    let older = ltb_ℤ window age in
    let e = choose_lem immediate backfiller window age in
    (
      settled flag can young older (ltb_ℤ-asym age window) e,
      λ mode. followed mode flag can young older (ltb_ℤ-asym age window) e,
    )
