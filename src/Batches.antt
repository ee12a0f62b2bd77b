-- ===== src/Batches.antt =====
-- internal/util/batches/batches.go: windows of a limited width over a range. The loop takes fuel;
-- the widths and counts are not negative.
pub mod Cover
mod Tests
use cdc_sink_redshift.Common.{
  Bool, ℕ, zero, suc, ◌+◌, ◌-◌, Option, none, some, if◌then◌else◌, ltb, ◌==◌,
}

-- What a callback does to the state of its caller, and the error that it returns.
abbrev pub Callback {ℓ κ} : Type ℓ → Type κ → Type (ℓ ⊔ κ)
Callback S E = ℕ → ℕ → S → S × Option E

module _ {ℓ κ} {S : Type ℓ} {E : Type κ} (fn : Callback S E) where
  -- The loop of `Window`; `none` means that the fuel ran out.
  unfoldable pub window_loop : ℕ → ℕ → ℕ → ℕ → S → Option (S × Option E)
  window_loop zero batch_size idx count s = none
  window_loop (suc fuel) batch_size idx count s =
      let size = if ltb count batch_size then count else batch_size in
      let next = λ (s' : S). window_loop fuel size (idx + size) (count - size) s' in
      let (s', err) = fn idx (idx + size) s in
      elim err [
        | some e ↦ some (s', some e)
        | none ↦ elim (size == count) [ Bool.true ↦ some (s', none) | Bool.false ↦ next s' ]
      ]

  -- `Window`.
  unfoldable pub window : ℕ → ℕ → S → Option (S × Option E)
  window batch_size count s = window_loop (suc count) batch_size 0 count s
