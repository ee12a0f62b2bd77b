-- ===== src/Hlc.antt =====
-- internal/util/hlc/hlc.go: hybrid-logical timestamps. Both parts are 64-bit signed integers; the
-- difference that `Compare` takes wraps around.
pub mod Order
mod Tests
use cdc_sink_redshift.Common.{ℕ, ◌≡◌, ◌⊎◌, Bool, if◌then◌else◌}
use cdc_sink_redshift.Common.Int.{ℤ, pos, ◌-ℤ◌, ◌<ℤ◌, ◌≤ℤ◌, IsInt64, wrap64, ltb_ℤ, is_zero}

-- `Time`.
pub record Time : Type 0 where
  pub nanos : ℤ
  pub logical : ℤ

-- `Compare`: a number whose sign tells the order.
unfoldable pub compare : Time → Time → ℤ
compare a b =
    let c = wrap64 (a.nanos -ℤ b.nanos) in if is_zero c then wrap64 (a.logical -ℤ b.logical) else c

-- The tests that the callers make: `Compare(a, b) < 0` and `Compare(a, b) > 0`.
unfoldable pub lt : Time → Time → Bool
lt a b = ltb_ℤ (compare a b) (pos 0)

unfoldable pub gt : Time → Time → Bool
gt a b = ltb_ℤ (pos 0) (compare a b)

-- `New`.
abbrev pub new : ℤ → ℤ → Time
new nanos logical = record { nanos = nanos; logical = logical }

-- `Zero`.
abbrev pub zero_time : Time
zero_time = new (pos 0) (pos 0)

-- `ts == hlc.Zero()`.
abbrev pub is_zero_time : Time → Bool
is_zero_time t = if is_zero t.nanos then is_zero t.logical else Bool.false

-- A timestamp as `Parse` makes it: two numbers that are not negative and fit.
pub record IsValid (t : Time) : Type 0 where
  pub nanos_range : IsInt64 t.nanos
  pub logical_range : IsInt64 t.logical
  pub nanos_nonneg : pos 0 ≤ℤ t.nanos
  pub logical_nonneg : pos 0 ≤ℤ t.logical

-- The order that timestamps mean: by the wall time, then by the logical part.
abbrev pub Before : Time → Time → Type 0
Before a b = (a.nanos <ℤ b.nanos) ⊎ ((a.nanos ≡ b.nanos) × (a.logical <ℤ b.logical))
