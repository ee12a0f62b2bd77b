-- ===== src/Hlc/Tests.antt =====
-- internal/util/hlc/hlc.go: runs, and the theorems at concrete inputs.
use cdc_sink_redshift.Common.{◌-◌, ◌^◌, ◌≡◌, refl, true, arith}
use cdc_sink_redshift.Common.Int.{pos, negsuc, ◌-ℤ◌, wrap64}
use cdc_sink_redshift.Hlc.{Time, new, compare, lt, IsValid}

abbrev early : Time
early = new (pos 5) (pos 9)

abbrev late : Time
late = new (pos 7) (pos 0)

run_early : compare early late ≡ negsuc 1
unfolding compare wrap64 ◌-ℤ◌
run_early = refl

-- The difference of timestamps that lie far apart wraps around.
compare_far : lt (new (pos (2 ^ 63 - 1)) (pos 0)) (new (negsuc 0) (pos 0)) ≡ true
unfolding lt compare wrap64 ◌-ℤ◌
compare_far = refl

early-IsValid : IsValid early
early-IsValid = omega arith

late-IsValid : IsValid late
late-IsValid = omega arith
