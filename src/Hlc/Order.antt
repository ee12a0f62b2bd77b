-- ===== src/Hlc/Order.antt =====
-- internal/util/hlc/hlc.go: `Compare` against the order that it stands for.
use cdc_sink_redshift.Common.{◌≡◌, ◌↔◌, true, false, arith, not_true, if◌then◌else◌}
use cdc_sink_redshift.Common.Int.{ℤ, pos, ◌-ℤ◌, ◌<ℤ◌, ◌≤ℤ◌, IsInt64, wrap64, wrap64_id, is_zero}
use cdc_sink_redshift.Hlc.{Time, compare, lt, gt, IsValid, Before}

-- The difference of two int64 values that are not negative fits.
sub-IsInt64 : (a b : ℤ) → IsInt64 a → IsInt64 b → pos 0 ≤ℤ a → pos 0 ≤ℤ b → IsInt64 (a -ℤ b)
unfolding ◌-ℤ◌
sub-IsInt64 a b ha hb na nb = ground arith

wrap_sub : (a b : ℤ) → IsInt64 a → IsInt64 b → pos 0 ≤ℤ a → pos 0 ≤ℤ b → wrap64 (a -ℤ b) ≡ a -ℤ b
wrap_sub a b ha hb na nb = wrap64_id (a -ℤ b) (sub-IsInt64 a b ha hb na nb)

sub_neg : (a b : ℤ) → (a -ℤ b <ℤ pos 0) ↔ (a <ℤ b)
unfolding ◌-ℤ◌
sub_neg a b = ground arith

sub_zero : (a b : ℤ) → (is_zero (a -ℤ b) ≡ true) ↔ (a ≡ b)
unfolding ◌-ℤ◌
sub_zero a b = ground arith

-- Between valid timestamps no difference wraps around.
compare_nowrap :
    (a b : Time)
    → IsValid a
    → IsValid b
    → compare a b
      ≡ (if is_zero (a.nanos -ℤ b.nanos) then a.logical -ℤ b.logical else a.nanos -ℤ b.nanos)
unfolding compare
compare_nowrap a b ha hb = rw (
  wrap_sub a.nanos b.nanos ha.nanos_range hb.nanos_range ha.nanos_nonneg hb.nanos_nonneg,
  wrap_sub a.logical b.logical ha.logical_range hb.logical_range ha.logical_nonneg
      hb.logical_nonneg,
)

lt-Before : (a b : Time) → IsValid a → IsValid b → (lt a b ≡ true) ↔ Before a b
unfolding lt ◌-ℤ◌
lt-Before a b ha hb = rw (compare_nowrap a b ha hb) (ground arith)

gt-Before : (a b : Time) → IsValid a → IsValid b → (gt a b ≡ true) ↔ Before b a
unfolding gt ◌-ℤ◌
gt-Before a b ha hb = rw (compare_nowrap a b ha hb) (ground arith)

zero-eq : (a b : Time) → IsValid a → IsValid b → (is_zero (compare a b) ≡ true) ↔ (a ≡ b)
unfolding ◌-ℤ◌
zero-eq a b ha hb = rw (compare_nowrap a b ha hb) (ground arith)

-- Between valid timestamps the sign of the comparison is the order by wall time, then by logical
-- part: negative exactly if the first is before the second, positive exactly if it is after, and
-- zero exactly if they are equal.
pub compare-sign :
    (a b : Time)
    → IsValid a
    → IsValid b
    → ((lt a b ≡ true) ↔ Before a b)
      × ((gt a b ≡ true) ↔ Before b a)
      × ((is_zero (compare a b) ≡ true) ↔ (a ≡ b))
compare-sign a b ha hb = (lt-Before a b ha hb, gt-Before a b ha hb, zero-eq a b ha hb)

pub gt_irrefl : (a : Time) → IsValid a → gt a a ≡ false
gt_irrefl a ha = not_true (gt a a) (λ h. irrefl ((gt-Before a a ha ha).0 h))
  where
    irrefl : Before a a → ⊥
    irrefl p = omega arith

pub gt_trans :
    (a b c : Time)
    → IsValid a
    → IsValid b
    → IsValid c
    → gt a b ≡ true
    → gt b c ≡ true
    → gt a c ≡ true
gt_trans a b c ha hb hc p q =
    (gt-Before a c ha hc).1 (trans ((gt-Before a b ha hb).0 p) ((gt-Before b c hb hc).0 q))
  where
    trans : Before b a → Before c b → Before c a
    trans x y = ground arith
