-- ===== src/Stamp/Order.antt =====
-- internal/util/stamp/stamp.go: what `Compare` says of two stamps.
use Prim.Native.Nat.{Ordering}
use cdc_sink_redshift.Common.{◌≡◌, ◌↔◌, Bool, true, false, Option, none, some, arith}
use cdc_sink_redshift.Stamp.{IsStampOrder, compare}

module _ {ℓ} {S : Type ℓ} (same less : S → S → Bool) where
  -- The order on stamps with nil below all others.
  abbrev pub Below : Option S → Option S → Type 0
  Below x none = ⊥
  Below none (some b) = Unit
  Below (some a) (some b) = less a b ≡ true

  module _ (o : IsStampOrder same less) where
    pub irrefl : (a : S) → less a a ≡ false
    irrefl a = ground (arith, o.asym a a)

    pub compare-lt : (x y : Option S) → (compare same less x y ≡ Ordering.lt) ↔ Below x y
    unfolding compare
    compare-lt none none = ground arith
    compare-lt none (some b) = ground arith
    compare-lt (some a) none = ground arith
    compare-lt (some a) (some b) = ground (arith, o.same_eq a b, irrefl b)

    pub compare-gt : (x y : Option S) → (compare same less x y ≡ Ordering.gt) ↔ Below y x
    unfolding compare
    compare-gt none none = ground arith
    compare-gt none (some b) = ground arith
    compare-gt (some a) none = ground arith
    compare-gt (some a) (some b) = ground (arith, o.same_eq a b, irrefl b, o.asym a b)

    pub Below-trans : (x y z : Option S) → Below x y → Below y z → Below x z
    Below-trans none (some y) (some z) p q = tt
    Below-trans (some x) (some y) (some z) p q = ground (arith, o.cotrans x y z, o.asym y z)
    Below-trans _ _ _ p q = ground arith
