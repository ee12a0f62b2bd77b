-- ===== src/Stamp.antt =====
-- internal/util/stamp/stamp.go: stamps and their comparison. A nil stamp is `none`; the test by
-- identity (`a == b`) and `Less` are parameters, with the laws of a stamp in `IsStampOrder`.
pub mod Order
pub mod Queue
use Prim.Native.Nat.{Ordering}
use cdc_sink_redshift.Common.{◌≡◌, ◌⊎◌, Bool, true, false, Option, none, some, if◌then◌else◌}

-- What the package asks of the implementations of `Stamp`: `Less` is a strict weak order, and a
-- stamp is not less than itself.
pub record IsStampOrder {ℓ} {S : Type ℓ} (same less : S → S → Bool) : Type ℓ where
  pub asym : (a b : S) → less a b ≡ true → less b a ≡ false
  pub cotrans : (a b c : S) → less a b ≡ true → (less a c ≡ true) ⊎ (less c b ≡ true)
  pub same_eq : (a b : S) → same a b ≡ true → a ≡ b

module _ {ℓ} {S : Type ℓ} (same less : S → S → Bool) where
  -- `Compare`: -1, 0 and 1 are `lt`, `eq` and `gt`.
  unfoldable pub compare : Option S → Option S → Ordering
  compare none none = Ordering.eq
  compare none (some b) = Ordering.lt
  compare (some a) none = Ordering.gt
  compare (some a) (some b) =
      if same a b
      then Ordering.eq
      else if less a b
      then Ordering.lt
      else if less b a
      then Ordering.gt
      else Ordering.eq

-- The tests of the callers: `Compare(a, b) < 0`, `<= 0` and `>= 0`.
abbrev pub is_lt : Ordering → Bool
is_lt Ordering.lt = true
is_lt _ = false

abbrev pub is_le : Ordering → Bool
is_le Ordering.gt = false
is_le _ = true

abbrev pub is_ge : Ordering → Bool
is_ge Ordering.lt = false
is_ge _ = true
