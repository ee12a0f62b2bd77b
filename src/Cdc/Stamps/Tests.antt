-- ===== src/Cdc/Stamps/Tests.antt =====
-- internal/source/cdc/resolved_stamp.go: the theorems at concrete stamps.
use cdc_sink_redshift.Common.{ℕ, ◌≡◌, inl, refl, Bool, true, false, done, arith}
use cdc_sink_redshift.Common.Int.{pos, wrap64, ◌-ℤ◌}
use cdc_sink_redshift.Hlc as Hlc
use cdc_sink_redshift.Hlc.{Time, zero_time, IsValid, lt}
use cdc_sink_redshift.Stamp.{IsStampOrder}
use cdc_sink_redshift.Cdc.Stamps.{
  ResolvedStamp, zero_stamp, stamp_less, new_committed, new_proposed,
}
use cdc_sink_redshift.Cdc.Stamps.Order.{IsTimed, Timed, stamp_less-IsStampOrder}
use cdc_sink_redshift.Cdc.Stamps.Steps.{
  proposes, commits, here, then_step, Sound, NotAfter, Steps-committed,
}

abbrev at_time : ℕ → Time
at_time n = Hlc.new (pos n) (pos 0)

-- Time 5 proposed after nothing, and committed.
abbrev proposed_5 : ResolvedStamp
proposed_5 = record zero_stamp { iteration = pos 1; proposed_time = at_time 5 }

abbrev committed_5 : ResolvedStamp
committed_5 = record zero_stamp { committed_time = at_time 5 }

at_5-IsValid : IsValid (at_time 5)
at_5-IsValid = record {
  nanos_range = omega arith;
  logical_range = omega arith;
  nanos_nonneg = omega arith;
  logical_nonneg = omega arith;
}

zero-IsValid : IsValid zero_time
zero-IsValid = record {
  nanos_range = omega arith;
  logical_range = omega arith;
  nanos_nonneg = omega arith;
  logical_nonneg = omega arith;
}

zero_stamp-Sound : Sound zero_stamp
zero_stamp-Sound = record {
  timed = record { committed = zero-IsValid; proposed = zero-IsValid; offset = zero-IsValid };
  window = inl refl;
  progress = λ h. absurd (omega arith);
}

proposed_5-IsTimed : IsTimed proposed_5
proposed_5-IsTimed = record {
  committed = zero-IsValid;
  proposed = at_5-IsValid;
  offset = zero-IsValid;
}

propose_5 : new_proposed zero_stamp (at_time 5) ≡ done proposed_5
unfolding new_proposed Hlc.compare Hlc.lt wrap64 ◌-ℤ◌
propose_5 = refl

commit_5 : new_committed proposed_5 ≡ done committed_5
unfolding new_committed
commit_5 = refl

abbrev never : Timed → Timed → Bool
never a b = false

never_eq : (a b : Timed) → never a b ≡ true → a ≡ b
never_eq a b h = absurd (ground arith)

stamp_less-IsStampOrder_example : IsStampOrder never (λ a b. stamp_less a.0 b.0)
stamp_less-IsStampOrder_example = stamp_less-IsStampOrder never never_eq

Steps-committed_example :
    Sound committed_5 × NotAfter zero_stamp.committed_time committed_5.committed_time
Steps-committed_example =
    Steps-committed zero_stamp committed_5
      (then_step proposed_5 committed_5
        (then_step zero_stamp proposed_5 here (proposes (at_time 5) at_5-IsValid propose_5))
        (commits commit_5))
      zero_stamp-Sound
