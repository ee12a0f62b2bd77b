-- ===== src/Cdc/Stamps/Advance.antt =====
-- internal/source/cdc/resolved_stamp.go: proposals and progress advance a stamp.
use cdc_sink_redshift.Common.{
  ◌≡◌, inl, inr, refl, sym, subst, true, arith, Bool-cases, Option, none, some, done, ◌<◌, ◌-◌, ◌^◌,
}
use cdc_sink_redshift.Common.Int.{ℤ, pos, negsuc, pos_part, ◌-ℤ◌, ◌<ℤ◌, ◌≤ℤ◌, wrap64_id}
use cdc_sink_redshift.Hlc.{Time, IsValid}
use cdc_sink_redshift.Cdc.Stamps.{
  ResolvedStamp, Offset, stamp_less, new_proposed, new_progress, next_iteration,
}
use cdc_sink_redshift.Cdc.Stamps.Order.{StampBefore, stamp_less_iff, Before-total}
use cdc_sink_redshift.Cdc.Stamps.Steps.{
  NotAfter, Within, Sound, lt-NotAfter, new_proposed-is, proposes-Kept, progresses-Kept,
}

-- The counter can be raised without a wrap-around.
abbrev pub HasRoom : ResolvedStamp → Type 0
HasRoom s = (pos 0 ≤ℤ s.iteration) × (pos_part s.iteration < 2 ^ 63 - 1)

next_iteration-up : (i : ℤ) → pos 0 ≤ℤ i → pos_part i < 2 ^ 63 - 1 → i <ℤ next_iteration i
unfolding ◌-ℤ◌
next_iteration-up i h r =
    subst (λ z. i <ℤ z) (sym (wrap64_id (i -ℤ negsuc 0) (ground arith))) (ground arith)

new_progress-Before :
    (s : ResolvedStamp) (c : Option Offset) → HasRoom s → StampBefore s (new_progress s c)
unfolding new_progress
new_progress-Before s none r = inr (refl, inr (refl, next_iteration-up s.iteration r.0 r.1))
new_progress-Before s (some c) r = elim (Bool-cases s.backfill) [
  | inl on ↦ rw on (inr (refl, inr (refl, next_iteration-up s.iteration r.0 r.1)))
  | inr off ↦ rw off (inr (refl, inr (refl, next_iteration-up s.iteration r.0 r.1)))
]

proposed-Before :
    (s : ResolvedStamp) (p : Time)
    → HasRoom s
    → NotAfter s.proposed_time p
    → StampBefore s (record s { iteration = next_iteration s.iteration; proposed_time = p })
proposed-Before s p r n = elim (Before-total s.proposed_time p) [
  | inl b ↦ inr (refl, inl b)
  | inr (inl e) ↦ inr (refl, inr (e, next_iteration-up s.iteration r.0 r.1))
  | inr (inr b) ↦ absurd (n b)
]

-- A stamp with more progress is greater by `Less`, and so is one with a new proposal, if the counter
-- does not wrap around.
pub new_progress-proposed-less :
    (s t : ResolvedStamp) (c : Option Offset) (p : Time)
    → Sound s
    → HasRoom s
    → Within s.proposed_time c
    → IsValid p
    → new_proposed s p ≡ done t
    → (stamp_less s (new_progress s c) ≡ true) × (stamp_less s t ≡ true)
new_progress-proposed-less s t c p k r w v h =
    let (a, b, g, e) = new_proposed-is s t p h in
    let n = lt-NotAfter p s.proposed_time v k.timed.proposed g in
    let t' : ResolvedStamp = record s {
      iteration = next_iteration s.iteration;
      proposed_time = p;
    } in
    (
      (stamp_less_iff s (new_progress s c) k.timed (progresses-Kept s c k w).0.timed).1
          (new_progress-Before s c r),
      subst (λ u. stamp_less s u ≡ true) e
          ((stamp_less_iff s t' k.timed (proposes-Kept s p k v a b).0.timed).1
            (proposed-Before s p r n)),
    )
