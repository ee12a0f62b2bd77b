-- ===== src/Cdc/Stamps/Steps.antt =====
-- internal/source/cdc/resolved_stamp.go: the state diagram of a resolver's stamps as a step relation.
use cdc_sink_redshift.Common.{
  ◌≡◌, ◌⊎◌, inl, inr, refl, ap, subst, false, arith, Bool-cases, Option, none, some, done,
}
use cdc_sink_redshift.Hlc.{Time, zero_time, is_zero_time, lt, IsValid, Before}
use cdc_sink_redshift.Hlc.Order.{compare-sign}
use cdc_sink_redshift.Cdc.Stamps.{
  ResolvedStamp, zero_stamp, Offset, new_committed, new_proposed, new_progress, next_iteration,
}
use cdc_sink_redshift.Cdc.Stamps.Order.{IsTimed, Before-cotrans, Before-asym}

abbrev pub NotAfter : Time → Time → Type 0
NotAfter a b = ¬ Before b a

-- A cursor whose time is valid and lies within the proposed one, as the bound of the query makes it.
abbrev pub Within : Time → Option Offset → Type 0
Within end none = Unit
Within end (some c) = IsValid c.time × NotAfter c.time end

-- One transition of a stamp.
pub data Step (s t : ResolvedStamp) : Type 0 where
  commits : new_committed s ≡ done t → Step s t
  proposes : (p : Time) → IsValid p → new_proposed s p ≡ done t → Step s t
  progresses : (c : Option Offset) → Within s.proposed_time c → new_progress s c ≡ t → Step s t

pub data Steps (s : ResolvedStamp) : ResolvedStamp → Type 0 where
  here : Steps s s
  then_step : (t u : ResolvedStamp) → Steps s t → Step t u → Steps s u

-- What every stamp of a resolver meets: its times are valid, and unless nothing is proposed, the
-- proposed time is after neither the committed time nor the offset.
pub record Sound (s : ResolvedStamp) : Type 0 where
  pub timed : IsTimed s
  pub window : (s.proposed_time ≡ zero_time) ⊎ NotAfter s.committed_time s.proposed_time
  pub progress : NotAfter s.offset_time s.proposed_time

pub zero_time-IsValid : IsValid zero_time
zero_time-IsValid = record {
  nanos_range = omega arith;
  logical_range = omega arith;
  nanos_nonneg = omega arith;
  logical_nonneg = omega arith;
}

pub NotAfter_refl : (a : Time) → NotAfter a a
NotAfter_refl a h = absurd (Before-asym a a h h)

pub NotAfter-trans : (a b c : Time) → NotAfter a b → NotAfter b c → NotAfter a c
NotAfter-trans a b c p q h = elim (Before-cotrans c a b h) [ inl x ↦ q x | inr x ↦ p x ]

pub lt-NotAfter : (a b : Time) → IsValid a → IsValid b → lt a b ≡ false → NotAfter b a
lt-NotAfter a b ha hb e h = absurd (ground (arith, (compare-sign a b ha hb).0.1 h, e))

not_zero : (t : Time) → is_zero_time t ≡ false → ¬ (t ≡ zero_time)
not_zero t h e = absurd (ground (arith, ap is_zero_time e, h))

-- What a stamp that `NewCommitted` returns is.
new_committed-is :
    (s t : ResolvedStamp)
    → new_committed s ≡ done t
    → (is_zero_time s.proposed_time ≡ false)
      × (record zero_stamp { committed_time = s.proposed_time } ≡ t)
unfolding new_committed
new_committed-is s t h = ground arith

-- What a stamp that `NewProposed` returns is, and the tests that it has passed.
pub new_proposed-is :
    (s t : ResolvedStamp) (p : Time)
    → new_proposed s p ≡ done t
    → (lt p s.committed_time ≡ false)
      × (lt p s.offset_time ≡ false)
      × (lt p s.proposed_time ≡ false)
      × (record s { iteration = next_iteration s.iteration; proposed_time = p } ≡ t)
unfolding new_proposed
new_proposed-is s t p h = ground arith

-- The stamps that the three transitions make.
abbrev pub Kept : ResolvedStamp → ResolvedStamp → Type 0
Kept s t = Sound t × NotAfter s.committed_time t.committed_time

commits-Kept :
    (s : ResolvedStamp)
    → Sound s
    → is_zero_time s.proposed_time ≡ false
    → Kept s (record zero_stamp { committed_time = s.proposed_time })
commits-Kept s k z = (
  record {
    timed = record {
      committed = k.timed.proposed;
      proposed = zero_time-IsValid;
      offset = zero_time-IsValid;
    };
    window = inl refl;
    progress = NotAfter_refl zero_time;
  },
  elim k.window [ inl e ↦ absurd (not_zero s.proposed_time z e) | inr w ↦ w ],
)

pub proposes-Kept :
    (s : ResolvedStamp) (p : Time)
    → Sound s
    → IsValid p
    → lt p s.committed_time ≡ false
    → lt p s.offset_time ≡ false
    → Kept s (record s { iteration = next_iteration s.iteration; proposed_time = p })
proposes-Kept s p k v a b = (
  record {
    timed = record { committed = k.timed.committed; proposed = v; offset = k.timed.offset };
    window = inr (lt-NotAfter p s.committed_time v k.timed.committed a);
    progress = lt-NotAfter p s.offset_time v k.timed.offset b;
  },
  NotAfter_refl s.committed_time,
)

pub progresses-Kept :
    (s : ResolvedStamp) (c : Option Offset)
    → Sound s
    → Within s.proposed_time c
    → Kept s (new_progress s c)
unfolding new_progress
progresses-Kept s none k w = (
  record {
    timed = record {
      committed = k.timed.committed;
      proposed = k.timed.proposed;
      offset = k.timed.offset;
    };
    window = k.window;
    progress = k.progress;
  },
  NotAfter_refl s.committed_time,
)
progresses-Kept s (some c) k w = elim (Bool-cases s.backfill) [
  | inl on ↦ rw on (
    record {
      timed = record { committed = k.timed.committed; proposed = k.timed.proposed; offset = w.0 };
      window = k.window;
      progress = w.1;
    },
    NotAfter_refl s.committed_time,
  )
  | inr off ↦ rw off (
    record {
      timed = record { committed = k.timed.committed; proposed = k.timed.proposed; offset = w.0 };
      window = k.window;
      progress = w.1;
    },
    NotAfter_refl s.committed_time,
  )
]

Step-Kept : (s t : ResolvedStamp) → Step s t → Sound s → Kept s t
Step-Kept s t (commits h) k =
    let (z, e) = new_committed-is s t h in subst (λ u. Kept s u) e (commits-Kept s k z)
Step-Kept s t (proposes p v h) k =
    let (a, b, c, e) = new_proposed-is s t p h in
    subst (λ u. Kept s u) e (proposes-Kept s p k v a b)
Step-Kept s t (progresses c w e) k = subst (λ u. Kept s u) e (progresses-Kept s c k w)

-- From a stamp with valid times whose offset is not after its proposed time, and whose committed time is
-- not after its proposed time unless that is zero: through any row of transitions, with valid proposed
-- times and cursors that are valid and not after the proposed time, the same holds of every later stamp,
-- and the committed time never goes back.
pub Steps-committed :
    (s t : ResolvedStamp)
    → Steps s t
    → Sound s
    → Sound t × NotAfter s.committed_time t.committed_time
Steps-committed s _ here k = (k, NotAfter_refl s.committed_time)
Steps-committed s _ (then_step t u before last) k =
    let (kt, a) = Steps-committed s t before k in
    let (ku, b) = Step-Kept t u last kt in
    (ku, NotAfter-trans s.committed_time t.committed_time u.committed_time a b)
