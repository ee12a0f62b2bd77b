-- ===== src/Cdc/Stamps.antt =====
-- internal/source/cdc/resolved_stamp.go: the progress of a resolver.
pub mod Order
pub mod Steps
pub mod Advance
mod Tests
use cdc_sink_redshift.Common.{
  Bool, true, false, not, Option, none, some, [], if◌then◌else◌, Bytes, Outcome, done, failed,
}
use cdc_sink_redshift.Common.Int.{ℤ, pos, ◌-ℤ◌, negsuc, wrap64, ltb_ℤ, is_zero}
use cdc_sink_redshift.Hlc.{Time, zero_time, is_zero_time}
use cdc_sink_redshift.Hlc as Hlc
use cdc_sink_redshift.Ident.{Table}

-- `resolvedStamp`.
pub record ResolvedStamp : Type 0 where
  pub backfill : Bool
  pub committed_time : Time
  pub iteration : ℤ
  pub proposed_time : Time
  pub offset_key : Bytes
  pub offset_table : Table
  pub offset_time : Time

-- `ZeroStamp`.
abbrev pub zero_stamp : ResolvedStamp
zero_stamp = record {
  backfill = false;
  committed_time = zero_time;
  iteration = pos 0;
  proposed_time = zero_time;
  offset_key = [];
  offset_table = none;
  offset_time = zero_time;
}

-- The offsets of `SelectManyCursor`.
pub record Offset : Type 0 where
  pub key : Bytes
  pub table : Table
  pub time : Time

-- `Less`.
unfoldable pub stamp_less : ResolvedStamp → ResolvedStamp → Bool
stamp_less s o =
    let c = Hlc.compare s.committed_time o.committed_time in
    let p = Hlc.compare s.proposed_time o.proposed_time in
    if not (is_zero c)
    then ltb_ℤ c (pos 0)
    else if not (is_zero p)
    then ltb_ℤ p (pos 0)
    else ltb_ℤ s.iteration o.iteration

pub data StampError : Type 0 where
  no_proposed rolls_back undoes_work goes_backward : StampError

-- `NewCommitted`.
unfoldable pub new_committed : ResolvedStamp → Outcome StampError ResolvedStamp
new_committed s =
    if is_zero_time s.proposed_time
    then failed no_proposed
    else done (record zero_stamp { committed_time = s.proposed_time })

-- `s.Iteration + 1`.
abbrev pub next_iteration : ℤ → ℤ
next_iteration i = wrap64 (i -ℤ negsuc 0)

-- `NewProposed`.
unfoldable pub new_proposed : ResolvedStamp → Time → Outcome StampError ResolvedStamp
new_proposed s proposed =
    if Hlc.lt proposed s.committed_time
    then failed rolls_back
    else if Hlc.lt proposed s.offset_time
    then failed undoes_work
    else if Hlc.lt proposed s.proposed_time
    then failed goes_backward
    else done (record s { iteration = next_iteration s.iteration; proposed_time = proposed })

-- `NewProgress`, with the cursor if it is not nil.
unfoldable pub new_progress : ResolvedStamp → Option Offset → ResolvedStamp
new_progress s none = record s { iteration = next_iteration s.iteration }
new_progress s (some c) =
    if s.backfill
    then record s {
      iteration = next_iteration s.iteration;
      offset_time = c.time;
      offset_key = c.key;
      offset_table = c.table;
    }
    else record s { iteration = next_iteration s.iteration; offset_time = c.time }
