-- ===== src/Logical/Points.antt =====
-- internal/source/logical/loop.go: the consistent point of a loop, in memory and in the memo table, and the choice of how
-- to read the source. Marshalling and the stamps are of the parameters; what the database says to a write is an argument.
pub mod Resumes
pub mod Toggles
mod Tests
use cdc_sink_redshift.Common.{
  Bytes, Bool, true, false, not, ◌&&◌, is_empty, Option, none, some, if◌then◌else◌, Outcome, done,
  failed,
}
use cdc_sink_redshift.Common.Int.{ℤ, pos, ltb_ℤ}
use Prim.Native.Nat.{Ordering}
use cdc_sink_redshift.Stamp as Stamp
use cdc_sink_redshift.Notify.{Var, set_var, update}
use cdc_sink_redshift.Staging.Memo.{MemoTable, memo_get, memo_put}

-- The state of a loop that is shared: its rows of the memo table, and its point, which is nil at first.
pub record LoopState (S : Type 0) : Type 0 where
  pub memo : MemoTable
  pub consistent_point : Var (Option S)

-- The errors of `SetConsistentPoint`; `not_stored` wraps one of marshalling or of the database.
pub data PointError (E : Type 0) : Type 0 where
  backwards stalled : PointError E
  not_stored : E → PointError E

-- The callback of `SetConsistentPoint`, from the comparison of the new point with the old.
unfoldable pub accept : {S E : Type 0} → S → Ordering → Outcome (PointError E) (Option S)
accept next Ordering.lt = failed backwards
accept next Ordering.eq = failed stalled
accept next Ordering.gt = done (some next)

module _ {S E : Type 0} (encode : S → Outcome E Bytes) (name : Bytes) where
  -- `storeConsistentPoint`, when the point has been marshalled, and the database takes the write or refuses it.
  unfoldable pub write_point :
      Option E → MemoTable → Outcome E Bytes → MemoTable × Option (PointError E)
  write_point refused t (failed e) = (t, some (not_stored e))
  write_point (some e) t (done data_put) = (t, some (not_stored e))
  write_point none t (done data_put) = (memo_put t name data_put, none)

  unfoldable pub store_consistent_point :
      Option E → S → MemoTable → MemoTable × Option (PointError E)
  store_consistent_point refused p t = write_point refused t (encode p)

  -- The rest of `SetConsistentPoint` after the update of the variable.
  unfoldable pub after_update :
      Option E
      → S
      → MemoTable
      → Var (Option S) × Option (PointError E)
      → LoopState S × Option (PointError E)
  after_update refused next t (v, some err) = (record { memo = t; consistent_point = v }, some err)
  after_update refused next t (v, none) =
      let r = store_consistent_point refused next t in
      (record { memo = r.0; consistent_point = v }, r.1)

  -- `SetConsistentPoint`.
  unfoldable pub set_consistent_point :
      (same less : S → S → Bool) → Option E → S → LoopState S → LoopState S × Option (PointError E)
  set_consistent_point same less refused next l =
      after_update refused next l.memo
        (update (λ old. accept next (Stamp.compare same less (some next) old)) l.consistent_point)

-- The point that `runOnce` sets before it reads the source, or its error.
unfoldable pub set_loaded : {S E : Type 0} → LoopState S → Outcome E S → LoopState S × Option E
set_loaded l (failed e) = (l, some e)
set_loaded l (done point) =
    (record l { consistent_point = set_var (some point) l.consistent_point }, none)

module _ {S E : Type 0} (unmarshal : Bytes → Outcome E S)
    (unmarshal_text : Option (Bytes → Outcome E S)) (name default_point : Bytes)
    (zero_stamp : S) where
  -- The point of a loop that has stored none: the one of the flags, for stamps that can be read from text.
  unfoldable pub first_point : Option (Bytes → Outcome E S) → Outcome E S
  first_point none = done zero_stamp
  first_point (some read_text) =
      if is_empty default_point then done zero_stamp else read_text default_point

  -- `loadConsistentPoint`.
  unfoldable pub load_consistent_point : MemoTable → Outcome E S
  load_consistent_point t =
      let stored = memo_get t name in
      if is_empty stored then first_point unmarshal_text else unmarshal stored

  -- The start of `runOnce` under its lease, up to the choice of how to read the source.
  unfoldable pub reload : LoopState S → LoopState S × Option E
  reload l = set_loaded l (load_consistent_point l.memo)

-- Where the messages come from, and how they are applied.
pub data Filler : Type 0 where
  read_into backfill_into : Filler

pub data Applier : Type 0 where
  by_fan by_serial : Applier

-- `chooseFillStrategy`: whether the user wants fan mode, whether the dialect is a `Backfiller`, the window, and the age of
-- the point, if it is a `TimeStamp`.
unfoldable pub choose_fill_strategy : Bool → Bool → ℤ → Option ℤ → Filler × Applier × Bool
choose_fill_strategy immediate backfiller window none =
    (read_into, (if immediate then by_fan else by_serial), false)
choose_fill_strategy immediate backfiller window (some age) =
    if not backfiller
    then (read_into, (if immediate then by_fan else by_serial), false)
    else if not (ltb_ℤ (pos 0) window)
    then (read_into, (if immediate then by_fan else by_serial), false)
    else if ltb_ℤ age window
    then (read_into, (if immediate then by_fan else by_serial), false)
    else (backfill_into, by_fan, true)

-- `canBackfill` of `runOnceUsing`.
unfoldable pub can_backfill : Bool → ℤ → Bool
can_backfill backfiller window = backfiller && ltb_ℤ (pos 0) window

-- Whether the routine that watches the point stops the iteration, at an age of the point.
unfoldable pub stops : Bool → Bool → ℤ → ℤ → Bool
stops is_backfilling can_fill window age =
    if is_backfilling then ltb_ℤ age window else if can_fill then ltb_ℤ window age else false
