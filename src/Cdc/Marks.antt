-- ===== src/Cdc/Marks.antt =====
-- internal/source/cdc/resolver.go: the table of resolved timestamps of one target schema, and the
-- statements that mark, select and record them. The rows are a list, which the database may hold in any
-- order; the pair of numbers is the primary key.
pub mod Order
mod Tests
use cdc_sink_redshift.Common.{
  ℕ, suc, Bool, true, false, not, ◌&&◌, Option, none, some, List, [], ◌∷◌, if◌then◌else◌,
}
use cdc_sink_redshift.Hlc.{Time}
use cdc_sink_redshift.Sql.{pair_lt}

-- A row; `applied` tells whether `target_applied_at` is not null.
pub record Mark : Type 0 where
  pub time : Time
  pub applied : Bool

-- `ORDER BY source_nanos DESC, source_logical DESC LIMIT 1`.
unfoldable pub greatest : List Mark → Option Time
greatest [] = none
greatest (r ∷ rows) = elim (greatest rows) [
  | none ↦ some r.time
  | some t ↦ some (if pair_lt t r.time then r.time else t)
]

-- `ORDER BY source_nanos, source_logical LIMIT 1` of the rows that the test takes.
unfoldable pub least : (Mark → Bool) → List Mark → Option Time
least takes [] = none
least takes (r ∷ rows) = elim (takes r) [
  | false ↦ least takes rows
  | true ↦ elim (least takes rows) [
    | none ↦ some r.time
    | some t ↦ some (if pair_lt t r.time then t else r.time)
  ]
]

-- `Mark`: the rows, and whether one was inserted.
unfoldable pub mark_time : List Mark → Time → List Mark × Bool
mark_time rows ts = elim (greatest rows) [
  | none ↦ (record { time = ts; applied = false } ∷ rows, true)
  | some t ↦
      if pair_lt t ts then (record { time = ts; applied = false } ∷ rows, true) else (rows, false)
]

-- `selectTimestamp`: `none` is `errNoWork`.
unfoldable pub is_pending : Time → Mark → Bool
is_pending after r = not (pair_lt r.time after) && not r.applied

unfoldable pub select_timestamp : List Mark → Time → Option Time
select_timestamp rows after = least (is_pending after) rows
