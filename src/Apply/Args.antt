-- ===== src/Apply/Args.antt =====
-- internal/target/apply/apply.go, upsertArgsLocked: property bags become the arguments of an upsert. The
-- parse function of a column, the encoder of the extra properties and the decimal package are parameters.
pub mod Bounds
pub mod Writes
pub mod Slots
pub mod Placed
pub mod Rows
pub mod Located
pub mod Total
use cdc_sink_redshift.Common.{
  ℕ, zero, suc, ◌+◌, ◌*◌, Bool, true, false, Option, none, some, List, [], ◌∷◌, ◌++◌, if◌then◌else◌,
  ltb, Outcome, done, failed, Run, returned, raised, panicked, ◌>>=◌, Bytes, Any, null, number,
  text, boolean, length, set, take,
}
use cdc_sink_redshift.Cmap as Cmap
use cdc_sink_redshift.Cmap.{Map, Entry}
use cdc_sink_redshift.Merge.Bag as Bag
use cdc_sink_redshift.Merge.Bag.{ColData, Slot, BagError, validate_pk, validate_no_unmapped}
use cdc_sink_redshift.Apply.Mapping.{Position, Mapping}
use cdc_sink_redshift.Apply.Numbers.{remove_exponent}
use cdc_sink_redshift.Apply.Columns.{ColumnsError, to_columns}

-- The errors of `upsertArgsLocked`, those of its parameters being of type `P`.
pub data ArgsError (K P : Type 0) : Type 0 where
  schema_drift : ℕ → BagError K → ArgsError K P
  could_not_parse : Any → P → ArgsError K P
  no_position : K → ArgsError K P
  could_not_encode : P → ArgsError K P
  not_columnar : ColumnsError {0} → ArgsError K P

-- The arguments of a statement, by rows or by columns.
pub data Args : Type 0 where
  flat : List Any → Args
  columnar : List (List Any) → Args

-- A write into a slice, which panics out of range.
unfoldable pub write : {E : Type 0} → List Any → ℕ → Any → Run E (List Any)
write args i v = if ltb i (length args) then returned (set args i v) else panicked

unfoldable pub nils : ℕ → List Any
nils zero = []
nils (suc n) = null ∷ nils n

unfoldable pub by_columns :
    {K P : Type 0}
    → Option (Outcome (ColumnsError {0}) (List (List Any)))
    → Run (ArgsError K P) Args
by_columns none = panicked
by_columns (some (failed e)) = raised (not_columnar e)
by_columns (some (done columns)) = returned (columnar columns)

-- The pivot to the columnar layout, if it is asked for.
unfoldable pub pivot : {K P : Type 0} → Bool → ℕ → ℕ → List Any → Run (ArgsError K P) Args
pivot false columns rows args = returned (flat args)
pivot true columns rows args = by_columns (to_columns columns rows args)

-- `a.mu.templates`, less the templates: the mapping, and whether arguments go by columns.
pub record Templates (K C M : Type 0) : Type 0 where
  pub mapping : Mapping K C M
  pub bulk_delete : Bool
  pub bulk_upsert : Bool

module _ {K C P : Type 0} (eq : C → C → Bool) (mapper : K → C) (plain : Bytes → Option Bytes)
    (parse : ColData K → Option (Any → Outcome P Any))
    (marshal : Map K C Any → Outcome P Bytes) where
  -- A value after the fix-ups of its column.
  unfoldable pub fix_up : Any → Option (Any → Outcome P Any) → Run (ArgsError K P) Any
  fix_up v none = returned v
  fix_up v (some f) = elim (f v) [ done w ↦ returned w | failed e ↦ raised (could_not_parse v e) ]

  unfoldable pub convert : ColData K → Any → Run (ArgsError K P) Any
  convert col (number n) = do s ← remove_exponent plain n; returned (text s)
  convert col null = returned null
  convert col (text s) = fix_up (text s) (parse col)
  convert col (boolean b) = fix_up (boolean b) (parse col)
  convert col (Any.integer i) = fix_up (Any.integer i) (parse col)
  convert col (Any.opaque n) = fix_up (Any.opaque n) (parse col)

  -- The validity flag of a column, if it has one and the value is valid.
  unfoldable pub write_flag : ℕ → Bool → Option ℕ → List Any → Run (ArgsError K P) (List Any)
  write_flag arg_idx true (some i) args = write args (arg_idx + i) (boolean true)
  write_flag arg_idx true none args = returned args
  write_flag arg_idx false o args = returned args

  unfoldable pub write_value :
      ℕ → Bool → Any → Option ℕ → Option ℕ → List Any → Run (ArgsError K P) (List Any)
  write_value arg_idx valid value validity none args = returned args
  write_value arg_idx valid value validity (some i) args = do
    args ← write_flag arg_idx valid validity args
    write args (arg_idx + i) value

  unfoldable pub at_position :
      ℕ → K → Bool → Any → Option (Position K) → List Any → Run (ArgsError K P) (List Any)
  at_position arg_idx name valid value none args = raised (no_position name)
  at_position arg_idx name valid value (some p) args =
      write_value arg_idx valid value p.validity_index p.upsert_index args

  -- The callback on the mapped properties, and its loop.
  unfoldable pub fill_slot :
      Map K C (Position K) → ℕ → Entry K (Slot K) → List Any → Run (ArgsError K P) (List Any)
  fill_slot positions arg_idx e args = do
    value ← convert e.value.column e.value.value
    at_position arg_idx e.key e.value.valid value (Cmap.get eq mapper positions e.key) args

  unfoldable pub fill_slots :
      Map K C (Position K) → ℕ → List (Entry K (Slot K)) → List Any → Run (ArgsError K P) (List Any)
  fill_slots positions arg_idx [] args = returned args
  fill_slots positions arg_idx (e ∷ es) args = do
    args ← fill_slot positions arg_idx e args
    fill_slots positions arg_idx es args

  unfoldable pub drop_ignored : List K → Bag.Bag K C → Bag.Bag K C
  drop_ignored [] bag = bag
  drop_ignored (name ∷ names) bag = drop_ignored names (Bag.delete eq mapper bag name)

  -- The report on a bag at an offset.
  unfoldable pub checked : ℕ → Option (BagError K) → Run (ArgsError K P) Unit
  checked idx none = returned tt
  checked idx (some e) = raised (schema_drift idx e)

  unfoldable pub check_pk : ℕ → Option (Option (BagError K)) → Run (ArgsError K P) Unit
  check_pk idx none = panicked
  check_pk idx (some r) = checked idx r

  unfoldable pub encoded : Outcome P Bytes → Run (ArgsError K P) Bytes
  encoded (done s) = returned s
  encoded (failed e) = raised (could_not_encode e)

  -- The properties that have no column.
  unfoldable pub write_extras :
      ℕ → ℕ → Bag.Bag K C → Option ℕ → List Any → Run (ArgsError K P) (List Any)
  write_extras idx arg_idx bag none args = do
    ok ← checked idx (validate_no_unmapped bag)
    returned args
  write_extras idx arg_idx bag (some i) args = do
    extras ← encoded (marshal bag.unmapped)
    write args (arg_idx + i) (text extras)

  module _ {M : Type 0} where
    -- The body of the loop over the bags: the arguments, and the bag less the ignored columns.
    unfoldable pub fill_row :
        Mapping K C M
        → ℕ
        → ℕ
        → Bag.Bag K C
        → List Any
        → Run (ArgsError K P) (List Any × Bag.Bag K C)
    fill_row m idx arg_idx bag args = do
      ok ← check_pk idx (validate_pk eq mapper bag)
      args ← fill_slots m.positions arg_idx (Cmap.entries bag.mapped) args
      args ← write_extras idx arg_idx (drop_ignored m.ignore bag) m.extras_col_idx args
      returned (args, drop_ignored m.ignore bag)

    unfoldable pub fill_rows :
        Mapping K C M
        → ℕ
        → ℕ
        → List (Bag.Bag K C)
        → List Any
        → Run (ArgsError K P) (List Any × ℕ × List (Bag.Bag K C))
    fill_rows m idx arg_idx [] args = returned (args, arg_idx, [])
    fill_rows m idx arg_idx (bag ∷ bags) args = do
      filled ← fill_row m idx arg_idx bag args
      rest ← fill_rows m (suc idx) (arg_idx + m.upsert_parameter_count) bags filled.0
      returned (rest.0, rest.1, filled.1 ∷ rest.2)

    -- The arguments by rows, and the bags as they are left.
    unfoldable pub row_args :
        Mapping K C M → List (Bag.Bag K C) → Run (ArgsError K P) (List Any × List (Bag.Bag K C))
    row_args m bags = do
      filled ← fill_rows m 0 0 bags (nils (m.upsert_parameter_count * length bags))
      returned (take filled.1 filled.0, filled.2)

    -- `upsertArgsLocked`.
    unfoldable pub upsert_args :
        Templates K C M → List (Bag.Bag K C) → Run (ArgsError K P) (Args × List (Bag.Bag K C))
    upsert_args t bags = do
      filled ← row_args t.mapping bags
      args ← pivot t.bulk_upsert t.mapping.upsert_parameter_count (length bags) filled.0
      returned (args, filled.1)
