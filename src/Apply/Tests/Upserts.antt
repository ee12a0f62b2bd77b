-- ===== src/Apply/Tests/Upserts.antt =====
-- internal/target/apply/apply.go, upsertArgsLocked: a run, and the theorems at it.
use cdc_sink_redshift.Common.{
  ℕ, ◌≡◌, ◌≢◌, refl, true, false, ==_iff, Option, none, some, List, [], ◌∷◌, Outcome, done,
  returned, Safe, length, Bytes, Any, text, boolean, inl, arith,
}
use cdc_sink_redshift.Cmap as Cmap
use cdc_sink_redshift.Merge.Bag as Bag
use cdc_sink_redshift.Merge.Bag.{ColData, new_bag}
use cdc_sink_redshift.Merge.Bag.Inv.{Inv, new_bag-Inv, put-delete-Inv}
use cdc_sink_redshift.Apply.Columns.{fill, cons_at, with_columns, to_columns}
use cdc_sink_redshift.Apply.Mapping.{
  Position, Product, contains, unused, fixed, valued, with_expr, column_slots, place, assemble,
  add_column, add_columns, ignore_name, ignore_names, rename_column, rename_columns, number_columns,
  empty_mapping, finish_mapping, finished, new_column_mapping,
}
use cdc_sink_redshift.Apply.Mapping.Renames.{Fresh}
use cdc_sink_redshift.Apply.Args.{
  Args, columnar, convert, drop_ignored, upsert_args, row_args, fill_rows, fill_row, fill_slots,
  fill_slot, at_position, write_value, write_flag, write, fix_up, write_extras, checked, check_pk,
  nils, pivot, by_columns,
}
use cdc_sink_redshift.Apply.Args.Writes.{Writes}
use cdc_sink_redshift.Apply.Args.Located.{At, upsert_args-At}
use cdc_sink_redshift.Apply.Args.Total.{ArgsFit, upsert_args-ArgsFit}
use cdc_sink_redshift.Apply.Tests.{
  digit, eq, column, columns, no_column, cfg, my_mapping, templates, my_bag, plain, my_mapping_made,
  plain_parses,
}

abbrev parse : ColData ℕ → Option (Any → Outcome Unit Any)
parse col = none

abbrev marshal : Cmap.Map ℕ ℕ Any → Outcome Unit Bytes
marshal m = done []

upsert_args-ArgsFit_example :
    Safe
      (λ (r : Args × List (Bag.Bag ℕ ℕ)).
        ArgsFit my_mapping.upsert_parameter_count 1 r.0 × (length r.1 ≡ 1))
      (upsert_args eq digit plain parse marshal templates (my_bag ∷ []))
upsert_args-ArgsFit_example =
    upsert_args-ArgsFit eq ==_iff digit plain parse marshal plain_parses cfg columns
      Product.postgresql no_column templates (my_bag ∷ []) my_mapping_made
      (new_bag-Inv eq ==_iff digit my_mapping.columns (some my_mapping.renames), tt)

-- A row with the key 7, and 8 for the column that has a default value.
abbrev my_row : Bag.Bag ℕ ℕ
my_row = Bag.put eq digit (Bag.put eq digit my_bag 1 (text (7 ∷ []))) 2 (text (8 ∷ []))

my_row-Inv : Inv eq ==_iff digit my_row
my_row-Inv =
    (put-delete-Inv eq ==_iff digit (Bag.put eq digit my_bag 1 (text (7 ∷ []))) 2 (text (8 ∷ []))
      (put-delete-Inv eq ==_iff digit my_bag 1 (text (7 ∷ []))
        (new_bag-Inv eq ==_iff digit my_mapping.columns (some my_mapping.renames))).0).0

abbrev my_left : Bag.Bag ℕ ℕ
my_left = drop_ignored eq digit plain parse marshal my_mapping.ignore my_row

abbrev my_slot : Cmap.Entry ℕ (Bag.Slot ℕ)
my_slot = record {
  key = 2;
  value = record { column = column 2 false false (b'0' ∷ []); valid = true; value = text (8 ∷ []) };
}

abbrev my_position : Cmap.Entry ℕ (Position ℕ)
my_position = record {
  key = 2;
  value = record {
    column = column 2 false false (b'0' ∷ []);
    delete_index = none;
    upsert_index = some 2;
    validity_index = some 1;
  };
}

abbrev my_args : Args
my_args = columnar ((text (7 ∷ []) ∷ []) ∷ (boolean true ∷ []) ∷ (text (8 ∷ []) ∷ []) ∷ [])

-- All of the code that a row runs.
program : Unit {0}
unfolding upsert_args row_args fill_rows fill_row fill_slots fill_slot at_position write_value
    write_flag write convert fix_up write_extras checked check_pk drop_ignored nils pivot by_columns
    to_columns with_columns fill cons_at Bag.validate_pk Bag.missing_pks Bag.validate_no_unmapped
    new_column_mapping finished finish_mapping rename_columns rename_column ignore_names ignore_name
    add_columns add_column assemble place column_slots with_expr valued unused fixed contains
    number_columns empty_mapping Cmap.get Cmap.get_zero Cmap.match_key Cmap.fetch Cmap.put
    Cmap.store Cmap.remove Cmap.delete Cmap.entries Bag.put Bag.put_at Bag.write_slot Bag.new_bag
    Bag.seed_columns Bag.renamed Bag.delete Bag.delete_at
program = tt

my_row_run :
    upsert_args eq digit plain parse marshal templates (my_row ∷ [])
    ≡ returned (my_args, my_left ∷ [])
unfolding program
my_row_run = refl

my_slot_found : Cmap.fetch eq my_row.mapped 2 ≡ some my_slot
unfolding program
my_slot_found = refl

my_position_found : Cmap.fetch eq my_mapping.positions 2 ≡ some my_position
unfolding program
my_position_found = refl

my_extras : my_mapping.extras_col_idx ≢ some 2
unfolding program
my_extras e = ground (arith, e)

my_row_fresh :
    (d : ℕ) (f : Cmap.Entry ℕ (Bag.Slot ℕ))
    → Cmap.fetch eq my_row.mapped d ≡ some f
    → Fresh eq digit (Cmap.entries cfg.source_names) d
unfolding program
my_row_fresh d f h = (ground (arith, h), tt)

upsert_args-At_example :
    (v : Any) × (convert {K = ℕ} eq digit plain parse marshal my_slot.value.column
        my_slot.value.value
      ≡ returned v)
    × ((w : Any)
        → Writes my_position.value true v 2 w
        → At my_args my_mapping.upsert_parameter_count 0 2 w)
unfolding upsert_args
upsert_args-At_example =
    upsert_args-At eq ==_iff digit plain parse marshal cfg columns Product.postgresql no_column
      templates (my_row ∷ []) (my_left ∷ []) my_args 0 2 my_row 2 my_slot my_position
      my_mapping_made (my_row-Inv, tt) (my_row_fresh, tt) my_row_run refl my_slot_found
      my_position_found (inl refl) my_extras
