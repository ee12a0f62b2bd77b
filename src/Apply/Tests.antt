-- ===== src/Apply/Tests.antt =====
-- internal/target/apply: runs, and the theorems at a table with the columns 1, which is the key, 2, which has a default
-- value and the name 9 in the source, and 3, which is generated. Names are equal up to their last digit.
mod Upserts
use cdc_sink_redshift.Common.{
  ℕ, suc, ◌*◌, ◌≡◌, ◌≢◌, ◌↔◌, ◌⊎◌, refl, Bool, true, false, ◌%◌, ◌==◌, ==_iff, Option, none, some,
  List, [], ◌∷◌, ◌++◌, if◌then◌else◌, Outcome, done, failed, returned, Safe, All, length, get_elem?,
  Bytes, Any, text, boolean, inl, arith,
}
use cdc_sink_redshift.Cmap as Cmap
use cdc_sink_redshift.Common.Int.{pos}
use cdc_sink_redshift.Hlc
use cdc_sink_redshift.Types.{Mutation}
use cdc_sink_redshift.Msort.Reference.{HasKey}
use cdc_sink_redshift.Merge.Bag as Bag
use cdc_sink_redshift.Merge.Bag.{ColData, new_bag}
use cdc_sink_redshift.Merge.Bag.Inv.{Inv, new_bag-Inv, put-delete-Inv}
use cdc_sink_redshift.Apply.Columns.{
  element_count, fill, cons_at, with_columns, to_columns, IsPivot, to_columns-IsPivot,
}
use cdc_sink_redshift.Apply.Config.{Config}
use cdc_sink_redshift.Apply.Mapping.{
  Position, Mapping, Product, contains, unused, fixed, valued, with_expr, column_slots, place,
  assemble, add_column, add_columns, ignore_name, ignore_names, rename_column, rename_columns,
  number_columns, empty_mapping, finish_mapping, finished, new_column_mapping,
}
use cdc_sink_redshift.Apply.Mapping.Bounds.{Fits, new_column_mapping-Fits}
use cdc_sink_redshift.Apply.Mapping.Indices.{indices, upto}
use cdc_sink_redshift.Apply.Mapping.Renames.{Fresh, new_column_mapping-indices}
use cdc_sink_redshift.Apply.Args.{
  Args, columnar, Templates, convert, drop_ignored, upsert_args, row_args, fill_rows, fill_row,
  fill_slots, fill_slot, at_position, write_value, write_flag, write, fix_up, write_extras, checked,
  check_pk, nils, pivot, by_columns,
}
use cdc_sink_redshift.Apply.Args.Writes.{Writes}
use cdc_sink_redshift.Apply.Args.Located.{At, upsert_args-At}
use cdc_sink_redshift.Apply.Args.Total.{ArgsFit, upsert_args-ArgsFit}
use cdc_sink_redshift.Apply.Batching.{Execute, apply}
use cdc_sink_redshift.Apply.Batching.Calls.{Call, run_calls}
use cdc_sink_redshift.Apply.Batching.Delivered.{IsDelivered, apply-IsDelivered}
use cdc_sink_redshift.Apply.Batching.{no_column_data, wrap}
use cdc_sink_redshift.Apply.Deletes.{delete_args}
use cdc_sink_redshift.Apply.Deletes.Arity.{KeyFits, delete_args-KeyFits}
use cdc_sink_redshift.Apply.Conflicts.{Conflict, Resolution, resolve_all, switch}
use cdc_sink_redshift.Apply.Conflicts.Resolved.{
  Verdict, Verdicts, replacements, enqueue_all, resolve_all-Verdicts,
}
use cdc_sink_redshift.Apply.Refresh.{validate_config}
use cdc_sink_redshift.Apply.Refresh.Valid.{Accepted, validate_config_iff}
use cdc_sink_redshift.Apply.Vars.{
  VarPair, param_of, validity_of, vars, rows_pairs, row_pairs, pair, upsert_pair, with_pattern,
  before_pairs, before_rows,
}
use cdc_sink_redshift.Apply.Vars.Params.{InRange, vars-InRange}

abbrev pub digit : ℕ → ℕ
digit n = n % 10

abbrev pub eq : ℕ → ℕ → Bool
eq a b = a == b

abbrev pub column : ℕ → Bool → Bool → Bytes → ColData ℕ
column n p i d = record { default_expr = d; ignored = i; name = n; primary = p; type_name = [] }

abbrev pub columns : List (ColData ℕ)
columns = column 1 true false [] ∷ column 2 false false (b'0' ∷ []) ∷ column 3 false true [] ∷ []

abbrev pub no_column : ColData ℕ
no_column = column 0 false false []

abbrev pub cfg : Config ℕ ℕ Unit
cfg = record {
  cas_columns = 2 ∷ [];
  deadlines = [];
  exprs = [];
  extras = 0;
  ignore = (7, record { key = 7; value = true }) ∷ [];
  merger = some tt;
  source_names = (2, record { key = 2; value = 9 }) ∷ [];
}

abbrev result_of : {E A : Type 0} → Outcome E A → A → A
result_of (done a) b = a
result_of (failed e) b = b

abbrev pub my_mapping : Mapping ℕ ℕ Unit
my_mapping =
    result_of (new_column_mapping eq digit cfg columns Product.postgresql no_column)
      (empty_mapping eq digit cfg Product.postgresql no_column)

pub my_mapping_made :
    new_column_mapping eq digit cfg columns Product.postgresql no_column ≡ done my_mapping
unfolding new_column_mapping finished finish_mapping rename_columns rename_column ignore_names
    ignore_name add_columns add_column assemble place column_slots with_expr valued unused fixed
    contains number_columns empty_mapping Cmap.get Cmap.get_zero Cmap.match_key Cmap.fetch Cmap.put
    Cmap.store Cmap.entries
my_mapping_made = refl

my_mapping-Fits : Fits eq ==_iff digit my_mapping
my_mapping-Fits =
    (new_column_mapping-Fits eq ==_iff digit cfg columns Product.postgresql no_column my_mapping
      my_mapping_made).0

fresh :
    All
      (λ (col : ColData ℕ). Fresh eq digit (Cmap.entries cfg.source_names) (digit col.name))
      columns
unfolding Cmap.entries
fresh = ((refl, tt), ((refl, tt), ((refl, tt), tt)))

new_column_mapping-indices_example :
    indices eq digit my_mapping.positions columns ≡ upto 0 my_mapping.upsert_parameter_count
new_column_mapping-indices_example =
    new_column_mapping-indices eq ==_iff digit cfg columns Product.postgresql no_column my_mapping
      fresh my_mapping_made

-- Two columns and three rows.
abbrev six : List ℕ
six = 1 ∷ 2 ∷ 3 ∷ 4 ∷ 5 ∷ 6 ∷ []

to_columns-IsPivot_example :
    ((3 * 2 ≢ length six) × (to_columns 2 3 six ≡ some (failed (element_count 2 3 (length six)))))
    ⊎ ((out : List (List ℕ)) × (to_columns 2 3 six ≡ some (done out)) × IsPivot 2 3 six out)
to_columns-IsPivot_example = to_columns-IsPivot 2 3 six

to_columns_run : to_columns 2 3 six ≡ some (done ((1 ∷ 3 ∷ 5 ∷ []) ∷ (2 ∷ 4 ∷ 6 ∷ []) ∷ []))
unfolding to_columns with_columns fill cons_at
to_columns_run = refl

abbrev pub templates : Templates ℕ ℕ Unit
templates = record { mapping = my_mapping; bulk_delete = true; bulk_upsert = true }

abbrev pub my_bag : Bag.Bag ℕ ℕ
my_bag = new_bag eq digit my_mapping.columns (some my_mapping.renames)

abbrev pub plain : Bytes → Option Bytes
plain n = some n

pub plain_parses : (n : Bytes) → plain n ≢ none
plain_parses n e = absurd (ground arith)

mutation : Bytes → ℕ → Bytes → Mutation
mutation k t d = record {
  before = [];
  contents = d;
  key = k;
  meta = [];
  time = Hlc.new (pos t) (pos 0);
}

-- An upsert of key 1 and a deletion of key 2.
muts : List Mutation
unfolding mutation
muts = mutation (1 ∷ []) 4 (10 ∷ []) ∷ mutation (2 ∷ []) 6 [] ∷ []

muts-HasKey : All HasKey muts
unfolding muts
muts-HasKey = (refl, (refl, tt))

apply-IsDelivered_example :
    (cs : List Call) × IsDelivered 1 muts cs
    × ((W E : Type 0) (delete_locked upsert_locked : Execute W E) (w : W)
        → apply 1 delete_locked upsert_locked 3 muts w
          ≡ some (
              if 3 == 0
              then (w, some no_column_data)
              else wrap (run_calls delete_locked upsert_locked cs w)))
apply-IsDelivered_example = apply-IsDelivered 1 3 muts (omega arith) muts-HasKey

-- Every key decodes to its bytes, of which there is one.
abbrev decode : Bytes → Outcome Unit (List Any)
decode k = done (text k ∷ [])

delete_args-KeyFits_example :
    Safe
      (λ args.
        ArgsFit (length my_mapping.pk_delete) (length muts) args
        × All (KeyFits plain decode plain_parses (length my_mapping.pk_delete)) muts)
      (delete_args plain decode templates muts)
delete_args-KeyFits_example = delete_args-KeyFits plain decode plain_parses templates muts

-- A merge function that drops every conflict.
abbrev merge : Conflict ℕ ℕ → Outcome ℕ (Option (Resolution ℕ ℕ))
merge c = done (some (record { apply = none; dlq = []; drop = true }))

abbrev enqueue : Bytes → Mutation → ℕ → ℕ × Option ℕ
enqueue name m w = (suc w, none)

abbrev conflicts : List (Conflict ℕ ℕ × Mutation)
conflicts =
    (record { before = none; existing = my_bag; proposed = my_bag }, mutation (1 ∷ []) 4 []) ∷ []

resolve_all_run : resolve_all merge enqueue conflicts [] 5 ≡ (5, returned [])
unfolding resolve_all switch
resolve_all_run = refl

resolve_all-Verdicts_example :
    (vs : List (Verdict ℕ ℕ)) × Verdicts merge enqueue conflicts vs
    × ([] ≡ [] ++ replacements vs)
    × (enqueue_all merge enqueue conflicts vs 5 ≡ (5, none))
resolve_all-Verdicts_example =
    resolve_all-Verdicts merge enqueue conflicts [] 5 5 [] resolve_all_run

abbrev name_empty : ℕ → Bool
name_empty n = n == 0

validate_config_iff_example :
    (validate_config eq digit name_empty cfg columns ≡ none)
    ↔ Accepted eq ==_iff digit name_empty cfg columns
validate_config_iff_example = validate_config_iff eq ==_iff digit name_empty cfg columns

my_vars : List (List (VarPair ℕ))
my_vars = result_of (vars eq digit no_column my_mapping false 2) []

my_vars_made : vars eq digit no_column my_mapping false 2 ≡ done my_vars
unfolding my_vars vars rows_pairs row_pairs pair upsert_pair with_pattern before_pairs before_rows
    new_column_mapping finished finish_mapping rename_columns rename_column ignore_names ignore_name
    add_columns add_column assemble place column_slots with_expr valued unused fixed contains
    number_columns empty_mapping Cmap.get Cmap.get_zero Cmap.match_key Cmap.fetch Cmap.put
    Cmap.store Cmap.entries
my_vars_made = refl

-- The second column, which has the flag 1 and the value 2.
abbrev second : Cmap.Entry ℕ (Position ℕ)
second = record {
  key = 2;
  value = record {
    column = column 2 false false (b'0' ∷ []);
    delete_index = none;
    upsert_index = some 2;
    validity_index = some 1;
  };
}

second_column : get_elem? my_mapping.columns 1 ≡ some (column 2 false false (b'0' ∷ []))
unfolding new_column_mapping finished finish_mapping rename_columns rename_column ignore_names
    ignore_name add_columns add_column assemble place column_slots with_expr valued unused fixed
    contains number_columns empty_mapping Cmap.get Cmap.get_zero Cmap.match_key Cmap.fetch Cmap.put
    Cmap.store Cmap.entries
second_column = refl

second_found : Cmap.fetch eq my_mapping.positions 2 ≡ some second
unfolding new_column_mapping finished finish_mapping rename_columns rename_column ignore_names
    ignore_name add_columns add_column assemble place column_slots with_expr valued unused fixed
    contains number_columns empty_mapping Cmap.get Cmap.get_zero Cmap.match_key Cmap.fetch Cmap.put
    Cmap.store Cmap.entries
second_found = refl

vars-InRange_example :
    (l : List (VarPair ℕ)) × (vp : VarPair ℕ) × (get_elem? my_vars 1 ≡ some l)
    × (get_elem? l 1 ≡ some vp)
    × (vp.column ≡ column 2 false false (b'0' ∷ []))
    × (vp.param ≡ param_of (1 * my_mapping.upsert_parameter_count) (some 2))
    × (vp.validity_param ≡ validity_of (1 * my_mapping.upsert_parameter_count) (some 1))
    × InRange vp.param (2 * my_mapping.upsert_parameter_count) (some 2)
vars-InRange_example =
    vars-InRange eq ==_iff digit no_column my_mapping 2 1 1 (column 2 false false (b'0' ∷ []))
      second my_vars my_mapping-Fits my_vars_made (omega arith) second_column second_found
