-- ===== src/Apply/Mapping.antt =====
-- internal/target/apply/column_mapping.go: which column of a target table takes which parameter of a
-- statement. An index of -1 is `none`. Columns are named by `K`, which maps compare in the form `C`.
pub mod Bounds
pub mod Indices
pub mod Renames
pub mod Apart
use cdc_sink_redshift.Common.{
  ℕ, zero, suc, Bool, true, false, ◌&&◌, ◌==◌, Option, none, some, List, [], ◌∷◌, ◌++◌,
  if◌then◌else◌, Outcome, done, failed, Bytes, is_empty, length, set,
}
use cdc_sink_redshift.Common.Int.{ℤ}
use cdc_sink_redshift.Cmap as Cmap
use cdc_sink_redshift.Cmap.{Map}
use cdc_sink_redshift.Merge.Bag.{ColData}
use cdc_sink_redshift.Apply.Config.{Config, substitution_token}

-- `Product`.
pub data Product : Type 0 where
  unknown cockroach_db mysql oracle postgresql : Product

-- `positionalColumn`.
pub record Position (K : Type 0) : Type 0 where
  pub column : ColData K
  pub delete_index : Option ℕ
  pub upsert_index : Option ℕ
  pub validity_index : Option ℕ

-- `columnMapping`, less the name of the table.
pub record Mapping (K C M : Type 0) : Type 0 where
  pub conditions : List (ColData K)
  pub columns : List (ColData K)
  pub data_columns : List (ColData K)
  pub deadlines : Map K C ℤ
  pub delete_parameter_count : ℕ
  pub exprs : Map K C Bytes
  pub extras_col_idx : Option ℕ
  pub ignore : List K
  pub merger : Option M
  pub positions : Map K C (Position K)
  pub product : Product
  pub pk : List (ColData K)
  pub pk_delete : List (ColData K)
  pub renames : Map K C K
  pub upsert_parameter_count : ℕ

pub data MappingError (K : Type 0) : Type 0 where
  name_collision : K → MappingError K

-- `strings.HasPrefix` and `strings.Contains`.
abbrev has_prefix : Bytes → Bytes → Bool
has_prefix s [] = true
has_prefix [] (p ∷ ps) = false
has_prefix (c ∷ s) (p ∷ ps) = (c == p) && has_prefix s ps

unfoldable pub contains : Bytes → Bytes → Bool
contains [] p = is_empty p
contains (c ∷ s) p = if has_prefix (c ∷ s) p then true else contains s p

-- The variables that the loop sets for a column, and the next parameter.
pub record Slots : Type 0 where
  pub upsert_position : Option ℕ
  pub validity_position : Option ℕ
  pub next : ℕ
  pub will_upsert : Bool

-- A column that is not mentioned, one that has a fixed expression, and one that takes its value.
unfoldable pub unused : ℕ → Slots
unused current = record {
  upsert_position = none;
  validity_position = none;
  next = current;
  will_upsert = false;
}

unfoldable pub fixed : ℕ → Slots
fixed current = record {
  upsert_position = none;
  validity_position = none;
  next = current;
  will_upsert = true;
}

unfoldable pub valued : Bytes → ℕ → Slots
valued [] current = record {
  upsert_position = some current;
  validity_position = none;
  next = suc current;
  will_upsert = true;
}
valued (c ∷ cs) current = record {
  upsert_position = some (suc current);
  validity_position = some current;
  next = suc (suc current);
  will_upsert = true;
}

-- The branch on the expression of a column.
unfoldable pub with_expr : Option Bytes → Bytes → ℕ → Slots
with_expr none default_expr current = valued default_expr current
with_expr (some expr) default_expr current =
    if contains expr substitution_token then valued default_expr current else fixed current

-- What is done with a value that was found.
abbrev pub put_found {ℓ} : {A B : Type ℓ} → Option A → (A → B) → B → B
put_found none f b = b
put_found (some a) f b = f a

-- A condition at its place in the comparison tuple.
abbrev set_found {ℓ} : {A : Type ℓ} → Option ℕ → A → List A → List A
set_found none x xs = xs
set_found (some i) x xs = set xs i x

abbrev repeat {ℓ} : {A : Type ℓ} → ℕ → A → List A
repeat zero x = []
repeat (suc n) x = x ∷ repeat n x

module _ {K C : Type 0} (eq : C → C → Bool) (mapper : K → C) where
  -- The map of the CAS columns to their places in the comparison tuple.
  unfoldable pub number_columns : List K → ℕ → Map K C ℕ → Map K C ℕ
  number_columns [] idx m = m
  number_columns (name ∷ names) idx m =
      number_columns names (suc idx) (Cmap.put eq mapper m name idx)

module _ {K C M : Type 0} (eq : C → C → Bool) (mapper : K → C) where
  -- The three branches for a column.
  unfoldable pub column_slots : Config K C M → ColData K → ℕ → Slots
  column_slots cfg col current =
      if col.ignored
      then unused current
      else (if Cmap.get_zero eq mapper false cfg.ignore col.name
          then unused current
          else with_expr (Cmap.get eq mapper cfg.exprs col.name) col.default_expr current)

  -- The position of a column, and what every column adds to the mapping.
  unfoldable pub place : ColData K → Slots → Mapping K C M → Mapping K C M
  place col slots m = record m {
    ignore = if col.ignored then m.ignore ++ col.name ∷ [] else m.ignore;
    pk_delete = if col.primary then m.pk_delete ++ col ∷ [] else m.pk_delete;
    positions = Cmap.put eq mapper m.positions col.name (record {
      column = col;
      delete_index = if col.primary then some (length m.pk_delete) else none;
      upsert_index = slots.upsert_position;
      validity_index = slots.validity_position;
    });
    upsert_parameter_count = slots.next;
  }

  -- A column in its intended uses.
  unfoldable pub assemble :
      Config K C M → Map K C ℕ → ColData K → Option ℕ → Mapping K C M → Mapping K C M
  assemble cfg cas_map col upsert_position m = record m {
    columns = m.columns ++ col ∷ [];
    pk = if col.primary then m.pk ++ col ∷ [] else m.pk;
    data_columns = if col.primary then m.data_columns else m.data_columns ++ col ∷ [];
    conditions = set_found (Cmap.get eq mapper cas_map col.name) col m.conditions;
    deadlines =
        put_found (Cmap.get eq mapper cfg.deadlines col.name)
          (Cmap.put eq mapper m.deadlines col.name) m.deadlines;
    exprs =
        put_found (Cmap.get eq mapper cfg.exprs col.name) (Cmap.put eq mapper m.exprs col.name)
          m.exprs;
    extras_col_idx =
        if eq (mapper col.name) (mapper cfg.extras) then upsert_position else m.extras_col_idx;
  }

  -- The body of the loop, of a column that is no collision.
  unfoldable pub add_column : Config K C M → Map K C ℕ → ColData K → Mapping K C M → Mapping K C M
  add_column cfg cas_map col m =
      let slots = column_slots cfg col m.upsert_parameter_count in
      let placed = place col slots m in
      if slots.will_upsert then assemble cfg cas_map col slots.upsert_position placed else placed

  -- The loop over the columns.
  unfoldable pub add_columns :
      Config K C M
      → Map K C ℕ
      → List (ColData K)
      → Mapping K C M
      → Outcome (MappingError K) (Mapping K C M)
  add_columns cfg cas_map [] m = done m
  add_columns cfg cas_map (col ∷ cols) m = elim (Cmap.get eq mapper m.positions col.name) [
    | some p ↦ failed (name_collision col.name)
    | none ↦ add_columns cfg cas_map cols (add_column cfg cas_map col m)
  ]

  -- The loop over the names that the user ignores.
  unfoldable pub ignore_name : K → Bytes → Option (Position K) → Mapping K C M → Mapping K C M
  ignore_name tgt void (some p) m = m
  ignore_name tgt void none m = record m {
    ignore = m.ignore ++ tgt ∷ [];
    positions = Cmap.put eq mapper m.positions tgt (record {
      column = record {
        default_expr = [];
        ignored = true;
        name = tgt;
        primary = false;
        type_name = void;
      };
      delete_index = none;
      upsert_index = none;
      validity_index = none;
    });
  }

  unfoldable pub ignore_names : List (Cmap.Entry K Bool) → Mapping K C M → Mapping K C M
  ignore_names [] m = m
  ignore_names (e ∷ es) m =
      ignore_names es (
        ignore_name e.key (b'V' ∷ b'O' ∷ b'I' ∷ b'D' ∷ []) (Cmap.get eq mapper m.positions e.key) m)

  -- The loop over the renamed columns.
  unfoldable pub rename_column : Cmap.Entry K K → Mapping K C M → Mapping K C M
  rename_column e m = record m {
    renames = Cmap.put eq mapper m.renames e.value e.key;
    positions =
        put_found (Cmap.get eq mapper m.positions e.key) (Cmap.put eq mapper m.positions e.value)
          m.positions;
  }

  unfoldable pub rename_columns : List (Cmap.Entry K K) → Mapping K C M → Mapping K C M
  rename_columns [] m = m
  rename_columns (e ∷ es) m = rename_columns es (rename_column e m)

  -- The mapping before the loop, with the zero value of a column.
  unfoldable pub empty_mapping : Config K C M → Product → ColData K → Mapping K C M
  empty_mapping cfg product no_column = record {
    conditions = repeat (length cfg.cas_columns) no_column;
    columns = [];
    data_columns = [];
    deadlines = [];
    delete_parameter_count = 0;
    exprs = [];
    extras_col_idx = none;
    ignore = [];
    merger = if is_empty cfg.cas_columns && is_empty cfg.deadlines then none else cfg.merger;
    positions = [];
    product = product;
    pk = [];
    pk_delete = [];
    renames = [];
    upsert_parameter_count = 0;
  }

  -- What follows the loop over the columns.
  unfoldable pub finish_mapping : Config K C M → Mapping K C M → Mapping K C M
  finish_mapping cfg m = rename_columns (Cmap.entries cfg.source_names) (
      ignore_names (Cmap.entries cfg.ignore)
        (record m { delete_parameter_count = length m.pk_delete }))

  unfoldable pub finished :
      Config K C M
      → Outcome (MappingError K) (Mapping K C M)
      → Outcome (MappingError K) (Mapping K C M)
  finished cfg (failed e) = failed e
  finished cfg (done m) = done (finish_mapping cfg m)

  -- `newColumnMapping`.
  unfoldable pub new_column_mapping :
      Config K C M
      → List (ColData K)
      → Product
      → ColData K
      → Outcome (MappingError K) (Mapping K C M)
  new_column_mapping cfg cols product no_column = finished cfg (
      add_columns cfg (number_columns eq mapper cfg.cas_columns 0 []) cols
        (empty_mapping cfg product no_column))
