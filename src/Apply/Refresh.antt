-- ===== src/Apply/Refresh.antt =====
-- internal/target/apply/apply.go, validate and refreshUnlocked, and newTemplates of templates.go: a
-- configuration is checked against the columns of a table before it is used.
pub mod Valid
use cdc_sink_redshift.Common.{
  ℕ, suc, Bool, true, false, ◌&&◌, Option, none, some, List, [], ◌∷◌, ◌++◌, if◌then◌else◌, is_empty,
  Outcome, done, failed,
}
use cdc_sink_redshift.Cmap as Cmap
use cdc_sink_redshift.Cmap.{Map}
use cdc_sink_redshift.Merge.Bag.{ColData}
use cdc_sink_redshift.Apply.Config.{Config, absent}
use cdc_sink_redshift.Apply.Mapping.{Mapping, MappingError, Product, new_column_mapping}
use cdc_sink_redshift.Apply.Args.{Templates}

-- The errors of `refreshUnlocked`, with the columns that are not in the table.
pub data RefreshError (K : Type 0) : Type 0 where
  no_cas_column no_deadline_column no_expr_column no_extras_column no_renamed_column :
      K → RefreshError K
  useless_merger : RefreshError K
  bad_mapping : MappingError K → RefreshError K
  unsupported_product : RefreshError K

-- An error before the others.
abbrev pub first_error {ℓ} : {E : Type ℓ} → Option E → Option E → Option E
first_error none e = e
first_error (some d) e = some d

-- `newTemplates`, less the texts of the templates: whether arguments go by columns.
unfoldable pub new_templates :
    {K C M : Type 0} → Mapping K C M → Product → Outcome (RefreshError K) (Templates K C M)
new_templates m Product.unknown = failed unsupported_product
new_templates m Product.cockroach_db =
    done (record { mapping = m; bulk_delete = false; bulk_upsert = false })
new_templates m Product.mysql =
    done (record { mapping = m; bulk_delete = false; bulk_upsert = false })
new_templates m Product.oracle =
    done (record { mapping = m; bulk_delete = false; bulk_upsert = true })
new_templates m Product.postgresql =
    done (record { mapping = m; bulk_delete = false; bulk_upsert = false })

module _ {K C : Type 0} (eq : C → C → Bool) (mapper : K → C) where
  -- `allColNames`.
  unfoldable pub all_col_names : List (ColData K) → Map K C Unit → Map K C Unit
  all_col_names [] names = names
  all_col_names (col ∷ cols) names = all_col_names cols (Cmap.put eq mapper names col.name tt)

  -- A loop over names, up to the first that is no column.
  unfoldable pub find_missing :
      (K → RefreshError K) → Map K C Unit → List K → Option (RefreshError K)
  find_missing err names [] = none
  find_missing err names (col ∷ cols) = elim (Cmap.get eq mapper names col) [
    | none ↦ some (err col)
    | some u ↦ find_missing err names cols
  ]

  unfoldable pub check_extras : (K → Bool) → Map K C Unit → K → Option (RefreshError K)
  check_extras name_empty names extras =
      if name_empty extras then none else find_missing no_extras_column names (extras ∷ [])

-- The names that `Range` visits.
abbrev pub names_of {ℓ} : {K V : Type ℓ} → List (Cmap.Entry K V) → List K
names_of [] = []
names_of (e ∷ es) = e.key ∷ names_of es

unfoldable pub check_merger : {K C M : Type 0} → Config K C M → Option (RefreshError K)
check_merger cfg =
    if absent cfg.merger
    then none
    else (if is_empty cfg.cas_columns && is_empty cfg.deadlines then some useless_merger else none)

-- What `refreshUnlocked` changes: the generation of the prepared statements, and the templates.
pub record Applied (K C M : Type 0) : Type 0 where
  pub gen : ℕ
  pub templates : Option (Templates K C M)

unfoldable pub with_templates :
    {K C M : Type 0}
    → Applied K C M
    → Outcome (RefreshError K) (Templates K C M)
    → Applied K C M × Option (RefreshError K)
with_templates s (failed e) = (s, some e)
with_templates s (done t) = (record { gen = suc s.gen; templates = some t }, none)

unfoldable pub with_mapping :
    {K C M : Type 0}
    → Applied K C M
    → Product
    → Outcome (MappingError K) (Mapping K C M)
    → Applied K C M × Option (RefreshError K)
with_mapping s product (failed e) = (s, some (bad_mapping e))
with_mapping s product (done m) = with_templates s (new_templates m product)

module _ {K C M : Type 0} (eq : C → C → Bool) (mapper : K → C) (name_empty : K → Bool) where
  -- `validate`.
  unfoldable pub validate_config : Config K C M → List (ColData K) → Option (RefreshError K)
  validate_config cfg cols =
      let names = all_col_names eq mapper cols [] in
      first_error (find_missing eq mapper no_cas_column names cfg.cas_columns) (
        first_error
          (find_missing eq mapper no_deadline_column names (names_of (Cmap.entries cfg.deadlines)))
          (first_error
            (find_missing eq mapper no_expr_column names (names_of (Cmap.entries cfg.exprs)))
            (first_error (check_extras eq mapper name_empty names cfg.extras) (
              first_error (check_merger cfg) (
                find_missing eq mapper no_renamed_column names
                  (names_of (Cmap.entries cfg.source_names)))))))

  -- `refreshUnlocked`.
  unfoldable pub refresh :
      Config K C M
      → List (ColData K)
      → Product
      → ColData K
      → Applied K C M
      → Applied K C M × Option (RefreshError K)
  refresh cfg cols product no_column s = elim (validate_config cfg cols) [
    | some e ↦ (s, some e)
    | none ↦ with_mapping s product (new_column_mapping eq mapper cfg cols product no_column)
  ]
