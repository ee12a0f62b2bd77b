-- ===== src/Apply/Vars.antt =====
-- internal/target/apply/templates.go, Vars: the substitution parameters of a statement, by rows.
pub mod Params
use cdc_sink_redshift.Common.{
  ℕ, zero, suc, ◌+◌, ◌*◌, ◌/◌, ◌%◌, Bool, true, false, ◌&&◌, ◌==◌, Option, none, some, List, [],
  ◌∷◌, ◌++◌, if◌then◌else◌, Outcome, done, failed, Bytes, ltb,
}
use cdc_sink_redshift.Cmap as Cmap
use cdc_sink_redshift.Cmap.{Map}
use cdc_sink_redshift.Merge.Bag.{ColData}
use cdc_sink_redshift.Apply.Config.{substitution_token}
use cdc_sink_redshift.Apply.Mapping.{Position, Mapping, Product}

-- `varPair`.
pub record VarPair (K : Type 0) : Type 0 where
  pub column : ColData K
  pub expr : Bytes
  pub param : ℕ
  pub validity_param : ℕ

pub data VarsError (K : Type 0) : Type 0 where
  no_delete_position : K → VarsError K
  unimplemented_product : VarsError K

-- A number in decimal, before a text; the fuel is the number, which has no more digits.
unfoldable pub digits : ℕ → ℕ → Bytes → Bytes
digits zero n s = s
digits (suc fuel) n s =
    let more = digits fuel (n / 10) ((b'0' + n % 10) ∷ s) in
    if ltb n 10 then (b'0' + n) ∷ s else more

unfoldable pub decimal : ℕ → Bytes
decimal n = digits (suc n) n []

-- The reference to a parameter in the dialect of a product.
unfoldable pub reference : {K : Type 0} → Product → ℕ → Outcome (VarsError K) Bytes
reference Product.cockroach_db param = done (b'$' ∷ decimal param)
reference Product.postgresql param = done (b'$' ∷ decimal param)
reference Product.mysql param = done (b'?' ∷ [])
reference Product.oracle param = done ((b':' ∷ b'r' ∷ b'e' ∷ b'f' ∷ []) ++ decimal param)
reference Product.unknown param = failed unimplemented_product

-- `strings.ReplaceAll` of the substitution token.
unfoldable pub replace_token : Bytes → Bytes → Bytes
replace_token [] ref = []
replace_token (c ∷ []) ref = c ∷ []
replace_token (c ∷ d ∷ s) ref = elim ((c == b'$') && (d == b'0')) [
  | true ↦ ref ++ replace_token s ref
  | false ↦ c ∷ replace_token (d ∷ s) ref
]

-- `offset + index + 1`, where an index of -1 leaves the offset.
abbrev pub param_of : ℕ → Option ℕ → ℕ
param_of offset none = offset
param_of offset (some i) = offset + i + 1

-- The parameter of a validity flag, or 0.
abbrev pub validity_of : ℕ → Option ℕ → ℕ
validity_of offset none = 0
validity_of offset (some i) = offset + i + 1

-- The zero value of `positionalColumn`, whose indices are 0.
abbrev pub zero_position : {K : Type 0} → ColData K → Position K
zero_position no_column = record {
  column = no_column;
  delete_index = some 0;
  upsert_index = some 0;
  validity_index = some 0;
}

unfoldable pub with_reference :
    {K : Type 0}
    → VarPair K
    → Bytes
    → Outcome (VarsError K) Bytes
    → Outcome (VarsError K) (VarPair K)
with_reference vp pattern (failed e) = failed e
with_reference vp pattern (done ref) = done (record vp { expr = replace_token pattern ref })

unfoldable pub with_pattern :
    {K : Type 0} → Product → VarPair K → Option Bytes → Outcome (VarsError K) (VarPair K)
with_pattern product vp none = done vp
with_pattern product vp (some pattern) = with_reference vp pattern (reference product vp.param)

unfoldable pub before_pairs :
    {K : Type 0}
    → Outcome (VarsError K) (VarPair K)
    → Outcome (VarsError K) (List (VarPair K))
    → Outcome (VarsError K) (List (VarPair K))
before_pairs (failed e) rest = failed e
before_pairs (done vp) (failed e) = failed e
before_pairs (done vp) (done vps) = done (vp ∷ vps)

unfoldable pub before_rows :
    {K : Type 0}
    → Outcome (VarsError K) (List (VarPair K))
    → Outcome (VarsError K) (List (List (VarPair K)))
    → Outcome (VarsError K) (List (List (VarPair K)))
before_rows (failed e) rest = failed e
before_rows (done row) (failed e) = failed e
before_rows (done row) (done rows) = done (row ∷ rows)

module _ {K C M : Type 0} (eq : C → C → Bool) (mapper : K → C) (no_column : ColData K)
    (m : Mapping K C M) where
  -- The parameter of a column in a deletion.
  unfoldable pub delete_pair : ColData K → ℕ → Option ℕ → Outcome (VarsError K) (VarPair K)
  delete_pair col offset none = failed (no_delete_position col.name)
  delete_pair col offset (some i) =
      with_pattern m.product
        (record { column = col; expr = []; param = offset + i + 1; validity_param = 0 })
        (Cmap.get eq mapper m.exprs col.name)

  -- The parameters of a column in an upsert.
  unfoldable pub upsert_pair : ColData K → ℕ → Position K → Outcome (VarsError K) (VarPair K)
  upsert_pair col offset p =
      with_pattern m.product
        (record {
          column = col;
          expr = [];
          param = param_of offset p.upsert_index;
          validity_param = validity_of offset p.validity_index;
        })
        (Cmap.get eq mapper m.exprs col.name)

  -- The body of the loops, of a row and a column.
  unfoldable pub pair : Bool → ℕ → ColData K → Outcome (VarsError K) (VarPair K)
  pair for_delete row col =
      let p = Cmap.get_zero eq mapper (zero_position no_column) m.positions col.name in
      if for_delete
      then delete_pair col (row * m.delete_parameter_count) p.delete_index
      else upsert_pair col (row * m.upsert_parameter_count) p

  unfoldable pub row_pairs : Bool → ℕ → List (ColData K) → Outcome (VarsError K) (List (VarPair K))
  row_pairs for_delete row [] = done []
  row_pairs for_delete row (col ∷ cols) =
      before_pairs (pair for_delete row col) (row_pairs for_delete row cols)

  unfoldable pub rows_pairs :
      Bool → ℕ → ℕ → List (ColData K) → Outcome (VarsError K) (List (List (VarPair K)))
  rows_pairs for_delete row zero cols = done []
  rows_pairs for_delete row (suc n) cols =
      before_rows (row_pairs for_delete row cols) (rows_pairs for_delete (suc row) n cols)

  -- `Vars`, of the two fields that it reads of a copy of the templates.
  unfoldable pub vars : Bool → ℕ → Outcome (VarsError K) (List (List (VarPair K)))
  vars for_delete row_count =
      rows_pairs for_delete 0 row_count (if for_delete then m.pk_delete else m.columns)
