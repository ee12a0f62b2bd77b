-- ===== src/Apply/Vars/Params.antt =====
-- internal/target/apply/templates.go, Vars: the parameters are those of the arguments.
use cdc_sink_redshift.Common.{
  ℕ, zero, suc, ◌+◌, ◌*◌, ◌≤◌, ◌<◌, ◌≡◌, ◌↔◌, refl, sym, ap, ◌∙◌, Bool, true, false, Option, none,
  some, List, [], ◌∷◌, Outcome, done, failed, Bytes, get_elem?, arith,
}
use cdc_sink_redshift.Cmap as Cmap
use cdc_sink_redshift.Cmap.{Entry, Map, fetch}
use cdc_sink_redshift.Merge.Bag.{ColData}
use cdc_sink_redshift.Apply.Columns.{cell_lt}
use cdc_sink_redshift.Apply.Mapping.{Position, Mapping, Product}
use cdc_sink_redshift.Apply.Mapping.Bounds.{Below, Fits}
use cdc_sink_redshift.Apply.Vars.{
  VarPair, VarsError, param_of, validity_of, zero_position, with_reference, with_pattern,
  before_pairs, before_rows, upsert_pair, pair, row_pairs, rows_pairs, vars,
}

module _ {K : Type 0} where
  with_reference-keeps :
      (vp r : VarPair K) (pattern : Bytes) (o : Outcome (VarsError K) Bytes)
      → with_reference vp pattern o ≡ done r
      → (r.column ≡ vp.column) × (r.param ≡ vp.param) × (r.validity_param ≡ vp.validity_param)
  unfolding with_reference
  with_reference-keeps vp r pattern (failed e) h = absurd (ground arith)
  with_reference-keeps vp r pattern (done ref) h = ground arith

  with_pattern-keeps :
      (product : Product) (vp r : VarPair K) (o : Option Bytes)
      → with_pattern product vp o ≡ done r
      → (r.column ≡ vp.column) × (r.param ≡ vp.param) × (r.validity_param ≡ vp.validity_param)
  unfolding with_pattern
  with_pattern-keeps product vp r none h = ground arith
  with_pattern-keeps product vp r (some pattern) h = with_reference-keeps vp r pattern _ h

  before_pairs-done :
      (a : Outcome (VarsError K) (VarPair K)) (b : Outcome (VarsError K) (List (VarPair K)))
      (l : List (VarPair K))
      → before_pairs a b ≡ done l
      → (vp : VarPair K) × (vps : List (VarPair K)) × (a ≡ done vp)
        × (b ≡ done vps)
        × (l ≡ vp ∷ vps)
  unfolding before_pairs
  before_pairs-done (failed e) b l h = absurd (ground arith)
  before_pairs-done (done vp) (failed e) l h = absurd (ground arith)
  before_pairs-done (done vp) (done vps) l h = (vp, vps, refl, refl, ground arith)

  before_rows-done :
      (a : Outcome (VarsError K) (List (VarPair K)))
      (b : Outcome (VarsError K) (List (List (VarPair K)))) (l : List (List (VarPair K)))
      → before_rows a b ≡ done l
      → (vp : List (VarPair K)) × (vps : List (List (VarPair K))) × (a ≡ done vp)
        × (b ≡ done vps)
        × (l ≡ vp ∷ vps)
  unfolding before_rows
  before_rows-done (failed e) b l h = absurd (ground arith)
  before_rows-done (done vp) (failed e) l h = absurd (ground arith)
  before_rows-done (done vp) (done vps) l h = (vp, vps, refl, refl, ground arith)

module _ {K C M : Type 0} (eq : C → C → Bool) (mapper : K → C) (no_column : ColData K)
    (m : Mapping K C M) where
  row_pairs-at :
      (b : Bool) (row : ℕ) (cols : List (ColData K)) (c : ℕ) (col : ColData K)
      (out : List (VarPair K))
      → row_pairs eq mapper no_column m b row cols ≡ done out
      → get_elem? cols c ≡ some col
      → (vp : VarPair K) × (get_elem? out c ≡ some vp)
        × (pair eq mapper no_column m b row col ≡ done vp)
  unfolding row_pairs
  row_pairs-at b row [] c col out h at = absurd (ground arith)
  row_pairs-at b row (x ∷ cols) zero col out h at =
      let (vp, vps, e, f, g) = before_pairs-done _ _ out h in
      let same : x ≡ col = ground arith in
      (vp, ap (λ l. get_elem? l 0) g, ap (pair eq mapper no_column m b row) (sym same) ∙ e)
  row_pairs-at b row (x ∷ cols) (suc c) col out h at =
      let (vp, vps, e, f, g) = before_pairs-done _ _ out h in
      let (wp, here, same) = row_pairs-at b row cols c col vps f at in
      (wp, ap (λ l. get_elem? l (suc c)) g ∙ here, same)

  rows_pairs-at :
      (b : Bool) (row n r : ℕ) (cols : List (ColData K)) (out : List (List (VarPair K)))
      → rows_pairs eq mapper no_column m b row n cols ≡ done out
      → r < n
      → (l : List (VarPair K)) × (get_elem? out r ≡ some l)
        × (row_pairs eq mapper no_column m b (row + r) cols ≡ done l)
  unfolding rows_pairs
  rows_pairs-at b row zero r cols out h lt = absurd (omega arith)
  rows_pairs-at b row (suc n) zero cols out h lt =
      let (vp, vps, e, f, g) = before_rows-done _ _ out h in
      (
        vp,
        ap (λ l. get_elem? l 0) g,
        ap (λ i. row_pairs eq mapper no_column m b i cols) (omega arith) ∙ e,
      )
  rows_pairs-at b row (suc n) (suc r) cols out h lt =
      let (vp, vps, e, f, g) = before_rows-done _ _ out h in
      let (l, here, same) = rows_pairs-at b (suc row) n r cols vps f (omega arith) in
      (
        l,
        ap (λ l. get_elem? l (suc r)) g ∙ here,
        ap (λ i. row_pairs eq mapper no_column m b i cols) (omega arith) ∙ same,
      )

  upsert_pair-params :
      (col : ColData K) (row : ℕ) (p : Position K) (vp : VarPair K)
      → Cmap.get eq mapper m.positions col.name ≡ some p
      → pair eq mapper no_column m false row col ≡ done vp
      → (vp.column ≡ col)
        × (vp.param ≡ param_of (row * m.upsert_parameter_count) p.upsert_index)
        × (vp.validity_param ≡ validity_of (row * m.upsert_parameter_count) p.validity_index)
  unfolding pair upsert_pair Cmap.get_zero
  upsert_pair-params col row p vp at h =
      with_pattern-keeps m.product
        (record {
          column = col;
          expr = [];
          param = param_of (row * m.upsert_parameter_count) p.upsert_index;
          validity_param = validity_of (row * m.upsert_parameter_count) p.validity_index;
        })
        vp (Cmap.get eq mapper m.exprs col.name)
        (ap
            (λ (o : Option (Position K)).
              upsert_pair eq mapper no_column m col (row * m.upsert_parameter_count)
                (Cmap.or_zero (zero_position no_column) o))
            (sym at)
          ∙ h)

-- The parameter of a value is that of its argument, counted from 1, and it is one of the arguments of the rows.
abbrev pub InRange : ℕ → ℕ → Option ℕ → Type 0
InRange param total none = Unit
InRange param total (some i) = (0 < param) × (param ≤ total)

in_range :
    (row n count : ℕ) (o : Option ℕ) (param : ℕ)
    → row < n
    → Below o count
    → param ≡ param_of (row * count) o
    → InRange param (n * count) o
in_range row n count none param lt b e = tt
in_range row n count (some i) param lt b e =
    let cell = cell_lt i row count n b lt in (omega arith, omega arith)

module _ {K C M : Type 0} (eq : C → C → Bool) (eq_iff : (a b : C) → (eq a b ≡ true) ↔ (a ≡ b))
    (mapper : K → C) (no_column : ColData K) (m : Mapping K C M) where
  -- When the parameters of an upsert are returned, every row and every column has a pair. The parameter of its value
  -- and that of its validity flag are the places where the arguments of that row lie, counted from 1, where the validity parameter of a column without a flag is 0; for
  -- a mapping whose indices are below its counts, the parameter of a value that is used is not past the arguments.
  pub vars-InRange :
      (n row c : ℕ) (col : ColData K) (e : Entry K (Position K)) (out : List (List (VarPair K)))
      → Fits eq eq_iff mapper m
      → vars eq mapper no_column m false n ≡ done out
      → row < n
      → get_elem? m.columns c ≡ some col
      → fetch eq m.positions (mapper col.name) ≡ some e
      → (l : List (VarPair K)) × (vp : VarPair K) × (get_elem? out row ≡ some l)
        × (get_elem? l c ≡ some vp)
        × (vp.column ≡ col)
        × (vp.param ≡ param_of (row * m.upsert_parameter_count) e.value.upsert_index)
        × (vp.validity_param ≡ validity_of (row * m.upsert_parameter_count) e.value.validity_index)
        × InRange vp.param (n * m.upsert_parameter_count) e.value.upsert_index
  unfolding vars Cmap.get Cmap.match_key
  vars-InRange n row c col e out fits h lt at found =
      let (l, here, made) = rows_pairs-at eq mapper no_column m false 0 n row m.columns out h lt in
      let (vp, there, paired) =
        row_pairs-at eq mapper no_column m false (0 + row) m.columns c col l made at in
      let (same, param, validity) =
        upsert_pair-params eq mapper no_column m col row e.value vp (ap Cmap.value_of found)
          (ap (λ i. pair eq mapper no_column m false i col) (zero_row row) ∙ paired) in
      (
        l,
        vp,
        here,
        there,
        same,
        param,
        validity,
        in_range row n m.upsert_parameter_count e.value.upsert_index vp.param lt
            (fits.positions (mapper col.name) e found).upsert param,
      )
    where
      zero_row : (r : ℕ) → r ≡ 0 + r
      zero_row r = omega arith
