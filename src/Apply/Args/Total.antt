-- ===== src/Apply/Args/Total.antt =====
-- internal/target/apply/apply.go, upsertArgsLocked: the arguments that are returned.
use cdc_sink_redshift.Common.{
  ℕ, suc, ◌+◌, ◌*◌, ◌≤◌, ◌<◌, ◌≡◌, ◌≢◌, ◌↔◌, refl, sym, ap, inl, inr, Bool, true, false, Option,
  none, some, List, [], ◌∷◌, Outcome, done, Safe, bind-Safe, Bytes, Any, length, length-take, All,
  get_elem?, arith,
}
use cdc_sink_redshift.Cmap.{Map}
use cdc_sink_redshift.Merge.Bag as Bag
use cdc_sink_redshift.Merge.Bag.{ColData, Slot, BagError, validate_pk, validate_no_unmapped}
use cdc_sink_redshift.Merge.Bag.Inv.{Inv}
use cdc_sink_redshift.Apply.Mapping.{Mapping}
use cdc_sink_redshift.Apply.Mapping.Bounds.{Fits}
use cdc_sink_redshift.Apply.Config.{Config}
use cdc_sink_redshift.Apply.Mapping.{Product, new_column_mapping}
use cdc_sink_redshift.Apply.Mapping.Bounds.{new_column_mapping-Fits}
use cdc_sink_redshift.Apply.Args.Bounds.{nils-Sized, fill_row-Sized}
use cdc_sink_redshift.Apply.Columns.{to_columns-IsPivot}
use cdc_sink_redshift.Apply.Args.{
  Args, flat, columnar, nils, by_columns, pivot, Templates, fill_row, fill_rows, row_args,
  upsert_args,
}

-- The arguments of some rows: as many as asked for of each row, or as many columns, each with an entry
-- for every row.
abbrev pub ArgsFit : ℕ → ℕ → Args → Type 0
ArgsFit columns rows (flat args) = length args ≡ rows * columns
ArgsFit columns rows (columnar cols) =
    (length cols ≡ columns)
    × ((c : ℕ)
        → c < columns
        → (col : List Any) × (get_elem? cols c ≡ some col) × (length col ≡ rows))

pivot-ArgsFit :
    (K P : Type 0) (b : Bool) (columns rows : ℕ) (args : List Any)
    → length args ≡ rows * columns
    → Safe (ArgsFit columns rows) (pivot {K = K} {P = P} b columns rows args)
unfolding pivot by_columns
pivot-ArgsFit K P false columns rows args s = s
pivot-ArgsFit K P true columns rows args s = elim (to_columns-IsPivot columns rows args) [
  | inl (ne, e) ↦ absurd (ne (sym s))
  | inr (out, e, p) ↦
      rw (e, by_columns) (p.width, λ c h. let (col, at, len, cells) = p.cells c h in (col, at, len))
]

module _ {K C P : Type 0} (eq : C → C → Bool) (eq_iff : (a b : C) → (eq a b ≡ true) ↔ (a ≡ b))
    (mapper : K → C) (plain : Bytes → Option Bytes)
    (parse : ColData K → Option (Any → Outcome P Any)) (marshal : Map K C Any → Outcome P Bytes)
    (parses : (n : Bytes) → plain n ≢ none) where
  -- What the loop returns: the slice, the place after the last row, and the bags.
  abbrev Filled : ℕ → ℕ → ℕ → ℕ → List Any × ℕ × List (Bag.Bag K C) → Type 0
  Filled n i u k (args, j, bags) = (length args ≡ n) × (j ≡ i + k * u) × (length bags ≡ k)

  module _ {M : Type 0} (m : Mapping K C M) (fits : Fits eq eq_iff mapper m) where
    fill_rows-Filled :
        (n idx i : ℕ) (bags : List (Bag.Bag K C)) (args : List Any)
        → i + length bags * m.upsert_parameter_count ≤ n
        → All (Inv eq eq_iff mapper) bags
        → length args ≡ n
        → Safe
            (Filled n i m.upsert_parameter_count (length bags))
            (fill_rows eq mapper plain parse marshal m idx i bags args)
    unfolding fill_rows
    fill_rows-Filled n idx i [] args h inv s = (s, omega arith, refl)
    fill_rows-Filled n idx i (bag ∷ bags) args h inv s =
        bind-Safe _ _ (fill_row eq mapper plain parse marshal m idx i bag args) _
          (fill_row-Sized eq eq_iff mapper plain parse marshal parses m fits n idx i bag args
            (omega arith) inv.0 s)
          λ r t.
            bind-Safe _ _
              (fill_rows eq mapper plain parse marshal m (suc idx) (i + m.upsert_parameter_count)
                bags r.0)
              _
              (fill_rows-Filled n (suc idx) (i + m.upsert_parameter_count) bags r.0 (omega arith)
                inv.1 t)
              λ q (f0, f1, f2). (f0, omega arith, ap suc f2)

    row_args-Filled :
        (bags : List (Bag.Bag K C))
        → All (Inv eq eq_iff mapper) bags
        → Safe
            (λ (r : List Any × List (Bag.Bag K C)).
              (length r.0 ≡ length bags * m.upsert_parameter_count) × (length r.1 ≡ length bags))
            (row_args eq mapper plain parse marshal m bags)
    unfolding row_args
    row_args-Filled bags inv =
        let n = m.upsert_parameter_count * length bags in
        bind-Safe _ _ (fill_rows eq mapper plain parse marshal m 0 0 bags (nils n)) _
          (fill_rows-Filled n 0 0 bags (nils n) (omega arith) inv (nils-Sized n))
          λ r (f0, f1, f2). (omega (arith, length-take r.1 r.0), f2)

  -- With the mapping of a table as `newColumnMapping` returns it, for bags that meet the invariant of a bag, and
  -- numbers that parse, no write is out of range and nothing panics: either an error is
  -- returned, or an argument for every parameter of every row, by rows or by columns as the templates ask, and the bags are as many as before.
  pub upsert_args-ArgsFit :
      {M : Type 0} (cfg : Config K C M) (cols : List (ColData K)) (product : Product)
      (no_column : ColData K) (t : Templates K C M) (bags : List (Bag.Bag K C))
      → new_column_mapping eq mapper cfg cols product no_column ≡ done t.mapping
      → All (Inv eq eq_iff mapper) bags
      → Safe
          (λ (r : Args × List (Bag.Bag K C)).
            ArgsFit t.mapping.upsert_parameter_count (length bags) r.0 × (length r.1 ≡ length bags))
          (upsert_args eq mapper plain parse marshal t bags)
  unfolding upsert_args
  upsert_args-ArgsFit cfg cols product no_column t bags made inv =
      let fits =
        (new_column_mapping-Fits eq eq_iff mapper cfg cols product no_column t.mapping made).0 in
      bind-Safe _ _ (row_args eq mapper plain parse marshal t.mapping bags) _
        (row_args-Filled t.mapping fits bags inv)
        λ r (s0, s1).
          bind-Safe _ _ (pivot t.bulk_upsert t.mapping.upsert_parameter_count (length bags) r.0) _
            (pivot-ArgsFit K P t.bulk_upsert t.mapping.upsert_parameter_count (length bags) r.0 s0)
            λ args f. (f, s1)
