-- ===== src/Apply/Args/Located.antt =====
-- internal/target/apply/apply.go, upsertArgsLocked: where the values stand in the arguments, by rows or by columns.
use cdc_sink_redshift.Common.{
  ℕ, zero, suc, ◌+◌, ◌*◌, ◌<◌, ◌≡◌, ◌≢◌, ◌↔◌, refl, sym, ap, subst, ◌∙◌, inl, inr, Bool, true,
  false, Option, some, List, [], ◌∷◌, Outcome, done, failed, returned, Run, bind-returned, Bytes,
  Any, length, take, get_elem?, All, arith,
}
use cdc_sink_redshift.Cmap as Cmap
use cdc_sink_redshift.Cmap.{Map, Entry, fetch}
use cdc_sink_redshift.Merge.Bag as Bag
use cdc_sink_redshift.Merge.Bag.{ColData, Slot}
use cdc_sink_redshift.Merge.Bag.Inv.{Inv}
use cdc_sink_redshift.Apply.Config.{Config}
use cdc_sink_redshift.Apply.Columns.{element_count, to_columns-IsPivot}
use cdc_sink_redshift.Apply.Mapping.{Position, Mapping, Product, new_column_mapping}
use cdc_sink_redshift.Apply.Mapping.Apart.{Uses, Apart, old_lt, new_column_mapping-Apart}
use cdc_sink_redshift.Apply.Mapping.Bounds.{new_column_mapping-Fits}
use cdc_sink_redshift.Apply.Mapping.Renames.{Fresh}
use cdc_sink_redshift.Apply.Args.{
  ArgsError, Args, flat, columnar, nils, by_columns, pivot, Templates, convert, fill_rows, row_args,
  upsert_args,
}
use cdc_sink_redshift.Apply.Args.Writes.{Writes}
use cdc_sink_redshift.Apply.Args.Rows.{rows-keeps, rows-Writes}

-- The argument of a row at a parameter, where every row has as many parameters as given.
abbrev pub At : Args → ℕ → ℕ → ℕ → Any → Type 0
At (flat args) u b y w = get_elem? args (b * u + y) ≡ some w
At (columnar cols) u b y w =
    (col : List Any) × (get_elem? cols y ≡ some col) × (get_elem? col b ≡ some w)

get_elem?-take : (xs : List Any) (n z : ℕ) → z < n → get_elem? (take n xs) z ≡ get_elem? xs z
get_elem?-take xs zero z h = absurd (omega arith)
get_elem?-take [] (suc n) z h = refl
get_elem?-take (x ∷ xs) (suc n) zero h = refl
get_elem?-take (x ∷ xs) (suc n) (suc z) h = get_elem?-take xs n z (omega arith)

get_elem?-lt :
    {A : Type 0} → (xs : List A) (b : ℕ) (x : A) → get_elem? xs b ≡ some x → b < length xs
get_elem?-lt [] b x h = absurd (ground (arith, h))
get_elem?-lt (a ∷ xs) zero x h = omega arith
get_elem?-lt (a ∷ xs) (suc b) x h = let r = get_elem?-lt xs b x h in omega arith

cell_lt : (b n u y : ℕ) → b < n → y < u → b * u + y < n * u
cell_lt b n u y h k = grind arith

-- The layout keeps every value at its row and parameter.
pivot-At :
    (K P : Type 0) (bulk : Bool) (u n b y : ℕ) (args : List Any) (out : Args) (w : Any)
    → b < n
    → y < u
    → pivot {K = K} {P = P} bulk u n args ≡ returned out
    → get_elem? args (b * u + y) ≡ some w
    → At out u b y w
unfolding pivot by_columns
pivot-At K P false u n b y args out w hb hy h at = subst (λ o. At o u b y w) (same h) at
  where
    same :
        ◌≡◌ {A = Run (ArgsError K P) Args} (returned (flat args)) (returned out) → flat args ≡ out
    same q = ground (arith, q)
pivot-At K P true u n b y args out w hb hy h at = elim (to_columns-IsPivot u n args) [
  | inl (ne, e) ↦ absurd (broken (subst (λ o. by_columns {K = K} {P = P} o ≡ returned out) e h))
  | inr (cols, e, p) ↦
      let (col, here, len, each) = p.cells y hy in
      subst (λ o. At o u b y w)
        (same cols (subst (λ o. by_columns {K = K} {P = P} o ≡ returned out) e h))
        (col, here, each b hb ∙ at)
]
  where
    same :
        (cols : List (List Any))
        → ◌≡◌ {A = Run (ArgsError K P) Args} (returned (columnar cols)) (returned out)
        → columnar cols ≡ out
    same cols q = ground (arith, q)

    broken :
        by_columns {K = K} {P = P} (some (failed (element_count u n (length args)))) ≡ returned out
        → ⊥
    broken q = ground (arith, q)

module _ {K C P : Type 0} (eq : C → C → Bool) (eq_iff : (a b : C) → (eq a b ≡ true) ↔ (a ≡ b))
    (mapper : K → C) (plain : Bytes → Option Bytes)
    (parse : ColData K → Option (Any → Outcome P Any))
    (marshal : Map K C Any → Outcome P Bytes) where
  row_args-At :
      {M : Type 0} (m : Mapping K C M) (F : C → Type 0) (y b : ℕ) (bags : List (Bag.Bag K C))
      (bag : Bag.Bag K C) (c : C) (e : Entry K (Slot K)) (x : Entry K (Position K))
      (r : List Any × List (Bag.Bag K C))
      → Apart eq F m.positions
      → All (Inv eq eq_iff mapper) bags
      → All
          (λ (a : Bag.Bag K C). (d : C) (f : Entry K (Slot K)) → fetch eq a.mapped d ≡ some f → F d)
          bags
      → get_elem? bags b ≡ some bag
      → fetch eq bag.mapped c ≡ some e
      → fetch eq m.positions c ≡ some x
      → m.extras_col_idx ≢ some y
      → y < m.upsert_parameter_count
      → row_args eq mapper plain parse marshal m bags ≡ returned r
      → (v : Any) × (convert eq mapper plain parse marshal e.value.column e.value.value
          ≡ returned v)
        × ((w : Any)
            → Writes x.value e.value.valid v y w
            → get_elem? r.0 (b * m.upsert_parameter_count + y) ≡ some w)
  unfolding row_args
  row_args-At m F y b bags bag c e x r apart inv f here at pos ne lt h =
      let n = m.upsert_parameter_count * length bags in
      let (q, a, g) =
        bind-returned (fill_rows eq mapper plain parse marshal m 0 0 bags (nils n)) _ r h in
      let (end, keeps) = rows-keeps eq eq_iff mapper plain parse marshal m 0 0 bags (nils n) q a in
      let (v, conv, each) =
        rows-Writes eq eq_iff mapper plain parse marshal m F 0 0 y b bags bag c e x (nils n) q apart
          inv f here at pos ne lt a in
      let cell =
        cell_lt b (length bags) m.upsert_parameter_count y (get_elem?-lt bags b bag here) lt in
      (
        v,
        conv,
        λ w wr.
            ap (λ l. get_elem? l (b * m.upsert_parameter_count + y)) (sym (same g))
            ∙ get_elem?-take q.0 q.1 (b * m.upsert_parameter_count + y) (omega arith)
            ∙ ap (get_elem? q.0) place
            ∙ each w wr,
      )
    where
      same :
          {xs : List Any} {out : List (Bag.Bag K C)}
          → ◌≡◌ {A = Run (ArgsError K P) (List Any × List (Bag.Bag K C))}
              (returned (xs, out))
              (returned r)
          → xs ≡ r.0
      same q = ground (arith, q)

      place : b * m.upsert_parameter_count + y ≡ 0 + b * m.upsert_parameter_count + y
      place = omega arith

  -- With the mapping of a table as `newColumnMapping` returns it, and bags that meet their invariant and have no property
  -- under the name of a source column: when `upsertArgsLocked` returns arguments, every property with a position was
  -- converted, and its value stands in the row of its bag at the parameter of its column, and the flag of a valid value at
  -- that of the flag, by rows or by columns, unless the parameter is the one of the extra properties.
  pub upsert_args-At :
      {M : Type 0} (cfg : Config K C M) (cols : List (ColData K)) (product : Product)
      (no_column : ColData K) (t : Templates K C M) (bags left : List (Bag.Bag K C)) (out : Args)
      (b y : ℕ) (bag : Bag.Bag K C) (c : C) (e : Entry K (Slot K)) (x : Entry K (Position K))
      → new_column_mapping eq mapper cfg cols product no_column ≡ done t.mapping
      → All (Inv eq eq_iff mapper) bags
      → All
          (λ (a : Bag.Bag K C).
            (d : C) (f : Entry K (Slot K))
            → fetch eq a.mapped d ≡ some f
            → Fresh eq mapper (Cmap.entries cfg.source_names) d)
          bags
      → upsert_args eq mapper plain parse marshal t bags ≡ returned (out, left)
      → get_elem? bags b ≡ some bag
      → fetch eq bag.mapped c ≡ some e
      → fetch eq t.mapping.positions c ≡ some x
      → Uses x.value y
      → t.mapping.extras_col_idx ≢ some y
      → (v : Any) × (convert eq mapper plain parse marshal e.value.column e.value.value
          ≡ returned v)
        × ((w : Any)
            → Writes x.value e.value.valid v y w
            → At out t.mapping.upsert_parameter_count b y w)
  unfolding upsert_args
  upsert_args-At cfg cols product no_column t bags left out b y bag c e x made inv fresh h here at
        pos uses ne =
      let F = Fresh eq mapper (Cmap.entries cfg.source_names) in
      let fits =
        (new_column_mapping-Fits eq eq_iff mapper cfg cols product no_column t.mapping made).0 in
      let lt = old_lt eq eq_iff mapper t.mapping c x y fits pos uses in
      let (r, a, g) =
        bind-returned (row_args eq mapper plain parse marshal t.mapping bags) _ (out, left) h in
      let (o, p, q) =
        bind-returned (pivot t.bulk_upsert t.mapping.upsert_parameter_count (length bags) r.0) _
          (out, left) g in
      let (v, conv, each) =
        row_args-At t.mapping F y b bags bag c e x r
          (new_column_mapping-Apart eq eq_iff mapper cfg cols product no_column t.mapping made) inv
          fresh here at pos ne lt a in
      (
        v,
        conv,
        λ w wr.
            subst (λ o. At o t.mapping.upsert_parameter_count b y w) (same q)
              (pivot-At K P t.bulk_upsert t.mapping.upsert_parameter_count (length bags) b y r.0 o w
                (get_elem?-lt bags b bag here) lt p (each w wr)),
      )
    where
      same :
          {o : Args} {l : List (Bag.Bag K C)}
          → ◌≡◌ {A = Run (ArgsError K P) (Args × List (Bag.Bag K C))}
              (returned (o, l))
              (returned (out, left))
          → o ≡ out
      same q = ground (arith, q)
