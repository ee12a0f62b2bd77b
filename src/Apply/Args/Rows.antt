-- ===== src/Apply/Args/Rows.antt =====
-- internal/target/apply/apply.go, upsertArgsLocked: the loop over the bags.
use cdc_sink_redshift.Common.{
  ℕ, zero, suc, ◌+◌, ◌*◌, ◌<◌, ◌≡◌, ◌≢◌, ◌↔◌, sym, ap, subst, ◌∙◌, Bool, true, Option, some, List,
  [], ◌∷◌, Outcome, returned, Run, bind-returned, Bytes, Any, length, get_elem?, All, arith,
}
use cdc_sink_redshift.Cmap.{Map, Entry, fetch}
use cdc_sink_redshift.Merge.Bag as Bag
use cdc_sink_redshift.Merge.Bag.{ColData, Slot, validate_pk, validate_no_unmapped}
use cdc_sink_redshift.Merge.Bag.Inv.{Inv}
use cdc_sink_redshift.Apply.Mapping.{Position, Mapping}
use cdc_sink_redshift.Apply.Mapping.Apart.{Apart}
use cdc_sink_redshift.Apply.Args.{ArgsError, convert, fill_row, fill_rows}
use cdc_sink_redshift.Apply.Args.Writes.{Writes}
use cdc_sink_redshift.Apply.Args.Placed.{row-keeps, row-Writes}

module _ {K C P : Type 0} (eq : C → C → Bool) (eq_iff : (a b : C) → (eq a b ≡ true) ↔ (a ≡ b))
    (mapper : K → C) (plain : Bytes → Option Bytes)
    (parse : ColData K → Option (Any → Outcome P Any))
    (marshal : Map K C Any → Outcome P Bytes) where
  module _ {M : Type 0} (m : Mapping K C M) where
    -- The steps of the loop over the bags, when it returned.
    rows-returned :
        (idx i : ℕ) (bag : Bag.Bag K C) (bags : List (Bag.Bag K C)) (args : List Any)
        (r : List Any × ℕ × List (Bag.Bag K C))
        → fill_rows eq mapper plain parse marshal m idx i (bag ∷ bags) args ≡ returned r
        → (first : List Any × Bag.Bag K C) × (rest : List Any × ℕ × List (Bag.Bag K C)) × (fill_row
              eq mapper plain parse marshal m idx i bag args
            ≡ returned first)
          × (fill_rows eq mapper plain parse marshal m
                (suc idx)
                (i + m.upsert_parameter_count)
                bags
                first.0
              ≡ returned rest)
          × (r.0 ≡ rest.0)
          × (r.1 ≡ rest.1)
    unfolding fill_rows
    rows-returned idx i bag bags args r h =
        let (first, a, b) =
          bind-returned (fill_row eq mapper plain parse marshal m idx i bag args) _ r h in
        let (rest, c, d) =
          bind-returned
            (fill_rows eq mapper plain parse marshal m (suc idx) (i + m.upsert_parameter_count) bags
              first.0)
            _ r b in
        let q = same d in (first, rest, a, c, sym (ap (λ x. x.0) q), sym (ap (λ x. x.1) q))
      where
        same :
            {x : List Any × ℕ × List (Bag.Bag K C)}
            → ◌≡◌ {A = Run (ArgsError K P) (List Any × ℕ × List (Bag.Bag K C))}
                (returned x)
                (returned r)
            → x ≡ r
        same q = ground (arith, q)

    -- What the loop over the bags leaves, and where it ends.
    pub rows-keeps :
        (idx i : ℕ) (bags : List (Bag.Bag K C)) (args : List Any)
        (r : List Any × ℕ × List (Bag.Bag K C))
        → fill_rows eq mapper plain parse marshal m idx i bags args ≡ returned r
        → (r.1 ≡ i + length bags * m.upsert_parameter_count)
          × ((z : ℕ) → z < i → get_elem? r.0 z ≡ get_elem? args z)
    unfolding fill_rows
    rows-keeps idx i [] args r h =
        let e : args ≡ r.0 = ground (arith, h) in
        let n : i ≡ r.1 = ground (arith, h) in
        (omega arith, λ z lt. ap (λ l. get_elem? l z) (sym e))
    rows-keeps idx i (bag ∷ bags) args r h =
        let (first, rest, a, b, e, n) = rows-returned idx i bag bags args r h in
        let (end, keeps) =
          rows-keeps (suc idx) (i + m.upsert_parameter_count) bags first.0 rest b in
        (
          omega arith,
          λ z lt.
              ap (λ l. get_elem? l z) e
              ∙ keeps z (omega arith)
              ∙ row-keeps eq eq_iff mapper plain parse marshal m idx i z bag args first lt a,
        )

    -- What a property of a bag writes into its row stays until the loop over the bags ends.
    pub rows-Writes :
        (F : C → Type 0) (idx i y b : ℕ) (bags : List (Bag.Bag K C)) (bag : Bag.Bag K C) (c : C)
        (e : Entry K (Slot K)) (x : Entry K (Position K)) (args : List Any)
        (r : List Any × ℕ × List (Bag.Bag K C))
        → Apart eq F m.positions
        → All (Inv eq eq_iff mapper) bags
        → All
            (λ (a : Bag.Bag K C).
              (d : C) (f : Entry K (Slot K)) → fetch eq a.mapped d ≡ some f → F d)
            bags
        → get_elem? bags b ≡ some bag
        → fetch eq bag.mapped c ≡ some e
        → fetch eq m.positions c ≡ some x
        → m.extras_col_idx ≢ some y
        → y < m.upsert_parameter_count
        → fill_rows eq mapper plain parse marshal m idx i bags args ≡ returned r
        → (v : Any) × (convert eq mapper plain parse marshal e.value.column e.value.value
            ≡ returned v)
          × ((w : Any)
              → Writes x.value e.value.valid v y w
              → get_elem? r.0 (i + b * m.upsert_parameter_count + y) ≡ some w)
    rows-Writes F idx i y b [] bag c e x args r apart inv f here at pos ne lt h =
        absurd (ground (arith, here))
    rows-Writes F idx i y zero (a ∷ bags) bag c e x args r apart inv f here at pos ne lt h =
        let (first, rest, g, k, same, n) = rows-returned idx i a bags args r h in
        let own : a ≡ bag = some_bag here in
        let (v, conv, each) =
          row-Writes eq eq_iff mapper plain parse marshal m F idx i y a c e x args first apart inv.0
            f.0 (subst (λ (q : Bag.Bag K C). fetch eq q.mapped c ≡ some e) (sym own) at) pos ne g in
        let (end, keeps) =
          rows-keeps (suc idx) (i + m.upsert_parameter_count) bags first.0 rest k in
        (
          v,
          conv,
          λ w wr.
              ap (get_elem? r.0) place
              ∙ ap (λ l. get_elem? l (i + y)) same
              ∙ keeps (i + y) (omega arith)
              ∙ each w wr,
        )
      where
        some_bag : some a ≡ some bag → a ≡ bag
        some_bag q = ground (arith, q)

        place : i + 0 * m.upsert_parameter_count + y ≡ i + y
        place = omega arith
    rows-Writes F idx i y (suc b) (a ∷ bags) bag c e x args r apart inv f here at pos ne lt h =
        let (first, rest, g, k, same, n) = rows-returned idx i a bags args r h in
        let (v, conv, each) =
          rows-Writes F (suc idx) (i + m.upsert_parameter_count) y b bags bag c e x first.0 rest
            apart inv.1 f.1 here at pos ne lt k in
        (
          v,
          conv,
          λ w wr.
              ap (get_elem? r.0) place
              ∙ ap
                  (λ l.
                    get_elem? l (i + m.upsert_parameter_count + b * m.upsert_parameter_count + y))
                  same
              ∙ each w wr,
        )
      where
        place :
            i + suc b * m.upsert_parameter_count + y
            ≡ i + m.upsert_parameter_count + b * m.upsert_parameter_count + y
        place = omega arith
