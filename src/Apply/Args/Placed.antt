-- ===== src/Apply/Args/Placed.antt =====
-- internal/target/apply/apply.go, upsertArgsLocked: every value stands at the parameter of its column and row.
use cdc_sink_redshift.Common.{
  ℕ, ◌+◌, ◌<◌, ◌≡◌, ◌≢◌, ◌↔◌, refl, ap, ◌∙◌, Bool, true, Option, none, some, List, [], ◌∷◌, Outcome,
  returned, Run, bind-returned, Bytes, Any, text, get_elem?, All, arith,
}
use cdc_sink_redshift.Cmap as Cmap
use cdc_sink_redshift.Cmap.{Map, Entry, fetch}
use cdc_sink_redshift.Merge.Bag as Bag
use cdc_sink_redshift.Merge.Bag.{ColData, Slot, validate_pk, validate_no_unmapped}
use cdc_sink_redshift.Merge.Bag.Inv.{Inv}
use cdc_sink_redshift.Apply.Mapping.{Position, Mapping}
use cdc_sink_redshift.Apply.Mapping.Apart.{Apart}
use cdc_sink_redshift.Apply.Args.{
  ArgsError, write, convert, fill_slots, drop_ignored, checked, check_pk, encoded, write_extras,
  fill_row,
}
use cdc_sink_redshift.Apply.Args.Writes.{Writes, write-keeps}
use cdc_sink_redshift.Apply.Args.Slots.{Spares, slots-keeps, slots-Writes}

module _ {K C P : Type 0} (eq : C → C → Bool) (eq_iff : (a b : C) → (eq a b ≡ true) ↔ (a ≡ b))
    (mapper : K → C) (plain : Bytes → Option Bytes)
    (parse : ColData K → Option (Any → Outcome P Any))
    (marshal : Map K C Any → Outcome P Bytes) where
  -- The extra properties leave what is not theirs.
  extras-keeps :
      (idx i z : ℕ) (bag : Bag.Bag K C) (o : Option ℕ) (args out : List Any)
      → ((x : ℕ) → o ≡ some x → i + x ≢ z)
      → write_extras eq mapper plain parse marshal idx i bag o args ≡ returned out
      → get_elem? out z ≡ get_elem? args z
  unfolding write_extras
  extras-keeps idx i z bag none args out ne h =
      let (u, a, b) =
        bind-returned (checked eq mapper plain parse marshal idx (validate_no_unmapped bag))
          (λ ok. returned args) out h in
      ap (λ l. get_elem? l z) (ground (arith, b))
  extras-keeps idx i z bag (some x) args out ne h =
      let (s, a, b) =
        bind-returned (encoded eq mapper plain parse marshal (marshal bag.unmapped))
          (λ s. write args (i + x) (text s)) out h in
      write-keeps _ (i + x) z (text s) args out (ne x refl) b

  all_of :
      (T : Entry K (Slot K) → Type 0) (es : List (Entry K (Slot K)))
      → ((e : Entry K (Slot K)) → T e)
      → All T es
  all_of T [] h = tt
  all_of T (e ∷ es) h = (h e, all_of T es h)

  module _ {M : Type 0} (m : Mapping K C M) where
    -- The steps of a row that returned.
    row-returned :
        (idx i : ℕ) (bag : Bag.Bag K C) (args : List Any) (r : List Any × Bag.Bag K C)
        → fill_row eq mapper plain parse marshal m idx i bag args ≡ returned r
        → (mid : List Any) × (fill_slots eq mapper plain parse marshal m.positions i
              (Cmap.entries bag.mapped)
              args
            ≡ returned mid)
          × (write_extras eq mapper plain parse marshal idx i
                (drop_ignored eq mapper plain parse marshal m.ignore bag)
                m.extras_col_idx
                mid
              ≡ returned r.0)
    unfolding fill_row
    row-returned idx i bag args r h =
        let (u, a, b) =
          bind-returned (check_pk eq mapper plain parse marshal idx (validate_pk eq mapper bag)) _ r
            h in
        let (mid, c, d) =
          bind-returned
            (fill_slots eq mapper plain parse marshal m.positions i (Cmap.entries bag.mapped) args)
            _ r b in
        let (last, e, f) =
          bind-returned
            (write_extras eq mapper plain parse marshal idx i
              (drop_ignored eq mapper plain parse marshal m.ignore bag) m.extras_col_idx mid)
            _ r d in
        (mid, c, e ∙ ap returned (ap (λ x. x.0) (same f)))
      where
        same :
            {x : List Any × Bag.Bag K C}
            → ◌≡◌ {A = Run (ArgsError K P) (List Any × Bag.Bag K C)} (returned x) (returned r)
            → x ≡ r
        same q = ground (arith, q)

    -- A row writes nothing before its offset.
    pub row-keeps :
        (idx i z : ℕ) (bag : Bag.Bag K C) (args : List Any) (r : List Any × Bag.Bag K C)
        → z < i
        → fill_row eq mapper plain parse marshal m idx i bag args ≡ returned r
        → get_elem? r.0 z ≡ get_elem? args z
    row-keeps idx i z bag args r lt h =
        let (mid, a, b) = row-returned idx i bag args r h in
        extras-keeps idx i z _ m.extras_col_idx mid r.0 (λ x e q. absurd (omega arith)) b
        ∙ slots-keeps eq eq_iff mapper plain parse marshal m.positions i z (Cmap.entries bag.mapped)
            args mid
            (all_of (Spares eq eq_iff mapper plain parse marshal m.positions i z)
              (Cmap.entries bag.mapped)
              (λ e x at. (λ j p q. absurd (omega arith), λ j p q. absurd (omega arith))))
            a

    -- What a property of a bag writes into a row stays until the row ends, unless the extra properties go there.
    pub row-Writes :
        (F : C → Type 0) (idx i y : ℕ) (bag : Bag.Bag K C) (c : C) (e : Entry K (Slot K))
        (x : Entry K (Position K)) (args : List Any) (r : List Any × Bag.Bag K C)
        → Apart eq F m.positions
        → Inv eq eq_iff mapper bag
        → ((d : C) (f : Entry K (Slot K)) → fetch eq bag.mapped d ≡ some f → F d)
        → fetch eq bag.mapped c ≡ some e
        → fetch eq m.positions c ≡ some x
        → m.extras_col_idx ≢ some y
        → fill_row eq mapper plain parse marshal m idx i bag args ≡ returned r
        → (v : Any) × (convert eq mapper plain parse marshal e.value.column e.value.value
            ≡ returned v)
          × ((w : Any) → Writes x.value e.value.valid v y w → get_elem? r.0 (i + y) ≡ some w)
    row-Writes F idx i y bag c e x args r apart inv f at pos ne h =
        let (mid, a, b) = row-returned idx i bag args r h in
        let (v, conv, each) =
          slots-Writes eq eq_iff mapper plain parse marshal F m.positions i y bag.mapped c e x args
            mid apart inv.mapped_distinct inv.mapped_keyed f at pos a in
        (
          v,
          conv,
          λ w wr.
              extras-keeps idx i (i + y) _ m.extras_col_idx mid r.0
                (λ j q s. ne (q ∙ ap some (cancel j s))) b
              ∙ each w wr,
        )
      where
        cancel : (j : ℕ) → i + j ≡ i + y → j ≡ y
        cancel j q = omega arith
