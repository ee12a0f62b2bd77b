-- ===== src/Apply/Args/Slots.antt =====
-- internal/target/apply/apply.go, upsertArgsLocked: the loop over the properties of a bag.
use cdc_sink_redshift.Common.{
  All, ℕ, ◌+◌, ◌≡◌, ◌≢◌, ◌↔◌, refl, sym, ap, subst, ◌∙◌, inl, inr, Bool, true, Option, none, some,
  List, [], ◌∷◌, Outcome, returned, bind-returned, Bytes, Any, get_elem?, Bool-cases, arith,
}
use cdc_sink_redshift.Cmap as Cmap
use cdc_sink_redshift.Cmap.{Map, Entry, fetch}
use cdc_sink_redshift.Cmap.Laws.{IsDistinct}
use cdc_sink_redshift.Cmap.Copies.{IsKeyed, fetch-key}
use cdc_sink_redshift.Merge.Bag.{ColData, Slot}
use cdc_sink_redshift.Apply.Mapping.{Position}
use cdc_sink_redshift.Apply.Mapping.Apart.{Uses, Apart}
use cdc_sink_redshift.Apply.Args.{convert, write_value, at_position, fill_slot, fill_slots}
use cdc_sink_redshift.Apply.Args.Writes.{Unused, Writes, value-keeps, value-Writes}

module _ {K C P : Type 0} (eq : C → C → Bool) (eq_iff : (a b : C) → (eq a b ≡ true) ↔ (a ≡ b))
    (mapper : K → C) (plain : Bytes → Option Bytes)
    (parse : ColData K → Option (Any → Outcome P Any))
    (marshal : Map K C Any → Outcome P Bytes) where
  -- A property whose position does not write a place.
  abbrev pub Spares : Map K C (Position K) → ℕ → ℕ → Entry K (Slot K) → Type 0
  Spares ps i z e =
      (x : Entry K (Position K)) → fetch eq ps (mapper e.key) ≡ some x → Unused i x.value z

  -- A property that was written: its value, and the position that it found.
  slot-returned :
      (ps : Map K C (Position K)) (i : ℕ) (e : Entry K (Slot K)) (args out : List Any)
      → fill_slot eq mapper plain parse marshal ps i e args ≡ returned out
      → (v : Any) × (x : Entry K (Position K)) × (convert eq mapper plain parse marshal
            e.value.column e.value.value
          ≡ returned v)
        × (fetch eq ps (mapper e.key) ≡ some x)
        × (write_value {K = K} eq mapper plain parse marshal i e.value.valid v
              x.value.validity_index x.value.upsert_index args
            ≡ returned out)
  unfolding fill_slot at_position Cmap.get Cmap.match_key
  slot-returned ps i e args out h =
      let (v, a, b) =
        bind-returned (convert eq mapper plain parse marshal e.value.column e.value.value)
          (λ v.
            at_position eq mapper plain parse marshal i e.key e.value.valid v
              (Cmap.get eq mapper ps e.key) args)
          out h in
      go v a (fetch eq ps (mapper e.key)) refl b
    where
      go :
          (v : Any)
          → convert eq mapper plain parse marshal e.value.column e.value.value ≡ returned v
          → (o : Option (Entry K (Position K))) → fetch eq ps (mapper e.key) ≡ o
          → at_position eq mapper plain parse marshal i e.key e.value.valid v (Cmap.value_of o) args
            ≡ returned out
          → (v : Any) × (x : Entry K (Position K)) × (convert eq mapper plain parse marshal
                e.value.column e.value.value
              ≡ returned v)
            × (fetch eq ps (mapper e.key) ≡ some x)
            × (write_value {K = K} eq mapper plain parse marshal i e.value.valid v
                  x.value.validity_index x.value.upsert_index args
                ≡ returned out)
      go v a none q b = absurd (ground (arith, b))
      go v a (some x) q b = (v, x, a, q, b)

  pub slots-keeps :
      (ps : Map K C (Position K)) (i z : ℕ) (es : List (Entry K (Slot K))) (args out : List Any)
      → All (Spares ps i z) es
      → fill_slots eq mapper plain parse marshal ps i es args ≡ returned out
      → get_elem? out z ≡ get_elem? args z
  unfolding fill_slots
  slots-keeps ps i z [] args out s h = ap (λ l. get_elem? l z) (ground (arith, h))
  slots-keeps ps i z (e ∷ es) args out s h =
      let (mid, a, b) =
        bind-returned (fill_slot eq mapper plain parse marshal ps i e args)
          (fill_slots eq mapper plain parse marshal ps i es) out h in
      let (v, x, f, at, g) = slot-returned ps i e args mid a in
      slots-keeps ps i z es mid out s.1 b
      ∙ value-keeps eq eq_iff mapper plain parse marshal i z e.value.valid v x.value args mid
          (s.0 x at) g

  -- What is found in the rest of a map is found in the map.
  fetch-later :
      (b : C) (g : Entry K (Slot K)) (m : Map K C (Slot K)) (x : C) (f : Entry K (Slot K))
      → fetch eq m b ≡ none
      → fetch eq m x ≡ some f
      → fetch eq ((b, g) ∷ m) x ≡ some f
  unfolding fetch
  fetch-later b g m x f gone at = elim (Bool-cases (eq b x)) [
    | inl hit ↦
        let q : fetch eq m x ≡ none = subst (λ z. fetch eq m z ≡ none) ((eq_iff b x).0 hit) gone in
        absurd (ground arith)
    | inr miss ↦ rw miss at
  ]

  -- What holds of every entry that can be found holds of the list of entries.
  entries-All :
      (T : Entry K (Slot K) → Type 0) (m : Map K C (Slot K))
      → IsDistinct eq eq_iff m
      → ((c : C) (e : Entry K (Slot K)) → fetch eq m c ≡ some e → T e)
      → All T (Cmap.entries m)
  unfolding fetch Cmap.entries
  entries-All T [] d h = tt
  entries-All T ((c, e) ∷ m) d h = (
    h c e (rw ((eq_iff c c).1 refl) refl),
    entries-All T m d.1 (λ x f at. h x f (fetch-later c e m x f d.0 at)),
  )

  -- The properties that follow one spare what it writes.
  rest-Spares :
      (F : C → Type 0) (ps : Map K C (Position K)) (i y : ℕ) (c : C) (x : Entry K (Position K))
      (m : Map K C (Slot K))
      → Apart eq F ps
      → IsDistinct eq eq_iff m
      → IsKeyed eq eq_iff mapper m
      → fetch eq m c ≡ none
      → F c
      → ((d : C) (f : Entry K (Slot K)) → fetch eq m d ≡ some f → F d)
      → fetch eq ps c ≡ some x
      → Uses x.value y
      → All (Spares ps i (i + y)) (Cmap.entries m)
  rest-Spares F ps i y c x m apart d k gone fc f at uses =
      entries-All (Spares ps i (i + y)) m d λ z g there q found.
        let at' =
          subst (λ r. fetch eq ps r ≡ some q) (fetch-key eq eq_iff mapper m z g k there) found in
        let none_used : Uses q.value y → ⊥ =
          λ u. other z g there (apart c z x q y fc (f z g there) at at' uses u) in
        (
          λ j e w. none_used (inl (e ∙ ap some (cancel j w))),
          λ j e w. none_used (inr (e ∙ ap some (cancel j w))),
        )
    where
      cancel : (j : ℕ) → i + j ≡ i + y → j ≡ y
      cancel j q = omega arith

      other : (z : C) (g : Entry K (Slot K)) → fetch eq m z ≡ some g → c ≢ z
      other z g there same =
          let q : fetch eq m z ≡ none = subst (λ r. fetch eq m r ≡ none) same gone in
          absurd (ground arith)

  pub used_index :
      (p : Position K) (valid : Bool) (v w : Any) (y : ℕ) → Writes p valid v y w → Uses p y
  used_index p valid v w y (inl h) = inl h.0
  used_index p valid v w y (inr h) = inr h.0

  head-Writes :
      (F : C → Type 0) (ps : Map K C (Position K)) (i y : ℕ) (m : Map K C (Slot K)) (c : C)
      (e : Entry K (Slot K)) (x : Entry K (Position K)) (args out : List Any)
      → Apart eq F ps
      → IsDistinct eq eq_iff ((c, e) ∷ m)
      → IsKeyed eq eq_iff mapper ((c, e) ∷ m)
      → F c
      → ((d : C) (f : Entry K (Slot K)) → fetch eq m d ≡ some f → F d)
      → fetch eq ps c ≡ some x
      → fill_slots eq mapper plain parse marshal ps i (Cmap.entries ((c, e) ∷ m)) args
        ≡ returned out
      → (v : Any) × (convert eq mapper plain parse marshal e.value.column e.value.value
          ≡ returned v)
        × ((w : Any) → Writes x.value e.value.valid v y w → get_elem? out (i + y) ≡ some w)
  unfolding fill_slots Cmap.entries
  head-Writes F ps i y m c e x args out apart d k fc f pos h =
      let (mid, a, b) =
        bind-returned (fill_slot eq mapper plain parse marshal ps i e args)
          (fill_slots eq mapper plain parse marshal ps i (Cmap.entries m)) out h in
      let (v, z, conv, at, g) = slot-returned ps i e args mid a in
      let same : z ≡ x = some_eq (sym at ∙ ap (fetch eq ps) k.0 ∙ pos) in
      (
        v,
        conv,
        λ w wr.
            slots-keeps ps i (i + y) (Cmap.entries m) mid out
              (rest-Spares F ps i y c x m apart d.1 k.1 d.0 fc f pos
                (used_index x.value e.value.valid v w y wr))
              b
            ∙ value-Writes eq eq_iff mapper plain parse marshal i y e.value.valid v w z.value args
                mid (subst (λ q. Writes q.value e.value.valid v y w) (sym same) wr) g,
      )
    where
      some_eq : {z : Entry K (Position K)} → some z ≡ some x → z ≡ x
      some_eq q = ground (arith, q)

  -- What a property writes stays until the loop ends.
  pub slots-Writes :
      (F : C → Type 0) (ps : Map K C (Position K)) (i y : ℕ) (m : Map K C (Slot K)) (c : C)
      (e : Entry K (Slot K)) (x : Entry K (Position K)) (args out : List Any)
      → Apart eq F ps
      → IsDistinct eq eq_iff m
      → IsKeyed eq eq_iff mapper m
      → ((d : C) (f : Entry K (Slot K)) → fetch eq m d ≡ some f → F d)
      → fetch eq m c ≡ some e
      → fetch eq ps c ≡ some x
      → fill_slots eq mapper plain parse marshal ps i (Cmap.entries m) args ≡ returned out
      → (v : Any) × (convert eq mapper plain parse marshal e.value.column e.value.value
          ≡ returned v)
        × ((w : Any) → Writes x.value e.value.valid v y w → get_elem? out (i + y) ≡ some w)
  unfolding fill_slots Cmap.entries fetch
  slots-Writes F ps i y [] c e x args out apart d k f at pos h = absurd (ground arith)
  slots-Writes F ps i y ((b, g) ∷ m) c e x args out apart d k f at pos h =
      elim (Bool-cases (eq b c)) [
        | inl hit ↦
            let same : b ≡ c = (eq_iff b c).0 hit in
            let own : g ≡ e = ground arith in
            let fb : F b = f b g (rw ((eq_iff b b).1 refl) refl) in
            let r =
              head-Writes F ps i y m b g x args out apart d k fb
                (λ z q there. f z q (fetch-later b g m z q d.0 there))
                (subst (λ z. fetch eq ps z ≡ some x) (sym same) pos) h in
            subst
              (λ (q : Entry K (Slot K)).
                (v : Any) × (convert eq mapper plain parse marshal q.value.column q.value.value
                  ≡ returned v)
                × ((w : Any) → Writes x.value q.value.valid v y w → get_elem? out (i + y) ≡ some w))
              own r
        | inr miss ↦
            let (mid, a, rest) =
              bind-returned (fill_slot eq mapper plain parse marshal ps i g args)
                (fill_slots eq mapper plain parse marshal ps i (Cmap.entries m)) out h in
            slots-Writes F ps i y m c e x mid out apart d.1 k.1
              (λ z q there. f z q (fetch-later b g m z q d.0 there)) (ground arith) pos rest
      ]
