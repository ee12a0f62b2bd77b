-- ===== src/Merge/Bag/Validation.antt =====
-- internal/util/merge/bag_validate.go: when a bag is accepted.
use cdc_sink_redshift.Common.{
  ℕ, suc, ◌≡◌, ◌≢◌, ◌↔◌, refl, sym, ap, ◌∙◌, inl, inr, Bool, true, false, Option, none, some, List,
  [], ◌∷◌, arith, if◌then◌else◌, Bool-cases, Any, get_elem?, is_empty,
}
use cdc_sink_redshift.Cmap as Cmap
use cdc_sink_redshift.Cmap.{Entry, Map, fetch}
use cdc_sink_redshift.Cmap.Copies.{IsKeyed}
use cdc_sink_redshift.Merge.Bag.{
  ColData, Slot, Bag, BagError, missing_pk_columns, unexpected_columns, keys, missing_pks,
  validate_pk, validate_no_unmapped,
}
use cdc_sink_redshift.Merge.Bag.Inv.{Inv, HasSlot}

module _ {K C : Type 0} (eq : C → C → Bool) (eq_iff : (a b : C) → (eq a b ≡ true) ↔ (a ≡ b))
    (mapper : K → C) where
  -- A key has a slot that was given a value.
  abbrev pub HasValue : Map K C (Slot K) → K → Type 0
  HasValue m k = (e : Entry K (Slot K)) × (fetch eq m (mapper k) ≡ some e) × (e.value.valid ≡ true)

  -- Every column before the first that is not primary has a value.
  abbrev pub HasPks : Map K C (Slot K) → List (ColData K) → Type 0
  HasPks m [] = Unit
  HasPks m (c ∷ cs) = elim c.primary [ true ↦ HasValue m c.name × HasPks m cs | false ↦ Unit ]

  -- The loop ends with an empty map exactly if it began with one and no column misses its value.
  abbrev Checked :
      Map K C (Slot K) → List (ColData K) → Map K C Unit → Option (Map K C Unit) → Type 0
  Checked m cs acc r =
      (acc' : Map K C Unit) × (r ≡ some acc') × ((acc' ≡ []) ↔ ((acc ≡ []) × HasPks m cs))

  store_not_empty : (m : Map K C Unit) (c : C) (e : Entry K Unit) → Cmap.store eq m c e ≢ []
  unfolding Cmap.store
  store_not_empty [] c e h = absurd (ground arith)
  store_not_empty ((d, f) ∷ m) c e h = elim (Bool-cases (eq d c)) [
    | inl hit ↦ absurd (ground arith)
    | inr miss ↦ absurd (ground arith)
  ]

  not_both :
      (m : Map K C (Slot K)) (k : K) (e : Entry K (Slot K))
      → fetch eq m (mapper k) ≡ some e
      → e.value.valid ≡ false
      → ¬ HasValue m k
  not_both m k e at bad (f, there, good) =
      let q : e ≡ f = ground arith in
      let p : e.value.valid ≡ f.value.valid = ap (λ (x : Entry K (Slot K)). x.value.valid) q in
      absurd (ground arith)

  -- A primary column that has a value adds nothing, and one that has none adds its name.
  missing_pks-good :
      (m : Map K C (Slot K)) (c : ColData K) (cs : List (ColData K)) (acc : Map K C Unit)
      (e : Entry K (Slot K))
      → c.primary ≡ true
      → fetch eq m (mapper c.name) ≡ some e
      → e.value.valid ≡ true
      → missing_pks eq mapper m (c ∷ cs) acc ≡ missing_pks eq mapper m cs acc
  unfolding missing_pks Cmap.get Cmap.match_key
  missing_pks-good m c cs acc e first at good = rw (first, at, good)

  missing_pks-bad :
      (m : Map K C (Slot K)) (c : ColData K) (cs : List (ColData K)) (acc : Map K C Unit)
      (e : Entry K (Slot K))
      → c.primary ≡ true
      → fetch eq m (mapper c.name) ≡ some e
      → e.value.valid ≡ false
      → missing_pks eq mapper m (c ∷ cs) acc
        ≡ missing_pks eq mapper m cs
            (Cmap.store eq acc (mapper c.name) (record { key = c.name; value = tt }))
  unfolding missing_pks Cmap.get Cmap.match_key Cmap.put
  missing_pks-bad m c cs acc e first at bad = rw (first, at, bad)

  missing_pks-last :
      (m : Map K C (Slot K)) (c : ColData K) (cs : List (ColData K)) (acc : Map K C Unit)
      → c.primary ≡ false
      → missing_pks eq mapper m (c ∷ cs) acc ≡ some acc
  unfolding missing_pks
  missing_pks-last m c cs acc last = rw last

  HasPks-cons :
      (m : Map K C (Slot K)) (c : ColData K) (cs : List (ColData K))
      → c.primary ≡ true
      → HasPks m (c ∷ cs) ↔ (HasValue m c.name × HasPks m cs)
  HasPks-cons m c cs first = rw first (λ h. h, λ h. h)

  HasPks-last :
      (m : Map K C (Slot K)) (c : ColData K) (cs : List (ColData K))
      → c.primary ≡ false
      → HasPks m (c ∷ cs)
  HasPks-last m c cs last = rw last tt

  missing_pks-Checked :
      (m : Map K C (Slot K)) (cs : List (ColData K)) (acc : Map K C Unit)
      → ((i : ℕ) (c : ColData K) → get_elem? cs i ≡ some c → HasSlot eq eq_iff mapper m c.name)
      → Checked m cs acc (missing_pks eq mapper m cs acc)
  unfolding missing_pks
  missing_pks-Checked m [] acc covers = (acc, refl, (λ e. (e, tt), λ h. h.0))
  missing_pks-Checked m (c ∷ cs) acc covers =
      let (e, at) = covers 0 c refl in
      let later = λ (i : ℕ) (d : ColData K) (g : get_elem? cs i ≡ some d). covers (suc i) d g in
      elim (Bool-cases c.primary) [
        | inr last ↦
            (acc, missing_pks-last m c cs acc last, (λ q. (q, HasPks-last m c cs last), λ h. h.0))
        | inl first ↦
            let split = HasPks-cons m c cs first in
            elim (Bool-cases e.value.valid) [
              | inl good ↦
                  let (r, end, iff) = missing_pks-Checked m cs acc later in
                  (
                    r,
                    missing_pks-good m c cs acc e first at good ∙ end,
                    (
                      λ q. ((iff.0 q).0, split.1 ((e, at, good), (iff.0 q).1)),
                      λ h. iff.1 (h.0, (split.0 h.1).1),
                    ),
                  )
              | inr bad ↦
                  let f : Entry K Unit = record { key = c.name; value = tt } in
                  let (r, end, iff) =
                    missing_pks-Checked m cs (Cmap.store eq acc (mapper c.name) f) later in
                  (
                    r,
                    missing_pks-bad m c cs acc e first at bad ∙ end,
                    (
                      λ q. absurd (store_not_empty acc (mapper c.name) f (iff.0 q).0),
                      λ h. absurd (not_both m c.name e at bad (split.0 h.1).0),
                    ),
                  )
            ]
      ]

  is_empty-none :
      (m : Map K C Unit)
      → ((if is_empty m then none else some (missing_pk_columns (keys m))) ≡ none) ↔ (m ≡ [])
  is_empty-none [] = (λ e. refl, λ e. refl)
  is_empty-none (x ∷ m) = (λ e. absurd (ground arith), λ e. absurd (ground arith))

  -- `ValidatePK` of a bag that meets the invariant does not panic, and it accepts the bag exactly if
  -- every column before the first that is not primary was given a value; so it accepts every bag
  -- without columns, and a value that is nil.
  pub validate_pk_iff :
      (b : Bag K C)
      → Inv eq eq_iff mapper b
      → (r : Option (BagError K)) × (validate_pk eq mapper b ≡ some r)
        × ((r ≡ none) ↔ HasPks b.mapped b.columns)
  unfolding validate_pk
  validate_pk_iff b i =
      let (m, end, iff) = missing_pks-Checked b.mapped b.columns [] i.covers in
      let e = is_empty-none m in
      (
        (if is_empty m then none else some (missing_pk_columns (keys m))),
        rw (end, validate_pk),
        (λ q. (iff.0 (e.0 q)).1, λ h. e.1 (iff.1 (refl, h))),
      )

  -- `ValidateNoUnmappedColumns` accepts a bag exactly if no key is unmapped.
  pub validate_no_unmapped_iff :
      (b : Bag K C)
      → Inv eq eq_iff mapper b
      → (validate_no_unmapped b ≡ none) ↔ ((k : K) → fetch eq b.unmapped (mapper k) ≡ none)
  unfolding validate_no_unmapped fetch
  validate_no_unmapped_iff b i = go b.unmapped i.unmapped_keyed
    where
      go :
          (u : Map K C Any)
          → IsKeyed eq eq_iff mapper u
          → ((if is_empty u then none else some (unexpected_columns (keys u))) ≡ none)
            ↔ ((k : K) → fetch eq u (mapper k) ≡ none)
      go [] h = (λ e k. refl, λ f. refl)
      go ((c, e) ∷ u) h = (λ q. absurd (ground arith), λ f. absurd (found (f e.key)))
        where
          found : fetch eq ((c, e) ∷ u) (mapper e.key) ≡ none → ⊥
          found q =
              let t : eq c (mapper e.key) ≡ true = (eq_iff c (mapper e.key)).1 (sym h.0) in
              absurd (ground (arith, q, t))
