-- ===== src/Merge/Bag/Inv.antt =====
-- internal/util/merge/bag.go: the invariant of a bag, which every call keeps.
use cdc_sink_redshift.Common.{
  ℕ, zero, suc, ◌≡◌, ◌↔◌, refl, subst, ◌⊎◌, inl, inr, Bool, true, false, Option, none, some, List,
  [], ◌∷◌, arith, Bool-cases, Any, null, get_elem?,
}
use cdc_sink_redshift.Cmap as Cmap
use cdc_sink_redshift.Cmap.{Entry, Map, fetch}
use cdc_sink_redshift.Cmap.Laws.{
  IsDistinct, fetch-store, fetch-remove, store-IsDistinct, remove-IsDistinct,
}
use cdc_sink_redshift.Cmap.Copies.{IsKeyed, store-IsKeyed, remove-IsKeyed, fetch-key}
use cdc_sink_redshift.Merge.Bag.{
  ColData, Slot, Bag, seed_columns, new_bag, renamed, put, delete, write_slot, put_at, delete_at,
}

module _ {K C : Type 0} (eq : C → C → Bool) (eq_iff : (a b : C) → (eq a b ≡ true) ↔ (a ≡ b))
    (mapper : K → C) where
  -- A key has a slot.
  abbrev pub HasSlot : Map K C (Slot K) → K → Type 0
  HasSlot m k = (e : Entry K (Slot K)) × (fetch eq m (mapper k) ≡ some e)

  -- Both maps are maps, no key is in both, and every column has a slot.
  pub record Inv (b : Bag K C) : Type 0 where
    pub mapped_distinct : IsDistinct eq eq_iff b.mapped
    pub unmapped_distinct : IsDistinct eq eq_iff b.unmapped
    pub mapped_keyed : IsKeyed eq eq_iff mapper b.mapped
    pub unmapped_keyed : IsKeyed eq eq_iff mapper b.unmapped
    pub apart : (c : C) → (fetch eq b.mapped c ≡ none) ⊎ (fetch eq b.unmapped c ≡ none)
    pub covers : (i : ℕ) (c : ColData K) → get_elem? b.columns i ≡ some c → HasSlot b.mapped c.name

  store-HasSlot :
      (m : Map K C (Slot K)) (c : C) (e : Entry K (Slot K)) (k : K)
      → HasSlot m k
      → HasSlot (Cmap.store eq m c e) k
  store-HasSlot m c e k (f, at) = elim (Bool-cases (eq c (mapper k))) [
    | inl hit ↦ (e, rw (fetch-store eq eq_iff m c (mapper k) e, hit))
    | inr miss ↦ (f, rw (fetch-store eq eq_iff m c (mapper k) e, miss) at)
  ]

  moved : (u : Map K C Any) (c d : C) → fetch eq u c ≡ none → eq c d ≡ true → fetch eq u d ≡ none
  moved u c d gone hit = subst (λ x. fetch eq u x ≡ none) ((eq_iff c d).0 hit) gone

  write_slot-Inv :
      (b : Bag K C) (k : K) (e : Entry K (Slot K)) (v : Bool) (x : Any)
      → fetch eq b.mapped (mapper k) ≡ some e
      → Inv b
      → Inv (record b { mapped = write_slot eq mapper b.mapped k e v x })
  unfolding write_slot
  write_slot-Inv b k e v x at i =
      let f : Entry K (Slot K) = record {
        key = e.key;
        value = record { column = e.value.column; valid = v; value = x };
      } in
      record {
        mapped_distinct = store-IsDistinct eq eq_iff b.mapped (mapper k) f i.mapped_distinct;
        unmapped_distinct = i.unmapped_distinct;
        mapped_keyed =
            subst (λ c. IsKeyed eq eq_iff mapper (Cmap.store eq b.mapped c f))
              (fetch-key eq eq_iff mapper b.mapped (mapper k) e i.mapped_keyed at)
              (store-IsKeyed eq eq_iff mapper b.mapped f i.mapped_keyed);
        unmapped_keyed = i.unmapped_keyed;
        apart = λ c. elim (Bool-cases (eq (mapper k) c)) [
          | inl hit ↦ elim (i.apart (mapper k)) [
            | inl gone ↦ absurd (ground (arith, at, gone))
            | inr gone ↦ inr (moved b.unmapped (mapper k) c gone hit)
          ]
          | inr miss ↦ rw (fetch-store eq eq_iff b.mapped (mapper k) c f, miss) (i.apart c)
        ];
        covers = λ j c g. store-HasSlot b.mapped (mapper k) f c.name (i.covers j c g);
      }

  put_at-Inv :
      (b : Bag K C) (k : K) (v : Any) (o : Option (Entry K (Slot K)))
      → fetch eq b.mapped (mapper k) ≡ o
      → Inv b
      → Inv (put_at eq mapper b k v o)
  unfolding put_at Cmap.put
  put_at-Inv b k v (some e) at i = write_slot-Inv b k e true v at i
  put_at-Inv b k v none at i = record {
    mapped_distinct = i.mapped_distinct;
    unmapped_distinct =
        store-IsDistinct eq eq_iff b.unmapped (mapper k) (record { key = k; value = v })
          i.unmapped_distinct;
    mapped_keyed = i.mapped_keyed;
    unmapped_keyed =
        store-IsKeyed eq eq_iff mapper b.unmapped (record { key = k; value = v }) i.unmapped_keyed;
    apart = λ c. elim (Bool-cases (eq (mapper k) c)) [
      | inl hit ↦ inl (subst (λ x. fetch eq b.mapped x ≡ none) ((eq_iff (mapper k) c).0 hit) at)
      | inr miss ↦
          rw (fetch-store eq eq_iff b.unmapped (mapper k) c (record { key = k; value = v }), miss)
            (i.apart c)
    ];
    covers = i.covers;
  }

  delete_at-Inv :
      (b : Bag K C) (k : K) (o : Option (Entry K (Slot K)))
      → fetch eq b.mapped (mapper k) ≡ o
      → Inv b
      → Inv (delete_at eq mapper b k o)
  unfolding delete_at Cmap.delete
  delete_at-Inv b k (some e) at i = write_slot-Inv b k e false null at i
  delete_at-Inv b k none at i = record {
    mapped_distinct = i.mapped_distinct;
    unmapped_distinct = remove-IsDistinct eq eq_iff b.unmapped (mapper k) i.unmapped_distinct;
    mapped_keyed = i.mapped_keyed;
    unmapped_keyed = remove-IsKeyed eq eq_iff mapper b.unmapped (mapper k) i.unmapped_keyed;
    apart = λ c. elim (Bool-cases (eq (mapper k) c)) [
      | inl hit ↦ inl (subst (λ x. fetch eq b.mapped x ≡ none) ((eq_iff (mapper k) c).0 hit) at)
      | inr miss ↦
          rw (fetch-remove eq eq_iff b.unmapped (mapper k) c i.unmapped_distinct, miss) (i.apart c)
    ];
    covers = i.covers;
  }

  -- `Put` and `Delete` keep the invariant: no key is both mapped and unmapped, or twice in either, and
  -- every column keeps its slot.
  pub put-delete-Inv :
      (b : Bag K C) (k : K) (v : Any)
      → Inv b
      → Inv (put eq mapper b k v) × Inv (delete eq mapper b k)
  unfolding put delete Cmap.match_key
  put-delete-Inv b k v i =
      let r = renamed eq mapper b.rename k in
      (
        put_at-Inv b r v (fetch eq b.mapped (mapper r)) refl i,
        delete_at-Inv b r (fetch eq b.mapped (mapper r)) refl i,
      )

  -- The entry of a column without a value.
  abbrev blank : ColData K → Entry K (Slot K)
  blank c = record { key = c.name; value = record { column = c; valid = false; value = null } }

  -- What the loop of `NewBag` keeps of the slots it has made.
  seed_columns-keeps :
      (cs : List (ColData K)) (m : Map K C (Slot K)) (k : K)
      → HasSlot m k
      → HasSlot (seed_columns eq mapper cs m) k
  unfolding seed_columns Cmap.put
  seed_columns-keeps [] m k h = h
  seed_columns-keeps (c ∷ cs) m k h =
      let f = blank c in
      seed_columns-keeps cs (Cmap.store eq m (mapper c.name) f) k
        (store-HasSlot m (mapper c.name) f k h)

  seed_columns-HasSlot :
      (cs : List (ColData K)) (m : Map K C (Slot K)) (i : ℕ) (c : ColData K)
      → get_elem? cs i ≡ some c
      → HasSlot (seed_columns eq mapper cs m) c.name
  unfolding seed_columns Cmap.put
  seed_columns-HasSlot [] m i c g = absurd (ground arith)
  seed_columns-HasSlot (d ∷ cs) m zero c g =
      let f = blank d in
      let e : d ≡ c = ground arith in
      let h : HasSlot (Cmap.store eq m (mapper d.name) f) d.name = (
        f,
        rw (
          fetch-store eq eq_iff m (mapper d.name) (mapper d.name) f,
          (eq_iff (mapper d.name) (mapper d.name)).1 refl,
        ),
      ) in
      seed_columns-keeps cs (Cmap.store eq m (mapper d.name) f) c.name
        (subst (λ (x : ColData K). HasSlot (Cmap.store eq m (mapper d.name) f) x.name) e h)
  seed_columns-HasSlot (d ∷ cs) m (suc i) c g =
      seed_columns-HasSlot cs (Cmap.store eq m (mapper d.name) (blank d)) i c g

  seed_columns-IsMap :
      (cs : List (ColData K)) (m : Map K C (Slot K))
      → IsDistinct eq eq_iff m
      → IsKeyed eq eq_iff mapper m
      → IsDistinct eq eq_iff (seed_columns eq mapper cs m)
        × IsKeyed eq eq_iff mapper (seed_columns eq mapper cs m)
  unfolding seed_columns Cmap.put
  seed_columns-IsMap [] m d k = (d, k)
  seed_columns-IsMap (c ∷ cs) m d k =
      let f = blank c in
      seed_columns-IsMap cs (Cmap.store eq m (mapper c.name) f)
        (store-IsDistinct eq eq_iff m (mapper c.name) f d) (store-IsKeyed eq eq_iff mapper m f k)

  -- A new bag has the invariant, whatever its columns.
  pub new_bag-Inv :
      (columns : List (ColData K)) (rename : Option (Map K C K))
      → Inv (new_bag eq mapper columns rename)
  unfolding new_bag fetch
  new_bag-Inv columns rename = record {
    mapped_distinct = (seed_columns-IsMap columns [] tt tt).0;
    unmapped_distinct = tt;
    mapped_keyed = (seed_columns-IsMap columns [] tt tt).1;
    unmapped_keyed = tt;
    apart = λ c. inr refl;
    covers = seed_columns-HasSlot columns [];
  }
