-- ===== src/Merge/Bag/Reads.antt =====
-- internal/util/merge/bag.go: what a bag reads after a call.
use cdc_sink_redshift.Common.{
  ◌≡◌, ◌↔◌, refl, subst, inl, inr, Bool, true, false, Option, none, some, if◌then◌else◌, Bool-cases,
  Any, null,
}
use cdc_sink_redshift.Cmap as Cmap
use cdc_sink_redshift.Cmap.{Entry, Map, value_of, fetch}
use cdc_sink_redshift.Cmap.Laws.{IsDistinct, fetch-store, fetch-remove}
use cdc_sink_redshift.Merge.Bag.{
  Slot, Bag, renamed, get, put, delete, write_slot, valid_value, read, put_at, delete_at,
}

module _ {K C : Type 0} (eq : C → C → Bool) (eq_iff : (a b : C) → (eq a b ≡ true) ↔ (a ≡ b))
    (mapper : K → C) where
  -- What the two maps give for a canonical key.
  abbrev lookup : Map K C (Slot K) → Map K C Any → C → Option Any
  lookup m u c = read (value_of (fetch eq m c)) (value_of (fetch eq u c))

  abbrev pub canonical : Bag K C → K → C
  canonical b k = mapper (renamed eq mapper b.rename k)

  lookup-store :
      (m : Map K C (Slot K)) (u : Map K C Any) (c d : C) (e : Entry K (Slot K))
      → lookup (Cmap.store eq m c e) u d
        ≡ (if eq c d then valid_value e.value.valid e.value.value else lookup m u d)
  unfolding read
  lookup-store m u c d e = elim (Bool-cases (eq c d)) [
    | inl hit ↦ rw (fetch-store eq eq_iff m c d e, hit)
    | inr miss ↦ rw (fetch-store eq eq_iff m c d e, miss)
  ]

  none-same :
      (m : Map K C (Slot K)) (c d : C) → fetch eq m c ≡ none → eq c d ≡ true → fetch eq m d ≡ none
  none-same m c d gone hit = subst (λ x. fetch eq m x ≡ none) ((eq_iff c d).0 hit) gone

  lookup-store_unmapped :
      (m : Map K C (Slot K)) (u : Map K C Any) (c d : C) (e : Entry K Any)
      → fetch eq m c ≡ none
      → lookup m (Cmap.store eq u c e) d ≡ (if eq c d then some e.value else lookup m u d)
  unfolding read
  lookup-store_unmapped m u c d e gone = elim (Bool-cases (eq c d)) [
    | inl hit ↦ rw (none-same m c d gone hit, fetch-store eq eq_iff u c d e, hit)
    | inr miss ↦ rw (fetch-store eq eq_iff u c d e, miss)
  ]

  lookup-remove_unmapped :
      (m : Map K C (Slot K)) (u : Map K C Any) (c d : C)
      → fetch eq m c ≡ none
      → IsDistinct eq eq_iff u
      → lookup m (Cmap.remove eq u c) d ≡ (if eq c d then none else lookup m u d)
  unfolding read
  lookup-remove_unmapped m u c d gone h = elim (Bool-cases (eq c d)) [
    | inl hit ↦ rw (none-same m c d gone hit, fetch-remove eq eq_iff u c d h, hit)
    | inr miss ↦ rw (fetch-remove eq eq_iff u c d h, miss)
  ]

  get-put_at :
      (b : Bag K C) (k : K) (d : C) (v : Any) (o : Option (Entry K (Slot K)))
      → fetch eq b.mapped (mapper k) ≡ o
      → lookup (put_at eq mapper b k v o).mapped (put_at eq mapper b k v o).unmapped d
        ≡ (if eq (mapper k) d then some v else lookup b.mapped b.unmapped d)
  unfolding put_at write_slot Cmap.put valid_value
  get-put_at b k d v none gone =
      lookup-store_unmapped b.mapped b.unmapped (mapper k) d (record { key = k; value = v }) gone
  get-put_at b k d v (some e) at =
      lookup-store b.mapped b.unmapped (mapper k) d (record {
        key = e.key;
        value = record { column = e.value.column; valid = true; value = v };
      })

  get-delete_at :
      (b : Bag K C) (k : K) (d : C) (o : Option (Entry K (Slot K)))
      → fetch eq b.mapped (mapper k) ≡ o
      → IsDistinct eq eq_iff b.unmapped
      → lookup (delete_at eq mapper b k o).mapped (delete_at eq mapper b k o).unmapped d
        ≡ (if eq (mapper k) d then none else lookup b.mapped b.unmapped d)
  unfolding delete_at write_slot Cmap.delete valid_value
  get-delete_at b k d none gone h = lookup-remove_unmapped b.mapped b.unmapped (mapper k) d gone h
  get-delete_at b k d (some e) at h = lookup-store b.mapped b.unmapped (mapper k) d (record {
    key = e.key;
    value = record { column = e.value.column; valid = false; value = null };
  })

  put_at-rename :
      (b : Bag K C) (k : K) (v : Any) (o : Option (Entry K (Slot K)))
      → (put_at eq mapper b k v o).rename ≡ b.rename
  unfolding put_at
  put_at-rename b k v none = refl
  put_at-rename b k v (some e) = refl

  delete_at-rename :
      (b : Bag K C) (k : K) (o : Option (Entry K (Slot K)))
      → (delete_at eq mapper b k o).rename ≡ b.rename
  unfolding delete_at
  delete_at-rename b k none = refl
  delete_at-rename b k (some e) = refl

  -- After `Put` every spelling of the key, renamed or not, reads the value, whether the key has a
  -- column or not; after `Delete` it reads nothing; every other key reads as before.
  pub get-put-delete :
      (b : Bag K C) (k j : K) (v : Any)
      → IsDistinct eq eq_iff b.unmapped
      → (get eq mapper (put eq mapper b k v) j
          ≡ (if eq (canonical b k) (canonical b j) then some v else get eq mapper b j))
        × (get eq mapper (delete eq mapper b k) j
            ≡ (if eq (canonical b k) (canonical b j) then none else get eq mapper b j))
  unfolding get put delete Cmap.get Cmap.match_key
  get-put-delete b k j v h =
      let r = renamed eq mapper b.rename k in
      let o = fetch eq b.mapped (mapper r) in
      (
        rw (put_at-rename b r v o) (get-put_at b r (canonical b j) v o refl),
        rw (delete_at-rename b r o) (get-delete_at b r (canonical b j) o refl h),
      )
