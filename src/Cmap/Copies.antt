-- ===== src/Cmap/Copies.antt =====
-- internal/util/cmap/cmap.go and equal.go: copies and comparisons of whole maps.
use cdc_sink_redshift.Common.{
  ◌≡◌, ◌↔◌, refl, subst, ◌∙◌, inl, inr, Bool, true, Option, none, some, [], ◌∷◌, arith,
  if◌then◌else◌, Bool-cases,
}
use cdc_sink_redshift.Cmap.{
  Entry, Map, fetch, store, remove, match_key, get, put, delete, copy_into,
}
use cdc_sink_redshift.Cmap.Laws.{IsDistinct, fetch-store, fetch-remove}

-- The first of two entries that is there.
abbrev pub or_else {ℓ} : {A : Type ℓ} → Option A → Option A → Option A
or_else none b = b
or_else (some a) b = some a

module _ {ℓ} {K C V : Type ℓ} (eq : C → C → Bool) (eq_iff : (a b : C) → (eq a b ≡ true) ↔ (a ≡ b))
    (mapper : K → C) where
  -- Every entry lies under the canonical form of its key.
  abbrev pub IsKeyed : Map K C V → Type ℓ
  IsKeyed [] = Unit
  IsKeyed ((c, e) ∷ m) = (mapper e.key ≡ c) × IsKeyed m

  pub store-IsKeyed :
      (m : Map K C V) (e : Entry K V) → IsKeyed m → IsKeyed (store eq m (mapper e.key) e)
  unfolding store
  store-IsKeyed [] e h = (refl, tt)
  store-IsKeyed ((b, f) ∷ m) e h = elim (Bool-cases (eq b (mapper e.key))) [
    | inl hit ↦ rw hit (refl, h.1)
    | inr miss ↦ rw miss (h.0, store-IsKeyed m e h.1)
  ]

  pub remove-IsKeyed : (m : Map K C V) (c : C) → IsKeyed m → IsKeyed (remove eq m c)
  unfolding remove
  remove-IsKeyed [] c h = tt
  remove-IsKeyed ((b, f) ∷ m) c h = elim (Bool-cases (eq b c)) [
    | inl hit ↦ rw hit h.1
    | inr miss ↦ rw miss (h.0, remove-IsKeyed m c h.1)
  ]

  -- An entry lies under the canonical form of its key.
  pub fetch-key :
      (a : Map K C V) (c : C) (e : Entry K V) → IsKeyed a → fetch eq a c ≡ some e → mapper e.key ≡ c
  unfolding fetch
  fetch-key [] c e k h = absurd (ground arith)
  fetch-key ((x, g) ∷ a) c e k h = elim (Bool-cases (eq x c)) [
    | inl hit ↦
        let q : g ≡ e = ground arith in
        subst (λ (y : Entry K V). mapper y.key ≡ c) q (k.0 ∙ (eq_iff x c).0 hit)
    | inr miss ↦ fetch-key a c e k.1 (ground arith)
  ]

  -- After `Put` the key reads as the new entry, under the spelling of the call, and every other key
  -- as before; after `Delete` it is gone, and every other key is as before.
  pub match_key-put-delete :
      (m : Map K C V) (k j : K) (v : V)
      → IsDistinct eq eq_iff m
      → (match_key eq mapper (put eq mapper m k v) j ≡ (
          if eq (mapper k) (mapper j)
          then some (record { key = k; value = v })
          else match_key eq mapper m j))
        × (match_key eq mapper (delete eq mapper m k) j
            ≡ (if eq (mapper k) (mapper j) then none else match_key eq mapper m j))
  unfolding match_key put delete
  match_key-put-delete m k j v d = (
    fetch-store eq eq_iff m (mapper k) (mapper j) (record { key = k; value = v }),
    fetch-remove eq eq_iff m (mapper k) (mapper j) d,
  )

  fetch-copy_into :
      (a b : Map K C V) (c : C)
      → IsDistinct eq eq_iff a
      → IsKeyed a
      → fetch eq (copy_into eq mapper a b) c ≡ or_else (fetch eq a c) (fetch eq b c)
  unfolding copy_into put fetch
  fetch-copy_into [] b c d k = refl
  fetch-copy_into ((x, e) ∷ a) b c d k =
      fetch-copy_into a (store eq b (mapper e.key) e) c d.1 k.1 ∙ (elim (Bool-cases (eq x c)) [
        | inl hit ↦
            let q : fetch eq a c ≡ none =
              subst (λ y. fetch eq a y ≡ none) ((eq_iff x c).0 hit) d.0 in
            rw (q, fetch-store eq eq_iff b (mapper e.key) c e, k.0, hit) refl
        | inr miss ↦ rw (fetch-store eq eq_iff b (mapper e.key) c e, k.0, miss) refl
      ])

  -- After `CopyInto` a key of the source reads as in the source, and any other as it did in the
  -- destination.
  pub match_key-copy_into :
      (a b : Map K C V) (j : K)
      → IsDistinct eq eq_iff a
      → IsKeyed a
      → match_key eq mapper (copy_into eq mapper a b) j
        ≡ or_else (match_key eq mapper a j) (match_key eq mapper b j)
  unfolding match_key
  match_key-copy_into a b j d k = fetch-copy_into a b (mapper j) d k

  module _ (comparator : V → V → Bool) where
    -- Both values are missing, or the comparator accepts them.
    abbrev pub Alike : Option V → Option V → Type 0
    Alike none none = Unit
    Alike (some a) (some b) = comparator a b ≡ true
    Alike none (some b) = ⊥
    Alike (some a) none = ⊥

    -- Every entry of the first map reads the same in the second.
    abbrev Agrees : Map K C V → Map K C V → Type ℓ
    Agrees a b =
        (c : C) (e : Entry K V)
        → fetch eq a c ≡ some e
        → (v : V) × (get eq mapper b e.key ≡ some v) × (comparator e.value v ≡ true)
