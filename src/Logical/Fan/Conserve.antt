-- ===== src/Logical/Fan/Conserve.antt =====
-- internal/source/logical/fan_batch.go: every mutation goes to one worker, in order, and the counter of pending mutations counts them.
use cdc_sink_redshift.Common.{
  ℕ, ◌+◌, ◌<◌, ◌≡◌, ◌↔◌, refl, sym, ap, subst, ◌∙◌, inl, inr, Bool, true, Option, none, some, List,
  [], ◌∷◌, length, Bool-cases, arith,
}
use cdc_sink_redshift.Cmap as Cmap
use cdc_sink_redshift.Cmap.{Map, Entry, fetch}
use cdc_sink_redshift.Cmap.Laws.{IsDistinct}
use cdc_sink_redshift.Cmap.Copies.{IsKeyed}
use cdc_sink_redshift.Logical.Fan.{find_work, first_of}

-- The mutations of an entry that was found.
abbrev pub value_or_nil : {K A : Type 0} → Option (Entry K (List A)) → List A
value_or_nil found_entry = Cmap.or_zero [] (Cmap.value_of found_entry)

-- The number of mutations in the map.
abbrev pub queued : {K C A : Type 0} → Map K C (List A) → ℕ
queued [] = 0
queued ((c, e) ∷ m) = length e.value + queued m

-- Without work there is nothing in the map.
pub find_work-none : {K C A : Type 0} → (m : Map K C (List A)) → find_work m ≡ none → queued m ≡ 0
unfolding find_work first_of
find_work-none {A = A} [] h = refl
find_work-none {A = A} ((c, e) ∷ m) h = go (find_work-none m) e.value h
  where
    go :
        (find_work m ≡ none → queued m ≡ 0)
        → (l : List A) → first_of e.key l (find_work m) ≡ none
        → length l + queued m ≡ 0
    go below [] f = omega (arith, below f)
    go below (x ∷ xs) f = absurd (ground (arith, f))

module _ {K C A : Type 0} (eq : C → C → Bool) (eq_iff : (a b : C) → (eq a b ≡ true) ↔ (a ≡ b))
    (mapper : K → C) where
  pub queued-store :
      (m : Map K C (List A)) (c : C) (e : Entry K (List A))
      → queued (Cmap.store eq m c e) + length (value_or_nil (fetch eq m c))
        ≡ queued m + length e.value
  unfolding Cmap.store fetch
  queued-store [] c e = omega arith
  queued-store ((d, f) ∷ m) c e = elim (Bool-cases (eq d c)) [
    | inl hit ↦ rw hit (omega arith)
    | inr miss ↦ let ih = queued-store m c e in rw miss (omega arith)
  ]

  pub queued-remove :
      (m : Map K C (List A)) (c : C)
      → queued (Cmap.remove eq m c) + length (value_or_nil (fetch eq m c)) ≡ queued m
  unfolding Cmap.remove fetch
  queued-remove [] c = omega arith
  queued-remove ((d, f) ∷ m) c = elim (Bool-cases (eq d c)) [
    | inl hit ↦ rw hit (omega arith)
    | inr miss ↦ let ih = queued-remove m c in rw miss (omega arith)
  ]

  -- The table that has work is in the map with all of its mutations, of which there is one at least.
  pub find_work-fetch :
      (m : Map K C (List A)) (table : K) (muts : List A)
      → IsDistinct eq eq_iff m
      → IsKeyed eq eq_iff mapper m
      → find_work m ≡ some (table, muts)
      → (0 < length muts) × (value_or_nil (fetch eq m (mapper table)) ≡ muts)
  unfolding find_work fetch first_of
  find_work-fetch [] table muts d k h = absurd (ground (arith, h))
  find_work-fetch ((c, e) ∷ m) table muts d k h =
      go (find_work-fetch m table muts d.1 k.1) e.value refl h
    where
      go :
          (find_work m ≡ some (table, muts)
            → (0 < length muts) × (value_or_nil (fetch eq m (mapper table)) ≡ muts))
          → (l : List A) → e.value ≡ l
          → first_of e.key l (find_work m) ≡ some (table, muts)
          → (0 < length muts) × (value_or_nil (fetch eq ((c, e) ∷ m) (mapper table)) ≡ muts)
      go below [] q f =
          let (n, ih) = below f in
          (
            n,
            elim (Bool-cases (eq c (mapper table))) [
              | inl hit ↦
                  let gone : value_or_nil (fetch eq m (mapper table)) ≡ [] =
                    ap value_or_nil
                      (subst (λ y. fetch eq m y ≡ none) ((eq_iff c (mapper table)).0 hit) d.0) in
                  rw hit (q ∙ sym gone ∙ ih)
              | inr miss ↦ rw miss ih
            ],
          )
      go below (x ∷ xs) q f =
          let key : e.key ≡ table = ground (arith, f) in
          let same : x ∷ xs ≡ muts = ground (arith, f) in
          let hit : eq c (mapper table) ≡ true =
            (eq_iff c (mapper table)).1 (sym k.0 ∙ ap mapper key) in
          (subst (λ l. 0 < length l) same (omega arith), rw hit (q ∙ same))

  -- A map without mutations has none of any table.
  pub queued-zero : (m : Map K C (List A)) (c : C) → queued m ≡ 0 → value_or_nil (fetch eq m c) ≡ []
  unfolding fetch
  queued-zero [] c h = refl
  queued-zero ((d, e) ∷ m) c h = elim (Bool-cases (eq d c)) [
    | inl hit ↦ rw hit (length-zero e.value (omega arith))
    | inr miss ↦ rw miss (queued-zero m c (omega arith))
  ]
    where
      length-zero : (l : List A) → length l ≡ 0 → l ≡ []
      length-zero [] q = refl
      length-zero (x ∷ xs) q = absurd (omega arith)
