-- ===== src/Logical/Ordered/Levels.antt =====
-- internal/source/logical/ordered_events.go: the levels that `OnBegin` gives to the tables.
use cdc_sink_redshift.Common.{
  ℕ, suc, ◌+◌, ◌<◌, ◌≤◌, ◌≡◌, ◌↔◌, inl, inr, sym, ap, subst, ◌∙◌, Bool, true, false, if◌then◌else◌,
  Option, none, refl, some, List, [], ◌∷◌, length, arith, All, All-map, Bool-cases, Option-cases,
}
use cdc_sink_redshift.Cmap as Cmap
use cdc_sink_redshift.Cmap.{Map, Entry, value_of}
use cdc_sink_redshift.Cmap.Laws.{fetch-store}
use cdc_sink_redshift.Ident.{Table}
use cdc_sink_redshift.Logical.Ordered.{
  DeferredData, Delegate, empty_levels, put_level, put_levels, level_of, apply_all,
}
use cdc_sink_redshift.Logical.Ordered.Commit.{apply_all-levels}
use cdc_sink_redshift.Logical.Ordered.Schedule.{run_calls, schedule, then_commit-schedule}

module _ {C : Type 0} (eq : C → C → Bool) (eq_iff : (a b : C) → (eq a b ≡ true) ↔ (a ≡ b))
    (mapper : Table → C) where
  abbrev Below : ℕ → Map Table C ℕ → Type 0
  Below n m = (c : C) (e : Entry Table ℕ) → Cmap.fetch eq m c ≡ some e → e.value < n

  put-Below :
      (m : Map Table C ℕ) (t : Table) (level n : ℕ)
      → level < n
      → Below n m
      → Below n (Cmap.put eq mapper m t level)
  unfolding Cmap.put
  put-Below m t level n h b c e at =
      let f : Entry Table ℕ = record { key = t; value = level } in
      let g = sym (fetch-store eq eq_iff m (mapper t) c f) ∙ at in
      elim (Bool-cases (eq (mapper t) c)) [
        | inl hit ↦
            let q : f ≡ e = ground (arith, g, hit) in subst (λ (x : Entry Table ℕ). x.value < n) q h
        | inr miss ↦ b c e (ground (arith, g, miss))
      ]

  put_level-Below :
      (ts : List Table) (level n : ℕ) (m : Map Table C ℕ)
      → level < n
      → Below n m
      → Below n (put_level eq mapper ts level m)
  unfolding put_level
  put_level-Below [] level n m h b = b
  put_level-Below (t ∷ ts) level n m h b =
      put_level-Below ts level n (Cmap.put eq mapper m t level) h (put-Below m t level n h b)

  put_levels-Below :
      (deps : List (List Table)) (level n : ℕ) (m : Map Table C ℕ)
      → level + length deps ≤ n
      → Below n m
      → Below n (put_levels eq mapper deps level m)
  unfolding put_levels
  put_levels-Below [] level n m h b = b
  put_levels-Below (ts ∷ deps) level n m h b =
      put_levels-Below deps (suc level) n (put_level eq mapper ts level m) (omega (arith, h))
        (put_level-Below ts level n m (omega (arith, h)) b)

  level_of-below :
      (deps : List (List Table)) (t : Table) (k : ℕ)
      → level_of eq mapper deps t ≡ some k
      → k < length deps
  unfolding level_of Cmap.get Cmap.match_key Cmap.fetch
  level_of-below deps t k h =
      let b =
        put_levels-Below deps 0 (length deps) [] (omega arith) (λ c e at. absurd (ground arith)) in
      elim (Option-cases (Cmap.fetch eq (put_levels eq mapper deps 0 []) (mapper t))) [
        | inl gone ↦ absurd (ground (arith, h, gone))
        | inr (e, at) ↦
            let q : e.value ≡ k = ground (arith, sym (ap value_of at) ∙ h) in
            subst (λ x. x < length deps) q (b (mapper t) e at)
      ]

  -- The place of the last group that holds a table.
  abbrev holds : Table → List Table → Bool
  holds t [] = false
  holds t (u ∷ us) = if eq (mapper u) (mapper t) then true else holds t us

  abbrev later : ℕ → Bool → Option ℕ → Option ℕ
  later start here (some k) = some k
  later start true none = some start
  later start false none = none

  abbrev pub group_of : ℕ → List (List Table) → Table → Option ℕ
  group_of start [] t = none
  group_of start (ts ∷ deps) t = later start (holds t ts) (group_of (suc start) deps t)

  abbrev or_level : Option ℕ → Option ℕ → Option ℕ
  or_level (some k) rest = some k
  or_level none rest = rest

  fetch-put :
      (m : Map Table C ℕ) (u t : Table) (level : ℕ)
      → Cmap.get eq mapper (Cmap.put eq mapper m u level) t
        ≡ (if eq (mapper u) (mapper t) then some level else Cmap.get eq mapper m t)
  unfolding Cmap.get Cmap.match_key Cmap.put
  fetch-put m u t level = elim (Bool-cases (eq (mapper u) (mapper t))) [
    | inl hit ↦
        rw (fetch-store eq eq_iff m (mapper u) (mapper t) (record { key = u; value = level }), hit)
    | inr miss ↦
        rw (fetch-store eq eq_iff m (mapper u) (mapper t) (record { key = u; value = level }), miss)
  ]

  get-put_level :
      (ts : List Table) (level : ℕ) (m : Map Table C ℕ) (t : Table)
      → Cmap.get eq mapper (put_level eq mapper ts level m) t
        ≡ (if holds t ts then some level else Cmap.get eq mapper m t)
  unfolding put_level
  get-put_level [] level m t = refl
  get-put_level (u ∷ us) level m t =
      get-put_level us level (Cmap.put eq mapper m u level) t ∙ (elim (Bool-cases (holds t us)) [
        | inl on ↦ elim (Bool-cases (eq (mapper u) (mapper t))) [
          | inl hit ↦ rw (on, hit) refl
          | inr miss ↦ rw (on, miss) refl
        ]
        | inr off ↦ elim (Bool-cases (eq (mapper u) (mapper t))) [
          | inl hit ↦ rw (off, fetch-put m u t level, hit) refl
          | inr miss ↦ rw (off, fetch-put m u t level, miss) refl
        ]
      ])

  get-put_levels :
      (deps : List (List Table)) (level : ℕ) (m : Map Table C ℕ) (t : Table)
      → Cmap.get eq mapper (put_levels eq mapper deps level m) t
        ≡ or_level (group_of level deps t) (Cmap.get eq mapper m t)
  unfolding put_levels
  get-put_levels [] level m t = refl
  get-put_levels (ts ∷ deps) level m t =
      get-put_levels deps (suc level) (put_level eq mapper ts level m) t
      ∙ ap (or_level (group_of (suc level) deps t)) (get-put_level ts level m t)
      ∙ merge (group_of (suc level) deps t) (holds t ts)
    where
      merge :
          (o : Option ℕ) (b : Bool)
          → or_level o (if b then some level else Cmap.get eq mapper m t)
            ≡ or_level (later level b o) (Cmap.get eq mapper m t)
      merge (some k) b = refl
      merge none true = refl
      merge none false = refl

  -- The level of a table is the place of the last group that holds it.
  level_of-group_of :
      (deps : List (List Table)) (t : Table) → level_of eq mapper deps t ≡ group_of 0 deps t
  unfolding level_of Cmap.get Cmap.match_key Cmap.fetch
  level_of-group_of deps t = get-put_levels deps 0 [] t ∙ right (group_of 0 deps t)
    where
      right : (o : Option ℕ) → or_level o none ≡ o
      right (some k) = refl
      right none = refl

  -- A table that the schema knows.
  abbrev pub IsPlaced : List (List Table) → DeferredData → Type 0
  IsPlaced deps d = (k : ℕ) × (group_of 0 deps d.target ≡ some k)

  module _ {S E : Type 0} (delegate : Delegate S E) where
    -- Data for the tables of a schema that has tables, given in any order, makes these calls of the
    -- wrapped batch, one after another up to the first error, which is returned: the data for the tables
    -- of the first group, in its order; then for every other group a flush and the data for its tables,
    -- in its order; and at last the commit. The group of a table is the last one that holds it. No call
    -- is out of range.
    pub apply_all-level_of :
        (ts : List Table) (deps : List (List Table)) (ds : List DeferredData) (s : S)
        → All (IsPlaced (ts ∷ deps)) ds
        → apply_all delegate (level_of eq mapper (ts ∷ deps)) ds (empty_levels (length deps)) s
          ≡ some (run_calls delegate (schedule (group_of 0 (ts ∷ deps)) (length deps) ds) s)
    apply_all-level_of ts deps ds s h =
        let level = group_of 0 (ts ∷ deps) in
        let same : level_of eq mapper (ts ∷ deps) ≡ level =
          λ i t. level_of-group_of (ts ∷ deps) t i in
        ap (λ l. apply_all delegate l ds (empty_levels (length deps)) s) same
        ∙ apply_all-levels level delegate (length deps) ds s (
            All-map {P = IsPlaced (ts ∷ deps)}
              (λ d k. (
                k.0,
                k.1,
                omega (
                  arith,
                  level_of-below (ts ∷ deps) d.target k.0
                      (level_of-group_of (ts ∷ deps) d.target ∙ k.1),
                ),
              ))
              ds h)
        ∙ ap some (then_commit-schedule delegate level (length deps) ds s)
