-- ===== src/Apply/Mapping/Apart.antt =====
-- internal/target/apply/column_mapping.go: no two columns use the same parameter.
use cdc_sink_redshift.Common.{
  ℕ, ◌≤◌, ◌<◌, ◌≡◌, ◌↔◌, ◌⊎◌, refl, sym, subst, ◌∙◌, inl, inr, Bool, true, false, Option, none,
  some, List, [], ◌∷◌, Outcome, done, failed, length, Bool-cases, Option-cases, arith, Bytes,
}
use cdc_sink_redshift.Cmap as Cmap
use cdc_sink_redshift.Cmap.{Map, Entry, fetch}
use cdc_sink_redshift.Cmap.Laws.{fetch-store}
use cdc_sink_redshift.Merge.Bag.{ColData}
use cdc_sink_redshift.Apply.Config.{Config, substitution_token}
use cdc_sink_redshift.Apply.Mapping.{
  Position, Mapping, MappingError, Slots, Product, contains, unused, fixed, valued, with_expr,
  column_slots, add_column, add_columns, ignore_name, ignore_names, finished, empty_mapping,
  finish_mapping, new_column_mapping,
}
use cdc_sink_redshift.Apply.Mapping.Bounds.{Fits, Below, add_column-Fits}
use cdc_sink_redshift.Apply.Mapping.Indices.{add_column-reads, entry}
use cdc_sink_redshift.Apply.Mapping.Renames.{Fresh, rename_columns-keeps}

-- A position uses a parameter.
abbrev pub Uses : {K : Type 0} → Position K → ℕ → Type 0
Uses p y = (p.upsert_index ≡ some y) ⊎ (p.validity_index ≡ some y)

-- Two names whose positions use the same parameter are the same; names are those that meet a predicate.
abbrev pub Apart : {K C : Type 0} → (C → C → Bool) → (C → Type 0) → Map K C (Position K) → Type 0
Apart {C = C} eq F ps =
    (c d : C) (p q : Entry _ (Position _)) (y : ℕ)
    → F c
    → F d
    → fetch eq ps c ≡ some p
    → fetch eq ps d ≡ some q
    → Uses p.value y
    → Uses q.value y
    → c ≡ d

-- The slots of a column use new parameters only.
abbrev New : ℕ → Slots → Type 0
New current s =
    ((y : ℕ) → s.upsert_position ≡ some y → current ≤ y)
    × ((y : ℕ) → s.validity_position ≡ some y → current ≤ y)

blank-New :
    (current : ℕ) (w : Bool)
    → New current (record {
      upsert_position = none;
      validity_position = none;
      next = current;
      will_upsert = w;
    })
blank-New current w = (λ y e. absurd (ground (arith, e)), λ y e. absurd (ground (arith, e)))

some_eq : {a b : ℕ} → some a ≡ some b → a ≡ b
some_eq h = ground (arith, h)

valued-New : (d : Bytes) (current : ℕ) → New current (valued d current)
unfolding valued
valued-New [] current = (λ y e. let q = some_eq e in omega arith, λ y e. absurd (ground (arith, e)))
valued-New (c ∷ cs) current =
    (λ y e. let q = some_eq e in omega arith, λ y e. let q = some_eq e in omega arith)

with_expr-New : (o : Option Bytes) (d : Bytes) (current : ℕ) → New current (with_expr o d current)
unfolding with_expr fixed
with_expr-New none d current = valued-New d current
with_expr-New (some e) d current = elim (Bool-cases (contains e substitution_token)) [
  | inl hit ↦ rw hit (valued-New d current)
  | inr miss ↦ rw miss (blank-New current true)
]

-- An index below the count.
below_lt : (o : Option ℕ) (n y : ℕ) → Below o n → o ≡ some y → y < n
below_lt none n y b e = absurd (ground (arith, e))
below_lt (some x) n y b e = let q = some_eq e in omega arith

module _ {K C : Type 0} (eq : C → C → Bool) (eq_iff : (a b : C) → (eq a b ≡ true) ↔ (a ≡ b))
    (mapper : K → C) where
  -- A position that uses nothing, among those that are apart.
  idle-Apart :
      (ps : Map K C (Position K)) (tgt : K) (col : ColData K)
      → Apart eq (λ c. Unit) ps
      → Apart eq
          (λ c. Unit)
          (Cmap.put eq mapper ps tgt (record {
            column = col;
            delete_index = none;
            upsert_index = none;
            validity_index = none;
          }))
  unfolding Cmap.put
  idle-Apart ps tgt col apart c d p q y fc fd at there up uq =
      apart c d p q y fc fd (old c p at up) (old d q there uq) up uq
    where
      idle : Entry K (Position K)
      idle = record {
        key = tgt;
        value = record {
          column = col;
          delete_index = none;
          upsert_index = none;
          validity_index = none;
        };
      }

      busy : (x : Entry K (Position K)) → idle ≡ x → Uses x.value y → ⊥
      busy x e u = go (subst (λ (z : Entry K (Position K)). Uses z.value y) (sym e) u)
        where
          go : Uses idle.value y → ⊥
          go (inl h) = ground (arith, h)
          go (inr h) = ground (arith, h)

      old :
          (z : C) (x : Entry K (Position K))
          → fetch eq (Cmap.store eq ps (mapper tgt) idle) z ≡ some x
          → Uses x.value y
          → fetch eq ps z ≡ some x
      old z x h u =
          let r = fetch-store eq eq_iff ps (mapper tgt) z idle in
          elim (Bool-cases (eq (mapper tgt) z)) [
            | inl hit ↦ absurd (busy x (ground arith) u)
            | inr miss ↦ ground arith
          ]

module _ {K C M : Type 0} (eq : C → C → Bool) (eq_iff : (a b : C) → (eq a b ≡ true) ↔ (a ≡ b))
    (mapper : K → C) where
  column_slots-New :
      (cfg : Config K C M) (col : ColData K) (current : ℕ)
      → New current (column_slots eq mapper cfg col current)
  unfolding column_slots unused
  column_slots-New cfg col current = elim (Bool-cases col.ignored) [
    | inl hit ↦ rw hit (blank-New current false)
    | inr miss ↦ elim (Bool-cases (Cmap.get_zero eq mapper false cfg.ignore col.name)) [
      | inl hit ↦ rw (miss, hit) (blank-New current false)
      | inr seen ↦
          rw (miss, seen)
            (with_expr-New (Cmap.get eq mapper cfg.exprs col.name) col.default_expr current)
    ]
  ]

  pub old_lt :
      (m : Mapping K C M) (c : C) (p : Entry K (Position K)) (y : ℕ)
      → Fits eq eq_iff mapper m
      → fetch eq m.positions c ≡ some p
      → Uses p.value y
      → y < m.upsert_parameter_count
  old_lt m c p y fits at (inl e) =
      below_lt p.value.upsert_index m.upsert_parameter_count y (fits.positions c p at).upsert e
  old_lt m c p y fits at (inr e) =
      below_lt p.value.validity_index m.upsert_parameter_count y (fits.positions c p at).validity e

  new_le :
      (cfg : Config K C M) (col : ColData K) (m : Mapping K C M) (p : Entry K (Position K)) (y : ℕ)
      → entry eq eq_iff mapper cfg col m ≡ p
      → Uses p.value y
      → m.upsert_parameter_count ≤ y
  new_le cfg col m p y same uses =
      go (subst (λ (x : Entry K (Position K)). Uses x.value y) (sym same) uses)
    where
      go : Uses (entry eq eq_iff mapper cfg col m).value y → m.upsert_parameter_count ≤ y
      go (inl e) = (column_slots-New cfg col m.upsert_parameter_count).0 y e
      go (inr e) = (column_slots-New cfg col m.upsert_parameter_count).1 y e

  -- An entry after a column is the one of the column, or was there.
  place_cases :
      (cfg : Config K C M) (cm : Map K C ℕ) (col : ColData K) (m : Mapping K C M) (c : C)
      (p : Entry K (Position K))
      → fetch eq (add_column eq mapper cfg cm col m).positions c ≡ some p
      → ((mapper col.name ≡ c) × (entry eq eq_iff mapper cfg col m ≡ p))
        ⊎ (fetch eq m.positions c ≡ some p)
  place_cases cfg cm col m c p at =
      let r = (add_column-reads eq eq_iff mapper cfg cm col m).1 c in
      elim (Bool-cases (eq (mapper col.name) c)) [
        | inl hit ↦ inl ((eq_iff (mapper col.name) c).0 hit, ground arith)
        | inr miss ↦ inr (ground arith)
      ]

  add_column-Apart :
      (cfg : Config K C M) (cm : Map K C ℕ) (col : ColData K) (m : Mapping K C M)
      → Fits eq eq_iff mapper m
      → Apart eq (λ c. Unit) m.positions
      → Apart eq (λ c. Unit) (add_column eq mapper cfg cm col m).positions
  add_column-Apart cfg cm col m fits apart c d p q y fc fd at there up uq =
      go (place_cases cfg cm col m c p at) (place_cases cfg cm col m d q there)
    where
      go :
          ((mapper col.name ≡ c) × (entry eq eq_iff mapper cfg col m ≡ p))
            ⊎ (fetch eq m.positions c ≡ some p)
          → ((mapper col.name ≡ d) × (entry eq eq_iff mapper cfg col m ≡ q))
            ⊎ (fetch eq m.positions d ≡ some q)
          → c ≡ d
      go (inl h) (inl k) = sym h.0 ∙ k.0
      go (inl h) (inr k) =
          let l = new_le cfg col m p y h.1 up in
          let r = old_lt m d q y fits k uq in absurd (omega arith)
      go (inr h) (inl k) =
          let l = new_le cfg col m q y k.1 uq in
          let r = old_lt m c p y fits h up in absurd (omega arith)
      go (inr h) (inr k) = apart c d p q y fc fd h k up uq

  add_columns-Apart :
      (cfg : Config K C M) (cm : Map K C ℕ) (cols : List (ColData K)) (m r : Mapping K C M)
      → add_columns eq mapper cfg cm cols m ≡ done r
      → Fits eq eq_iff mapper m
      → Apart eq (λ c. Unit) m.positions
      → Apart eq (λ c. Unit) r.positions
  unfolding add_columns
  add_columns-Apart cfg cm [] m r e fits apart =
      let same : m ≡ r = ground arith in
      subst (λ (x : Mapping K C M). Apart eq (λ c. Unit) x.positions) same apart
  add_columns-Apart cfg cm (col ∷ cols) m r e fits apart =
      elim (Option-cases (Cmap.get eq mapper m.positions col.name)) [
        | inr (p, old) ↦ absurd (ground arith)
        | inl new ↦
            add_columns-Apart cfg cm cols (add_column eq mapper cfg cm col m) r (ground arith)
              (add_column-Fits eq eq_iff mapper cfg cm col m fits)
              (add_column-Apart cfg cm col m fits apart)
      ]

  ignore_names-Apart :
      (es : List (Entry K Bool)) (m : Mapping K C M)
      → Apart eq (λ c. Unit) m.positions
      → Apart eq (λ c. Unit) (ignore_names eq mapper es m).positions
  unfolding ignore_names ignore_name
  ignore_names-Apart [] m apart = apart
  ignore_names-Apart (x ∷ es) m apart =
      ignore_names-Apart es _ (one _ (Cmap.get eq mapper m.positions x.key))
    where
      one :
          (void : Bytes) (o : Option (Position K))
          → Apart eq (λ c. Unit) (ignore_name eq mapper x.key void o m).positions
      one void none = idle-Apart eq eq_iff mapper m.positions x.key _ apart
      one void (some p) = apart

  finish_mapping-Apart :
      (cfg : Config K C M) (m : Mapping K C M)
      → Apart eq (λ c. Unit) m.positions
      → Apart eq
          (Fresh eq mapper (Cmap.entries cfg.source_names))
          (finish_mapping eq mapper cfg m).positions
  unfolding finish_mapping
  finish_mapping-Apart cfg m apart c d p q y fc fd at there up uq =
      let n : Mapping K C M =
        ignore_names eq mapper (Cmap.entries cfg.ignore)
          (record m { delete_parameter_count = length m.pk_delete }) in
      ignore_names-Apart (Cmap.entries cfg.ignore)
        (record m { delete_parameter_count = length m.pk_delete }) apart c d p q y tt tt
        (sym (rename_columns-keeps eq eq_iff mapper (Cmap.entries cfg.source_names) n c fc) ∙ at)
        (sym (rename_columns-keeps eq eq_iff mapper (Cmap.entries cfg.source_names) n d fd) ∙ there)
        up uq

  finished-Apart :
      (cfg : Config K C M) (o : Outcome (MappingError K) (Mapping K C M)) (r : Mapping K C M)
      → ((m : Mapping K C M) → o ≡ done m → Apart eq (λ c. Unit) m.positions)
      → finished eq mapper cfg o ≡ done r
      → Apart eq (Fresh eq mapper (Cmap.entries cfg.source_names)) r.positions
  unfolding finished
  finished-Apart cfg (failed x) r h e = absurd (ground arith)
  finished-Apart cfg (done m) r h e =
      let same : finish_mapping eq mapper cfg m ≡ r = ground arith in
      subst
        (λ (x : Mapping K C M).
          Apart eq (Fresh eq mapper (Cmap.entries cfg.source_names)) x.positions)
        same (finish_mapping-Apart cfg m (h m refl))

  -- Names that are not source names have parameters of their own.
  pub new_column_mapping-Apart :
      (cfg : Config K C M) (cols : List (ColData K)) (product : Product) (no_column : ColData K)
      (r : Mapping K C M)
      → new_column_mapping eq mapper cfg cols product no_column ≡ done r
      → Apart eq (Fresh eq mapper (Cmap.entries cfg.source_names)) r.positions
  unfolding new_column_mapping empty_mapping fetch
  new_column_mapping-Apart cfg cols product no_column r = finished-Apart cfg _ r λ m e.
      add_columns-Apart cfg _ cols (empty_mapping eq mapper cfg product no_column) m e
        (record { positions = λ c p q. absurd (ground arith); extras = tt })
        (λ c d p q y fc fd at. absurd (ground (arith, at)))
