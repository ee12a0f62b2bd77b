-- ===== src/Apply/Mapping/Bounds.antt =====
-- internal/target/apply/column_mapping.go: every index is below the count of parameters.
use cdc_sink_redshift.Common.{
  ℕ, ◌≤◌, ◌<◌, ◌≡◌, ◌↔◌, refl, sym, subst, inl, inr, Bool, true, false, Option, none, some, List,
  [], ◌∷◌, ◌++◌, if◌then◌else◌, Outcome, done, failed, length, length-append, Bool-cases,
  Option-cases, arith, Bytes,
}
use cdc_sink_redshift.Cmap as Cmap
use cdc_sink_redshift.Cmap.{Map, Entry, fetch}
use cdc_sink_redshift.Cmap.Laws.{fetch-store}
use cdc_sink_redshift.Merge.Bag.{ColData}
use cdc_sink_redshift.Apply.Config.{Config, substitution_token}
use cdc_sink_redshift.Apply.Mapping.{
  Position, Mapping, MappingError, Slots, Product, contains, unused, fixed, valued, with_expr,
  column_slots, place, assemble, add_column, add_columns, ignore_name, ignore_names, rename_column,
  rename_columns, finished, put_found, empty_mapping, finish_mapping, new_column_mapping,
}

-- An index that is used is below a count.
abbrev pub Below : Option ℕ → ℕ → Type 0
Below none n = Unit
Below (some i) n = i < n

Below-mono : (o : Option ℕ) (m n : ℕ) → m ≤ n → Below o m → Below o n
Below-mono none m n h b = tt
Below-mono (some i) m n h b = omega arith

-- What the slots of a column keep.
pub record SlotsFit (current : ℕ) (s : Slots) : Type 0 where
  pub grows : current ≤ s.next
  pub upsert : Below s.upsert_position s.next
  pub validity : Below s.validity_position s.next

valued-SlotsFit : (d : Bytes) (current : ℕ) → SlotsFit current (valued d current)
unfolding valued
valued-SlotsFit [] current = record { grows = omega arith; upsert = omega arith; validity = tt }
valued-SlotsFit (c ∷ cs) current = record {
  grows = omega arith;
  upsert = omega arith;
  validity = omega arith;
}

with_expr-SlotsFit :
    (o : Option Bytes) (d : Bytes) (current : ℕ) → SlotsFit current (with_expr o d current)
unfolding with_expr fixed
with_expr-SlotsFit none d current = valued-SlotsFit d current
with_expr-SlotsFit (some e) d current = elim (Bool-cases (contains e substitution_token)) [
  | inl hit ↦ rw hit (valued-SlotsFit d current)
  | inr miss ↦ rw miss (record { grows = omega arith; upsert = tt; validity = tt })
]

-- The indices of a position are below the counts.
pub record PositionFits {K : Type 0} (upserts deletes : ℕ) (p : Position K) : Type 0 where
  pub upsert : Below p.upsert_index upserts
  pub validity : Below p.validity_index upserts
  pub delete : Below p.delete_index deletes

PositionFits-mono :
    {K : Type 0} (p : Position K) (u v d e : ℕ)
    → u ≤ v
    → d ≤ e
    → PositionFits u d p
    → PositionFits v e p
PositionFits-mono p u v d e hu hd f = record {
  upsert = Below-mono p.upsert_index u v hu f.upsert;
  validity = Below-mono p.validity_index u v hu f.validity;
  delete = Below-mono p.delete_index d e hd f.delete;
}

module _ {K C : Type 0} (eq : C → C → Bool) (eq_iff : (a b : C) → (eq a b ≡ true) ↔ (a ≡ b))
    (mapper : K → C) where
  -- A new position among those that fit.
  stored-PositionFits :
      (ps : Map K C (Position K)) (u d : ℕ) (k : K) (p : Position K)
      → ((c : C) (e : Entry K (Position K)) → fetch eq ps c ≡ some e → PositionFits u d e.value)
      → PositionFits u d p
      → (c : C) (e : Entry K (Position K)) → fetch eq (Cmap.put eq mapper ps k p) c ≡ some e
      → PositionFits u d e.value
  unfolding Cmap.put
  stored-PositionFits ps u d k p h f c e at = elim (Bool-cases (eq (mapper k) c)) [
    | inl hit ↦
        let q : e ≡ record { key = k; value = p } =
          ground (arith, fetch-store eq eq_iff ps (mapper k) c (record { key = k; value = p })) in
        subst (λ (x : Entry K (Position K)). PositionFits u d x.value) (sym q) f
    | inr miss ↦
        h c e
          (ground (arith, fetch-store eq eq_iff ps (mapper k) c (record { key = k; value = p })))
  ]

module _ {K C M : Type 0} (eq : C → C → Bool) (eq_iff : (a b : C) → (eq a b ≡ true) ↔ (a ≡ b))
    (mapper : K → C) where
  column_slots-SlotsFit :
      (cfg : Config K C M) (col : ColData K) (current : ℕ)
      → SlotsFit current (column_slots eq mapper cfg col current)
  unfolding column_slots unused
  column_slots-SlotsFit cfg col current = elim (Bool-cases col.ignored) [
    | inl hit ↦ rw hit (record { grows = omega arith; upsert = tt; validity = tt })
    | inr miss ↦ elim (Bool-cases (Cmap.get_zero eq mapper false cfg.ignore col.name)) [
      | inl hit ↦ rw (miss, hit) (record { grows = omega arith; upsert = tt; validity = tt })
      | inr seen ↦
          rw (miss, seen)
            (with_expr-SlotsFit (Cmap.get eq mapper cfg.exprs col.name) col.default_expr current)
    ]
  ]

  pub record Fits (m : Mapping K C M) : Type 0 where
    pub positions :
        (c : C) (e : Entry K (Position K))
        → fetch eq m.positions c ≡ some e
        → PositionFits m.upsert_parameter_count (length m.pk_delete) e.value
    pub extras : Below m.extras_col_idx m.upsert_parameter_count

  place-Fits :
      (col : ColData K) (s : Slots) (m : Mapping K C M)
      → SlotsFit m.upsert_parameter_count s
      → Fits m
      → Fits (place eq mapper col s m)
  unfolding place
  place-Fits col s m f h = record {
    positions =
        stored-PositionFits eq eq_iff mapper m.positions s.next (length (pk_delete_of col.primary))
          col.name (position col.primary)
          (λ c e at.
            PositionFits-mono e.value m.upsert_parameter_count s.next (length m.pk_delete)
              (length (pk_delete_of col.primary)) f.grows (longer col.primary) (h.positions c e at))
          (record { upsert = f.upsert; validity = f.validity; delete = deleted col.primary });
    extras = Below-mono m.extras_col_idx m.upsert_parameter_count s.next f.grows h.extras;
  }
    where
      pk_delete_of : Bool → List (ColData K)
      pk_delete_of b = if b then m.pk_delete ++ col ∷ [] else m.pk_delete

      index : Bool → Option ℕ
      index b = if b then some (length m.pk_delete) else none

      position : Bool → Position K
      position b = record {
        column = col;
        delete_index = index b;
        upsert_index = s.upsert_position;
        validity_index = s.validity_position;
      }

      longer : (b : Bool) → length m.pk_delete ≤ length (pk_delete_of b)
      longer true = omega (arith, length-append m.pk_delete (col ∷ []))
      longer false = omega arith

      deleted : (b : Bool) → Below (index b) (length (pk_delete_of b))
      deleted true = omega (arith, length-append m.pk_delete (col ∷ []))
      deleted false = tt

  pub add_column-Fits :
      (cfg : Config K C M) (cm : Map K C ℕ) (col : ColData K) (m : Mapping K C M)
      → Fits m
      → Fits (add_column eq mapper cfg cm col m)
  unfolding add_column assemble column_slots place
  add_column-Fits cfg cm col m h =
      let s = column_slots eq mapper cfg col m.upsert_parameter_count in
      let f = column_slots-SlotsFit cfg col m.upsert_parameter_count in
      let p = place-Fits col s m f h in
      elim (Bool-cases s.will_upsert) [
        | inl hit ↦ rw hit (record {
          positions = p.positions;
          extras =
              chosen s.next (eq (mapper col.name) (mapper cfg.extras)) s.upsert_position f.upsert
                p.extras;
        })
        | inr miss ↦ rw miss p
      ]
    where
      chosen :
          (n : ℕ) (b : Bool) (o : Option ℕ)
          → Below o n
          → Below m.extras_col_idx n
          → Below (if b then o else m.extras_col_idx) n
      chosen n true o x y = x
      chosen n false o x y = y

  add_columns-Fits :
      (cfg : Config K C M) (cm : Map K C ℕ) (cols : List (ColData K)) (m r : Mapping K C M)
      → add_columns eq mapper cfg cm cols m ≡ done r
      → Fits m
      → Fits r
  unfolding add_columns
  add_columns-Fits cfg cm [] m r e h = subst Fits (ground arith) h
  add_columns-Fits cfg cm (col ∷ cols) m r e h =
      elim (Option-cases (Cmap.get eq mapper m.positions col.name)) [
        | inl new ↦
            add_columns-Fits cfg cm cols (add_column eq mapper cfg cm col m) r (ground arith)
              (add_column-Fits cfg cm col m h)
        | inr (p, old) ↦ absurd (ground arith)
      ]

  ignore_name-Fits :
      (tgt : K) (void : Bytes) (o : Option (Position K)) (m : Mapping K C M)
      → Fits m
      → Fits (ignore_name eq mapper tgt void o m)
  unfolding ignore_name
  ignore_name-Fits tgt void (some p) m h = h
  ignore_name-Fits tgt void none m h = record {
    positions =
        stored-PositionFits eq eq_iff mapper m.positions m.upsert_parameter_count
          (length m.pk_delete) tgt _ h.positions
          (record { upsert = tt; validity = tt; delete = tt });
    extras = h.extras;
  }

  ignore_names-Fits :
      (es : List (Entry K Bool)) (m : Mapping K C M) → Fits m → Fits (ignore_names eq mapper es m)
  unfolding ignore_names
  ignore_names-Fits [] m h = h
  ignore_names-Fits (e ∷ es) m h =
      ignore_names-Fits es _ (ignore_name-Fits e.key _ (Cmap.get eq mapper m.positions e.key) m h)

  rename_column-Fits :
      (e : Entry K K) (m : Mapping K C M) → Fits m → Fits (rename_column eq mapper e m)
  unfolding rename_column Cmap.get Cmap.match_key
  rename_column-Fits e m h = record {
    positions = renamed (fetch eq m.positions (mapper e.key)) refl;
    extras = h.extras;
  }
    where
      renamed :
          (o : Option (Entry K (Position K)))
          → fetch eq m.positions (mapper e.key) ≡ o
          → (c : C) (f : Entry K (Position K))
          → fetch eq
              (put_found (Cmap.value_of o) (Cmap.put eq mapper m.positions e.value) m.positions)
              c
            ≡ some f
          → PositionFits m.upsert_parameter_count (length m.pk_delete) f.value
      renamed none q = h.positions
      renamed (some x) q =
          stored-PositionFits eq eq_iff mapper m.positions m.upsert_parameter_count
            (length m.pk_delete) e.value x.value h.positions (h.positions (mapper e.key) x q)

  rename_columns-Fits :
      (es : List (Entry K K)) (m : Mapping K C M) → Fits m → Fits (rename_columns eq mapper es m)
  unfolding rename_columns
  rename_columns-Fits [] m h = h
  rename_columns-Fits (e ∷ es) m h = rename_columns-Fits es _ (rename_column-Fits e m h)

  -- The parameters of a deletion are counted.
  abbrev Counted : Mapping K C M → Type 0
  Counted m = m.delete_parameter_count ≡ length m.pk_delete

  ignore_name-Counted :
      (tgt : K) (void : Bytes) (o : Option (Position K)) (m : Mapping K C M)
      → Counted m
      → Counted (ignore_name eq mapper tgt void o m)
  unfolding ignore_name
  ignore_name-Counted tgt void (some p) m h = h
  ignore_name-Counted tgt void none m h = h

  ignore_names-Counted :
      (es : List (Entry K Bool)) (m : Mapping K C M)
      → Counted m
      → Counted (ignore_names eq mapper es m)
  unfolding ignore_names
  ignore_names-Counted [] m h = h
  ignore_names-Counted (e ∷ es) m h =
      ignore_names-Counted es _
        (ignore_name-Counted e.key _ (Cmap.get eq mapper m.positions e.key) m h)

  rename_columns-Counted :
      (es : List (Entry K K)) (m : Mapping K C M)
      → Counted m
      → Counted (rename_columns eq mapper es m)
  unfolding rename_columns rename_column
  rename_columns-Counted [] m h = h
  rename_columns-Counted (e ∷ es) m h = rename_columns-Counted es (rename_column eq mapper e m) h

  finish_mapping-Fits :
      (cfg : Config K C M) (m : Mapping K C M)
      → Fits m
      → Fits (finish_mapping eq mapper cfg m) × Counted (finish_mapping eq mapper cfg m)
  unfolding finish_mapping
  finish_mapping-Fits cfg m h =
      let counted : Mapping K C M = record m { delete_parameter_count = length m.pk_delete } in
      let es = Cmap.entries cfg.ignore in
      let rs = Cmap.entries cfg.source_names in
      (
        rename_columns-Fits rs _
            (ignore_names-Fits es counted (record { positions = h.positions; extras = h.extras })),
        rename_columns-Counted rs _ (ignore_names-Counted es counted refl),
      )

  finished-Fits :
      (cfg : Config K C M) (o : Outcome (MappingError K) (Mapping K C M)) (r : Mapping K C M)
      → ((m : Mapping K C M) → o ≡ done m → Fits m)
      → finished eq mapper cfg o ≡ done r
      → Fits r × Counted r
  unfolding finished
  finished-Fits cfg (failed x) r h e = absurd (ground arith)
  finished-Fits cfg (done m) r h e =
      subst (λ (x : Mapping K C M). Fits x × Counted x) (ground arith)
        (finish_mapping-Fits cfg m (h m refl))

  -- In every mapping that is returned each index of each position, those of renamed and of ignored names included, is below the count of parameters of its
  -- statement, and so is the place of the extras column.
  pub new_column_mapping-Fits :
      (cfg : Config K C M) (cols : List (ColData K)) (product : Product) (no_column : ColData K)
      (r : Mapping K C M)
      → new_column_mapping eq mapper cfg cols product no_column ≡ done r
      → Fits r × (r.delete_parameter_count ≡ length r.pk_delete)
  unfolding new_column_mapping empty_mapping fetch
  new_column_mapping-Fits cfg cols product no_column r = finished-Fits cfg _ r λ m e.
      add_columns-Fits cfg _ cols (empty_mapping eq mapper cfg product no_column) m e
        (record { positions = λ c p q. absurd (ground arith); extras = tt })
