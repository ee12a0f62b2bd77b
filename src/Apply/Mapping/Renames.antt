-- ===== src/Apply/Mapping/Renames.antt =====
-- internal/target/apply/column_mapping.go: what the ignored and the renamed columns change.
use cdc_sink_redshift.Common.{
  ℕ, ◌+◌, ◌≡◌, ◌↔◌, refl, sym, ap, subst, ◌∙◌, inl, inr, Bool, true, false, Option, none, some,
  List, [], ◌∷◌, Outcome, done, failed, length, All, Bool-cases, arith, Bytes,
}
use native.Mathlib.Nat.{zero-add}
use cdc_sink_redshift.Cmap as Cmap
use cdc_sink_redshift.Cmap.{Map, Entry, fetch}
use cdc_sink_redshift.Cmap.Laws.{fetch-store}
use cdc_sink_redshift.Merge.Bag.{ColData}
use cdc_sink_redshift.Apply.Mapping.Indices.{indices, indices-cong, upto, add_columns-indices}
use cdc_sink_redshift.Apply.Config.{Config}
use cdc_sink_redshift.Apply.Mapping.{
  Position, Mapping, MappingError, Product, add_columns, ignore_name, ignore_names, rename_column,
  rename_columns, finished, number_columns, put_found, empty_mapping, finish_mapping,
  new_column_mapping,
}

-- A name is none of the source names.
abbrev pub Fresh : {K C : Type 0} → (C → C → Bool) → (K → C) → List (Entry K K) → C → Type 0
Fresh eq mapper es c = All (λ (e : Entry _ _). eq (mapper e.value) c ≡ false) es

module _ {K C M : Type 0} (eq : C → C → Bool) (eq_iff : (a b : C) → (eq a b ≡ true) ↔ (a ≡ b))
    (mapper : K → C) where
  ignore_name-keeps :
      (tgt : K) (void : Bytes) (o : Option (Position K)) (m : Mapping K C M) (c : C)
      (e : Entry K (Position K))
      → Cmap.get eq mapper m.positions tgt ≡ o
      → fetch eq m.positions c ≡ some e
      → fetch eq (ignore_name eq mapper tgt void o m).positions c ≡ some e
  unfolding ignore_name Cmap.get Cmap.match_key Cmap.put
  ignore_name-keeps tgt void (some p) m c e q h = h
  ignore_name-keeps tgt void none m c e q h = elim (Bool-cases (eq (mapper tgt) c)) [
    | inl hit ↦
        let found : fetch eq m.positions (mapper tgt) ≡ some e =
          subst (λ x. fetch eq m.positions x ≡ some e) (sym ((eq_iff (mapper tgt) c).0 hit)) h in
        absurd (ground arith)
    | inr miss ↦ fetch-store eq eq_iff m.positions (mapper tgt) c _ ∙ rw miss h
  ]

  ignore_names-keeps :
      (es : List (Entry K Bool)) (m : Mapping K C M) (c : C) (e : Entry K (Position K))
      → fetch eq m.positions c ≡ some e
      → fetch eq (ignore_names eq mapper es m).positions c ≡ some e
  unfolding ignore_names
  ignore_names-keeps [] m c e h = h
  ignore_names-keeps (x ∷ es) m c e h =
      ignore_names-keeps es _ c e
        (ignore_name-keeps x.key _ (Cmap.get eq mapper m.positions x.key) m c e refl h)

  rename_column-keeps :
      (x : Entry K K) (m : Mapping K C M) (c : C)
      → eq (mapper x.value) c ≡ false
      → fetch eq (rename_column eq mapper x m).positions c ≡ fetch eq m.positions c
  unfolding rename_column Cmap.put
  rename_column-keeps x m c miss = renamed (Cmap.get eq mapper m.positions x.key)
    where
      renamed :
          (o : Option (Position K))
          → fetch eq (put_found o (Cmap.put eq mapper m.positions x.value) m.positions) c
            ≡ fetch eq m.positions c
      renamed none = refl
      renamed (some p) = fetch-store eq eq_iff m.positions (mapper x.value) c _ ∙ rw miss refl

  pub rename_columns-keeps :
      (es : List (Entry K K)) (m : Mapping K C M) (c : C)
      → Fresh eq mapper es c
      → fetch eq (rename_columns eq mapper es m).positions c ≡ fetch eq m.positions c
  unfolding rename_columns
  rename_columns-keeps [] m c f = refl
  rename_columns-keeps (x ∷ es) m c f =
      rename_columns-keeps es (rename_column eq mapper x m) c f.1 ∙ rename_column-keeps x m c f.0

  ignore_names-count :
      (es : List (Entry K Bool)) (m : Mapping K C M)
      → (ignore_names eq mapper es m).upsert_parameter_count ≡ m.upsert_parameter_count
  unfolding ignore_names ignore_name
  ignore_names-count [] m = refl
  ignore_names-count (x ∷ es) m =
      ignore_names-count es _ ∙ one _ (Cmap.get eq mapper m.positions x.key)
    where
      one :
          (void : Bytes) (o : Option (Position K))
          → (ignore_name eq mapper x.key void o m).upsert_parameter_count ≡ m.upsert_parameter_count
      one void none = refl
      one void (some p) = refl

  rename_columns-count :
      (es : List (Entry K K)) (m : Mapping K C M)
      → (rename_columns eq mapper es m).upsert_parameter_count ≡ m.upsert_parameter_count
  unfolding rename_columns rename_column
  rename_columns-count [] m = refl
  rename_columns-count (x ∷ es) m = rename_columns-count es (rename_column eq mapper x m)

  finish_mapping-reads :
      (cfg : Config K C M) (m : Mapping K C M) (c : C) (e : Entry K (Position K))
      → Fresh eq mapper (Cmap.entries cfg.source_names) c
      → fetch eq m.positions c ≡ some e
      → fetch eq (finish_mapping eq mapper cfg m).positions c ≡ some e
  unfolding finish_mapping
  finish_mapping-reads cfg m c e f h =
      rename_columns-keeps (Cmap.entries cfg.source_names) _ c f
      ∙ ignore_names-keeps (Cmap.entries cfg.ignore)
          (record m { delete_parameter_count = length m.pk_delete }) c e h

  all_read :
      (cfg : Config K C M) (m : Mapping K C M) (cols : List (ColData K))
      → All
          (λ (col : ColData K). Fresh eq mapper (Cmap.entries cfg.source_names) (mapper col.name))
          cols
      → All
          (λ (col : ColData K).
            (e : Entry K (Position K)) × (fetch eq m.positions (mapper col.name) ≡ some e))
          cols
      → All
          (λ (col : ColData K).
            Cmap.get eq mapper (finish_mapping eq mapper cfg m).positions col.name
            ≡ Cmap.get eq mapper m.positions col.name)
          cols
  unfolding Cmap.get Cmap.match_key
  all_read cfg m [] f h = tt
  all_read cfg m (col ∷ cols) f h =
      let (e, at) = h.0 in
      (
        ap Cmap.value_of (finish_mapping-reads cfg m (mapper col.name) e f.0 at ∙ sym at),
        all_read cfg m cols f.1 h.1,
      )

  finished-indices :
      (cfg : Config K C M) (cm : Map K C ℕ) (cols : List (ColData K)) (m r : Mapping K C M)
      (o : Outcome (MappingError K) (Mapping K C M))
      → All
          (λ (col : ColData K). Fresh eq mapper (Cmap.entries cfg.source_names) (mapper col.name))
          cols
      → m.upsert_parameter_count ≡ 0
      → add_columns eq mapper cfg cm cols m ≡ o
      → finished eq mapper cfg o ≡ done r
      → indices eq mapper r.positions cols ≡ upto 0 r.upsert_parameter_count
  unfolding finished finish_mapping
  finished-indices cfg cm cols m r (failed x) f z q h = absurd (ground arith)
  finished-indices cfg cm cols m r (done n) f z q h =
      let (k, count, at, every) = add_columns-indices eq eq_iff mapper cfg cm cols m n q in
      let same : finish_mapping eq mapper cfg n ≡ r = ground arith in
      let counted : (finish_mapping eq mapper cfg n).upsert_parameter_count ≡ k =
        rename_columns-count (Cmap.entries cfg.source_names) _
        ∙ ignore_names-count (Cmap.entries cfg.ignore)
            (record n { delete_parameter_count = length n.pk_delete })
        ∙ count
        ∙ ap (λ x. x + k) z
        ∙ zero-add k in
      subst
        (λ (x : Mapping K C M).
          indices eq mapper x.positions cols ≡ upto 0 x.upsert_parameter_count)
        same
        (indices-cong eq mapper (finish_mapping eq mapper cfg n).positions n.positions cols
            (all_read cfg n cols f every)
          ∙ at
          ∙ ap (λ x. upto x k) z
          ∙ ap (upto 0) (sym counted))

  -- When no column has the name of a source column, the columns share out the parameters of an upsert: read
  -- in the order of the columns, the index of each validity flag followed by that of its value, the indices are the
  -- numbers from 0 to the count, each once.
  pub new_column_mapping-indices :
      (cfg : Config K C M) (cols : List (ColData K)) (product : Product) (no_column : ColData K)
      (r : Mapping K C M)
      → All
          (λ (col : ColData K). Fresh eq mapper (Cmap.entries cfg.source_names) (mapper col.name))
          cols
      → new_column_mapping eq mapper cfg cols product no_column ≡ done r
      → indices eq mapper r.positions cols ≡ upto 0 r.upsert_parameter_count
  unfolding new_column_mapping empty_mapping
  new_column_mapping-indices cfg cols product no_column r f =
      finished-indices cfg (number_columns eq mapper cfg.cas_columns 0 []) cols
        (empty_mapping eq mapper cfg product no_column) r _ f refl refl
