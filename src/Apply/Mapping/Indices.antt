-- ===== src/Apply/Mapping/Indices.antt =====
-- internal/target/apply/column_mapping.go: the columns share out the parameters of an upsert.
use cdc_sink_redshift.Common.{
  ℕ, zero, suc, ◌+◌, ◌≡◌, ◌↔◌, refl, sym, ap, subst, ◌∙◌, inl, inr, Bool, true, false, Option, none,
  some, List, [], ◌∷◌, ◌++◌, if◌then◌else◌, done, length, All, Bool-cases, Option-cases, arith,
  Bytes,
}
use native.Mathlib.Nat.{zero-add, add-zero}
use cdc_sink_redshift.Cmap as Cmap
use cdc_sink_redshift.Cmap.{Map, Entry, fetch}
use cdc_sink_redshift.Cmap.Laws.{fetch-store}
use cdc_sink_redshift.Merge.Bag.{ColData}
use cdc_sink_redshift.Apply.Config.{Config, substitution_token}
use cdc_sink_redshift.Apply.Mapping.{
  Position, Mapping, Slots, contains, unused, fixed, valued, with_expr, column_slots, place,
  assemble, add_column, add_columns,
}

-- The numbers from `n` on, `k` of them.
abbrev pub upto : ℕ → ℕ → List ℕ
upto n zero = []
upto n (suc k) = n ∷ upto (suc n) k

upto-append : (n a b : ℕ) → upto n (a + b) ≡ upto n a ++ upto (n + a) b
upto-append n zero b = ap (upto n) (zero-add b) ∙ ap (λ x. upto x b) (sym (add-zero n))
upto-append n (suc a) b =
    ap (upto n) shifted
    ∙ ap (◌∷◌ n) (upto-append (suc n) a b ∙ ap (λ x. upto (suc n) a ++ upto x b) next)
  where
    shifted : suc a + b ≡ suc (a + b)
    shifted = omega arith

    next : suc n + a ≡ n + suc a
    next = omega arith

-- The indices of a column: that of its validity flag, then that of its value.
abbrev pub used : Option ℕ → List ℕ
used none = []
used (some i) = i ∷ []

-- The indices that are used, those of the entry that was found.
abbrev pub indices_of : {K : Type 0} → Option (Position K) → List ℕ
indices_of none = []
indices_of (some p) = used p.validity_index ++ used p.upsert_index

abbrev Shares : ℕ → Slots → Type 0
Shares current s =
    (k : ℕ) × (s.next ≡ current + k)
    × (used s.validity_position ++ used s.upsert_position ≡ upto current k)

none_shared :
    (current : ℕ) (w : Bool)
    → Shares current (record {
      upsert_position = none;
      validity_position = none;
      next = current;
      will_upsert = w;
    })
none_shared current w = (0, omega arith, refl)

valued-Shares : (d : Bytes) (current : ℕ) → Shares current (valued d current)
unfolding valued
valued-Shares [] current = (1, omega arith, refl)
valued-Shares (c ∷ cs) current = (2, omega arith, refl)

with_expr-Shares :
    (o : Option Bytes) (d : Bytes) (current : ℕ) → Shares current (with_expr o d current)
unfolding with_expr fixed
with_expr-Shares none d current = valued-Shares d current
with_expr-Shares (some e) d current = elim (Bool-cases (contains e substitution_token)) [
  | inl hit ↦ rw hit (valued-Shares d current)
  | inr miss ↦ rw miss (none_shared current true)
]

module _ {K C : Type 0} (eq : C → C → Bool) (mapper : K → C) where
  -- The indices of the columns, in their order.
  unfoldable pub indices : Map K C (Position K) → List (ColData K) → List ℕ
  indices ps [] = []
  indices ps (col ∷ cols) = indices_of (Cmap.get eq mapper ps col.name) ++ indices ps cols

  -- Columns that read alike have the same indices.
  pub indices-cong :
      (ps qs : Map K C (Position K)) (cols : List (ColData K))
      → All
          (λ (col : ColData K). Cmap.get eq mapper ps col.name ≡ Cmap.get eq mapper qs col.name)
          cols
      → indices ps cols ≡ indices qs cols
  unfolding indices
  indices-cong ps qs [] h = refl
  indices-cong ps qs (col ∷ cols) h = rw (h.0, indices-cong ps qs cols h.1) refl

module _ {K C M : Type 0} (eq : C → C → Bool) (eq_iff : (a b : C) → (eq a b ≡ true) ↔ (a ≡ b))
    (mapper : K → C) where
  column_slots-Shares :
      (cfg : Config K C M) (col : ColData K) (current : ℕ)
      → Shares current (column_slots eq mapper cfg col current)
  unfolding column_slots unused
  column_slots-Shares cfg col current = elim (Bool-cases col.ignored) [
    | inl hit ↦ rw hit (none_shared current false)
    | inr miss ↦ elim (Bool-cases (Cmap.get_zero eq mapper false cfg.ignore col.name)) [
      | inl hit ↦ rw (miss, hit) (none_shared current false)
      | inr seen ↦
          rw (miss, seen)
            (with_expr-Shares (Cmap.get eq mapper cfg.exprs col.name) col.default_expr current)
    ]
  ]

  assembled :
      (cfg : Config K C M) (cm : Map K C ℕ) (col : ColData K) (u : Option ℕ) (b : Bool)
      (p : Mapping K C M)
      → let r = (if b then assemble eq mapper cfg cm col u p else p) in
        (r.positions ≡ p.positions) × (r.upsert_parameter_count ≡ p.upsert_parameter_count)
  unfolding assemble
  assembled cfg cm col u true p = (refl, refl)
  assembled cfg cm col u false p = (refl, refl)

  -- The entry that a column leaves among the positions.
  abbrev pub entry : Config K C M → ColData K → Mapping K C M → Entry K (Position K)
  entry cfg col m =
      let s = column_slots eq mapper cfg col m.upsert_parameter_count in
      record {
        key = col.name;
        value = record {
          column = col;
          delete_index = if col.primary then some (length m.pk_delete) else none;
          upsert_index = s.upsert_position;
          validity_index = s.validity_position;
        };
      }

  -- What a column leaves: its own position, the others, and the next parameter.
  pub add_column-reads :
      (cfg : Config K C M) (cm : Map K C ℕ) (col : ColData K) (m : Mapping K C M)
      → ((add_column eq mapper cfg cm col m).upsert_parameter_count
          ≡ (column_slots eq mapper cfg col m.upsert_parameter_count).next)
        × ((c : C)
            → fetch eq (add_column eq mapper cfg cm col m).positions c
              ≡ (if eq (mapper col.name) c then some (entry cfg col m) else fetch eq m.positions c))
  unfolding add_column place Cmap.put
  add_column-reads cfg cm col m =
      let s = column_slots eq mapper cfg col m.upsert_parameter_count in
      let a = assembled cfg cm col s.upsert_position s.will_upsert (place eq mapper col s m) in
      (
        a.1,
        λ c.
            ap (λ ps. fetch eq ps c) a.0
            ∙ fetch-store eq eq_iff m.positions (mapper col.name) c (entry cfg col m),
      )

  -- The positions that there were stay.
  add_columns-keeps :
      (cfg : Config K C M) (cm : Map K C ℕ) (cols : List (ColData K)) (m r : Mapping K C M) (c : C)
      (e : Entry K (Position K))
      → add_columns eq mapper cfg cm cols m ≡ done r
      → fetch eq m.positions c ≡ some e
      → fetch eq r.positions c ≡ some e
  unfolding add_columns Cmap.get Cmap.match_key
  add_columns-keeps cfg cm [] m r c e h q =
      let same : m ≡ r = ground arith in
      subst (λ (x : Mapping K C M). fetch eq x.positions c ≡ some e) same q
  add_columns-keeps cfg cm (col ∷ cols) m r c e h q =
      elim (Option-cases (fetch eq m.positions (mapper col.name))) [
        | inr (p, old) ↦ absurd (ground arith)
        | inl new ↦
            add_columns-keeps cfg cm cols (add_column eq mapper cfg cm col m) r c e (ground arith)
              (ground (arith, (add_column-reads cfg cm col m).1 c, eq_iff (mapper col.name) c))
      ]

  pub add_columns-indices :
      (cfg : Config K C M) (cm : Map K C ℕ) (cols : List (ColData K)) (m r : Mapping K C M)
      → add_columns eq mapper cfg cm cols m ≡ done r
      → (k : ℕ) × (r.upsert_parameter_count ≡ m.upsert_parameter_count + k)
        × (indices eq mapper r.positions cols ≡ upto m.upsert_parameter_count k)
        × All
            (λ (col : ColData K).
              (e : Entry K (Position K)) × (fetch eq r.positions (mapper col.name) ≡ some e))
            cols
  unfolding add_columns indices Cmap.get Cmap.match_key
  add_columns-indices cfg cm [] m r h =
      let same : m ≡ r = ground arith in
      (
        0,
        ap (λ (x : Mapping K C M). x.upsert_parameter_count) (sym same)
            ∙ sym (add-zero m.upsert_parameter_count),
        refl,
        tt,
      )
  add_columns-indices cfg cm (col ∷ cols) m r h =
      elim (Option-cases (fetch eq m.positions (mapper col.name))) [
        | inr (p, old) ↦ absurd (ground arith)
        | inl new ↦
            let n : Mapping K C M = add_column eq mapper cfg cm col m in
            let rest : add_columns eq mapper cfg cm cols n ≡ done r = ground arith in
            let (k, count, at, every) = add_columns-indices cfg cm cols n r rest in
            let (j, next, own) = column_slots-Shares cfg col m.upsert_parameter_count in
            let (up, reads) = add_column-reads cfg cm col m in
            let here : fetch eq r.positions (mapper col.name) ≡ some (entry cfg col m) =
              add_columns-keeps cfg cm cols n r (mapper col.name) (entry cfg col m) rest (
                ground
                  (arith, reads (mapper col.name), eq_iff (mapper col.name) (mapper col.name))) in
            let start : n.upsert_parameter_count ≡ m.upsert_parameter_count + j = up ∙ next in
            (
              j + k,
              omega arith,
              ap
                    (λ (o : Option (Entry K (Position K))).
                      indices_of (Cmap.value_of o) ++ indices eq mapper r.positions cols)
                    here
                  ∙ ap (◌++◌ _) (at ∙ ap (λ x. upto x k) start)
                  ∙ ap (λ l. l ++ upto (m.upsert_parameter_count + j) k) own
                  ∙ sym (upto-append m.upsert_parameter_count j k),
              ((entry cfg col m, here), every),
            )
      ]
