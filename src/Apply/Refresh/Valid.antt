-- ===== src/Apply/Refresh/Valid.antt =====
-- internal/target/apply/apply.go, validate: what an accepted configuration names.
use cdc_sink_redshift.Common.{
  ◌≡◌, ◌↔◌, ◌⊎◌, inl, inr, refl, ◌∙◌, Bool, true, false, ◌&&◌, Option, none, some, List, [], ◌∷◌,
  if◌then◌else◌, All, is_empty, Bool-cases, Option-cases, arith,
}
use cdc_sink_redshift.Cmap as Cmap
use cdc_sink_redshift.Cmap.{Map, Entry, fetch}
use cdc_sink_redshift.Cmap.Laws.{fetch-store}
use cdc_sink_redshift.Merge.Bag.{ColData}
use cdc_sink_redshift.Apply.Config.{Config, absent}
use cdc_sink_redshift.Apply.Refresh.{
  RefreshError, first_error, all_col_names, find_missing, check_extras, check_merger, names_of,
  validate_config,
}

module _ {K C : Type 0} (eq : C → C → Bool) (eq_iff : (a b : C) → (eq a b ≡ true) ↔ (a ≡ b))
    (mapper : K → C) where
  -- A column with a name.
  abbrev pub Named : List (ColData K) → C → Type 0
  Named [] c = ⊥
  Named (col ∷ cols) c = (mapper col.name ≡ c) ⊎ Named cols c

  abbrev Present : Map K C Unit → C → Type 0
  Present m c = (e : Entry K Unit) × (fetch eq m c ≡ some e)

  store-Present :
      (m : Map K C Unit) (k : K) (c : C)
      → Present (Cmap.put eq mapper m k tt) c ↔ ((mapper k ≡ c) ⊎ Present m c)
  unfolding Cmap.put
  store-Present m k c = elim (Bool-cases (eq (mapper k) c)) [
    | inl hit ↦ (
      λ h. inl ((eq_iff (mapper k) c).0 hit),
      λ h. (record { key = k; value = tt }, fetch-store eq eq_iff m (mapper k) c _ ∙ rw hit refl),
    )
    | inr miss ↦
        let same = fetch-store eq eq_iff m (mapper k) c (record { key = k; value = tt }) in
        (
          λ (e, h). inr (e, ground (arith, same)),
          λ h. elim h [
            | inl q ↦ absurd (ground (arith, eq_iff (mapper k) c))
            | inr (e, q) ↦ (e, ground (arith, same))
          ],
        )
  ]

  all_col_names-Present :
      (cols : List (ColData K)) (m : Map K C Unit) (c : C)
      → Present (all_col_names eq mapper cols m) c ↔ (Named cols c ⊎ Present m c)
  unfolding all_col_names
  all_col_names-Present [] m c = (inr, λ h. elim h [ inl x ↦ absurd x | inr x ↦ x ])
  all_col_names-Present (col ∷ cols) m c =
      let rest = all_col_names-Present cols (Cmap.put eq mapper m col.name tt) c in
      let here = store-Present m col.name c in
      (
        λ h. elim (rest.0 h) [
          | inl n ↦ inl (inr n)
          | inr p ↦ elim (here.0 p) [ inl q ↦ inl (inl q) | inr q ↦ inr q ]
        ],
        λ h. elim h [
          | inl (inl q) ↦ rest.1 (inr (here.1 (inl q)))
          | inl (inr n) ↦ rest.1 (inl n)
          | inr p ↦ rest.1 (inr (here.1 (inr p)))
        ],
      )

  find_missing_iff :
      (err : K → RefreshError K) (names : Map K C Unit) (ks : List K)
      → (find_missing eq mapper err names ks ≡ none) ↔ All (λ k. Present names (mapper k)) ks
  unfolding find_missing Cmap.get Cmap.match_key
  find_missing_iff err names [] = (λ h. tt, λ h. refl)
  find_missing_iff err names (k ∷ ks) = elim (Option-cases (fetch eq names (mapper k))) [
    | inl gone ↦ (λ h. absurd (ground arith), λ h. let (e, at) = h.0 in absurd (ground arith))
    | inr (e, at) ↦
        let rest = find_missing_iff err names ks in
        (λ h. ((e, at), rest.0 (ground arith)), λ h. ground (arith, rest.1 h.1))
  ]

  all_names :
      (cols : List (ColData K)) (ks : List K)
      → All (λ k. Present (all_col_names eq mapper cols []) (mapper k)) ks
        ↔ All (λ k. Named cols (mapper k)) ks
  unfolding fetch
  all_names cols [] = (λ h. tt, λ h. tt)
  all_names cols (k ∷ ks) =
      let here = all_col_names-Present cols [] (mapper k) in
      let rest = all_names cols ks in
      (
        λ h. (elim (here.0 h.0) [ inl n ↦ n | inr (e, p) ↦ absurd (ground arith) ], rest.0 h.1),
        λ h. (here.1 (inl h.0), rest.1 h.1),
      )

  missing_iff :
      (err : K → RefreshError K) (cols : List (ColData K)) (ks : List K)
      → (find_missing eq mapper err (all_col_names eq mapper cols []) ks ≡ none)
        ↔ All (λ k. Named cols (mapper k)) ks
  missing_iff err cols ks =
      let a = find_missing_iff err (all_col_names eq mapper cols []) ks in
      let b = all_names cols ks in (λ h. b.0 (a.0 h), λ h. a.1 (b.1 h))

  check_extras_iff :
      (name_empty : K → Bool) (cols : List (ColData K)) (extras : K)
      → (check_extras eq mapper name_empty (all_col_names eq mapper cols []) extras ≡ none)
        ↔ ((name_empty extras ≡ true) ⊎ Named cols (mapper extras))
  unfolding check_extras
  check_extras_iff name_empty cols extras = elim (Bool-cases (name_empty extras)) [
    | inl hit ↦ (λ h. inl hit, λ h. rw (check_extras, hit) refl)
    | inr miss ↦
        let m = missing_iff RefreshError.no_extras_column cols (extras ∷ []) in
        (
          λ h. inr (m.0 (ground arith)).0,
          λ h. elim h [
            | inl q ↦ absurd (ground arith)
            | inr n ↦ rw (check_extras, miss) (m.1 (n, tt))
          ],
        )
  ]

first_error_iff :
    {E : Type 0} (a b : Option E) → (first_error a b ≡ none) ↔ ((a ≡ none) × (b ≡ none))
first_error_iff none b = (λ h. (refl, h), λ h. h.1)
first_error_iff (some e) b = (λ h. absurd (ground arith), λ h. absurd (ground arith))

-- A merge function that something can trigger.
abbrev pub Triggered : {K C M : Type 0} → Config K C M → Type 0
Triggered cfg = (cfg.merger ≡ none) ⊎ ((is_empty cfg.cas_columns && is_empty cfg.deadlines) ≡ false)

abbrev useless : (K : Type 0) → RefreshError K
useless K = RefreshError.useless_merger

check_merger_iff : {K C M : Type 0} (cfg : Config K C M) → (check_merger cfg ≡ none) ↔ Triggered cfg
unfolding check_merger
check_merger_iff {K} {C} {M} cfg =
    with_merger cfg.merger (is_empty cfg.cas_columns && is_empty cfg.deadlines)
  where
    with_merger :
        (o : Option M) (b : Bool)
        → ((if absent o then none else (if b then some (useless K) else none)) ≡ none)
          ↔ ((o ≡ none) ⊎ (b ≡ false))
    with_merger none b = (λ h. inl refl, λ h. refl)
    with_merger (some f) true = (λ h. absurd (ground arith), λ h. absurd (ground arith))
    with_merger (some f) false = (λ h. inr refl, λ h. refl)

module _ {K C M : Type 0} (eq : C → C → Bool) (eq_iff : (a b : C) → (eq a b ≡ true) ↔ (a ≡ b))
    (mapper : K → C) (name_empty : K → Bool) where
  -- A configuration that names only columns of the table.
  pub record Accepted (cfg : Config K C M) (cols : List (ColData K)) : Type 0 where
    pub cas : All (λ k. Named eq eq_iff mapper cols (mapper k)) cfg.cas_columns
    pub deadlines :
        All (λ k. Named eq eq_iff mapper cols (mapper k)) (names_of (Cmap.entries cfg.deadlines))
    pub exprs :
        All (λ k. Named eq eq_iff mapper cols (mapper k)) (names_of (Cmap.entries cfg.exprs))
    pub extras : (name_empty cfg.extras ≡ true) ⊎ Named eq eq_iff mapper cols (mapper cfg.extras)
    pub merger : Triggered cfg
    pub source_names :
        All (λ k. Named eq eq_iff mapper cols (mapper k)) (names_of (Cmap.entries cfg.source_names))

  -- `validate` returns no error exactly if the columns to compare, those with deadlines, those with expressions, the column of extra properties if
  -- there is one, and the renamed columns are all columns of the table, up to case, and a merge function comes with a column
  -- to compare or a deadline.
  pub validate_config_iff :
      (cfg : Config K C M) (cols : List (ColData K))
      → (validate_config eq mapper name_empty cfg cols ≡ none) ↔ Accepted cfg cols
  unfolding validate_config
  validate_config_iff cfg cols =
      let cas = missing_iff eq eq_iff mapper RefreshError.no_cas_column cols cfg.cas_columns in
      let deadlines =
        missing_iff eq eq_iff mapper RefreshError.no_deadline_column cols
          (names_of (Cmap.entries cfg.deadlines)) in
      let exprs =
        missing_iff eq eq_iff mapper RefreshError.no_expr_column cols
          (names_of (Cmap.entries cfg.exprs)) in
      let extras = check_extras_iff eq eq_iff mapper name_empty cols cfg.extras in
      let merger = check_merger_iff cfg in
      let source_names =
        missing_iff eq eq_iff mapper RefreshError.no_renamed_column cols
          (names_of (Cmap.entries cfg.source_names)) in
      (
        λ h.
            let (h0, r0) = (first_error_iff _ _).0 h in
            let (h1, r1) = (first_error_iff _ _).0 r0 in
            let (h2, r2) = (first_error_iff _ _).0 r1 in
            let (h3, r3) = (first_error_iff _ _).0 r2 in
            let (h4, h5) = (first_error_iff _ _).0 r3 in
            record {
              cas = cas.0 h0;
              deadlines = deadlines.0 h1;
              exprs = exprs.0 h2;
              extras = extras.0 h3;
              merger = merger.0 h4;
              source_names = source_names.0 h5;
            },
        λ a. (first_error_iff _ _).1 (
          cas.1 a.cas,
          (first_error_iff _ _).1 (
            deadlines.1 a.deadlines,
            (first_error_iff _ _).1 (
              exprs.1 a.exprs,
              (first_error_iff _ _).1 (
                extras.1 a.extras,
                (first_error_iff _ _).1 (merger.1 a.merger, source_names.1 a.source_names),
              ),
            ),
          ),
        ),
      )
