-- ===== src/Staging/Stage/Retired.antt =====
-- internal/staging/stage/stage.go, Retire: what is left of the table.
use cdc_sink_redshift.Common.{
  All, All-map, All-zip, ◌↔◌, ℕ, zero, suc, ◌+◌, ◌≤◌, ◌<◌, ◌≡◌, inl, inr, refl, sym, ap, subst, ◌∙◌,
  Bool, true, false, not, Option, none, some, List, [], ◌∷◌, if◌then◌else◌, length, not_true,
  Bool-cases, Option-cases, arith,
}
use cdc_sink_redshift.Hlc.{Time, IsValid, lt}
use cdc_sink_redshift.Cdc.Stamps.Steps.{NotAfter, NotAfter_refl, NotAfter-trans, lt-NotAfter}
use cdc_sink_redshift.Sql.{pair_lt}
use cdc_sink_redshift.Sql.Order.{pair_lt_iff, not_lt}
use cdc_sink_redshift.Staging.{filter}
use cdc_sink_redshift.Staging.Stage.{
  StageRow, delete_first, or_last, in_range, advance_marker, retire_loop, retire,
}

-- Rows in the order of their times.
abbrev pub Sorted : List StageRow → Type 0
Sorted [] = Unit
Sorted (r ∷ rows) = All (λ (s : StageRow). NotAfter r.time s.time) rows × Sorted rows

module _ (p : StageRow → Bool) where
  delete_first-All :
      (Q : StageRow → Type 0) (n : ℕ) (table : List StageRow)
      → All Q table
      → All Q (delete_first n p table).0
  unfolding delete_first
  delete_first-All Q zero table h = h
  delete_first-All Q (suc n) [] h = tt
  delete_first-All Q (suc n) (r ∷ rows) h = elim (Bool-cases (p r)) [
    | inl hit ↦ rw (delete_first, hit) (delete_first-All Q n rows h.1)
    | inr miss ↦ rw (delete_first, miss) (h.0, delete_first-All Q (suc n) rows h.1)
  ]

  delete_first-Sorted :
      (n : ℕ) (table : List StageRow) → Sorted table → Sorted (delete_first n p table).0
  unfolding delete_first
  delete_first-Sorted zero table h = h
  delete_first-Sorted (suc n) [] h = tt
  delete_first-Sorted (suc n) (r ∷ rows) h = elim (Bool-cases (p r)) [
    | inl hit ↦ rw (delete_first, hit) (delete_first-Sorted n rows h.1)
    | inr miss ↦
        rw (delete_first, miss)
          (
            delete_first-All (λ s. NotAfter r.time s.time) (suc n) rows h.0,
            delete_first-Sorted (suc n) rows h.1,
          )
  ]

  -- The rows that the test does not take stay.
  delete_first-filter :
      (q : StageRow → Bool) (n : ℕ) (table : List StageRow)
      → ((r : StageRow) → p r ≡ true → q r ≡ false)
      → filter q (delete_first n p table).0 ≡ filter q table
  unfolding delete_first filter
  delete_first-filter q zero table h = refl
  delete_first-filter q (suc n) [] h = refl
  delete_first-filter q (suc n) (r ∷ rows) h = elim (Bool-cases (p r)) [
    | inl hit ↦ rw (delete_first, hit, h r hit) (delete_first-filter q n rows h)
    | inr miss ↦
        rw (delete_first, miss, filter)
          (ap (λ l. if q r then r ∷ l else l) (delete_first-filter q (suc n) rows h))
  ]

  -- A row that the statement deletes, and one that it passes.
  delete_first-hit :
      (n : ℕ) (r : StageRow) (rows : List StageRow)
      → p r ≡ true
      → delete_first (suc n) p (r ∷ rows)
        ≡ ((delete_first n p rows).0, or_last r.time (delete_first n p rows).1)
  unfolding delete_first
  delete_first-hit n r rows h = rw (delete_first, h) refl

  delete_first-miss :
      (n : ℕ) (r : StageRow) (rows : List StageRow)
      → p r ≡ false
      → delete_first (suc n) p (r ∷ rows)
        ≡ (r ∷ (delete_first (suc n) p rows).0, (delete_first (suc n) p rows).1)
  unfolding delete_first
  delete_first-miss n r rows h = rw (delete_first, h) refl

  or_last_some : (t : Time) (o : Option Time) → or_last t o ≡ none → ⊥
  or_last_some t none h = absurd (ground (arith, h))
  or_last_some t (some u) h = absurd (ground (arith, h))

  -- A statement that deletes nothing found no row that the test takes.
  delete_first-none :
      (n : ℕ) (table : List StageRow)
      → (delete_first (suc n) p table).1 ≡ none
      → All (λ r. p r ≡ false) (delete_first (suc n) p table).0
  unfolding delete_first
  delete_first-none n [] h = tt
  delete_first-none n (r ∷ rows) h = elim (Bool-cases (p r)) [
    | inl hit ↦
        absurd (or_last_some r.time _ (ap (λ x. x.1) (sym (delete_first-hit n r rows hit)) ∙ h))
    | inr miss ↦
        let e = delete_first-miss n r rows miss in
        subst (λ x. All (λ r. p r ≡ false) x.0) (sym e)
          (miss, delete_first-none n rows (ap (λ x. x.1) (sym e) ∙ h))
  ]

  -- The last row that a statement deletes: the rows that are left and that the test takes are not before it.
  abbrev Last : (StageRow → Type 0) → List StageRow → List StageRow → Time → Type 0
  Last Q table rest t =
      ((r : StageRow) × (r.time ≡ t) × (p r ≡ true) × Q r)
      × All (λ r. p r ≡ true → NotAfter t r.time) rest
      × (length rest < length table)

  delete_first-length :
      (n : ℕ) (table : List StageRow) → length (delete_first n p table).0 ≤ length table
  unfolding delete_first
  delete_first-length zero table = omega arith
  delete_first-length (suc n) [] = omega arith
  delete_first-length (suc n) (r ∷ rows) = elim (Bool-cases (p r)) [
    | inl hit ↦ let ih = delete_first-length n rows in rw (delete_first, hit) (omega arith)
    | inr miss ↦ let ih = delete_first-length (suc n) rows in rw (delete_first, miss) (omega arith)
  ]

  delete_first-Last :
      (Q : StageRow → Type 0) (n : ℕ) (table : List StageRow) (t : Time)
      → Sorted table
      → All Q table
      → (delete_first n p table).1 ≡ some t
      → Last Q table (delete_first n p table).0 t
  unfolding delete_first
  delete_first-Last Q zero table t s a h = absurd (ground (arith, h))
  delete_first-Last Q (suc n) [] t s a h = absurd (ground (arith, h))
  delete_first-Last Q (suc n) (r ∷ rows) t s a h = elim (Bool-cases (p r)) [
    | inl hit ↦
        let e = delete_first-hit n r rows hit in
        let last : or_last r.time (delete_first n p rows).1 ≡ some t = ap (λ x. x.1) (sym e) ∙ h in
        subst (λ x. Last Q (r ∷ rows) x.0 t) (sym e)
          (elim (Option-cases (delete_first n p rows).1) [
            | inl gone ↦
                let same : r.time ≡ t = some_inj (ap (or_last r.time) (sym gone) ∙ last) in
                (
                  (r, same, hit, a.0),
                  All-map (λ x h q. subst (λ u. NotAfter u x.time) same h) (delete_first n p rows).0
                      (delete_first-All (λ x. NotAfter r.time x.time) n rows s.0),
                  suc_le (delete_first-length n rows),
                )
            | inr (u, more) ↦
                let same : u ≡ t = some_inj (ap (or_last r.time) (sym more) ∙ last) in
                let (found, all, less) =
                  delete_first-Last Q n rows t s.1 a.1 (more ∙ ap some same) in
                (found, all, omega arith)
          ])
    | inr miss ↦
        let e = delete_first-miss n r rows miss in
        let (found, all, less) =
          delete_first-Last Q (suc n) rows t s.1 a.1 (ap (λ x. x.1) (sym e) ∙ h) in
        subst (λ x. Last Q (r ∷ rows) x.0 t) (sym e)
          (found, (λ q. absurd (ground (arith, q)), all), suc_lt less)
  ]
    where
      some_inj : {a b : Time} → some a ≡ some b → a ≡ b
      some_inj h = ground (arith, h)

      suc_le : {a b : ℕ} → a ≤ b → a < suc b
      suc_le h = omega arith

      suc_lt : {a b : ℕ} → a < b → suc a < suc b
      suc_lt h = omega arith

in_range_iff :
    (from end : Time) (r : StageRow)
    → (in_range from end r ≡ true) ↔ (NotAfter from r.time × NotAfter r.time end)
unfolding in_range
in_range_iff from end r = (
  λ h. (not_lt r.time from (ground (arith, h)), not_lt end r.time (ground (arith, h))),
  λ (p, q).
      let a = not_true (pair_lt r.time from) (λ x. p ((pair_lt_iff r.time from).0 x)) in
      let b = not_true (pair_lt end r.time) (λ x. q ((pair_lt_iff end r.time).0 x)) in
      rw (in_range, a, b) refl,
)

-- The rows that are left of a table: those out of the range, and of those in the range only some at its end.
pub record IsRetired (from end : Time) (table rest : List StageRow) : Type 0 where
  pub outside :
      filter (λ r. not (in_range from end r)) rest ≡ filter (λ r. not (in_range from end r)) table
  pub cleared : All (λ r. in_range from end r ≡ true → NotAfter end r.time) rest

abbrev pub IsValidRow : StageRow → Type 0
IsValidRow r = IsValid r.time

module _ (limit : ℕ) (start end : Time) (end_valid : IsValid end) where
  -- What holds of the marker and the table in every round.
  record Round (from : Time) (table : List StageRow) : Type 0 where
    pub valid : IsValid from
    pub after : NotAfter start from
    pub sorted : Sorted table
    pub rows_valid : All IsValidRow table
    pub passed : All (λ r. in_range start end r ≡ true → NotAfter from r.time) table

  advanced : (from : Time) → IsValid from → NotAfter end (advance_marker from end)
  unfolding advance_marker
  advanced from v = elim (Bool-cases (lt from end)) [
    | inl less ↦ rw less (NotAfter_refl end)
    | inr more ↦ rw more (lt-NotAfter from end v end_valid more)
  ]

  abbrev Ends : Option (Time × List StageRow) → List StageRow → Type 0
  Ends o table =
      (f : Time) × (rest : List StageRow) × (o ≡ some (f, rest))
      × NotAfter end f
      × IsRetired start end table rest

  retire_loop-Ends :
      (fuel : ℕ) (from : Time) (table : List StageRow)
      → Round from table
      → length table + 1 < fuel
      → Ends (retire_loop fuel (suc limit) from end table) table
  unfolding retire_loop
  retire_loop-Ends zero from table h f = absurd (omega arith)
  retire_loop-Ends (suc fuel) from table h f = elim (Bool-cases (lt from end)) [
    | inr done_ ↦
        let at_end = lt-NotAfter from end h.valid end_valid done_ in
        (
          advance_marker from end,
          table,
          rw (retire_loop, done_) refl,
          advanced from h.valid,
          record {
            outside = refl;
            cleared = All-map (λ r p q. NotAfter-trans end from r.time at_end (p q)) table h.passed;
          },
        )
    | inl more ↦
        let p = in_range from end in
        let rest : List StageRow = (delete_first (suc limit) p table).0 in
        let kept : filter (λ r. not (in_range start end r)) rest
            ≡ filter (λ r. not (in_range start end r)) table =
          delete_first-filter p (λ r. not (in_range start end r)) (suc limit) table
            (λ r q. ap not (widened from h.after r q)) in
        let passed =
          delete_first-All p (λ r. in_range start end r ≡ true → NotAfter from r.time) (suc limit)
            table h.passed in
        elim (Option-cases (delete_first (suc limit) p table).1) [
          | inl gone ↦
              let none_left = delete_first-none p limit table gone in
              (
                advance_marker from end,
                rest,
                rw (retire_loop, more, gone) refl,
                advanced from h.valid,
                record {
                  outside = kept;
                  cleared =
                      All-zip (λ r miss pass q. absurd (clash from r q pass miss)) rest none_left
                        passed;
                },
              )
          | inr (t, last) ↦
              let ((r, same, hit, valid), bound, less) =
                delete_first-Last p IsValidRow (suc limit) table t h.sorted h.rows_valid last in
              let next : Round t rest = record {
                valid = subst IsValid same valid;
                after =
                    NotAfter-trans start from t h.after
                      (subst (NotAfter from) same ((in_range_iff from end r).0 hit).0);
                sorted = delete_first-Sorted p (suc limit) table h.sorted;
                rows_valid = delete_first-All p IsValidRow (suc limit) table h.rows_valid;
                passed = All-zip (λ r pass after q. after (again from r q pass)) rest passed bound;
              } in
              let (f', rest', e, marker, retired) =
                retire_loop-Ends fuel t rest next (omega arith) in
              (
                f',
                rest',
                rw (retire_loop, more, last) e,
                marker,
                record { outside = retired.outside ∙ kept; cleared = retired.cleared },
              )
        ]
  ]
    where
      widened :
          (from : Time)
          → NotAfter start from
          → (r : StageRow) → in_range from end r ≡ true
          → in_range start end r ≡ true
      widened from a r q =
          let (x, y) = (in_range_iff from end r).0 q in
          (in_range_iff start end r).1 (NotAfter-trans start from r.time a x, y)

      again :
          (from : Time) (r : StageRow)
          → in_range start end r ≡ true
          → (in_range start end r ≡ true → NotAfter from r.time)
          → in_range from end r ≡ true
      again from r q pass = (in_range_iff from end r).1 (pass q, ((in_range_iff start end r).0 q).1)

      clash :
          (from : Time) (r : StageRow)
          → in_range start end r ≡ true
          → (in_range start end r ≡ true → NotAfter from r.time)
          → in_range from end r ≡ false
          → ⊥
      clash from r q pass miss = let hit = again from r q pass in absurd (ground arith)

-- `Retire` ends, for a table in the order of its times and valid timestamps. Then the marker is not before the end, the rows before the old marker and those after the end are as they
-- were, and no row from the old marker on is left before the end. Rows at the time of the end itself can be left, where the limit of the last statement fell
-- among them.
pub retire-IsRetired :
    (start end : Time) (table : List StageRow)
    → IsValid start
    → IsValid end
    → Sorted table
    → All IsValidRow table
    → (f : Time) × (rest : List StageRow) × (retire start end table ≡ some (f, rest))
      × NotAfter end f
      × IsRetired start end table rest
unfolding retire
retire-IsRetired start end table hs he sorted valid =
    retire_loop-Ends 9999 start end he (suc (suc (length table))) start table
      (record {
        valid = hs;
        after = NotAfter_refl start;
        sorted = sorted;
        rows_valid = valid;
        passed = all_passed table;
      })
      (omega arith)
  where
    all_passed :
        (rows : List StageRow) → All (λ r. in_range start end r ≡ true → NotAfter start r.time) rows
    all_passed [] = tt
    all_passed (r ∷ rows) = ((λ q. ((in_range_iff start end r).0 q).0), all_passed rows)
