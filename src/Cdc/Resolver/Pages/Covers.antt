-- ===== src/Cdc/Resolver/Pages/Covers.antt =====
-- internal/source/cdc/resolver.go and resolved_stamp.go: which rows the query takes that begins with a stamp
-- of partial progress.
use cdc_sink_redshift.Common.{
  ℕ, ◌≡◌, inl, inr, refl, sym, subst, Bool, true, false, none, some, List, [], ◌∷◌, ◌++◌, arith,
  length, Bool-cases, All, All-map,
}
use cdc_sink_redshift.Cmap.{Map}
use cdc_sink_redshift.Hlc.{Time, lt}
use cdc_sink_redshift.Ident.{Table, table_empty}
use cdc_sink_redshift.Types.{Mutation}
use cdc_sink_redshift.Staging.{Staged, Cursor, takes, clamp}
use cdc_sink_redshift.Staging.Keys.{Takes, takes_iff}
use cdc_sink_redshift.Cdc.Stamps.{ResolvedStamp, Offset, new_progress}
use cdc_sink_redshift.Cdc.Stamps.Steps.{NotAfter, NotAfter-trans}
use cdc_sink_redshift.Cdc.Resolver.{Config, Event, mutation, cursor_set, query_failed, needs_flush}
use cdc_sink_redshift.Cdc.Resolver.Plan.{
  Row, Plan, finish, batch, broken, plan, plan-quiet, plan-flush,
}
use cdc_sink_redshift.Cdc.Resolver.Windows.{
  rows_in, received, received-mutation, SortedFrom, plan-rows,
}
use cdc_sink_redshift.Cdc.Resolver.Pages.{start_cursor}
use cdc_sink_redshift.Cdc.Resolver.Pages.Ahead.{Fits, Ahead}

plain-takes :
    (q : Cursor) (r : Staged)
    → q.backfill ≡ false
    → q.offset_table ≡ none
    → NotAfter q.offset_time r.mut.time
    → NotAfter r.mut.time q.end
    → takes q r ≡ true
plain-takes q r off no_table lo hi = (takes_iff q r).1 (
    subst (λ b. Takes b q.offset_table q r) (sym off)
      (subst (λ o. Takes false o q r) (sym no_table) (lo, hi)))

-- Clamped or not, the cursor is the same but for its offset, which no row of the window is before.
clamped-takes :
    (q : Cursor) (r : Staged)
    → q.backfill ≡ false
    → q.offset_table ≡ none
    → Fits q.start q.end q.offset_time r.mut.time
    → takes (clamp q) r ≡ true
unfolding clamp
clamped-takes q r off no_table (from, lo, hi) = elim (Bool-cases (lt q.offset_time q.start)) [
  | inl before ↦ rw before (plain-takes (record q { offset_time = q.start }) r off no_table from hi)
  | inr not_before ↦ rw not_before (plain-takes q r off no_table lo hi)
]

module _ {C : Type 0} (eq : C → C → Bool) (mapper : Table → C) (cfg : Config)
    (ids : Map Table C ℕ) where
  -- The query that begins with a stamp takes a mutation, whatever the number of its table.
  abbrev pub Covers : ResolvedStamp → Row → Type 0
  Covers rs y =
      (i : ℕ)
      → takes (clamp (start_cursor eq mapper cfg ids rs)) (record { t = i; mut = y.1 }) ≡ true

  -- The stamp that is saved after a batch covers every row of the batches that follow.
  abbrev pub Resumes : {E : Type 0} → ResolvedStamp → Plan E → Type 0
  Resumes rs (finish acc c) = Unit
  Resumes rs (broken e) = Unit
  Resumes rs (batch acc c p) =
      All (Covers (new_progress rs (some c))) (rows_in p) × Resumes (new_progress rs (some c)) p

module _ (start end : Time) where
  -- A stamp of the window that is not that of a backfill, and so has no offset table.
  pub record Ordinary (rs : ResolvedStamp) : Type 0 where
    pub in_order : rs.backfill ≡ false
    pub no_table : table_empty rs.offset_table ≡ true
    pub at_start : rs.committed_time ≡ start
    pub at_end : rs.proposed_time ≡ end

  progress-Ordinary :
      (rs : ResolvedStamp) (c : Offset) → Ordinary rs → Ordinary (new_progress rs (some c))
  unfolding new_progress
  progress-Ordinary rs c h =
      rw h.in_order (record {
        in_order = refl;
        no_table = h.no_table;
        at_start = h.at_start;
        at_end = h.at_end;
      })

  progress-offset :
      (rs : ResolvedStamp) (c : Offset)
      → Ordinary rs
      → (new_progress rs (some c)).offset_time ≡ c.time
  unfolding new_progress
  progress-offset rs c h = rw h.in_order refl

  -- The rows that are still to come, if none of them is before the row at hand.
  Ahead-rows :
      {E : Type 0} (lo now was : Time) (evs : List (Event E)) (rows : List Row)
      → received evs ≡ some rows
      → NotAfter lo now
      → SortedFrom now evs
      → Ahead start end was evs
      → All (λ (y : Row). Fits start end lo y.1.time) rows
  Ahead-rows lo now was [] rows h n s a =
      let e : [] ≡ rows = ground arith in subst (All (λ (y : Row). Fits start end lo y.1.time)) e tt
  Ahead-rows lo now was (cursor_set c ∷ evs) rows h n s a =
      Ahead-rows lo now c.time evs rows h n s a
  Ahead-rows lo now was (query_failed x ∷ evs) rows h n s a = absurd (ground arith)
  Ahead-rows lo now was (mutation t m ∷ evs) rows h n s a =
      let (rest, r, e) = received-mutation evs t m rows h in
      let up = NotAfter-trans lo now m.time n s.1 in
      subst (All (λ (y : Row). Fits start end lo y.1.time)) (sym e)
        ((a.0.0, up, a.0.2), Ahead-rows lo m.time was evs rest r up s.2 a.1)

  module _ {C : Type 0} (eq : C → C → Bool) (mapper : Table → C) (cfg : Config)
      (ids : Map Table C ℕ) where
    Ordinary-Covers :
        (rs : ResolvedStamp) (y : Row)
        → Ordinary rs
        → Fits start end rs.offset_time y.1.time
        → Covers eq mapper cfg ids rs y
    unfolding start_cursor
    Ordinary-Covers rs y h f i =
        let q = start_cursor eq mapper cfg ids rs in
        let no_table : q.offset_table ≡ none = rw h.no_table refl in
        clamped-takes q (record { t = i; mut = y.1 }) h.in_order no_table
          (subst (λ e. Fits q.start e q.offset_time y.1.time) (sym h.at_end)
            (subst (λ b. Fits b end q.offset_time y.1.time) (sym h.at_start) f))

    batch-Covers :
        {E : Type 0} (rs : ResolvedStamp) (c : Offset) (t : Table) (m : Mutation)
        (evs : List (Event E)) (rows : List Row)
        → Ordinary rs
        → received evs ≡ some rows
        → SortedFrom m.time evs
        → Ahead start end c.time (mutation t m ∷ evs)
        → All (Covers eq mapper cfg ids (new_progress rs (some c))) ((t, m) ∷ rows)
    batch-Covers rs c t m evs rows h r s a =
        let next = new_progress rs (some c) in
        let o = progress-Ordinary rs c h in
        let covers = λ (y : Row) (f : Fits start end c.time y.1.time).
          Ordinary-Covers next y o
            (subst (λ l. Fits start end l y.1.time) (sym (progress-offset rs c h)) f) in
        (
          covers (t, m) a.0,
          All-map covers rows (Ahead-rows c.time m.time c.time evs rows r a.0.1 s a.1),
        )

    pub plan-Resumes :
        {E : Type 0} (rs : ResolvedStamp) (epoch : Time) (acc : List Row) (c : Offset)
        (evs : List (Event E)) (rows : List Row)
        → Ordinary rs
        → received evs ≡ some rows
        → SortedFrom epoch evs
        → Ahead start end c.time evs
        → Resumes eq mapper cfg ids rs (plan cfg false epoch acc c evs)
    unfolding plan
    plan-Resumes rs epoch acc c [] rows h r s a = tt
    plan-Resumes rs epoch acc c (cursor_set d ∷ evs) rows h r s a =
        plan-Resumes rs epoch acc d evs rows h r s a
    plan-Resumes rs epoch acc c (query_failed e ∷ evs) rows h r s a = tt
    plan-Resumes rs epoch acc c (mutation t m ∷ evs) rows h r s a =
        let (rest, k, e) = received-mutation evs t m rows r in
        elim (Bool-cases (needs_flush cfg false (length acc) epoch m.time)) [
          | inr q ↦
              subst (Resumes eq mapper cfg ids rs)
                (sym (plan-quiet cfg false epoch acc c t m evs q))
                (plan-Resumes rs m.time (acc ++ (t, m) ∷ []) c evs rest h k s.2 a.1)
          | inl q ↦
              let next = new_progress rs (some c) in
              subst (Resumes eq mapper cfg ids rs)
                (sym (plan-flush cfg false epoch acc c t m evs q))
                (
                  subst (All (Covers eq mapper cfg ids next))
                      (sym (plan-rows cfg false m.time ((t, m) ∷ []) c evs rest k))
                      (batch-Covers rs c t m evs rest h k s.2 a),
                  plan-Resumes next m.time ((t, m) ∷ []) c evs rest (progress-Ordinary rs c h) k s.2
                      a.1,
                )
        ]
