-- ===== src/Cdc/Resolver/Pages/Whole.antt =====
-- internal/source/cdc/resolver.go and internal/staging/stage/factory.go: which staged rows the batches of
-- `process` hold, from the table of the staged rows to the sinks.
use cdc_sink_redshift.Common.{
  ℕ, suc, ◌≡◌, ◌↔◌, ◌⊎◌, ◌<◌, inl, inr, refl, sym, ap, subst, ◌∙◌, Bool, true, false, Option, none,
  some, List, [], ◌∷◌, map, arith, length, ◌==◌, All, All-map, failed, is_empty, Bool-cases,
  if◌then◌else◌,
}
use cdc_sink_redshift.Cmap.{Map}
use cdc_sink_redshift.Hlc.{Time, zero_time, IsValid}
use cdc_sink_redshift.Ident.{Table}
use cdc_sink_redshift.Staging.{Staged, Cursor, takes, filter, clamp}
use cdc_sink_redshift.Staging.Pages.{Sorted, filter-Sorted, All-filter}
use cdc_sink_redshift.Staging.Rows.{row_lt, row_lt_iff}
use cdc_sink_redshift.Staging.Window.{TimeBefore-NotAfter}
use cdc_sink_redshift.Staging.Select.{length-filter, clamp-keeps, Complete}
use cdc_sink_redshift.Cdc.Stamps.{ResolvedStamp, Offset}
use cdc_sink_redshift.Cdc.Stamps.Steps.{NotAfter}
use cdc_sink_redshift.Cdc.Resolver.{
  Config, Event, mutation, cursor_set, query_failed, Sink, flatten,
}
use cdc_sink_redshift.Cdc.Resolver.Plan.{Row, Plan, plan, perform}
use cdc_sink_redshift.Cdc.Resolver.Refines.{start_of, process-plan}
use cdc_sink_redshift.Cdc.Resolver.Windows.{
  rows_in, received, received-mutation, SortedFrom, Apart, plan-received, plan-transactions,
}
use cdc_sink_redshift.Cdc.Resolver.Pages.{
  select_events, number_tables, start_cursor, staged_events, process_staged,
}
use cdc_sink_redshift.Cdc.Resolver.Pages.Received.{named, IsRead, select_events-Brings}
use cdc_sink_redshift.Cdc.Resolver.Pages.{Database}

-- A staged row with a valid time.
abbrev pub Timed : Staged → Type 0
Timed r = IsValid r.mut.time

-- The times of the rows are valid, and none is before the one that precedes it.
abbrev RowsFrom : Time → List Row → Type 0
RowsFrom e [] = Unit
RowsFrom e (r ∷ rs) = IsValid r.1.time × NotAfter e r.1.time × RowsFrom r.1.time rs

received-SortedFrom :
    {E : Type 0} (e : Time) (evs : List (Event E)) (rows : List Row)
    → received evs ≡ some rows
    → RowsFrom e rows
    → SortedFrom e evs
received-SortedFrom e [] rows h k = tt
received-SortedFrom e (cursor_set c ∷ evs) rows h k = received-SortedFrom e evs rows h k
received-SortedFrom e (query_failed x ∷ evs) rows h k = tt
received-SortedFrom e (mutation t m ∷ evs) rows h k =
    let (rest, r, q) = received-mutation evs t m rows h in
    let (v, n, more) = subst (RowsFrom e) q k in (v, n, received-SortedFrom m.time evs rest r more)

row_lt-NotAfter : (x y : Staged) → row_lt false x y ≡ true → NotAfter x.mut.time y.mut.time
row_lt-NotAfter x y h = TimeBefore-NotAfter x.t x.mut.time x.mut.key y ((row_lt_iff false x y).0 h)

-- Outside a backfill the query is in the order of the times.
Sorted-RowsFrom :
    {E : Type 0} (tables : List Table) (db : Database E) (e : Time) (xs : List Staged)
    → Sorted (row_lt false) xs
    → All Timed xs
    → All (λ (r : Staged). NotAfter e r.mut.time) xs
    → RowsFrom e (map (named tables db) xs)
Sorted-RowsFrom tables db e [] s v h = tt
Sorted-RowsFrom tables db e (x ∷ xs) s v h = (
  v.0,
  h.0,
  Sorted-RowsFrom tables db x.mut.time xs s.1 v.1 (All-map (λ y. row_lt-NotAfter x y) xs s.0),
)

valid-NotAfter : (t : Time) → IsValid t → NotAfter zero_time t
valid-NotAfter t v (inl p) = absurd (omega (arith, p, v.nanos_nonneg))
valid-NotAfter t v (inr (e, p)) = absurd (omega (arith, p, v.logical_nonneg))

module _ {C S E : Type 0} (eq : C → C → Bool) (eq_iff : (a b : C) → (eq a b ≡ true) ↔ (a ≡ b))
    (mapper : Table → C) (sink : Sink S E) (cfg : Config) (targets : List (List Table))
    (no_limit duplicate_table : E) (db : Database E) where
  -- The rows that `SelectMany` takes for a stamp, under the names of their tables.
  abbrev pub taken_rows : Map Table C ℕ → ResolvedStamp → List Staged → List Row
  taken_rows ids rs rows =
      map (named (flatten targets) db)
        (filter (takes (clamp (start_cursor eq mapper cfg ids rs))) rows)

  -- The events of the loop after the offset that `SelectMany` clamps.
  abbrev pub started : Offset → Option (List (Event E)) → Option (List (Event E))
  started c none = none
  started c (some evs) = some (cursor_set c ∷ evs)

  abbrev pub clamped : Map Table C ℕ → ResolvedStamp → Cursor
  clamped ids rs = clamp (start_cursor eq mapper cfg ids rs)

  pub staged_events-started :
      (rs : ResolvedStamp) (rows : List Staged) (ids : Map Table C ℕ)
      → 0 < cfg.select_batch_size
      → number_tables eq mapper (flatten targets) [] ≡ some ids
      → staged_events eq mapper sink cfg targets no_limit duplicate_table db rs rows
        ≡ started
            (record {
              key = rs.offset_key;
              table = rs.offset_table;
              time = (clamped ids rs).offset_time;
            })
            (select_events (flatten targets) db (suc (length rows)) rows (clamped ids rs))
  unfolding staged_events
  staged_events-started rs rows ids p known =
      let no : (cfg.select_batch_size == 0) ≡ false = ground (arith, p) in
      rw (no, known)
        (go _ (select_events (flatten targets) db (suc (length rows)) rows (clamped ids rs)))
    where
      go :
          (c : Offset) (r : Option (List (Event E)))
          → (elim r [ none ↦ none | some evs ↦ some (cursor_set c ∷ evs) ]) ≡ started c r
      go c none = refl
      go c (some evs) = refl

  -- The events of `SelectMany`: its loop ends, and they bring the window.
  pub staged_events-received :
      (rs : ResolvedStamp) (rows : List Staged) (ids : Map Table C ℕ)
      → 0 < cfg.select_batch_size
      → number_tables eq mapper (flatten targets) [] ≡ some ids
      → Sorted (row_lt rs.backfill) rows
      → Complete db.answers
      → All (IsRead db) rows
      → (evs : List (Event E)) × (staged_events eq mapper sink cfg targets no_limit duplicate_table
            db rs rows
          ≡ some evs)
        × (received evs ≡ some (taken_rows ids rs rows))
  unfolding start_cursor
  staged_events-received rs rows ids p known sorted ok g =
      let q = clamped ids rs in
      let (same, mode) = clamp-keeps (start_cursor eq mapper cfg ids rs) in
      let (evs, e, h) =
        select_events-Brings {E = E} (flatten targets) (suc (length rows)) rows db ok g q
          (omega (arith, same, p)) (subst (λ b. Sorted (row_lt b) rows) (sym mode) sorted)
          (omega (arith, length-filter (takes q) rows)) in
      let start : Offset = record {
        key = rs.offset_key;
        table = rs.offset_table;
        time = q.offset_time;
      } in
      (cursor_set start ∷ evs, staged_events-started rs rows ids p known ∙ ap (started start) e, h)

  -- Outside a backfill the events bring the window in the order of the times.
  pub taken_rows-SortedFrom :
      (rs : ResolvedStamp) (rows : List Staged) (ids : Map Table C ℕ) (evs : List (Event E))
      → rs.backfill ≡ false
      → Sorted (row_lt rs.backfill) rows
      → All Timed rows
      → received evs ≡ some (taken_rows ids rs rows)
      → SortedFrom zero_time evs
  taken_rows-SortedFrom rs rows ids evs off sorted valid h =
      let taken = takes (clamped ids rs) in
      let timed = All-filter Timed taken rows valid in
      let ordered =
        filter-Sorted (row_lt false) taken rows (subst (λ b. Sorted (row_lt b) rows) off sorted) in
      received-SortedFrom zero_time evs (taken_rows ids rs rows) h (
        Sorted-RowsFrom (flatten targets) db zero_time (filter taken rows) ordered timed
          (All-map (λ r v. valid-NotAfter r.mut.time v) (filter taken rows) timed))

  -- With a positive limit, no table named twice, rows with valid times in the order of the query, a
  -- database that refuses no query and lets every result be read to its end, and rows that are scanned
  -- and decompressed without an error: `process` with its `SelectMany` ends. It refuses a schema without
  -- tables; otherwise it flushes the batches of a plan one after another up to the first error, whatever
  -- the limit of a page. These batches together hold every staged row that the query of the stamp takes,
  -- decompressed, once and in the order of the query; and unless the stamp is that of a backfill, every
  -- row of a batch has an earlier time than every row of the batches that follow.
  pub process_staged-whole :
      (rs : ResolvedStamp) (rows : List Staged) (ids : Map Table C ℕ) (s : S)
      → 0 < cfg.select_batch_size
      → number_tables eq mapper (flatten targets) [] ≡ some ids
      → Sorted (row_lt rs.backfill) rows
      → Complete db.answers
      → All (IsRead db) rows
      → All Timed rows
      → (p : Plan E) × (process_staged eq mapper sink cfg targets no_limit duplicate_table db rs
            rows s
          ≡ some (
              if is_empty targets
              then (s, failed sink.no_tables)
              else perform eq eq_iff mapper sink cfg targets p rs s))
        × (rows_in p ≡ taken_rows ids rs rows)
        × ((rs.backfill ≡ true) ⊎ Apart p)
  unfolding process_staged
  process_staged-whole rs rows ids s positive known sorted ok g valid =
      let (evs, e, h) = staged_events-received rs rows ids positive known sorted ok g in
      (
        plan cfg rs.backfill zero_time [] (start_of rs) evs,
        rw (process_staged, e) (ap some (process-plan eq eq_iff mapper sink cfg targets rs evs s)),
        plan-received cfg rs.backfill (start_of rs) evs (taken_rows ids rs rows) h,
        elim (Bool-cases rs.backfill) [
          | inl on ↦ inl on
          | inr off ↦ inr (
              subst (λ b. Apart (plan cfg b zero_time [] (start_of rs) evs)) (sym off)
                (plan-transactions cfg (start_of rs) evs
                  (taken_rows-SortedFrom rs rows ids evs off sorted valid h)))
        ],
      )
