-- ===== src/Cdc/Resolver/Pages.antt =====
-- internal/source/cdc/resolver.go and internal/staging/stage/factory.go: `process` together with the
-- `SelectMany` that it calls. The loop over the pages is written as the row of its events, since the
-- callback reads the cursor that the loop moves.
pub mod Received
pub mod Whole
pub mod Commits
pub mod Ahead
pub mod Covers
pub mod Resumes
mod Tests
use cdc_sink_redshift.Common.{
  ℕ, zero, suc, Bool, true, false, Option, none, some, List, [], ◌∷◌, ◌++◌, if◌then◌else◌, ltb,
  ◌==◌, length, take, get_elem?, Outcome, done, failed, Bytes,
}
use cdc_sink_redshift.Cmap as Cmap
use cdc_sink_redshift.Cmap.{Map}
use cdc_sink_redshift.Ident.{Table, table_empty}
use cdc_sink_redshift.Staging.{
  Staged, Cursor, takes, filter, move_cursor, clamp, Answer, rows_read, read_staged,
}
use cdc_sink_redshift.Cdc.Stamps.{ResolvedStamp, Offset}
use cdc_sink_redshift.Cdc.Resolver.{
  Config, Event, mutation, cursor_set, query_failed, Sink, flatten, process,
}

-- `idsToTables`, of a number that was given to a table.
unfoldable pub table_at : List Table → ℕ → Table
table_at tables i = elim (get_elem? tables i) [ none ↦ none | some t ↦ t ]

-- The offsets of the cursor, whose table is told by its name.
abbrev pub offset_of : List Table → Cursor → Offset
offset_of tables q = record {
  key = q.offset_key;
  table = elim q.offset_table [ none ↦ none | some i ↦ table_at tables i ];
  time = q.offset_time;
}

-- What the database and the gzip package do during a call of `SelectMany`: the answer to the query of
-- every round, the error that a row has when it is scanned, and `maybeGunzip`.
pub record Database (E : Type 0) : Type 0 where
  pub answers : ℕ → Answer E
  pub scan : Staged → Option E
  pub gunzip : Bytes → Outcome E Bytes

-- The database from the next round on.
abbrev pub next_round : {E : Type 0} → Database E → Database E
next_round db = record db { answers = λ i. db.answers (suc i) }

-- What the loop over the pages does, up to an error of the callback; `none` means that the fuel ran out.
module _ {E : Type 0} (tables : List Table) where
  -- The calls of the callback on the rows of a page, and what follows them unless a row cannot be read.
  unfoldable pub page_events : Database E → List Staged → List (Event E) → List (Event E)
  page_events db [] evs = evs
  page_events db (r ∷ rs) evs =
      let rest = page_events db rs evs in
      elim (read_staged db.scan db.gunzip r) [
        | failed e ↦ query_failed e ∷ []
        | done r' ↦ mutation (table_at tables r'.t) r'.mut ∷ rest
      ]

  unfoldable pub select_events : Database E → ℕ → List Staged → Cursor → Option (List (Event E))
  select_events db zero rows q = none
  select_events db (suc fuel) rows q =
      elim (rows_read (db.answers 0) (take q.limit (filter (takes q) rows))) [
        | failed e ↦ some (query_failed e ∷ [])
        | done page ↦
            let q' = move_cursor q page in
            let rest = select_events (next_round db) fuel rows q' in
            if ltb (length page) q.limit
            then some (page_events db page (cursor_set (offset_of tables q') ∷ []))
            else elim rest [
              | none ↦ none
              | some evs ↦ some (page_events db page (cursor_set (offset_of tables q') ∷ evs))
            ]
      ]

module _ {C : Type 0} (eq : C → C → Bool) (mapper : Table → C) where
  -- The loops that number the tables, where `none` is the error of a table that comes twice.
  unfoldable pub number_tables : List Table → Map Table C ℕ → Option (Map Table C ℕ)
  number_tables [] ids = some ids
  number_tables (t ∷ ts) ids = elim (Cmap.get eq mapper ids t) [
    | some i ↦ none
    | none ↦ number_tables ts (Cmap.put eq mapper ids t (Cmap.len ids))
  ]

  -- The cursor that `process` makes, with the offset table by the number that `SelectMany` gives it.
  unfoldable pub start_cursor : Config → Map Table C ℕ → ResolvedStamp → Cursor
  start_cursor cfg ids rs = record {
    start = rs.committed_time;
    end = rs.proposed_time;
    limit = cfg.select_batch_size;
    backfill = rs.backfill;
    offset_key = rs.offset_key;
    offset_table =
        if table_empty rs.offset_table
        then none
        else some (Cmap.get_zero eq mapper 0 ids rs.offset_table);
    offset_time = rs.offset_time;
  }

  module _ {S E : Type 0} (sink : Sink S E) (cfg : Config) (targets : List (List Table))
      (no_limit duplicate_table : E) (db : Database E) where
    -- The events of `SelectMany` on the staged rows: the clamped offset, and then the pages.
    unfoldable pub staged_events : ResolvedStamp → List Staged → Option (List (Event E))
    staged_events rs rows =
        if cfg.select_batch_size == 0
        then some (query_failed no_limit ∷ [])
        else elim (number_tables (flatten targets) []) [
          | none ↦ some (query_failed duplicate_table ∷ [])
          | some ids ↦
              let q = clamp (start_cursor cfg ids rs) in
              let start : Offset = record {
                key = rs.offset_key;
                table = rs.offset_table;
                time = q.offset_time;
              } in
              elim (select_events (flatten targets) db (suc (length rows)) rows q) [
                | none ↦ none
                | some evs ↦ some (cursor_set start ∷ evs)
              ]
        ]

    -- `process` on the staged rows.
    unfoldable pub process_staged :
        ResolvedStamp → List Staged → S → Option (S × Outcome E ResolvedStamp)
    process_staged rs rows s = elim (staged_events rs rows) [
      | none ↦ none
      | some evs ↦ some (process eq mapper sink cfg targets rs evs s)
    ]
