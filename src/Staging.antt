-- ===== src/Staging.antt =====
-- internal/staging/stage/factory.go: `SelectMany`, which reads the staged mutations of many tables page by
-- page. A table is its place in the targets; the rows of all tables are one list in the order of the
-- outer ORDER BY, which also gives the first rows of every inner query in their order.
pub mod Stage
pub mod Memo
pub mod Version
pub mod Pages
pub mod Keys
pub mod Window
pub mod Rows
pub mod Select
mod Tests
use cdc_sink_redshift.Common.{
  ℕ, zero, suc, Bool, true, false, not, ◌&&◌, Option, none, some, List, [], ◌∷◌, if◌then◌else◌, ltb,
  Outcome, done, failed, ◌==◌, length, take, Bytes,
}
use cdc_sink_redshift.Sql.{pair_lt, tuple_lt}
use cdc_sink_redshift.Hlc.{Time, lt, zero_time}
use cdc_sink_redshift.Types.{Mutation}

-- A row of the query, as it is stored until it is decompressed.
pub record Staged : Type 0 where
  pub t : ℕ
  pub mut : Mutation

-- `SelectManyCursor`, with the offset table by its number, if it is set.
pub record Cursor : Type 0 where
  pub start : Time
  pub end : Time
  pub limit : ℕ
  pub backfill : Bool
  pub offset_key : Bytes
  pub offset_table : Option ℕ
  pub offset_time : Time

-- The WHERE clause of the query of a row's table, by whether the offset lies in that table, in an
-- earlier or in a later one; without an offset every table counts as a later one. A backfill leaves out
-- the tables before the offset.
unfoldable pub takes : Cursor → Staged → Bool
takes q r =
    let in_end = not (pair_lt q.end r.mut.time) in
    let resumes = tuple_lt q.offset_time q.offset_key r.mut.time r.mut.key && in_end in
    let from_start = not (pair_lt r.mut.time q.start) && in_end in
    let from_offset = not (pair_lt r.mut.time q.offset_time) && in_end in
    let after_offset = pair_lt q.offset_time r.mut.time && in_end in
    elim q.offset_table [
      | none ↦ if q.backfill then from_start else from_offset
      | some i ↦
          if r.t == i
          then resumes
          else if q.backfill
          then (if ltb r.t i then false else from_start)
          else if ltb r.t i
          then after_offset
          else from_offset
    ]

-- The rows that a test takes.
unfoldable pub filter {ℓ} : {A : Type ℓ} → (A → Bool) → List A → List A
filter p [] = []
filter p (x ∷ xs) = let rest = filter p xs in if p x then x ∷ rest else rest

-- `lastMut` and `lastTable` put into the cursor; they are zero values after an empty page.
unfoldable pub move_cursor : Cursor → List Staged → Cursor
move_cursor q [] = record q { offset_key = []; offset_table = none; offset_time = zero_time }
move_cursor q (r ∷ []) = record q {
  offset_key = r.mut.key;
  offset_table = some r.t;
  offset_time = r.mut.time;
}
move_cursor q (r ∷ s ∷ rs) = move_cursor q (s ∷ rs)

-- Ensure offset >= start.
unfoldable pub clamp : Cursor → Cursor
clamp q = if lt q.offset_time q.start then record q { offset_time = q.start } else q

-- What the database does in one round: it refuses the query, or it returns the rows of the page, all of
-- them or, when reading fails, only the first ones. In the last case `rows.Next` returns false, and
-- `rows.Err` is not asked.
pub data Answer (E : Type 0) : Type 0 where
  complete : Answer E
  refused : E → Answer E
  cut_after : ℕ → Answer E

-- The rows for which `rows.Next` returns true.
unfoldable pub rows_read : {E : Type 0} → Answer E → List Staged → Outcome E (List Staged)
rows_read complete page = done page
rows_read (refused e) page = failed e
rows_read (cut_after n) page = done (take n page)

-- The parts of a row that are decompressed, `Before` first; `maybeGunzip` is a parameter.
unfoldable pub gunzip_row : {E : Type 0} → (Bytes → Outcome E Bytes) → Staged → Outcome E Staged
gunzip_row gunzip r = elim (gunzip r.mut.before) [
  | failed e ↦ failed e
  | done before ↦ elim (gunzip r.mut.contents) [
    | failed e ↦ failed e
    | done contents ↦
        done (record r { mut = record r.mut { before = before; contents = contents } })
  ]
]

-- What is read of a row: `rows.Scan`, with the error that it has for the row, and `maybeGunzip` twice.
unfoldable pub read_staged :
    {E : Type 0} → (Staged → Option E) → (Bytes → Outcome E Bytes) → Staged → Outcome E Staged
read_staged scan gunzip r = elim (scan r) [ some e ↦ failed e | none ↦ gunzip_row gunzip r ]

module _ {S E : Type 0} (scan : Staged → Option E) (gunzip : Bytes → Outcome E Bytes)
    (fn : Staged → S → S × Option E) where
  -- The body of the loop over the rows of a page.
  unfoldable pub pass_row : Staged → S → S × Option E
  pass_row r s = elim (read_staged scan gunzip r) [ failed e ↦ (s, some e) | done r' ↦ fn r' s ]

  -- The loop over the rows of a page, up to the first error.
  unfoldable pub deliver : List Staged → S → S × Option E
  deliver [] s = (s, none)
  deliver (r ∷ rs) s =
      let (s', err) = pass_row r s in elim err [ some e ↦ (s', some e) | none ↦ deliver rs s' ]

  -- The loop over the pages, with an answer of the database for every round; `none` means that the fuel
  -- ran out. The cursor is moved only after a page that was delivered.
  unfoldable pub select_loop :
      (ℕ → Answer E) → ℕ → List Staged → Cursor → S → Option (Cursor × S × Option E)
  select_loop answers zero rows q s = none
  select_loop answers (suc fuel) rows q s =
      elim (rows_read (answers 0) (take q.limit (filter (takes q) rows))) [
        | failed e ↦ some (q, s, some e)
        | done page ↦
            let (s', err) = deliver page s in
            elim err [
              | some e ↦ some (q, s', some e)
              | none ↦ elim (ltb (length page) q.limit) [
                | true ↦ some (move_cursor q page, s', none)
                | false ↦ select_loop (λ i. answers (suc i)) fuel rows (move_cursor q page) s'
              ]
            ]
      ]

  -- `SelectMany`, with the error of a limit that is not set; every full page holds a row that was not
  -- read before, so one round more than there are rows is enough.
  unfoldable pub select_many :
      E → (ℕ → Answer E) → List Staged → Cursor → S → Option (Cursor × S × Option E)
  select_many no_limit answers rows q s =
      if q.limit == 0
      then some (q, s, some no_limit)
      else select_loop answers (suc (length rows)) rows (clamp q) s
