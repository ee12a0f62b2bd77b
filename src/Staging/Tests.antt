-- ===== src/Staging/Tests.antt =====
-- internal/staging/stage/factory.go: a run over two tables, and the theorems at concrete rows.
use cdc_sink_redshift.Common.{
  zero, suc, Outcome, done, Bytes, ℕ, ◌≡◌, refl, false, Option, none, some, List, [], ◌∷◌, ◌++◌,
  arith,
}
use cdc_sink_redshift.Common.Int.{pos, wrap64, ◌-ℤ◌}
use cdc_sink_redshift.Hlc as Hlc
use cdc_sink_redshift.Hlc.{Time, zero_time}
use cdc_sink_redshift.Sql.{pair_lt, key_lt, tuple_lt}
use cdc_sink_redshift.Staging.{
  Answer, complete, refused, cut_after, rows_read, read_staged, gunzip_row, pass_row, Staged,
  Cursor, takes, filter, move_cursor, clamp, deliver, select_loop, select_many,
}
use cdc_sink_redshift.Staging.Pages.{Sorted}
use cdc_sink_redshift.Staging.Window.{at_row}
use cdc_sink_redshift.Staging.Rows.{row_lt}
use cdc_sink_redshift.Staging.Select.{Delivers, select_many-deliver}

abbrev staged : ℕ → ℕ → ℕ → Staged
staged table time key = record {
  t = table;
  mut = record {
    before = [];
    contents = [];
    key = key ∷ [];
    meta = [];
    time = Hlc.new (pos time) (pos 0);
  };
}

-- In the order of time, table and key; the last row is after the window.
abbrev rows : List Staged
rows = staged 0 4 1 ∷ staged 1 4 1 ∷ staged 0 5 2 ∷ staged 0 9 2 ∷ []

abbrev cursor : Cursor
cursor = record {
  start = Hlc.new (pos 3) (pos 0);
  end = Hlc.new (pos 7) (pos 0);
  limit = 2;
  backfill = false;
  offset_key = [];
  offset_table = none;
  offset_time = zero_time;
}

abbrev log_row : Staged → List Staged → List Staged × Option ℕ
log_row r s = (s ++ r ∷ [], none)

abbrev gunzip : Bytes → Outcome ℕ Bytes
gunzip b = done b

abbrev answers : ℕ → Answer ℕ
answers i = complete

run :
    select_many (λ r. none) gunzip log_row 0 answers rows cursor []
    ≡ some (
      at_row (clamp cursor) (staged 0 5 2),
      staged 0 4 1 ∷ staged 1 4 1 ∷ staged 0 5 2 ∷ [],
      none,
    )
unfolding select_many select_loop takes filter move_cursor clamp deliver pass_row rows_read
    read_staged gunzip_row pair_lt key_lt tuple_lt Hlc.lt Hlc.compare wrap64 ◌-ℤ◌
run = refl

-- The result of the query ends after one row: the other rows are left out, and no error is returned.
cut :
    select_many (λ r. none) gunzip log_row 0 (λ i. cut_after 1) rows cursor []
    ≡ some (at_row (clamp cursor) (staged 0 4 1), staged 0 4 1 ∷ [], none)
unfolding select_many select_loop takes filter move_cursor clamp deliver pass_row rows_read
    read_staged gunzip_row pair_lt key_lt tuple_lt Hlc.lt Hlc.compare wrap64 ◌-ℤ◌
cut = refl

-- The second query is refused.
refused_run :
    select_many
      (λ r. none)
      gunzip
      log_row
      0
      (λ i. elim i [ zero ↦ complete | suc j ↦ refused 7 ])
      rows
      cursor
      []
    ≡ some (at_row (clamp cursor) (staged 1 4 1), staged 0 4 1 ∷ staged 1 4 1 ∷ [], some 7)
unfolding select_many select_loop takes filter move_cursor clamp deliver pass_row rows_read
    read_staged gunzip_row pair_lt key_lt tuple_lt Hlc.lt Hlc.compare wrap64 ◌-ℤ◌
refused_run = refl

rows-Sorted : Sorted (row_lt false) rows
unfolding row_lt pair_lt key_lt
rows-Sorted = ((refl, (refl, (refl, tt))), ((refl, (refl, tt)), ((refl, tt), (tt, tt))))

select_many-deliver_example :
    Delivers
      (λ r. none)
      gunzip
      log_row
      (filter (takes (clamp cursor)) rows)
      []
      (select_many (λ r. none) gunzip log_row 0 answers rows cursor [])
select_many-deliver_example =
    select_many-deliver (λ r. none) gunzip log_row 0 answers rows cursor [] (omega arith)
      rows-Sorted (λ i. refl)

abbrev resumed : Cursor
resumed = record cursor {
  offset_key = 1 ∷ [];
  offset_table = some 0;
  offset_time = Hlc.new (pos 4) (pos 0);
}
