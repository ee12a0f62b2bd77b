-- ===== src/Cdc/Resolver/Pages/Tests.antt =====
-- internal/source/cdc/resolver.go and internal/staging/stage/factory.go: a run of `process` on staged rows,
-- and the theorems at these rows.
use cdc_sink_redshift.Common.{
  Outcome, Bytes, none, ℕ, ◌<◌, ◌≡◌, ◌⊎◌, refl, true, false, All, done, ==_iff, some, List, [], ◌∷◌,
  if◌then◌else◌, is_empty, failed, arith,
}
use cdc_sink_redshift.Common.Int.{pos, wrap64, ◌-ℤ◌}
use cdc_sink_redshift.Hlc as Hlc
use cdc_sink_redshift.Hlc.{Time, zero_time, IsValid}
use cdc_sink_redshift.Ident.{Table, raw, table_of, table_empty}
use cdc_sink_redshift.Cmap as Cmap
use cdc_sink_redshift.Cmap.{Map}
use cdc_sink_redshift.Sql.{pair_lt, key_lt, tuple_lt}
use cdc_sink_redshift.Staging.{
  Staged, complete, cut_after, rows_read, read_staged, gunzip_row, takes, filter, move_cursor,
  clamp,
}
use cdc_sink_redshift.Staging.Pages.{Sorted}
use cdc_sink_redshift.Staging.Rows.{row_lt}
use cdc_sink_redshift.Script.{add_meta}
use cdc_sink_redshift.Cdc.Stamps.{
  ResolvedStamp, zero_stamp, StampError, new_committed, new_progress,
}
use cdc_sink_redshift.Cdc.Resolver.{
  flatten, process, receive_all, receive, flush, flush_tables, save_stamp, and_then, accumulate,
  after_flush, flushed, clear, lookup, needs_flush,
}
use cdc_sink_redshift.Cdc.Resolver.Pages.{
  number_tables, process_staged, staged_events, select_events, page_events, start_cursor, table_at,
}
use cdc_sink_redshift.Cdc.Resolver.Pages.Whole.{Timed, taken_rows, process_staged-whole}
use cdc_sink_redshift.Cdc.Resolver.Plan.{Plan, perform}
use cdc_sink_redshift.Cdc.Resolver.Windows.{rows_in, Apart}
use cdc_sink_redshift.Cdc.Resolver.Tests.{
  Effect, data_of, saved, log_sink, name_length, eq, parent, child, mut_at, config, start, page,
  targets,
}
use cdc_sink_redshift.Cdc.Resolver.Pages.{Database}
use cdc_sink_redshift.Cdc.Resolver.Pages.Received.{IsRead}
use cdc_sink_redshift.Cdc.Resolver.Pages.Commits.{NeverFails, committed_at, process_staged-commits}
use cdc_sink_redshift.Cdc.Resolver.Pages.Covers.{Resumes}

at-IsValid : (n : ℕ) → n < 11 → IsValid (Hlc.new (pos n) (pos 0))
at-IsValid n h = record {
  nanos_range = omega arith;
  logical_range = omega arith;
  nanos_nonneg = omega arith;
  logical_nonneg = omega arith;
}

-- The same mutations as they are staged, and one after the proposed time.
abbrev staged_rows : List Staged
staged_rows =
    record { t = 1; mut = mut_at 4 }
    ∷ record { t = 0; mut = mut_at 5 }
    ∷ record { t = 1; mut = mut_at 5 }
    ∷ record { t = 1; mut = mut_at 6 }
    ∷ record { t = 1; mut = mut_at 10 }
    ∷ []

abbrev ids : Map Table ℕ ℕ
ids = (1, record { key = parent; value = 0 }) ∷ (2, record { key = child; value = 1 }) ∷ []

ids-known : number_tables eq name_length (flatten targets) [] ≡ some ids
unfolding number_tables flatten Cmap.get Cmap.match_key Cmap.fetch Cmap.put Cmap.store Cmap.len raw
    table_of
ids-known = refl

staged_rows-Sorted : Sorted (row_lt false) staged_rows
unfolding row_lt pair_lt key_lt
staged_rows-Sorted = (
  (refl, (refl, (refl, (refl, tt)))),
  ((refl, (refl, (refl, tt))), ((refl, (refl, tt)), ((refl, tt), (tt, tt)))),
)

-- Nothing fails, and the decompression changes the data.
abbrev gunzip : Bytes → Outcome StampError Bytes
gunzip b = done (0 ∷ b)

abbrev db : Database StampError
db = record { answers = λ i. complete; scan = λ r. none; gunzip = gunzip }

staged_rows-IsRead : All (IsRead db) staged_rows
unfolding read_staged gunzip_row
staged_rows-IsRead = (refl, (refl, (refl, (refl, (refl, tt)))))

-- The result of the first query ends after one row, and the window is
-- committed all the same.
abbrev cut_db : Database StampError
cut_db = record db { answers = λ i. cut_after 1 }

staged_rows-Timed : All Timed staged_rows
staged_rows-Timed = (
  at-IsValid 4 (omega arith),
  (
    at-IsValid 5 (omega arith),
    (at-IsValid 5 (omega arith), (at-IsValid 6 (omega arith), (at-IsValid 10 (omega arith), tt))),
  ),
)

abbrev committed : ResolvedStamp
committed = record zero_stamp { committed_time = Hlc.new (pos 9) (pos 0) }

run :
    process_staged eq name_length log_sink config targets StampError.no_proposed
      StampError.no_proposed db start staged_rows []
    ≡ some (
      data_of parent 1
          ∷ data_of child 2
          ∷ saved (new_progress start (some page))
          ∷ data_of child 1
          ∷ saved committed
          ∷ [],
      done committed,
    )
unfolding process_staged staged_events select_events page_events start_cursor number_tables flatten
    Cmap.get Cmap.get_zero Cmap.match_key Cmap.fetch Cmap.put Cmap.store Cmap.len raw table_of
    process receive_all receive flush flush_tables save_stamp and_then accumulate after_flush
    flushed clear lookup needs_flush add_meta table_at table_empty rows_read read_staged gunzip_row
    takes filter move_cursor clamp pair_lt key_lt tuple_lt Hlc.lt Hlc.gt Hlc.compare wrap64 ◌-ℤ◌
    new_committed new_progress
run = refl

cut :
    process_staged eq name_length log_sink config targets StampError.no_proposed
      StampError.no_proposed cut_db start staged_rows []
    ≡ some (data_of child 1 ∷ saved committed ∷ [], done committed)
unfolding process_staged staged_events select_events page_events start_cursor number_tables flatten
    Cmap.get Cmap.get_zero Cmap.match_key Cmap.fetch Cmap.put Cmap.store Cmap.len raw table_of
    process receive_all receive flush flush_tables save_stamp and_then accumulate after_flush
    flushed clear lookup needs_flush add_meta table_at table_empty rows_read read_staged gunzip_row
    takes filter move_cursor clamp pair_lt key_lt tuple_lt Hlc.lt Hlc.gt Hlc.compare wrap64 ◌-ℤ◌
    new_committed new_progress
cut = refl

process_staged-whole_example :
    (p : Plan StampError) × (process_staged eq name_length log_sink config targets
        StampError.no_proposed StampError.no_proposed db start staged_rows []
      ≡ some (
          if is_empty targets
          then ([], failed log_sink.no_tables)
          else perform eq ==_iff name_length log_sink config targets p start []))
    × (rows_in p
        ≡ taken_rows eq ==_iff name_length log_sink config targets StampError.no_proposed
            StampError.no_proposed db ids start staged_rows)
    × ((start.backfill ≡ true) ⊎ Apart p)
process_staged-whole_example =
    process_staged-whole eq ==_iff name_length log_sink config targets StampError.no_proposed
      StampError.no_proposed db start staged_rows ids [] (omega arith) ids-known staged_rows-Sorted
      (λ i. refl) staged_rows-IsRead staged_rows-Timed

log_sink-NeverFails : NeverFails log_sink
log_sink-NeverFails = record {
  begins = λ s. refl;
  applies = λ t ms s. refl;
  commits = λ s. refl;
  records = λ t s. refl;
  saves = λ rs s. refl;
}

process_staged-commits_example :
    (s' : List Effect) × (process_staged eq name_length log_sink config targets
        StampError.no_proposed StampError.no_proposed db start staged_rows []
      ≡ some (s', done (committed_at start.proposed_time)))
process_staged-commits_example =
    process_staged-commits log_sink log_sink-NeverFails eq ==_iff name_length config targets
      StampError.no_proposed StampError.no_proposed db start staged_rows ids [] refl (omega arith)
      ids-known staged_rows-Sorted (λ i. refl) staged_rows-IsRead refl
