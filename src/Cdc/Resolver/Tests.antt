-- ===== src/Cdc/Resolver/Tests.antt =====
-- internal/source/cdc/resolver.go: a run of `process` over a sink that keeps a log, and the theorems at
-- concrete events. Tables are told apart by the length of their names.
use cdc_sink_redshift.Common.{
  ℕ, ◌≡◌, Bool, false, ◌==◌, ==_iff, none, some, List, [], ◌∷◌, ◌++◌, if◌then◌else◌, is_empty,
  length, failed,
}
use cdc_sink_redshift.Common.Int.{pos}
use cdc_sink_redshift.Hlc as Hlc
use cdc_sink_redshift.Hlc.{Time, zero_time, IsValid}
use cdc_sink_redshift.Ident.{Table, raw, table_of, new}
use cdc_sink_redshift.Types.{Mutation}
use cdc_sink_redshift.Cdc.Stamps.{ResolvedStamp, zero_stamp, Offset, StampError}
use cdc_sink_redshift.Cdc.Resolver.{Config, Event, mutation, cursor_set, Sink, process}
use cdc_sink_redshift.Cdc.Resolver.Plan.{plan, perform}
use cdc_sink_redshift.Cdc.Resolver.Refines.{start_of, process-plan}

-- What the sink was asked to do: a table with a number of mutations, or a saved stamp.
pub data Effect : Type 0 where
  data_of : Table → ℕ → Effect
  saved : ResolvedStamp → Effect

abbrev pub log_sink : Sink (List Effect) StampError
log_sink = record {
  on_begin = λ s. (s, none);
  on_data = λ t ms s. (s ++ data_of t (length ms) ∷ [], none);
  on_commit = λ s. (s, none);
  on_rollback = λ s. s;
  record_time = λ t s. (s, none);
  set_consistent_point = λ r s. (s ++ saved r ∷ [], none);
  no_tables = StampError.no_proposed;
  stamp_error = λ e. e;
}

abbrev pub name_length : Table → ℕ
name_length t = length (raw (table_of t))

abbrev pub eq : ℕ → ℕ → Bool
eq a b = a == b

abbrev pub parent : Table
parent = some (none, new (b'p' ∷ []))

abbrev pub child : Table
child = some (none, new (b'c' ∷ b'h' ∷ []))

abbrev pub mut_at : ℕ → Mutation
mut_at n = record {
  before = [];
  contents = [];
  key = n ∷ [];
  meta = [];
  time = Hlc.new (pos n) (pos 0);
}

abbrev pub config : Config
config = record { ideal_flush_batch_size = 2; flush_every_timestamp = false; select_batch_size = 2 }

abbrev pub start : ResolvedStamp
start = record zero_stamp { proposed_time = Hlc.new (pos 9) (pos 0) }

abbrev pub page : Offset
page = record { key = 5 ∷ []; table = parent; time = Hlc.new (pos 5) (pos 0) }

abbrev events : List (Event StampError)
events =
    mutation child (mut_at 4)
    ∷ mutation parent (mut_at 5)
    ∷ cursor_set page
    ∷ mutation child (mut_at 5)
    ∷ mutation child (mut_at 6)
    ∷ []

abbrev pub targets : List (List Table)
targets = (parent ∷ []) ∷ (child ∷ []) ∷ []

process-plan_example : process eq name_length log_sink config targets start events [] ≡ (
    if is_empty targets
    then ([], failed log_sink.no_tables)
    else perform eq ==_iff name_length log_sink config targets
        (plan config start.backfill zero_time [] (start_of start) events)
        start
        [])
process-plan_example = process-plan eq ==_iff name_length log_sink config targets start events []
