-- ===== src/Logical/Ordered/Tests.antt =====
-- internal/source/logical/ordered_events.go: the theorem at two tables, of which the second refers to the
-- first. Tables are told apart by the length of their names.
use cdc_sink_redshift.Common.{
  ℕ, ◌≡◌, refl, Bool, ◌==◌, ==_iff, none, some, List, [], ◌∷◌, ◌++◌, length, All,
}
use cdc_sink_redshift.Cmap as Cmap
use cdc_sink_redshift.Ident.{Table, raw, table_of, new}
use cdc_sink_redshift.Logical.Ordered.{
  DeferredData, Delegate, empty_levels, append_at, put_level, put_levels, level_of, wrap,
  on_data_at, write_all, on_commit, apply_all,
}
use cdc_sink_redshift.Logical.Ordered.Schedule.{run_calls, schedule}
use cdc_sink_redshift.Logical.Ordered.Levels.{IsPlaced, group_of, apply_all-level_of}

data Effect : Type 0 where
  flushed committed : Effect
  data_of : Table → Effect

abbrev log : Delegate (List Effect) ℕ
log = record {
  flush = λ s. (s ++ flushed ∷ [], none);
  on_data = λ d s. (s ++ data_of d.target ∷ [], none);
  on_commit = λ s. (s ++ committed ∷ [], none);
}

abbrev eq : ℕ → ℕ → Bool
eq a b = a == b

abbrev name_length : Table → ℕ
name_length t = length (raw (table_of t))

abbrev parent : Table
parent = some (none, new (b'p' ∷ []))

abbrev child : Table
child = some (none, new (b'c' ∷ b'h' ∷ []))

abbrev data_for : Table → DeferredData
data_for t = record { muts = []; source = none; target = t }

abbrev calls : List DeferredData
calls = data_for child ∷ data_for parent ∷ []

abbrev deps : List (List Table)
deps = (parent ∷ []) ∷ (child ∷ []) ∷ []

-- The child's data, which came first, is written last, after a flush.
run :
    apply_all log (level_of eq name_length deps) calls (empty_levels 1) []
    ≡ some (data_of parent ∷ flushed ∷ data_of child ∷ committed ∷ [], none)
unfolding apply_all level_of put_level put_levels Cmap.get Cmap.match_key Cmap.put Cmap.store
    Cmap.fetch empty_levels append_at wrap on_data_at write_all on_commit raw table_of
run = refl

calls-IsPlaced : All (IsPlaced eq ==_iff name_length deps) calls
unfolding raw table_of
calls-IsPlaced = ((1, refl), ((0, refl), tt))

apply_all-level_of_example :
    apply_all log (level_of eq name_length deps) calls (empty_levels 1) []
    ≡ some (run_calls log (schedule (group_of eq ==_iff name_length 0 deps) 1 calls) [])
apply_all-level_of_example =
    apply_all-level_of eq ==_iff name_length log (parent ∷ []) ((child ∷ []) ∷ []) calls []
      calls-IsPlaced
