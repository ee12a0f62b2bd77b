-- ===== src/Logical/Ordered.antt =====
-- internal/source/logical/ordered_events.go: data for tables with foreign keys is put off until the data of
-- the tables that they refer to is written. The batch that is wrapped is a record of operations on a
-- state `S` with errors `E`; the number of levels is at least 1, since `OnBegin` panics without levels.
pub mod Levels
pub mod Commit
pub mod Schedule
mod Tests
use cdc_sink_redshift.Common.{
  ℕ, zero, suc, ◌-◌, Bool, true, false, Option, none, some, List, [], ◌∷◌, ◌++◌, if◌then◌else◌,
  length, Bytes,
}
use cdc_sink_redshift.Cmap as Cmap
use cdc_sink_redshift.Cmap.{Map}
use cdc_sink_redshift.Ident.{Ident, Table}
use cdc_sink_redshift.Types.{Mutation}

-- `deferredData`.
pub record DeferredData : Type 0 where
  pub muts : List Mutation
  pub source : Ident
  pub target : Table

-- `Batch`, as far as it is called.
pub record Delegate (S E : Type 0) : Type 0 where
  pub flush : S → S × Option E
  pub on_data : DeferredData → S → S × Option E
  pub on_commit : S → S × Option E

pub data OrderedError (E : Type 0) : Type 0 where
  unknown_table : Table → OrderedError E
  flush_failed data_failed commit_failed : E → OrderedError E

-- `make([][]deferredData, n)`.
unfoldable pub empty_levels : ℕ → List (List DeferredData)
empty_levels zero = []
empty_levels (suc n) = [] ∷ empty_levels n

-- `deferred[k] = append(deferred[k], d)`; `none` is the panic out of range.
unfoldable pub append_at :
    List (List DeferredData) → ℕ → DeferredData → Option (List (List DeferredData))
append_at [] k d = none
append_at (x ∷ xs) zero d = some ((x ++ d ∷ []) ∷ xs)
append_at (x ∷ xs) (suc k) d = elim (append_at xs k d) [ none ↦ none | some ys ↦ some (x ∷ ys) ]

module _ {C : Type 0} (eq : C → C → Bool) (mapper : Table → C) where
  -- The loops of `OnBegin`: every table under its level.
  unfoldable pub put_level : List Table → ℕ → Map Table C ℕ → Map Table C ℕ
  put_level [] level m = m
  put_level (t ∷ ts) level m = put_level ts level (Cmap.put eq mapper m t level)

  unfoldable pub put_levels : List (List Table) → ℕ → Map Table C ℕ → Map Table C ℕ
  put_levels [] level m = m
  put_levels (ts ∷ deps) level m = put_levels deps (suc level) (put_level ts level m)

  -- `levels.Get`, of the levels that `OnBegin` makes.
  unfoldable pub level_of : List (List Table) → Table → Option ℕ
  level_of deps t = Cmap.get eq mapper (put_levels deps 0 []) t

module _ {S E : Type 0} (delegate : Delegate S E) where
  -- An error of the wrapped batch, wrapped.
  unfoldable pub wrap : (E → OrderedError E) → S × Option E → S × Option (OrderedError E)
  wrap f (s, some e) = (s, some (f e))
  wrap f (s, none) = (s, none)

  -- `OnData`, with the level of the target: what is put off, and the state; `none` is a panic.
  unfoldable pub on_data_at :
      Option ℕ
      → List (List DeferredData)
      → DeferredData
      → S
      → Option (List (List DeferredData) × S × Option (OrderedError E))
  on_data_at none deferred d s = some (deferred, s, some (unknown_table d.target))
  on_data_at (some zero) deferred d s =
      let r = wrap data_failed (delegate.on_data d s) in some (deferred, r.0, r.1)
  on_data_at (some (suc k)) deferred d s = elim (append_at deferred k d) [
    | none ↦ none
    | some deferred' ↦ some (deferred', s, none)
  ]

  -- The inner loop of `OnCommit`, up to the first error.
  unfoldable pub write_all : List DeferredData → S → S × Option (OrderedError E)
  write_all [] s = (s, none)
  write_all (d ∷ ds) s =
      let (s', err) = delegate.on_data d s in
      elim err [ some e ↦ (s', some (data_failed e)) | none ↦ write_all ds s' ]

  -- `OnCommit`: a level is written once everything before it is flushed.
  unfoldable pub on_commit : List (List DeferredData) → S → S × Option (OrderedError E)
  on_commit [] s = wrap commit_failed (delegate.on_commit s)
  on_commit (ds ∷ levels) s =
      let (s1, err1) = delegate.flush s in
      elim err1 [
        | some e ↦ (s1, some (flush_failed e))
        | none ↦
            let (s2, err2) = write_all ds s1 in
            elim err2 [ some e ↦ (s2, some e) | none ↦ on_commit levels s2 ]
      ]

  -- A row of calls of `OnData` up to the first error, and `OnCommit`.
  unfoldable pub apply_all :
      (Table → Option ℕ)
      → List DeferredData
      → List (List DeferredData)
      → S
      → Option (S × Option (OrderedError E))
  apply_all level [] deferred s = some (on_commit deferred s)
  apply_all level (d ∷ ds) deferred s = elim (on_data_at (level d.target) deferred d s) [
    | none ↦ none
    | some (deferred', s', some e) ↦ some (s', some e)
    | some (deferred', s', none) ↦ apply_all level ds deferred' s'
  ]
