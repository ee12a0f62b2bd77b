-- ===== src/Logical/Fan.antt =====
-- internal/source/logical/fan_batch.go: mutations that a pool of workers applies. The changes of the state under its
-- lock are functions; the workers' applications are calls of which only the end is seen here. Tables are of the parameter
-- `K`, which the map of tables compares in the form `C`.
pub mod Conserve
pub mod Runs
pub mod Taking
pub mod Balance
pub mod Flushed
mod Tests
use cdc_sink_redshift.Common.{
  ℕ, zero, suc, ◌+◌, ◌-◌, Bool, true, false, not, ◌&&◌, ◌||◌, ltb, ◌==◌, Option, none, some, List,
  [], ◌∷◌, ◌++◌, if◌then◌else◌, length, take, drop,
}
use cdc_sink_redshift.Cmap as Cmap
use cdc_sink_redshift.Cmap.{Map}

-- `fanBatchState`, with the counter `pending` of its batch.
pub record Fan (K C A : Type 0) : Type 0 where
  pub queues : Map K C (List A)
  pub drain : Bool
  pub worker_exited : Bool
  pub pending : ℕ

-- The error of `OnData`.
pub data FanError : Type 0 where
  data_after_end : FanError

-- What a worker gets: a table with mutations, no more work, or nothing yet.
pub data Work (K A : Type 0) : Type 0 where
  found : K → List A → Work K A
  stopped waiting : Work K A

-- `newFanBatch`, before its workers start.
unfoldable pub new_fan : {K C A : Type 0} → Fan K C A
new_fan = record { queues = []; drain = false; worker_exited = false; pending = 0 }

-- A table that has mutations, or what the rest of the map gives.
unfoldable pub first_of : {K A : Type 0} → K → List A → Option (K × List A) → Option (K × List A)
first_of table [] rest = rest
first_of table (x ∷ xs) rest = some (table, x ∷ xs)

-- The first table of the map that has mutations.
unfoldable pub find_work : {K C A : Type 0} → Map K C (List A) → Option (K × List A)
find_work [] = none
find_work ((c, e) ∷ m) = first_of e.key e.value (find_work m)

module _ {K C A : Type 0} (eq : C → C → Bool) (mapper : K → C) where
  -- `OnData`.
  unfoldable pub on_data : K → List A → Fan K C A → Fan K C A × Option FanError
  on_data table muts s = if s.drain then (s, some data_after_end) else (
    record s {
      queues =
          Cmap.put eq mapper s.queues table (Cmap.get_zero eq mapper [] s.queues table ++ muts);
      pending = s.pending + length muts;
    },
    none,
  )

  -- Limit number of values dequeued.
  unfoldable pub dequeue_work : ℕ → Option (K × List A) → Fan K C A → Fan K C A × Work K A
  dequeue_work size none s = (s, if s.drain then stopped else waiting)
  dequeue_work size (some (table, muts)) s =
      if ltb size (length muts)
      then (
        record s { queues = Cmap.put eq mapper s.queues table (drop size muts) },
        found table (take size muts),
      )
      else (record s { queues = Cmap.delete eq mapper s.queues table }, found table muts)

  -- One round of `waitForWork`.
  unfoldable pub wait_for_work : ℕ → Fan K C A → Fan K C A × Work K A
  wait_for_work size s = dequeue_work size (find_work s.queues) s

module _ {K C A : Type 0} where
  -- `notifyOnCompletion`.
  unfoldable pub notify_on_completion : Bool → Fan K C A → Fan K C A
  notify_on_completion true s = record s { drain = true }
  notify_on_completion false s = record s { drain = true; queues = [] }

  -- The end of `tryLoop`: the mutations are no longer pending, whether they were applied or not.
  unfoldable pub applied : ℕ → Fan K C A → Fan K C A
  applied n s = record s { pending = s.pending - n }

  -- The end of a worker.
  unfoldable pub exit_worker : Fan K C A → Fan K C A
  exit_worker s = record s { worker_exited = true }

  -- `checkErr`, with the status of the group of workers.
  unfoldable pub check_error : {E : Type 0} → Option E → Fan K C A → Option E
  check_error worker_status s = if s.worker_exited then worker_status else none

  -- The first check of `Flush`: an error, or nothing yet.
  unfoldable pub flush_check : {E : Type 0} → Option E → Fan K C A → Option (Option E)
  flush_check worker_status s = elim (check_error worker_status s) [
    | some err ↦ some (some err)
    | none ↦ none
  ]

  -- One round of the `select` of `Flush`, after the first check: what it returns, if it does. The two
  -- flags say whether the state has changed since the last check, and whether `workDone` is taken when
  -- both channels are ready, which Go leaves to chance.
  unfoldable pub flush_now : {E : Type 0} → Bool → Bool → Option E → Fan K C A → Option (Option E)
  flush_now changed take_done worker_status s =
      if s.pending == 0 && (not changed || take_done)
      then some none
      else if changed
      then flush_check worker_status s
      else none
