-- ===== src/Apply/Conflicts.antt =====
-- internal/target/apply/apply.go, upsertBagsLocked, and internal/util/merge/merge.go: rows that are
-- blocked by rows of the table are given to a merge function. The database, the merge function, the dead-letter
-- queues and the JSON decoder are parameters; the metrics are not modelled.
pub mod Resolved
use cdc_sink_redshift.Common.{
  ℕ, suc, Bool, true, false, not, ◌&&◌, Option, none, some, List, [], ◌∷◌, ◌++◌, if◌then◌else◌,
  length, get_elem?, Outcome, done, failed, Run, returned, raised, panicked, ◌>>=◌, Bytes, bytes_eq,
  is_empty, Any, null, number, text, boolean,
}
use cdc_sink_redshift.Cmap as Cmap
use cdc_sink_redshift.Cmap.{Map}
use cdc_sink_redshift.Types.{Mutation, null_bytes}
use cdc_sink_redshift.Merge.Bag as Bag
use cdc_sink_redshift.Merge.Bag.{ColData}
use cdc_sink_redshift.Apply.Mapping.{Mapping}
use cdc_sink_redshift.Apply.Args.{ArgsError, Args, Templates, upsert_args}

-- `Conflict`.
pub record Conflict (K C : Type 0) : Type 0 where
  pub before : Option (Bag.Bag K C)
  pub existing : Bag.Bag K C
  pub proposed : Bag.Bag K C

-- `Resolution`.
pub record Resolution (K C : Type 0) : Type 0 where
  pub apply : Option (Bag.Bag K C)
  pub dlq : Bytes
  pub drop : Bool

-- The errors of `upsertBagsLocked`, those of its parameters being of type `P`.
pub data UpsertError (K P : Type 0) : Type 0 where
  bad_args : ArgsError K P → UpsertError K P
  not_executed not_read not_merged not_enqueued : P → UpsertError K P
  nil_resolution zero_resolution : UpsertError K P

module _ {K C P : Type 0} (merge : Conflict K C → Outcome P (Option (Resolution K C))) {W : Type 0}
    (enqueue : Bytes → Mutation → W → W × Option P) where
  -- What the switch makes of the resolution of a conflict.
  unfoldable pub enqueued :
      W × Option P
      → (W → W × Run (UpsertError K P) (List (Bag.Bag K C)))
      → W × Run (UpsertError K P) (List (Bag.Bag K C))
  enqueued (w, none) k = k w
  enqueued (w, some e) k = (w, raised (not_enqueued e))

  unfoldable pub apply_fixup :
      Option (Bag.Bag K C)
      → W
      → (Bag.Bag K C → W × Run (UpsertError K P) (List (Bag.Bag K C)))
      → W × Run (UpsertError K P) (List (Bag.Bag K C))
  apply_fixup none w k = (w, raised zero_resolution)
  apply_fixup (some bag) w k = k bag

  unfoldable pub switch :
      Outcome P (Option (Resolution K C))
      → Mutation
      → List (Bag.Bag K C)
      → W
      → (List (Bag.Bag K C) → W → W × Run (UpsertError K P) (List (Bag.Bag K C)))
      → W × Run (UpsertError K P) (List (Bag.Bag K C))
  switch (failed e) m fixups w k = (w, raised (not_merged e))
  switch (done none) m fixups w k = (w, raised nil_resolution)
  switch (done (some r)) m fixups w k = elim r.drop [
    | true ↦ k fixups w
    | false ↦ elim (is_empty r.dlq) [
      | false ↦ enqueued (enqueue r.dlq m w) (k fixups)
      | true ↦ apply_fixup r.apply w (λ bag. k (fixups ++ bag ∷ []) w)
    ]
  ]

  -- The loop over the conflicts, each with its mutation: the bags that are left to apply.
  unfoldable pub resolve_all :
      List (Conflict K C × Mutation)
      → List (Bag.Bag K C)
      → W
      → W × Run (UpsertError K P) (List (Bag.Bag K C))
  resolve_all [] fixups w = (w, returned fixups)
  resolve_all ((c, m) ∷ cs) fixups w = switch (merge c) m fixups w (resolve_all cs)
