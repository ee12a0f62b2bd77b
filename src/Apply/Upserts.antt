-- ===== src/Apply/Upserts.antt =====
-- internal/target/apply/apply.go, upsertLocked and upsertBagsLocked. `exec` prepares and executes a statement,
-- whose mode is true if it is unconditional; `query` prepares and runs a conditional one: its rows are an offset into the mutations
-- and the values of the blocking row by column, or the error of the statement, of a scan or of the rows. Both are parameters,
-- as is `unmarshal`, which decodes JSON into a bag.
use cdc_sink_redshift.Common.{
  ℕ, suc, Bool, true, false, Option, none, some, List, [], ◌∷◌, if◌then◌else◌, length, get_elem?,
  Outcome, done, failed, Run, returned, raised, panicked, ◌>>=◌, Bytes, bytes_eq, is_empty, Any,
}
use cdc_sink_redshift.Cmap.{Map}
use cdc_sink_redshift.Types.{Mutation, null_bytes}
use cdc_sink_redshift.Merge.Bag as Bag
use cdc_sink_redshift.Merge.Bag.{ColData}
use cdc_sink_redshift.Apply.Args.{ArgsError, Args, Templates, upsert_args}
use cdc_sink_redshift.Apply.Conflicts.{
  Conflict, Resolution, UpsertError, bad_args, not_executed, not_read, resolve_all,
}

-- A row that blocks an upsert.
abbrev pub Blocking : Type 0
Blocking = ℕ × (ℕ → Any)

-- An index into a slice, which panics out of range.
abbrev pub at {ℓ} : {E A : Type ℓ} → Option A → Run E A
at none = panicked
at (some a) = returned a

-- What the method calls.
pub record Target (K C P W : Type 0) : Type 0 where
  pub exec : Bool → ℕ → Args → W → W × Option P
  pub query : ℕ → Args → W → W × Outcome P (List Blocking)
  pub unmarshal : Bytes → Bag.Bag K C → Outcome P (Bag.Bag K C)
  pub merge : Conflict K C → Outcome P (Option (Resolution K C))
  pub enqueue : Bytes → Mutation → W → W × Option P

module _ {K C P W M : Type 0} (eq : C → C → Bool) (mapper : K → C) (plain : Bytes → Option Bytes)
    (parse : ColData K → Option (Any → Outcome P Any)) (marshal : Map K C Any → Outcome P Bytes)
    (target : Target K C P W) (t : Templates K C M) where
  -- `newBagLocked`, with the specification that `refreshUnlocked` makes of the templates.
  unfoldable pub new_bag_locked : Bag.Bag K C
  new_bag_locked = Bag.new_bag eq mapper t.mapping.columns (some t.mapping.renames)

  -- The values of the blocking row, by column.
  unfoldable pub put_columns : List (ColData K) → ℕ → (ℕ → Any) → Bag.Bag K C → Bag.Bag K C
  put_columns [] idx blocking bag = bag
  put_columns (col ∷ cols) idx blocking bag =
      put_columns cols (suc idx) blocking (Bag.put eq mapper bag col.name (blocking idx))

  unfoldable pub unmarshalled :
      Outcome P (Bag.Bag K C) → Run (UpsertError K P) (Option (Bag.Bag K C))
  unmarshalled (done bag) = returned (some bag)
  unmarshalled (failed e) = raised (not_read e)

  -- The data before the mutation, if it came with some.
  unfoldable pub before_of : Bytes → Run (UpsertError K P) (Option (Bag.Bag K C))
  before_of before =
      if is_empty before
      then returned none
      else (if bytes_eq before null_bytes
          then returned none
          else unmarshalled (target.unmarshal before new_bag_locked))

  -- The conflicts of the rows that block, each with its mutation.
  unfoldable pub conflicts_of :
      List Mutation
      → List (Bag.Bag K C)
      → List Blocking
      → Run (UpsertError K P) (List (Conflict K C × Mutation))
  conflicts_of muts bags [] = returned []
  conflicts_of muts bags ((source_idx, blocking) ∷ rows) = do
    proposed ← at (get_elem? bags source_idx)
    conflicting ← at (get_elem? muts source_idx)
    before ← before_of conflicting.before
    rest ← conflicts_of muts bags rows
    let existing = put_columns t.mapping.columns 0 blocking new_bag_locked
    returned
        ((record { before = before; existing = existing; proposed = proposed }, conflicting) ∷ rest)

  unfoldable pub executed : W × Option P → W × Run (UpsertError K P) Unit
  executed (w, none) = (w, returned tt)
  executed (w, some e) = (w, raised (not_executed e))

  -- The statement of a mode without a merge function.
  unfoldable pub exec_args :
      Bool
      → ℕ
      → Run (ArgsError K P) (Args × List (Bag.Bag K C))
      → W
      → W × Run (UpsertError K P) Unit
  exec_args mode rows (returned (args, bags)) w = executed (target.exec mode rows args w)
  exec_args mode rows (raised e) w = (w, raised (bad_args e))
  exec_args mode rows panicked w = (w, panicked)

  -- `upsertBagsLocked` when it applies unconditionally.
  unfoldable pub upsert_unconditional : List (Bag.Bag K C) → W → W × Run (UpsertError K P) Unit
  upsert_unconditional [] w = (w, returned tt)
  upsert_unconditional (bag ∷ bags) w =
      exec_args true (length (bag ∷ bags))
        (upsert_args eq mapper plain parse marshal t (bag ∷ bags)) w

  -- What follows the loop over the conflicts: the method calls itself with what is left to apply.
  unfoldable pub apply_fixups :
      W × Run (UpsertError K P) (List (Bag.Bag K C)) → W × Run (UpsertError K P) Unit
  apply_fixups (w, returned fixups) = upsert_unconditional fixups w
  apply_fixups (w, raised e) = (w, raised e)
  apply_fixups (w, panicked) = (w, panicked)

  unfoldable pub resolve_conflicts :
      Run (UpsertError K P) (List (Conflict K C × Mutation)) → W → W × Run (UpsertError K P) Unit
  resolve_conflicts (returned []) w = (w, returned tt)
  resolve_conflicts (returned (c ∷ cs)) w =
      apply_fixups (resolve_all target.merge target.enqueue (c ∷ cs) [] w)
  resolve_conflicts (raised e) w = (w, raised e)
  resolve_conflicts panicked w = (w, panicked)

  unfoldable pub read_rows :
      List Mutation
      → List (Bag.Bag K C)
      → W × Outcome P (List Blocking)
      → W × Run (UpsertError K P) Unit
  read_rows muts bags (w, failed e) = (w, raised (not_read e))
  read_rows muts bags (w, done rows) = resolve_conflicts (conflicts_of muts bags rows) w

  unfoldable pub query_args :
      List Mutation
      → ℕ
      → Run (ArgsError K P) (Args × List (Bag.Bag K C))
      → W
      → W × Run (UpsertError K P) Unit
  query_args muts rows (returned (args, bags)) w = read_rows muts bags (target.query rows args w)
  query_args muts rows (raised e) w = (w, raised (bad_args e))
  query_args muts rows panicked w = (w, panicked)

  -- `upsertBagsLocked` when it applies conditionally.
  unfoldable pub upsert_bags :
      List Mutation → List (Bag.Bag K C) → W → W × Run (UpsertError K P) Unit
  upsert_bags muts [] w = (w, returned tt)
  upsert_bags muts (bag ∷ bags) w =
      let rows = length (bag ∷ bags) in
      let filled = upsert_args eq mapper plain parse marshal t (bag ∷ bags) in
      elim t.mapping.merger [
        | none ↦ exec_args false rows filled w
        | some f ↦ query_args muts rows filled w
      ]

  -- The decoding loop of `upsertLocked`.
  unfoldable pub decode_bags : List Mutation → Run (UpsertError K P) (List (Bag.Bag K C))
  decode_bags [] = returned []
  decode_bags (m ∷ muts) = do
    bag ← decoded (target.unmarshal m.contents new_bag_locked)
    bags ← decode_bags muts
    returned (bag ∷ bags)
    where
      decoded : Outcome P (Bag.Bag K C) → Run (UpsertError K P) (Bag.Bag K C)
      decoded (done bag) = returned bag
      decoded (failed e) = raised (not_read e)

  unfoldable pub upsert_decoded :
      List Mutation
      → Run (UpsertError K P) (List (Bag.Bag K C))
      → W
      → W × Run (UpsertError K P) Unit
  upsert_decoded muts (returned bags) w = upsert_bags muts bags w
  upsert_decoded muts (raised e) w = (w, raised e)
  upsert_decoded muts panicked w = (w, panicked)

  -- `upsertLocked`.
  unfoldable pub upsert_locked : List Mutation → W → W × Run (UpsertError K P) Unit
  upsert_locked muts w = upsert_decoded muts (decode_bags muts) w
