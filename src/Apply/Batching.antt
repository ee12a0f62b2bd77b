-- ===== src/Apply/Batching.antt =====
-- internal/target/apply/apply.go, Apply: the latest mutation of each key, in batches of deletions and of
-- upserts. The two methods that execute a batch are parameters here; the metrics are not modelled.
pub mod Calls
pub mod Delivered
use cdc_sink_redshift.Common.{
  ℕ, Bool, true, false, ◌==◌, Option, none, some, List, [], ◌∷◌, ◌++◌, if◌then◌else◌, length, after,
}
use cdc_sink_redshift.Types.{Mutation, is_delete}
use cdc_sink_redshift.Msort.{unique_by_key}

-- An error of `Apply`: its own, or that of a batch.
pub data ApplyError (E : Type 0) : Type 0 where
  no_column_data : ApplyError E
  of_batch : E → ApplyError E

unfoldable pub wrap {ℓ} : {W : Type ℓ} {E : Type 0} → W × Option E → W × Option (ApplyError E)
wrap (w, none) = (w, none)
wrap (w, some e) = (w, some (of_batch e))

-- What executes a batch.
abbrev pub Execute {ℓ} : Type ℓ → Type 0 → Type ℓ
Execute W E = List Mutation → W → W × Option E

module _ {ℓ} {W : Type ℓ} {E : Type 0} (size : ℕ) (delete_locked upsert_locked : Execute W E) where
  -- The loop over the mutations, then the final flush. A slice that is full is executed and is empty then.
  unfoldable pub apply_each : List Mutation → List Mutation → List Mutation → W → W × Option E
  apply_each [] deletes upserts w = after (delete_locked deletes w) (upsert_locked upserts)
  apply_each (m ∷ muts) deletes upserts w =
      let more_deletes = deletes ++ m ∷ [] in
      let more_upserts = upserts ++ m ∷ [] in
      elim (is_delete m) [
        | true ↦ elim (length more_deletes == size) [
          | true ↦ after (delete_locked more_deletes w) (apply_each muts [] upserts)
          | false ↦ apply_each muts more_deletes upserts w
        ]
        | false ↦ elim (length more_upserts == size) [
          | true ↦ after (upsert_locked more_upserts w) (apply_each muts deletes [])
          | false ↦ apply_each muts deletes more_upserts w
        ]
      ]

  -- `Apply`, of the number of the positions in the templates; `none` is the panic of `UniqueByKey`.
  unfoldable pub apply : ℕ → List Mutation → W → Option (W × Option (ApplyError E))
  apply positions muts w = elim (unique_by_key muts) [
    | none ↦ none
    | some latest ↦
        some (if positions == 0 then (w, some no_column_data) else wrap (apply_each latest [] [] w))
  ]
