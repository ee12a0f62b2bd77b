-- ===== src/Apply/Deletes.antt =====
-- internal/target/apply/apply.go, deleteLocked. The JSON decoder of a key and the execution of a
-- statement are parameters; `pjson.Decode`, which decodes in parallel, is taken to report the first error.
pub mod Arity
use cdc_sink_redshift.Common.{
  ℕ, Bool, true, false, ◌==◌, Option, none, some, List, [], ◌∷◌, ◌++◌, if◌then◌else◌, length,
  Outcome, done, failed, Run, returned, raised, panicked, ◌>>=◌, Bytes, Any, null, number, text,
  boolean,
}
use cdc_sink_redshift.Hlc.{Time}
use cdc_sink_redshift.Types.{Mutation}
use cdc_sink_redshift.Apply.Mapping.{Mapping}
use cdc_sink_redshift.Apply.Numbers.{remove_exponent}
use cdc_sink_redshift.Apply.Columns.{ColumnsError, to_columns}
use cdc_sink_redshift.Apply.Args.{Args, flat, columnar, Templates}

-- The errors of `deleteLocked`; `fatal` is the end of the program.
pub data DeleteError (P : Type 0) : Type 0 where
  not_decoded : P → DeleteError P
  inconsistent_key : ℕ → ℕ → Bytes → Time → DeleteError P
  not_columnar : ColumnsError {0} → DeleteError P
  not_executed : P → DeleteError P
  fatal : DeleteError P

module _ {P : Type 0} (plain : Bytes → Option Bytes) (decode : Bytes → Outcome P (List Any)) where
  unfoldable pub decoded : Outcome P (List Any) → Run (DeleteError P) (List Any)
  decoded (done group) = returned group
  decoded (failed e) = raised (not_decoded e)

  -- The keys, each with its mutation.
  unfoldable pub decode_keys : List Mutation → Run (DeleteError P) (List (Mutation × List Any))
  decode_keys [] = returned []
  decode_keys (m ∷ muts) = do
    group ← decoded (decode m.key)
    rest ← decode_keys muts
    returned ((m, group) ∷ rest)

  -- The loop over the keys, of which each has as many columns as the primary key.
  unfoldable pub append_keys :
      ℕ → List (Mutation × List Any) → List Any → Run (DeleteError P) (List Any)
  append_keys expect [] all_args = returned all_args
  append_keys expect ((m, group) ∷ rest) all_args = elim (length group == expect) [
    | true ↦ append_keys expect rest (all_args ++ group)
    | false ↦ raised (inconsistent_key (length group) expect m.key m.time)
  ]

  unfoldable pub plain_number : Any → Run (DeleteError P) Any
  plain_number (number n) = do s ← remove_exponent plain n; returned (text s)
  plain_number null = returned null
  plain_number (text s) = returned (text s)
  plain_number (boolean b) = returned (boolean b)
  plain_number (Any.integer i) = returned (Any.integer i)
  plain_number (Any.opaque n) = returned (Any.opaque n)

  unfoldable pub plain_numbers : List Any → Run (DeleteError P) (List Any)
  plain_numbers [] = returned []
  plain_numbers (v ∷ vs) = do w ← plain_number v; ws ← plain_numbers vs; returned (w ∷ ws)

  unfoldable pub key_columns :
      Option (Outcome (ColumnsError {0}) (List (List Any))) → Run (DeleteError P) Args
  key_columns none = panicked
  key_columns (some (failed e)) = raised (not_columnar e)
  key_columns (some (done columns)) = returned (columnar columns)

  unfoldable pub layout : Bool → ℕ → ℕ → List Any → Run (DeleteError P) Args
  layout false columns rows args = returned (flat args)
  layout true columns rows args = key_columns (to_columns columns rows args)

  -- The arguments of the statement.
  unfoldable pub delete_args :
      {K C M : Type 0} → Templates K C M → List Mutation → Run (DeleteError P) Args
  delete_args t muts = do
    groups ← decode_keys muts
    all_args ← append_keys (length t.mapping.pk_delete) groups []
    all_args ← plain_numbers all_args
    layout t.bulk_delete (length t.mapping.pk_delete) (length muts) all_args

  module _ {W : Type 0} (exec : ℕ → Args → W → W × Option P) where
    unfoldable pub executed : W × Option P → W × Option (DeleteError P)
    executed (w, none) = (w, none)
    executed (w, some e) = (w, some (not_executed e))

    unfoldable pub exec_args : ℕ → Run (DeleteError P) Args → W → W × Option (DeleteError P)
    exec_args rows (returned args) w = executed (exec rows args w)
    exec_args rows (raised e) w = (w, some e)
    exec_args rows panicked w = (w, some fatal)

    -- `deleteLocked`.
    unfoldable pub delete_locked :
        {K C M : Type 0} → Templates K C M → List Mutation → W → W × Option (DeleteError P)
    delete_locked t [] w = (w, none)
    delete_locked t (m ∷ muts) w = exec_args (length (m ∷ muts)) (delete_args t (m ∷ muts)) w
