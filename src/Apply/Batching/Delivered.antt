-- ===== src/Apply/Batching/Delivered.antt =====
-- internal/target/apply/apply.go, Apply: what the batches deliver.
use cdc_sink_redshift.Common.{
  ℕ, ◌<◌, ◌≡◌, refl, ◌∙◌, Bool, true, false, ◌==◌, Option, none, some, List, [], ◌∷◌, ◌++◌,
  if◌then◌else◌, All, arith, Bytes, bytes_eq_iff,
}
use cdc_sink_redshift.Types.{Mutation, is_delete}
use cdc_sink_redshift.Msort.Reference.{unique, HasKey}
use cdc_sink_redshift.Msort.Loop.{unique_by_key-unique}
use cdc_sink_redshift.Msort.Latest.{find, newest, DistinctKeys, unique-DistinctKeys, find-unique}
use cdc_sink_redshift.Apply.Batching.{no_column_data, wrap, Execute, apply}
use cdc_sink_redshift.Apply.Batching.Calls.{
  Call, Fits, calls, run_calls, called, of_kind, same, apply_each-run_calls, called-calls,
  calls-Fits,
}

abbrev or_else : Option Mutation → Option Mutation → Option Mutation
or_else none o = o
or_else (some c) o = some c

find-append :
    (k : Bytes) (xs ys : List Mutation) → find k (xs ++ ys) ≡ or_else (find k xs) (find k ys)
unfolding find
find-append k [] ys = refl
find-append k (x ∷ xs) ys = ground (arith, find-append k xs ys)

-- A mutation that was found, if it is of the kind.
abbrev keep : Bool → Option Mutation → Option Mutation
keep b none = none
keep b (some m) = if same b (is_delete m) then some m else none

find-of_kind :
    (k : Bytes) (b : Bool) (ms : List Mutation)
    → DistinctKeys ms
    → find k (of_kind b ms) ≡ keep b (find k ms)
unfolding find of_kind
find-of_kind k b [] d = refl
find-of_kind k b (m ∷ ms) d = ground (arith, find-of_kind k b ms, bytes_eq_iff m.key k)

both_kinds : (o : Option Mutation) → or_else (keep true o) (keep false o) ≡ o
both_kinds none = refl
both_kinds (some m) = ground arith

-- What the batches hold of the mutations that were given.
pub record IsDelivered (size : ℕ) (muts : List Mutation) (cs : List Call) : Type 0 where
  pub fits : All (Fits size) cs
  pub deletes : called true cs ≡ of_kind true (unique muts)
  pub upserts : called false cs ≡ of_kind false (unique muts)
  pub latest : (k : Bytes) → find k (called true cs ++ called false cs) ≡ newest k muts

calls-IsDelivered :
    (size : ℕ) (muts : List Mutation)
    → 0 < size
    → IsDelivered size muts (calls size (unique muts) [] [])
calls-IsDelivered size muts pos = record {
  fits = calls-Fits size (unique muts) [] [] pos pos;
  deletes = called-calls size true (unique muts) [] [];
  upserts = called-calls size false (unique muts) [] [];
  latest = λ k.
      rw (called-calls size true (unique muts) [] [], called-calls size false (unique muts) [] [])
        (find-append k (of_kind true (unique muts)) (of_kind false (unique muts))
          ∙ rw
              (
                find-of_kind k true (unique muts) (unique-DistinctKeys muts),
                find-of_kind k false (unique muts) (unique-DistinctKeys muts),
              )
              (both_kinds (find k (unique muts)) ∙ find-unique k muts));
}

-- Without positions in its templates, `Apply` executes nothing and returns its error. With positions and
-- a batch size that is not 0, for mutations that have keys, it executes a row of batches that depends on the mutations alone, in order and up to the
-- first error: no batch exceeds the size, the batches of each kind hold the mutations of that kind that the compaction leaves, in their order, and
-- for every key exactly its latest mutation is in one of the batches.
pub apply-IsDelivered :
    (size positions : ℕ) (muts : List Mutation)
    → 0 < size
    → All HasKey muts
    → (cs : List Call) × IsDelivered size muts cs
      × ((W E : Type 0) (delete_locked upsert_locked : Execute W E) (w : W)
          → apply size delete_locked upsert_locked positions muts w
            ≡ some (
                if positions == 0
                then (w, some no_column_data)
                else wrap (run_calls delete_locked upsert_locked cs w)))
unfolding apply
apply-IsDelivered size positions muts pos full = (
  calls size (unique muts) [] [],
  calls-IsDelivered size muts pos,
  λ W E delete_locked upsert_locked w. rw (
    apply,
    unique_by_key-unique muts full,
    apply_each-run_calls size delete_locked upsert_locked (unique muts) [] [] w,
  ),
)
