-- ===== src/Apply/Batching/Calls.antt =====
-- internal/target/apply/apply.go, Apply: the row of batches that the loop executes.
use cdc_sink_redshift.Common.{
  ℕ, ◌≤◌, ◌<◌, ◌≡◌, refl, ap, inl, inr, Bool, true, false, not, ◌==◌, Option, none, some, List, [],
  ◌∷◌, ◌++◌, append_assoc, if◌then◌else◌, length, length-append, All, after, Bool-cases, arith,
}
use mathlib.Core.Path.{fun_ext}
use cdc_sink_redshift.Types.{Mutation, is_delete}
use cdc_sink_redshift.Apply.Batching.{Execute, apply_each}

-- A batch: whether it deletes, and its mutations.
abbrev pub Call : Type 0
Call = Bool × List Mutation

-- The batches of the loop, made from the mutations alone.
unfoldable pub calls : ℕ → List Mutation → List Mutation → List Mutation → List Call
calls size [] deletes upserts = (true, deletes) ∷ (false, upserts) ∷ []
calls size (m ∷ muts) deletes upserts = elim (is_delete m) [
  | true ↦ elim (length (deletes ++ m ∷ []) == size) [
    | true ↦ (true, deletes ++ m ∷ []) ∷ calls size muts [] upserts
    | false ↦ calls size muts (deletes ++ m ∷ []) upserts
  ]
  | false ↦ elim (length (upserts ++ m ∷ []) == size) [
    | true ↦ (false, upserts ++ m ∷ []) ∷ calls size muts deletes []
    | false ↦ calls size muts deletes (upserts ++ m ∷ [])
  ]
]

-- To execute the batches in their order, up to the first error.
unfoldable pub run_calls {ℓ} :
    {W : Type ℓ} {E : Type 0} → Execute W E → Execute W E → List Call → W → W × Option E
run_calls delete_locked upsert_locked [] w = (w, none)
run_calls delete_locked upsert_locked ((b, muts) ∷ cs) w =
    after ((if b then delete_locked else upsert_locked) muts w)
      (run_calls delete_locked upsert_locked cs)

abbrev pub same : Bool → Bool → Bool
same true c = c
same false c = not c

-- The mutations of the batches of one kind, in their order.
unfoldable pub called : Bool → List Call → List Mutation
called b [] = []
called b ((c, muts) ∷ cs) = let rest = called b cs in if same b c then muts ++ rest else rest

-- The deletions among the mutations, or the others.
unfoldable pub of_kind : Bool → List Mutation → List Mutation
of_kind b [] = []
of_kind b (m ∷ muts) = let rest = of_kind b muts in if same b (is_delete m) then m ∷ rest else rest

module _ {ℓ} {W : Type ℓ} {E : Type 0} (size : ℕ) (delete_locked upsert_locked : Execute W E) where
  pub apply_each-run_calls :
      (muts deletes upserts : List Mutation) (w : W)
      → apply_each size delete_locked upsert_locked muts deletes upserts w
        ≡ run_calls delete_locked upsert_locked (calls size muts deletes upserts) w
  unfolding apply_each run_calls calls
  apply_each-run_calls [] deletes upserts w =
      ap (after (delete_locked deletes w)) (fun_ext λ v. run_last (upsert_locked upserts v))
    where
      run_last : (r : W × Option E) → r ≡ after r (λ v. (v, none))
      run_last (v, none) = refl
      run_last (v, some e) = refl
  apply_each-run_calls (m ∷ muts) deletes upserts w = elim (Bool-cases (is_delete m)) [
    | inl del ↦ elim (Bool-cases (length (deletes ++ m ∷ []) == size)) [
      | inl full ↦
          rw (apply_each, calls, del, full)
            (ap (after (delete_locked (deletes ++ m ∷ []) w))
              (fun_ext λ v. apply_each-run_calls muts [] upserts v))
      | inr short ↦
          rw (apply_each, calls, del, short)
            (apply_each-run_calls muts (deletes ++ m ∷ []) upserts w)
    ]
    | inr up ↦ elim (Bool-cases (length (upserts ++ m ∷ []) == size)) [
      | inl full ↦
          rw (apply_each, calls, up, full)
            (ap (after (upsert_locked (upserts ++ m ∷ []) w))
              (fun_ext λ v. apply_each-run_calls muts deletes [] v))
      | inr short ↦
          rw (apply_each, calls, up, short)
            (apply_each-run_calls muts deletes (upserts ++ m ∷ []) w)
    ]
  ]

-- The batches hold every mutation, in order, in batches of its kind.
pub called-calls :
    (size : ℕ) (b : Bool) (muts deletes upserts : List Mutation)
    → called b (calls size muts deletes upserts)
      ≡ (if b then deletes else upserts) ++ of_kind b muts
unfolding calls called of_kind
called-calls size true [] deletes upserts = refl
called-calls size false [] deletes upserts = refl
called-calls size b (m ∷ muts) deletes upserts = ground (
  arith,
  called-calls size b muts [] upserts,
  called-calls size b muts deletes [],
  called-calls size b muts (deletes ++ m ∷ []) upserts,
  called-calls size b muts deletes (upserts ++ m ∷ []),
  append_assoc deletes (m ∷ []) (of_kind b muts),
  append_assoc upserts (m ∷ []) (of_kind b muts),
)

-- A batch has at most `size` mutations.
abbrev pub Fits : ℕ → Call → Type 0
Fits size (b, muts) = length muts ≤ size

pub calls-Fits :
    (size : ℕ) (muts deletes upserts : List Mutation)
    → length deletes < size
    → length upserts < size
    → All (Fits size) (calls size muts deletes upserts)
unfolding calls
calls-Fits size [] deletes upserts hd hu = (omega arith, (omega arith, tt))
calls-Fits size (m ∷ muts) deletes upserts hd hu = ground (
  arith,
  calls-Fits size muts [] upserts,
  calls-Fits size muts deletes [],
  calls-Fits size muts (deletes ++ m ∷ []) upserts,
  calls-Fits size muts deletes (upserts ++ m ∷ []),
  length-append deletes (m ∷ []),
  length-append upserts (m ∷ []),
)
