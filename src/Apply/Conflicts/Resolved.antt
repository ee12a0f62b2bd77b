-- ===== src/Apply/Conflicts/Resolved.antt =====
-- internal/target/apply/apply.go, upsertBagsLocked: what becomes of every conflict.
use cdc_sink_redshift.Common.{
  ◌≡◌, ◌≢◌, refl, ap, ◌∙◌, inl, inr, true, false, Option, none, some, List, [], ◌∷◌, ◌++◌,
  append_assoc, append-nil, Outcome, done, failed, returned, after, Bytes, is_empty, Bool-cases,
  arith,
}
use cdc_sink_redshift.Types.{Mutation}
use cdc_sink_redshift.Merge.Bag as Bag
use cdc_sink_redshift.Apply.Conflicts.{
  Conflict, Resolution, enqueued, apply_fixup, switch, resolve_all,
}

-- What is done about a conflict.
pub data Verdict (K C : Type 0) : Type 0 where
  dropped : Verdict K C
  queued : Bytes → Verdict K C
  replaced : Bag.Bag K C → Verdict K C

-- What a resolution asks for, when it asks for something.
abbrev pub Asks : {K C : Type 0} → Resolution K C → Verdict K C → Type 0
Asks r dropped = r.drop ≡ true
Asks r (queued name) = (r.drop ≡ false) × (r.dlq ≡ name) × (name ≢ [])
Asks r (replaced bag) = (r.drop ≡ false) × (r.dlq ≡ []) × (r.apply ≡ some bag)

-- The bags of the verdicts, in their order.
abbrev pub replacements : {K C : Type 0} → List (Verdict K C) → List (Bag.Bag K C)
replacements [] = []
replacements (dropped ∷ vs) = replacements vs
replacements (queued name ∷ vs) = replacements vs
replacements (replaced bag ∷ vs) = bag ∷ replacements vs

module _ {K C P : Type 0} (merge : Conflict K C → Outcome P (Option (Resolution K C))) {W : Type 0}
    (enqueue : Bytes → Mutation → W → W × Option P) where
  -- A verdict for every conflict, as the merge function asks.
  abbrev pub Verdicts : List (Conflict K C × Mutation) → List (Verdict K C) → Type 0
  Verdicts [] [] = Unit
  Verdicts [] (v ∷ vs) = ⊥
  Verdicts (c ∷ cs) [] = ⊥
  Verdicts ((c, m) ∷ cs) (v ∷ vs) =
      ((r : Resolution K C) × (merge c ≡ done (some r)) × Asks r v) × Verdicts cs vs

  -- To add the mutations of the conflicts that are queued to their queues, in order.
  abbrev pub enqueue_all : List (Conflict K C × Mutation) → List (Verdict K C) → W → W × Option P
  enqueue_all [] vs w = (w, none)
  enqueue_all (c ∷ cs) [] w = (w, none)
  enqueue_all ((c, m) ∷ cs) (dropped ∷ vs) w = enqueue_all cs vs w
  enqueue_all ((c, m) ∷ cs) (queued name ∷ vs) w = after (enqueue name m w) (enqueue_all cs vs)
  enqueue_all ((c, m) ∷ cs) (replaced bag ∷ vs) w = enqueue_all cs vs w

  abbrev Accounts :
      List (Conflict K C × Mutation) → List (Bag.Bag K C) → W → W → List (Bag.Bag K C) → Type 0
  Accounts cs fixups w v out =
      (vs : List (Verdict K C)) × Verdicts cs vs
      × (out ≡ fixups ++ replacements vs)
      × (enqueue_all cs vs w ≡ (v, none))

  enqueued_account :
      (c : Conflict K C) (m : Mutation) (cs : List (Conflict K C × Mutation))
      (fixups : List (Bag.Bag K C)) (r : Resolution K C) (w v : W) (out : List (Bag.Bag K C))
      (o : W × Option P)
      → ((x : W)
          → resolve_all merge enqueue cs fixups x ≡ (v, returned out)
          → Accounts cs fixups x v out)
      → merge c ≡ done (some r)
      → r.drop ≡ false
      → r.dlq ≢ []
      → enqueue r.dlq m w ≡ o
      → enqueued merge enqueue o (resolve_all merge enqueue cs fixups) ≡ (v, returned out)
      → Accounts ((c, m) ∷ cs) fixups w v out
  unfolding enqueued
  enqueued_account c m cs fixups r w v out (x, some e) ih at d q en h = absurd (ground (arith, h))
  enqueued_account c m cs fixups r w v out (x, none) ih at d q en h =
      let (vs, all, bags, ran) = ih x h in
      (
        queued r.dlq ∷ vs,
        ((r, at, (d, refl, q)), all),
        bags,
        ap (λ o. after o (enqueue_all cs vs)) en ∙ ran,
      )

  fixup_account :
      (c : Conflict K C) (m : Mutation) (cs : List (Conflict K C × Mutation))
      (fixups : List (Bag.Bag K C)) (r : Resolution K C) (w v : W) (out : List (Bag.Bag K C))
      (o : Option (Bag.Bag K C))
      → ((fs : List (Bag.Bag K C))
          → resolve_all merge enqueue cs fs w ≡ (v, returned out)
          → Accounts cs fs w v out)
      → merge c ≡ done (some r)
      → r.drop ≡ false
      → r.dlq ≡ []
      → r.apply ≡ o
      → apply_fixup merge enqueue o w (λ bag. resolve_all merge enqueue cs (fixups ++ bag ∷ []) w)
        ≡ (v, returned out)
      → Accounts ((c, m) ∷ cs) fixups w v out
  unfolding apply_fixup
  fixup_account c m cs fixups r w v out none ih at d q ap' h = absurd (ground (arith, h))
  fixup_account c m cs fixups r w v out (some bag) ih at d q found h =
      let (vs, all, bags, ran) = ih (fixups ++ bag ∷ []) h in
      (
        replaced bag ∷ vs,
        ((r, at, (d, q, found)), all),
        bags ∙ append_assoc fixups (bag ∷ []) (replacements vs),
        ran,
      )

  empty_nil : (s : Bytes) → is_empty s ≡ true → s ≡ []
  empty_nil [] h = refl
  empty_nil (c ∷ s) h = absurd (ground arith)

  filled : (s : Bytes) → is_empty s ≡ false → s ≢ []
  filled s h e = let full : is_empty s ≡ true = ap is_empty e in absurd (ground arith)

  switch_account :
      (c : Conflict K C) (m : Mutation) (cs : List (Conflict K C × Mutation))
      (fixups : List (Bag.Bag K C)) (w v : W) (out : List (Bag.Bag K C))
      (o : Outcome P (Option (Resolution K C)))
      → ((fs : List (Bag.Bag K C)) (x : W)
          → resolve_all merge enqueue cs fs x ≡ (v, returned out)
          → Accounts cs fs x v out)
      → merge c ≡ o
      → switch merge enqueue o m fixups w (resolve_all merge enqueue cs) ≡ (v, returned out)
      → Accounts ((c, m) ∷ cs) fixups w v out
  unfolding switch
  switch_account c m cs fixups w v out (failed e) ih at h = absurd (ground (arith, h))
  switch_account c m cs fixups w v out (done none) ih at h = absurd (ground (arith, h))
  switch_account c m cs fixups w v out (done (some r)) ih at h = elim (Bool-cases r.drop) [
    | inl d ↦
        let (vs, all, bags, ran) = ih fixups w (ground arith) in
        (dropped ∷ vs, ((r, at, d), all), bags, ran)
    | inr d ↦ elim (Bool-cases (is_empty r.dlq)) [
      | inl q ↦
          fixup_account c m cs fixups r w v out r.apply (λ fs. ih fs w) at d (empty_nil r.dlq q)
            refl (ground arith)
      | inr q ↦
          enqueued_account c m cs fixups r w v out (enqueue r.dlq m w) (ih fixups) at d
            (filled r.dlq q) refl (ground arith)
    ]
  ]

  -- When the loop over the conflicts returns, it has done as the merge function asked about every one of them: each was dropped, or its
  -- mutation was added to the queue that was named, in order, or its replacement is among the bags returned, in order and without
  -- others.
  pub resolve_all-Verdicts :
      (cs : List (Conflict K C × Mutation)) (fixups : List (Bag.Bag K C)) (w v : W)
      (out : List (Bag.Bag K C))
      → resolve_all merge enqueue cs fixups w ≡ (v, returned out)
      → (vs : List (Verdict K C)) × Verdicts cs vs
        × (out ≡ fixups ++ replacements vs)
        × (enqueue_all cs vs w ≡ (v, none))
  unfolding resolve_all
  resolve_all-Verdicts [] fixups w v out h =
      ([], tt, (ground (arith, append-nil fixups)), (ground arith))
  resolve_all-Verdicts ((c, m) ∷ cs) fixups w v out h =
      switch_account c m cs fixups w v out (merge c) (λ fs x. resolve_all-Verdicts cs fs x v out)
        refl h
