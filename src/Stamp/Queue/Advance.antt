-- ===== src/Stamp/Queue/Advance.antt =====
-- internal/util/stamp/queue.go: `advanceConsistentPoint` on ordered lists never fails, and takes
-- every marker that it may.
use mathlib.Core.List.{get_last?}
use cdc_sink_redshift.Common.{
  ◌≡◌, refl, inl, inr, Bool, true, Option, none, some, List, [], ◌∷◌, ◌++◌, arith, ap, subst, sym,
  ◌∙◌, All, append-nil, Bool-cases,
}
use cdc_sink_redshift.Stamp.{IsStampOrder}
use cdc_sink_redshift.Stamp.Order.{Below, Below-trans, compare-gt}
use cdc_sink_redshift.Stamp.Queue.{
  Queue, QueueError, set_consistent, drop_below, next_consistent, advance,
}
use cdc_sink_redshift.Stamp.Queue.Invariant.{Rising, Queued, CaughtUp, Inv, validate-none}

-- The last element of a list that is not empty.
abbrev pub last {ℓ} : {A : Type ℓ} → A → List A → A
last m [] = m
last m (x ∷ xs) = last x xs

-- The consistent stamp once the given markers are taken.
abbrev pub last_or {ℓ} : {A : Type ℓ} → Option A → List A → Option A
last_or c [] = c
last_or c (m ∷ ms) = some (last m ms)

get_last?-last {ℓ} : {A : Type ℓ} (m : A) (ms : List A) → get_last? (m ∷ ms) ≡ some (last m ms)
get_last?-last m [] = refl
get_last?-last m (x ∷ ms) = get_last?-last x ms

last_or-cons {ℓ} : {A : Type ℓ} (m : A) (ms : List A) → last_or (some m) ms ≡ last_or none (m ∷ ms)
last_or-cons m [] = refl
last_or-cons m (x ∷ ms) = refl

module _ {ℓ} {S V : Type ℓ} (same less : S → S → Bool) (stamp : V → S) where
  -- Every one of the markers is less than every queued value, seen at the first.
  abbrev pub BeforeValues : List S → List V → Type 0
  BeforeValues ms [] = Unit
  BeforeValues ms (v ∷ vs) = All (λ m. less m (stamp v) ≡ true) ms

  -- What a settled queue `r` took from the markers `ms`: the markers taken and those that stay make
  -- up `ms`, the taken ones precede the values, the last of them is the consistent stamp, and no
  -- other can be taken.
  pub record Settled (q : Queue S V) (r : Queue S V × Option QueueError) : Type ℓ where
    pub taken : List S
    pub no_error : r.1 ≡ none
    pub split : taken ++ r.0.markers ≡ q.markers
    pub consistent : r.0.consistent ≡ last_or q.consistent taken
    pub values : r.0.values ≡ q.values
    pub before : BeforeValues taken q.values
    pub inv : Inv same less stamp r.0

  -- The same of the pair that `next_consistent` computes.
  record Chosen (ms : List S) (vs : List V) (next : Option S) (r : Option S × List S) : Type ℓ where
    taken : List S
    split : taken ++ r.1 ≡ ms
    choice : r.0 ≡ last_or next taken
    before : BeforeValues taken vs
    caught_up : CaughtUp same less stamp r.1 vs

  drop_below-Chosen :
      (v : V) (vs : List V) (next : Option S) (ms : List S)
      → Chosen ms (v ∷ vs) next (drop_below same less (stamp v) next ms)
  unfolding drop_below
  drop_below-Chosen v vs next [] = record {
    taken = [];
    split = refl;
    choice = refl;
    before = tt;
    caught_up = tt;
  }
  drop_below-Chosen v vs next (m ∷ ms) = elim (Bool-cases (less m (stamp v))) [
    | inl below ↦
        let r = drop_below-Chosen v vs (some m) ms in
        rw below (record {
          taken = m ∷ r.taken;
          split = ap (◌∷◌ m) r.split;
          choice = r.choice ∙ last_or-cons m r.taken;
          before = (below, r.before);
          caught_up = r.caught_up;
        })
    | inr above ↦
        rw above
          (record { taken = []; split = refl; choice = refl; before = tt; caught_up = above })
  ]

  next_consistent-Chosen :
      (q : Queue S V) (vs : List V)
      → q.values ≡ vs
      → Chosen q.markers vs none (next_consistent same less stamp q)
  unfolding next_consistent
  next_consistent-Chosen q (v ∷ vs) e =
      rw (e, next_consistent) (drop_below-Chosen v vs none q.markers)
  next_consistent-Chosen q [] e = rw (e, next_consistent) (all q.markers)
    where
      all :
          (ms : List S)
          → Chosen ms [] none (elim (get_last? ms) [ none ↦ (none, ms) | some m ↦ (some m, []) ])
      all [] = record { taken = []; split = refl; choice = refl; before = tt; caught_up = tt }
      all (m ∷ ms) = rw (get_last?-last m ms) (record {
        taken = m ∷ ms;
        split = append-nil (m ∷ ms);
        choice = refl;
        before = tt;
        caught_up = tt;
      })

  All-last : (P : S → Type 0) (m : S) (ms : List S) → All P (m ∷ ms) → P (last m ms)
  All-last P m [] h = h.0
  All-last P m (x ∷ ms) h = All-last P x ms h.1

  BeforeValues-Queued :
      (m : S) (ms : List S) (c : Option S) (vs : List V)
      → BeforeValues (m ∷ ms) vs
      → Queued same less stamp c vs
      → Queued same less stamp (some (last m ms)) vs
  BeforeValues-Queued m ms c [] b h = tt
  BeforeValues-Queued m ms c (v ∷ vs) b h = (All-last (λ m. less m (stamp v) ≡ true) m ms b, h.1)

  module _ (o : IsStampOrder same less) where
    Rising-append :
        (c : Option S) (m : S) (ms rest : List S)
        → Rising same less stamp c (m ∷ (ms ++ rest))
        → Below same less c (some (last m ms)) × Rising same less stamp (some (last m ms)) rest
    Rising-append c m [] rest h = h
    Rising-append c m (x ∷ ms) rest h =
        let r = Rising-append (some m) x ms rest h.1 in
        (Below-trans same less o c (some m) (some (last x ms)) h.0 r.0, r.1)

    -- `setConsistent` succeeds where the next stamp is above the last one and below all that waits.
    set_consistent-ok :
        (q : Queue S V) (n : S)
        → Below same less q.consistent (some n)
        → Rising same less stamp (some n) q.markers
        → Queued same less stamp (some n) q.values
        → set_consistent same less stamp q n ≡ (record q { consistent = some n }, none)
    unfolding set_consistent
    set_consistent-ok q n b r v = ground (
      arith,
      compare-gt same less o (some n) q.consistent,
      validate-none same less stamp o (record q { consistent = some n }) r v,
    )

    advance_chosen :
        (q : Queue S V) (taken : List S)
        → taken ++ (next_consistent same less stamp q).1 ≡ q.markers
        → (next_consistent same less stamp q).0 ≡ last_or none taken
        → BeforeValues taken q.values
        → CaughtUp same less stamp (next_consistent same less stamp q).1 q.values
        → Rising same less stamp q.consistent q.markers
        → Queued same less stamp q.consistent q.values
        → Settled q (advance same less stamp q)
    unfolding advance
    advance_chosen q [] split choice before up r v =
        rw (choice, advance)
          (record {
            taken = [];
            no_error = refl;
            split = split;
            consistent = refl;
            values = refl;
            before = before;
            inv = record { rising = rw split r; queued = v; caught_up = up };
          })
    advance_chosen q (m ∷ ms) split choice before up r v =
        let rest = (next_consistent same less stamp q).1 in
        let n = last m ms in
        let q' : Queue S V = record q { markers = rest } in
        let a =
          Rising-append q.consistent m ms rest
            (subst (Rising same less stamp q.consistent) (sym split) r) in
        let w = BeforeValues-Queued m ms q.consistent q.values before v in
        rw (choice, advance)
          (rw (set_consistent-ok q' n a.0 a.1 w) (record {
            taken = m ∷ ms;
            no_error = refl;
            split = split;
            consistent = refl;
            values = refl;
            before = before;
            inv = record { rising = a.1; queued = w; caught_up = up };
          }))

    -- On ordered lists `advanceConsistentPoint` does not fail: it takes every marker below the first
    -- value, or all if no value waits, and makes the last of them the consistent stamp.
    pub advance-Settled :
        (q : Queue S V)
        → Rising same less stamp q.consistent q.markers
        → Queued same less stamp q.consistent q.values
        → Settled q (advance same less stamp q)
    advance-Settled q r v =
        let c = next_consistent-Chosen q q.values refl in
        advance_chosen q c.taken c.split c.choice c.before c.caught_up r v
