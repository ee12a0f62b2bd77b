-- ===== src/Logical/Ordered/Commit.antt =====
-- internal/source/logical/ordered_events.go: the data is written level by level.
use cdc_sink_redshift.Common.{
  ℕ, zero, suc, ◌+◌, ◌<◌, ◌≤◌, ◌≡◌, ◌≢◌, refl, sym, ap, subst, ◌∙◌, Option, none, some, List, [],
  ◌∷◌, ◌++◌, append-nil, append_assoc, if◌then◌else◌, ◌==◌, ==_iff, length, arith, All, not_true,
}
use cdc_sink_redshift.Ident.{Table}
use cdc_sink_redshift.Logical.Ordered.{
  DeferredData, Delegate, OrderedError, data_failed, empty_levels, append_at, wrap, on_data_at,
  write_all, on_commit, apply_all,
}

empty_levels-length : (n : ℕ) → length (empty_levels n) ≡ n
unfolding empty_levels
empty_levels-length zero = refl
empty_levels-length (suc n) = ap suc (empty_levels-length n)

module _ (level : Table → Option ℕ) where
  -- A call before others, if its level is the one given.
  abbrev select : ℕ → Option ℕ → DeferredData → List DeferredData → List DeferredData
  select k none d rest = rest
  select k (some j) d rest = if j == k then d ∷ rest else rest

  -- The calls for the tables of a level, in their order.
  abbrev pub at_level : ℕ → List DeferredData → List DeferredData
  at_level k [] = []
  at_level k (d ∷ ds) = select k (level d.target) d (at_level k ds)

  -- The calls by level, from a level on.
  abbrev pub by_level : ℕ → ℕ → List DeferredData → List (List DeferredData)
  by_level zero k ds = []
  by_level (suc n) k ds = at_level k ds ∷ by_level n (suc k) ds

  -- The calls added to what is put off already.
  abbrev add_levels : List (List DeferredData) → ℕ → List DeferredData → List (List DeferredData)
  add_levels [] k ds = []
  add_levels (x ∷ xs) k ds = (x ++ at_level k ds) ∷ add_levels xs (suc k) ds

  at_level-hit :
      (k : ℕ) (d : DeferredData) (ds : List DeferredData)
      → level d.target ≡ some k
      → at_level k (d ∷ ds) ≡ d ∷ at_level k ds
  at_level-hit k d ds e =
      ap (λ o. select k o d (at_level k ds)) e
      ∙ ap (λ b. if b then d ∷ at_level k ds else at_level k ds) ((==_iff k k).1 refl)

  at_level-miss :
      (k j : ℕ) (d : DeferredData) (ds : List DeferredData)
      → level d.target ≡ some j
      → j ≢ k
      → at_level k (d ∷ ds) ≡ at_level k ds
  at_level-miss k j d ds e h =
      ap (λ o. select k o d (at_level k ds)) e
      ∙ ap (λ b. if b then d ∷ at_level k ds else at_level k ds)
          (not_true (j == k) (λ q. h ((==_iff j k).0 q)))

  add_levels-nil : (xs : List (List DeferredData)) (k : ℕ) → add_levels xs k [] ≡ xs
  add_levels-nil [] k = refl
  add_levels-nil (x ∷ xs) k = λ i. append-nil x i ∷ add_levels-nil xs (suc k) i

  add_levels-empty :
      (n k : ℕ) (ds : List DeferredData) → add_levels (empty_levels n) k ds ≡ by_level n k ds
  unfolding empty_levels
  add_levels-empty zero k ds = refl
  add_levels-empty (suc n) k ds = ap (◌∷◌ (at_level k ds)) (add_levels-empty n (suc k) ds)

  -- A call of a lower level adds nothing.
  add_levels-lower :
      (xs : List (List DeferredData)) (k j : ℕ) (d : DeferredData) (ds : List DeferredData)
      → level d.target ≡ some j
      → j < k
      → add_levels xs k (d ∷ ds) ≡ add_levels xs k ds
  add_levels-lower [] k j d ds e h = refl
  add_levels-lower (x ∷ xs) k j d ds e h = λ i.
      (x ++ at_level-miss k j d ds e (λ q. absurd (omega (arith, q, h))) i)
      ∷ add_levels-lower xs (suc k) j d ds e (omega (arith, h)) i

  -- What putting off a call does.
  append_at-adds :
      (xs : List (List DeferredData)) (k start : ℕ) (d : DeferredData) (ds : List DeferredData)
      → level d.target ≡ some (start + k)
      → k < length xs
      → (ys : List (List DeferredData)) × (append_at xs k d ≡ some ys)
        × (length ys ≡ length xs)
        × (add_levels ys start ds ≡ add_levels xs start (d ∷ ds))
  unfolding append_at
  append_at-adds [] k start d ds e h = absurd (omega arith)
  append_at-adds (x ∷ xs) zero start d ds e h =
      let f : level d.target ≡ some start = e ∙ ap some (omega arith) in
      (
        (x ++ d ∷ []) ∷ xs,
        refl,
        refl,
        λ i.
            (append_assoc x (d ∷ []) (at_level start ds)
                ∙ ap (λ r. x ++ r) (sym (at_level-hit start d ds f)))
              i
            ∷ sym (add_levels-lower xs (suc start) start d ds f (omega arith)) i,
      )
  append_at-adds (x ∷ xs) (suc k) start d ds e h =
      let (ys, a, n, r) =
        append_at-adds xs k (suc start) d ds (e ∙ ap some (omega arith)) (omega (arith, h)) in
      (
        x ∷ ys,
        rw a refl,
        ap suc n,
        λ i.
            (x
              ++ sym (at_level-miss start (start + suc k) d ds e (λ q. absurd (omega (arith, q))))
                  i)
            ∷ r i,
      )

  module _ {S E : Type 0} (delegate : Delegate S E) where
    -- The commit after the data of the first level, if that was written.
    abbrev pub then_commit :
        List (List DeferredData) → S × Option (OrderedError E) → S × Option (OrderedError E)
    then_commit levels (s, some e) = (s, some e)
    then_commit levels (s, none) = on_commit delegate levels s

    -- A call is for a table of one of the levels.
    abbrev pub IsKnown : ℕ → DeferredData → Type 0
    IsKnown n d = (k : ℕ) × (level d.target ≡ some k) × (k ≤ n)

    -- What follows a call of `OnData`.
    abbrev resume :
        List DeferredData
        → Option (List (List DeferredData) × S × Option (OrderedError E))
        → Option (S × Option (OrderedError E))
    resume ds none = none
    resume ds (some (deferred, s, some e)) = some (s, some e)
    resume ds (some (deferred, s, none)) = apply_all delegate level ds deferred s

    apply_all-resume :
        (d : DeferredData) (ds : List DeferredData) (deferred : List (List DeferredData)) (s : S)
        → apply_all delegate level (d ∷ ds) deferred s
          ≡ resume ds (on_data_at delegate (level d.target) deferred d s)
    unfolding apply_all
    apply_all-resume d ds deferred s = go (on_data_at delegate (level d.target) deferred d s)
      where
        go :
            (o : Option (List (List DeferredData) × S × Option (OrderedError E)))
            → (elim o [
              | none ↦ none
              | some (deferred', s', some e) ↦ some (s', some e)
              | some (deferred', s', none) ↦ apply_all delegate level ds deferred' s'
            ])
              ≡ resume ds o
        go none = refl
        go (some (deferred', s', some e)) = refl
        go (some (deferred', s', none)) = refl

    -- A call for a table of the first level is passed on.
    first_level :
        (d : DeferredData) (ds : List DeferredData) (deferred : List (List DeferredData)) (s : S)
        → ((t : S)
            → apply_all delegate level ds deferred t
              ≡ some
                  (then_commit (add_levels deferred 1 ds) (write_all delegate (at_level 0 ds) t)))
        → resume ds (on_data_at delegate (some zero) deferred d s)
          ≡ some (then_commit (add_levels deferred 1 ds) (write_all delegate (d ∷ at_level 0 ds) s))
    unfolding on_data_at write_all wrap
    first_level d ds deferred s ih = go (delegate.on_data d s)
      where
        go :
            (x : S × Option E)
            → resume ds
                (some (deferred, (wrap delegate data_failed x).0, (wrap delegate data_failed x).1))
              ≡ some (
                  then_commit (add_levels deferred 1 ds) (elim x.1 [
                    | some e ↦ (x.0, some (data_failed e))
                    | none ↦ write_all delegate (at_level 0 ds) x.0
                  ]))
        go (t, some e) = refl
        go (t, none) = ih t

    Levels : List DeferredData → Type 0
    Levels ds =
        (deferred : List (List DeferredData)) (s : S)
        → All (IsKnown (length deferred)) ds
        → apply_all delegate level ds deferred s
          ≡ some (then_commit (add_levels deferred 1 ds) (write_all delegate (at_level 0 ds) s))

    next_level : (d : DeferredData) (ds : List DeferredData) → Levels ds → Levels (d ∷ ds)
    unfolding on_data_at Levels
    next_level d ds ih deferred s ((zero, e, b), h) =
        apply_all-resume d ds deferred s
        ∙ ap (λ o. resume ds (on_data_at delegate o deferred d s)) e
        ∙ first_level d ds deferred s (λ t. ih deferred t h)
        ∙ (λ i. some (
            then_commit (sym (add_levels-lower deferred 1 0 d ds e (omega arith)) i)
              (write_all delegate (sym (at_level-hit 0 d ds e) i) s)))
    next_level d ds ih deferred s ((suc k, e, b), h) =
        let (ys, a, n, r) =
          append_at-adds deferred k 1 d ds (e ∙ ap some (omega arith)) (omega (arith, b)) in
        apply_all-resume d ds deferred s
        ∙ ap (λ o. resume ds (on_data_at delegate o deferred d s)) e
        ∙ ap (λ o. resume ds (elim o [ none ↦ none | some deferred' ↦ some (deferred', s, none) ]))
            a
        ∙ ih ys s (subst (λ m. All (IsKnown m) ds) (sym n) h)
        ∙ (λ i. some (
            then_commit (r i) (
              write_all delegate
                (sym (at_level-miss 0 (suc k) d ds e (λ q. absurd (omega (arith, q)))) i) s)))

    all_calls : (ds : List DeferredData) → Levels ds
    unfolding apply_all write_all Levels
    all_calls [] deferred s h =
        ap (λ xs. some (on_commit delegate xs s)) (sym (add_levels-nil deferred 1))
    all_calls (d ∷ ds) deferred s h = next_level d ds (all_calls ds) deferred s h

    -- Data for tables of known levels, in any order, is written level by level and in its order within a
    -- level: the first level at once, and every other at the commit, once all before it is flushed; the
    -- first error ends it. No call is out of range.
    pub apply_all-levels :
        (n : ℕ) (ds : List DeferredData) (s : S)
        → All (IsKnown n) ds
        → apply_all delegate level ds (empty_levels n) s
          ≡ some (then_commit (by_level n 1 ds) (write_all delegate (at_level 0 ds) s))
    unfolding Levels
    apply_all-levels n ds s h =
        all_calls ds (empty_levels n) s
          (subst (λ m. All (IsKnown m) ds) (sym (empty_levels-length n)) h)
        ∙ ap (λ xs. some (then_commit xs (write_all delegate (at_level 0 ds) s)))
            (add_levels-empty n 1 ds)
