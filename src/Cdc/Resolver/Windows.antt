-- ===== src/Cdc/Resolver/Windows.antt =====
-- internal/source/cdc/resolver.go: which mutations the batches of `process` hold.
use cdc_sink_redshift.Common.{
  ℕ, ◌≡◌, refl, sym, ap, subst, ◌∙◌, inl, inr, Bool, true, false, Option, none, some, List, [], ◌∷◌,
  ◌++◌, length, arith, Bool-cases, append-nil, append_assoc, All, All-append, All-map,
}
use cdc_sink_redshift.Hlc.{Time, zero_time, Before, IsValid}
use cdc_sink_redshift.Hlc.Order.{compare-sign}
use cdc_sink_redshift.Ident.{Table}
use cdc_sink_redshift.Types.{Mutation}
use cdc_sink_redshift.Cdc.Stamps.{Offset}
use cdc_sink_redshift.Cdc.Stamps.Order.{Before-cotrans}
use cdc_sink_redshift.Cdc.Stamps.Steps.{NotAfter, NotAfter-trans, NotAfter_refl, zero_time-IsValid}
use cdc_sink_redshift.Cdc.Resolver.{Config, Event, mutation, cursor_set, query_failed, needs_flush}
use cdc_sink_redshift.Cdc.Resolver.Plan.{
  Row, Plan, finish, batch, broken, plan, plan-quiet, plan-flush,
}

-- The rows of all the batches of a plan, in their order.
abbrev pub rows_in : {E : Type 0} → Plan E → List Row
rows_in (finish acc c) = acc
rows_in (batch acc c p) = acc ++ rows_in p
rows_in (broken e) = []

-- The rows that the events bring, if the query does not fail.
abbrev pub received : {E : Type 0} → List (Event E) → Option (List Row)
received [] = some []
received (cursor_set c ∷ evs) = received evs
received (query_failed e ∷ evs) = none
received (mutation t m ∷ evs) = elim (received evs) [
  | none ↦ none
  | some rows ↦ some ((t, m) ∷ rows)
]

pub received-mutation :
    {E : Type 0} (evs : List (Event E)) (t : Table) (m : Mutation) (rows : List Row)
    → received (mutation t m ∷ evs) ≡ some rows
    → (rest : List Row) × (received evs ≡ some rest) × (rows ≡ (t, m) ∷ rest)
received-mutation evs t m rows h = go (received evs) refl h
  where
    go :
        (o : Option (List Row))
        → received evs ≡ o
        → (elim o [ none ↦ none | some r ↦ some ((t, m) ∷ r) ]) ≡ some rows
        → (rest : List Row) × (received evs ≡ some rest) × (rows ≡ (t, m) ∷ rest)
    go none e k = absurd (ground arith)
    go (some r) e k = (r, e, ground arith)

NotAfter-Before : (x e y : Time) → NotAfter x e → Before e y → Before x y
NotAfter-Before x e y n h = elim (Before-cotrans e y x h) [ inl p ↦ absurd (n p) | inr p ↦ p ]

Before-NotAfter : (x e y : Time) → Before x e → NotAfter e y → Before x y
Before-NotAfter x e y h n = elim (Before-cotrans x e y h) [ inl p ↦ p | inr p ↦ absurd (n p) ]

flush_Before :
    (cfg : Config) (n : ℕ) (e t : Time)
    → IsValid e
    → IsValid t
    → needs_flush cfg false n e t ≡ true
    → Before e t
unfolding needs_flush
flush_Before cfg n e t ve vt h = (compare-sign t e vt ve).1.0 (ground arith)

-- Every time is valid and not before the one that precedes it.
abbrev pub SortedFrom : {E : Type 0} → Time → List (Event E) → Type 0
SortedFrom e [] = Unit
SortedFrom e (cursor_set c ∷ evs) = SortedFrom e evs
SortedFrom e (query_failed x ∷ evs) = Unit
SortedFrom e (mutation t m ∷ evs) = IsValid m.time × NotAfter e m.time × SortedFrom m.time evs

-- Every row of a batch is before every row of the batches that follow.
abbrev pub Apart : {E : Type 0} → Plan E → Type 0
Apart (finish acc c) = Unit
Apart (broken e) = Unit
Apart (batch acc c p) =
    All (λ (x : Row). All (λ (y : Row). Before x.1.time y.1.time) (rows_in p)) acc × Apart p

module _ {E : Type 0} (cfg : Config) where
  pub plan-rows :
      (b : Bool) (epoch : Time) (acc : List Row) (c : Offset) (evs : List (Event E))
      (rows : List Row)
      → received evs ≡ some rows
      → rows_in (plan cfg b epoch acc c evs) ≡ acc ++ rows
  unfolding plan
  plan-rows b epoch acc c [] rows h =
      let e : [] ≡ rows = ground arith in sym (append-nil acc) ∙ ap (λ r. acc ++ r) e
  plan-rows b epoch acc c (cursor_set d ∷ evs) rows h = plan-rows b epoch acc d evs rows h
  plan-rows b epoch acc c (query_failed e ∷ evs) rows h = absurd (ground arith)
  plan-rows b epoch acc c (mutation t m ∷ evs) rows h =
      let (rest, k, e) = received-mutation evs t m rows h in
      elim (Bool-cases (needs_flush cfg b (length acc) epoch m.time)) [
        | inl q ↦
            ap rows_in (plan-flush cfg b epoch acc c t m evs q)
            ∙ ap (λ r. acc ++ r) (plan-rows b m.time ((t, m) ∷ []) c evs rest k ∙ sym e)
        | inr q ↦
            ap rows_in (plan-quiet cfg b epoch acc c t m evs q)
            ∙ plan-rows b m.time (acc ++ (t, m) ∷ []) c evs rest k
            ∙ append_assoc acc ((t, m) ∷ []) rest
            ∙ ap (λ r. acc ++ r) (sym e)
      ]

  -- The batches of `process`, one after another, hold every row that the query brings, once and in
  -- the order of the query, whatever the sizes of pages and batches.
  pub plan-received :
      (b : Bool) (c : Offset) (evs : List (Event E)) (rows : List Row)
      → received evs ≡ some rows
      → rows_in (plan cfg b zero_time [] c evs) ≡ rows
  plan-received b c evs rows h = plan-rows b zero_time [] c evs rows h

  -- What holds of the rows kept and of every later time holds of all rows of the plan.
  plan-All :
      (P : Row → Type 0) (epoch : Time) (acc : List Row) (c : Offset) (evs : List (Event E))
      → SortedFrom epoch evs
      → All P acc
      → ((y : Row) → NotAfter epoch y.1.time → P y)
      → All P (rows_in (plan cfg false epoch acc c evs))
  unfolding plan
  plan-All P epoch acc c [] s h later = h
  plan-All P epoch acc c (cursor_set d ∷ evs) s h later = plan-All P epoch acc d evs s h later
  plan-All P epoch acc c (query_failed e ∷ evs) s h later = tt
  plan-All P epoch acc c (mutation t m ∷ evs) s h later =
      let p = later (t, m) s.1 in
      let on = λ (y : Row) (n : NotAfter m.time y.1.time).
        later y (NotAfter-trans epoch m.time y.1.time s.1 n) in
      elim (Bool-cases (needs_flush cfg false (length acc) epoch m.time)) [
        | inl q ↦
            subst (λ r. All P (rows_in r)) (sym (plan-flush cfg false epoch acc c t m evs q))
              (All-append P acc _ h (plan-All P m.time ((t, m) ∷ []) c evs s.2 (p, tt) on))
        | inr q ↦
            subst (λ r. All P (rows_in r)) (sym (plan-quiet cfg false epoch acc c t m evs q))
              (plan-All P m.time (acc ++ (t, m) ∷ []) c evs s.2
                (All-append P acc ((t, m) ∷ []) h (p, tt)) on)
      ]

  plan-Apart :
      (epoch : Time) (acc : List Row) (c : Offset) (evs : List (Event E))
      → IsValid epoch
      → SortedFrom epoch evs
      → All (λ (x : Row). NotAfter x.1.time epoch) acc
      → Apart (plan cfg false epoch acc c evs)
  unfolding plan
  plan-Apart epoch acc c [] v s h = tt
  plan-Apart epoch acc c (cursor_set d ∷ evs) v s h = plan-Apart epoch acc d evs v s h
  plan-Apart epoch acc c (query_failed e ∷ evs) v s h = tt
  plan-Apart epoch acc c (mutation t m ∷ evs) v s h =
      let own : NotAfter m.time m.time = NotAfter_refl m.time in
      elim (Bool-cases (needs_flush cfg false (length acc) epoch m.time)) [
        | inl q ↦
            let up = flush_Before cfg (length acc) epoch m.time v s.0 q in
            subst Apart (sym (plan-flush cfg false epoch acc c t m evs q)) (
              All-map
                  (λ x n.
                    let b = NotAfter-Before x.1.time epoch m.time n up in
                    plan-All (λ (y : Row). Before x.1.time y.1.time) m.time ((t, m) ∷ []) c evs s.2
                      (b, tt) (λ y k. Before-NotAfter x.1.time m.time y.1.time b k))
                  acc h,
              plan-Apart m.time ((t, m) ∷ []) c evs s.0 s.2 (own, tt),
            )
        | inr q ↦ subst Apart (sym (plan-quiet cfg false epoch acc c t m evs q)) (
            plan-Apart m.time (acc ++ (t, m) ∷ []) c evs s.0 s.2 (
              All-append (λ (x : Row). NotAfter x.1.time m.time) acc ((t, m) ∷ [])
                (All-map (λ x n. NotAfter-trans x.1.time epoch m.time n s.1) acc h) (own, tt)))
      ]

  -- Outside a backfill, if the query brings the mutations in the order of their times, every mutation of
  -- a batch of `process` is before every mutation of the batches that follow: the mutations of one
  -- timestamp, and so of one transaction, are never in two batches.
  pub plan-transactions :
      (c : Offset) (evs : List (Event E))
      → SortedFrom zero_time evs
      → Apart (plan cfg false zero_time [] c evs)
  plan-transactions c evs s = plan-Apart zero_time [] c evs zero_time-IsValid s tt
