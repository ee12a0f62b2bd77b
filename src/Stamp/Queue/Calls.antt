-- ===== src/Stamp/Queue/Calls.antt =====
-- internal/util/stamp/queue.go: `Mark`, `Enqueue` and `Dequeue` on a queue that keeps the invariant,
-- on every branch.
use mathlib.Core.List.{get_last?}
use cdc_sink_redshift.Common.{
  ◌≡◌, refl, ap, subst, inl, inr, Bool, Option, none, some, List, map, [], ◌∷◌, ◌++◌, arith,
  Option-cases,
}
use cdc_sink_redshift.Stamp.{IsStampOrder}
use cdc_sink_redshift.Stamp.Order.{Below}
use cdc_sink_redshift.Stamp.Queue.{
  Queue, QueueError, validate, advance, mark, push_value, enqueue, dequeue, or_panic, set_last,
}
use cdc_sink_redshift.Stamp.Queue.Invariant.{
  Rising, NonFalling, Queued, CaughtUp, Inv, validate-none, Queued-push, Rising-push,
}
use cdc_sink_redshift.Stamp.Queue.Advance.{Settled, advance-Settled}

module _ {ℓ} {S V : Type ℓ} (same less : S → S → Bool) (stamp : V → S) where
  -- What `Mark` does: it refuses a marker that would not rise and changes nothing, or it adds the
  -- marker at the back and settles.
  pub data Marked (q : Queue S V) (m : S) (r : Queue S V × Option QueueError) : Type ℓ where
    refused :
        (e : QueueError)
        → ¬ Rising same less stamp q.consistent (q.markers ++ m ∷ [])
        → r ≡ (q, some e)
        → Marked q m r
    marked :
        Rising same less stamp q.consistent (q.markers ++ m ∷ [])
        → Settled same less stamp (record q { markers = q.markers ++ m ∷ [] }) r
        → Marked q m r

  -- What the last part of `Enqueue` does: it refuses a value that is out of order and changes
  -- nothing, or it adds the value at the back.
  pub data Pushed (q : Queue S V) (v : V) (r : Queue S V × Option QueueError) : Type ℓ where
    kept_out :
        (e : QueueError)
        → ¬ Queued same less stamp q.consistent (q.values ++ v ∷ [])
        → r ≡ (q, some e)
        → Pushed q v r
    pushed :
        Queued same less stamp q.consistent (q.values ++ v ∷ [])
        → r ≡ (record q { values = q.values ++ v ∷ [] }, none)
        → Pushed q v r

  -- What `Dequeue` does: nothing on an empty queue, else it removes the first value and settles.
  pub data Dequeued (q : Queue S V) (r : Option (Queue S V × Option V)) : Type ℓ where
    empty : q.values ≡ [] → r ≡ some (q, none) → Dequeued q r
    removed :
        (v : V) (vs : List V) (q' : Queue S V)
        → q.values ≡ v ∷ vs
        → r ≡ some (q', some v)
        → Settled same less stamp (record q { values = vs }) (q', none)
        → Dequeued q r

  module _ (o : IsStampOrder same less) where
    -- On a queue that meets the invariant `Mark` either refuses a marker that would not rise and changes
    -- nothing, or adds the marker at the back and settles the consistent stamp.
    pub mark-Marked :
        (q : Queue S V) (m : S) → Inv same less stamp q → Marked q m (mark same less stamp q m)
    unfolding mark
    mark-Marked q m i =
        let q' : Queue S V = record q { markers = q.markers ++ m ∷ [] } in
        elim (Option-cases (validate same less stamp q')) [
          | inl ok ↦
              let up = Rising-push same less stamp o q m i.rising ok in
              rw (ok, mark) (marked up (advance-Settled same less stamp o q' up i.queued))
          | inr (e, bad) ↦
              rw (bad, mark)
                (refused e (λ up. cc (bad, validate-none same less stamp o q' up i.queued)) refl)
        ]

    NonFalling-tail :
        (c : Option S) (v : V) (vs : List V)
        → Below same less c (some (stamp v))
        → NonFalling same less stamp v vs
        → Queued same less stamp c vs
    NonFalling-tail c v [] b h = tt
    NonFalling-tail none v (w ∷ ws) b h = (tt, h.1)
    NonFalling-tail (some c) v (w ∷ ws) b h =
        (ground (arith, o.cotrans c (stamp v) (stamp w), o.asym (stamp v) (stamp w)), h.1)

    settle_dequeue :
        (q : Queue S V) (v : V) (r : Queue S V × Option QueueError)
        → Settled same less stamp q r
        → (or_panic v r ≡ some (r.0, some v)) × Settled same less stamp q (r.0, none)
    unfolding or_panic
    settle_dequeue q v (q', e) s = rw s.no_error (
      refl,
      record {
        taken = s.taken;
        no_error = refl;
        split = s.split;
        consistent = s.consistent;
        values = s.values;
        before = s.before;
        inv = s.inv;
      },
    )

    -- On a queue that meets the invariant `Dequeue` does not panic: it changes nothing on an empty queue,
    -- and otherwise takes the first value and settles the consistent stamp.
    pub dequeue-Dequeued :
        (q : Queue S V) → Inv same less stamp q → Dequeued q (dequeue same less stamp q)
    unfolding dequeue
    dequeue-Dequeued q i = go q.values refl
      where
        go : (vs : List V) → q.values ≡ vs → Dequeued q (dequeue same less stamp q)
        go [] e = empty e (ground arith)
        go (v ∷ vs) e =
            let w = subst (Queued same less stamp q.consistent) e i.queued in
            let q' : Queue S V = record q { values = vs } in
            let s = settle_dequeue q' v (advance same less stamp q') (
              advance-Settled same less stamp o q' i.rising
                (NonFalling-tail q.consistent v vs w.0 w.1)) in
            removed v vs (advance same less stamp q').0 e (rw (e, dequeue) s.0) s.1

    -- On a queue that meets the invariant a new value is either refused, since it is out of order, and
    -- changes nothing, or added at the back.
    pub push-Pushed :
        (q : Queue S V) (v : V)
        → Inv same less stamp q
        → Pushed q v (push_value same less stamp q v)
    unfolding push_value
    push-Pushed q v i =
        let q' : Queue S V = record q { values = q.values ++ v ∷ [] } in
        elim (Option-cases (validate same less stamp q')) [
          | inl ok ↦
              rw (ok, push_value) (pushed (Queued-push same less stamp o q v i.queued ok) refl)
          | inr (e, bad) ↦
              rw (bad, push_value)
                (kept_out e (λ up. cc (bad, validate-none same less stamp o q' i.rising up)) refl)
        ]

    Queued-map :
        (c : Option S) (vs ws : List V)
        → map stamp vs ≡ map stamp ws
        → Queued same less stamp c vs
        → Queued same less stamp c ws
    Queued-map c [] [] e h = tt
    Queued-map c [] (w ∷ ws) e h = ground arith
    Queued-map c (v ∷ vs) [] e h = tt
    Queued-map c (v ∷ vs) (w ∷ ws) e h =
        (ground arith, tail v w vs ws (ground arith) (ground arith) h.1)
      where
        tail :
            (v w : V) (vs ws : List V)
            → stamp v ≡ stamp w
            → map stamp vs ≡ map stamp ws
            → NonFalling same less stamp v vs
            → NonFalling same less stamp w ws
        tail v w [] [] e f h = tt
        tail v w [] (x ∷ ws) e f h = ground arith
        tail v w (y ∷ vs) [] e f h = tt
        tail v w (y ∷ vs) (x ∷ ws) e f h =
            (ground arith, tail y x vs ws (ground arith) (ground arith) h.1)

    CaughtUp-map :
        (ms : List S) (vs ws : List V)
        → map stamp vs ≡ map stamp ws
        → CaughtUp same less stamp ms vs
        → CaughtUp same less stamp ms ws
    CaughtUp-map [] vs ws e h = tt
    CaughtUp-map (m ∷ ms) [] ws e h = elim h [ ]
    CaughtUp-map (m ∷ ms) (v ∷ vs) [] e h = ground arith
    CaughtUp-map (m ∷ ms) (v ∷ vs) (w ∷ ws) e h = ground arith

    map-set_last :
        (vs : List V) (t t' : V)
        → get_last? vs ≡ some t
        → stamp t' ≡ stamp t
        → map stamp vs ≡ map stamp (set_last vs t')
    unfolding set_last
    map-set_last [] t t' g e = refl
    map-set_last (v ∷ []) t t' g e = ground arith
    map-set_last (v ∷ w ∷ vs) t t' g e = ap (◌∷◌ (stamp v)) (map-set_last (w ∷ vs) t t' g e)

    CaughtUp-push :
        (ms : List S) (vs : List V) (v : V)
        → CaughtUp same less stamp ms vs
        → CaughtUp same less stamp ms (vs ++ v ∷ [])
    CaughtUp-push [] vs v h = tt
    CaughtUp-push (m ∷ ms) [] v h = elim h [ ]
    CaughtUp-push (m ∷ ms) (w ∷ ws) v h = h

    push-Inv :
        (q : Queue S V) (v : V)
        → Inv same less stamp q
        → Inv same less stamp (push_value same less stamp q v).0
    push-Inv q v i = elim (push-Pushed q v i) [
      | kept_out e bad r ↦ rw r i
      | pushed up r ↦ rw r (record {
        rising = i.rising;
        queued = up;
        caught_up = CaughtUp-push q.markers q.values v i.caught_up;
      })
    ]

    -- A tail value that took in another, at the same stamp.
    coalesced-Inv :
        (q : Queue S V) (t t' : V)
        → get_last? q.values ≡ some t
        → stamp t' ≡ stamp t
        → Inv same less stamp q
        → Inv same less stamp (record q { values = set_last q.values t' })
    coalesced-Inv q t t' g e i =
        let m = map-set_last q.values t t' g e in
        record {
          rising = i.rising;
          queued = Queued-map q.consistent q.values (set_last q.values t') m i.queued;
          caught_up = CaughtUp-map q.markers q.values (set_last q.values t') m i.caught_up;
        }

    module _ (coalesce : V → V → Option (V × Option V))
        (keeps : (t n t' : V) (r : Option V)
          → coalesce t n ≡ some (t', r)
          → stamp t' ≡ stamp t) where
      enqueue_tail :
          (q : Queue S V) (next : V) (t : V)
          → get_last? q.values ≡ some t
          → Inv same less stamp q
          → Inv same less stamp (enqueue same less stamp coalesce q next).0
      unfolding enqueue
      enqueue_tail q next t g i = go (coalesce t next) refl
        where
          go :
              (c : Option (V × Option V))
              → coalesce t next ≡ c
              → Inv same less stamp (enqueue same less stamp coalesce q next).0
          go none e = rw (g, enqueue) (rw e (push-Inv q next i))
          go (some (t', none)) e =
              rw (g, enqueue) (rw e (coalesced-Inv q t t' g (keeps t next t' none e) i))
          go (some (t', some v)) e =
              rw (g, enqueue)
                (rw e (
                  push-Inv (record q { values = set_last q.values t' }) v
                    (coalesced-Inv q t t' g (keeps t next t' (some v) e) i)))

      -- `Enqueue` keeps the invariant whether it adds the value, refuses it or the tail takes it in.
      pub enqueue-Inv :
          (q : Queue S V) (next : V)
          → Inv same less stamp q
          → Inv same less stamp (enqueue same less stamp coalesce q next).0
      unfolding enqueue
      enqueue-Inv q next i = elim (Option-cases (get_last? q.values)) [
        | inl e ↦ rw (e, enqueue) (push-Inv q next i)
        | inr (t, e) ↦ enqueue_tail q next t e i
      ]
