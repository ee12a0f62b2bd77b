-- ===== src/Stamp/Queue/History.antt =====
-- internal/util/stamp/queue.go: any row of calls on a new queue, against two plain first-in first-out
-- lists: the markers that were accepted and the values that were accepted.
use cdc_sink_redshift.Common.{
  ◌≡◌, refl, sym, ap, subst, ◌∙◌, Bool, Option, none, some, List, [], ◌∷◌, ◌++◌, arith,
  append_assoc, Option-cases, inl, inr,
}
use cdc_sink_redshift.Stamp.{IsStampOrder}
use cdc_sink_redshift.Stamp.Queue.{get_last?, Queue, QueueError, mark, push_value, enqueue, dequeue}
use cdc_sink_redshift.Stamp.Queue.Invariant.{Inv}
use cdc_sink_redshift.Stamp.Queue.Advance.{Settled, last_or}
use cdc_sink_redshift.Stamp.Queue.Calls.{
  refused, marked, empty, removed, kept_out, pushed, mark-Marked, dequeue-Dequeued, push-Pushed,
  enqueue-Inv,
}

pub data Call {ℓ} (S V : Type ℓ) : Type ℓ where
  marks : S → Call S V
  enqueues : V → Call S V
  dequeues : Call S V

-- The queue, beside what its callers have seen: the markers and the values accepted so far, and the
-- values handed out.
pub record Trace {ℓ} (S V : Type ℓ) : Type ℓ where
  pub queue : Queue S V
  pub accepted_markers : List S
  pub accepted_values : List V
  pub delivered : List V

abbrev accept {ℓ} : {A : Type ℓ} → Option QueueError → A → List A → List A
accept none a xs = xs ++ a ∷ []
accept (some e) a xs = xs

-- What `Coalesce` of the tail does with a new value, if the tail is `Coalescing`.
abbrev pub Coalesce {ℓ} : Type ℓ → Type ℓ
Coalesce V = V → V → Option (V × Option V)

-- The zero value of `Queue`.
abbrev pub new_trace {ℓ} : {S V : Type ℓ} → Trace S V
new_trace = record {
  queue = record { consistent = none; markers = []; values = [] };
  accepted_markers = [];
  accepted_values = [];
  delivered = [];
}

module _ {ℓ} {S V : Type ℓ} (same less : S → S → Bool) (stamp : V → S) (coalesce : Coalesce V) where
  after_dequeue : Trace S V → Option (Queue S V × Option V) → Option (Trace S V)
  after_dequeue t none = none
  after_dequeue t (some (q, none)) = some (record t { queue = q })
  after_dequeue t (some (q, some v)) =
      some (record t { queue = q; delivered = t.delivered ++ v ∷ [] })

  -- One call; `none` is a panic.
  pub step : Trace S V → Call S V → Option (Trace S V)
  unfolding after_dequeue
  step t (marks m) =
      let (q, e) = mark same less stamp t.queue m in
      some (record t { queue = q; accepted_markers = accept e m t.accepted_markers })
  step t (enqueues v) =
      let (q, e) = enqueue same less stamp coalesce t.queue v in
      some (record t { queue = q; accepted_values = accept e v t.accepted_values })
  step t dequeues = after_dequeue t (dequeue same less stamp t.queue)

  pub run : Trace S V → List (Call S V) → Option (Trace S V)
  run t [] = some t
  run t (c ∷ cs) = elim (step t c) [ none ↦ none | some t' ↦ run t' cs ]

  -- The queue holds the accepted markers but for a first part, which ends in the consistent stamp,
  -- and the accepted values but for those delivered.
  pub record Tracks (t : Trace S V) : Type ℓ where
    pub taken : List S
    pub markers : taken ++ t.queue.markers ≡ t.accepted_markers
    pub consistent : t.queue.consistent ≡ last_or none taken
    pub values : t.delivered ++ t.queue.values ≡ t.accepted_values
    pub inv : Inv same less stamp t.queue

  last_or-append :
      (c : Option S) (xs ys : List S) → last_or (last_or c xs) ys ≡ last_or c (xs ++ ys)
  last_or-append c [] ys = refl
  last_or-append c (x ∷ []) [] = refl
  last_or-append c (x ∷ []) (y ∷ ys) = refl
  last_or-append c (x ∷ y ∷ xs) ys = last_or-append c (y ∷ xs) ys

  -- Settling takes markers from the front and makes the last of them the consistent stamp.
  markers_settle :
      (taken ms accepted : List S) (q : Queue S V) (r : Queue S V × Option QueueError)
      → taken ++ ms ≡ accepted
      → q.markers ≡ ms
      → q.consistent ≡ last_or none taken
      → (s : Settled same less stamp q r)
      → ((taken ++ s.taken) ++ r.0.markers ≡ accepted)
        × (r.0.consistent ≡ last_or none (taken ++ s.taken))
  markers_settle taken ms accepted q r e m c s = (
    append_assoc taken s.taken r.0.markers ∙ ap (◌++◌ taken) (s.split ∙ m) ∙ e,
    s.consistent ∙ ap (λ x. last_or x s.taken) c ∙ last_or-append none taken s.taken,
  )

  -- No value is `Coalescing`.
  abbrev pub KeepsApart : Type ℓ
  KeepsApart = (a b : V) → coalesce a b ≡ none

  -- Values that do not coalesce are only pushed.
  enqueue_push :
      KeepsApart
      → (q : Queue S V) (v : V)
      → enqueue same less stamp coalesce q v ≡ push_value same less stamp q v
  unfolding enqueue
  enqueue_push apart q v = elim (Option-cases (get_last? q.values)) [
    | inl e ↦ rw (enqueue, e) refl
    | inr (t, e) ↦ rw (enqueue, e, apart t v) refl
  ]

  Next : Trace S V → Option (Trace S V) → Type ℓ
  Next t r = (t' : Trace S V) × (r ≡ some t') × Tracks t'

  module _ (o : IsStampOrder same less) (apart : KeepsApart) where
    mark-Tracks : (t : Trace S V) (m : S) → Tracks t → Next t (step t (marks m))
    unfolding Next step
    mark-Tracks t m k = elim (mark-Marked same less stamp o t.queue m k.inv) [
      | refused e bad r ↦ rw r (t, refl, k)
      | marked up s ↦
          let r = mark same less stamp t.queue m in
          let e =
            markers_settle k.taken (t.queue.markers ++ m ∷ []) (t.accepted_markers ++ m ∷ [])
              (record t.queue { markers = t.queue.markers ++ m ∷ [] }) r
              (sym (append_assoc k.taken t.queue.markers (m ∷ []))
                ∙ ap (λ xs. xs ++ m ∷ []) k.markers)
              refl k.consistent s in
          (
            record t { queue = r.0; accepted_markers = t.accepted_markers ++ m ∷ [] },
            ap
                (λ e.
                  some (record t { queue = r.0; accepted_markers = accept e m t.accepted_markers }))
                s.no_error,
            record {
              taken = k.taken ++ s.taken;
              markers = e.0;
              consistent = e.1;
              values = ap (◌++◌ t.delivered) s.values ∙ k.values;
              inv = s.inv;
            },
          )
    ]

    enqueue-Tracks : (t : Trace S V) (v : V) → Tracks t → Next t (step t (enqueues v))
    unfolding Next step
    enqueue-Tracks t v k =
        let i =
          enqueue-Inv same less stamp o coalesce
            (λ a b _ _ e. absurd (ground (arith, apart a b, e))) t.queue v k.inv in
        let q' = (enqueue same less stamp coalesce t.queue v).0 in
        let eq = enqueue_push apart t.queue v in
        elim (push-Pushed same less stamp o t.queue v k.inv) [
          | kept_out e bad r ↦ rw (eq, r) (t, refl, k)
          | pushed up r ↦ (
            record t {
              queue = record t.queue { values = t.queue.values ++ v ∷ [] };
              accepted_values = t.accepted_values ++ v ∷ [];
            },
            rw (eq, r) refl,
            record {
              taken = k.taken;
              markers = k.markers;
              consistent = k.consistent;
              values =
                  sym (append_assoc t.delivered t.queue.values (v ∷ []))
                  ∙ ap (λ xs. xs ++ v ∷ []) k.values;
              inv = subst (Inv same less stamp) (ap (λ x. x.0) (eq ∙ r)) i;
            },
          )
        ]

    dequeue-Tracks : (t : Trace S V) → Tracks t → Next t (step t dequeues)
    unfolding Next step
    dequeue-Tracks t k = elim (dequeue-Dequeued same less stamp o t.queue k.inv) [
      | empty e r ↦ rw r (t, refl, k)
      | removed v vs q e r s ↦
          let m =
            markers_settle k.taken t.queue.markers t.accepted_markers
              (record t.queue { values = vs }) (q, none) k.markers refl k.consistent s in
          (
            record t { queue = q; delivered = t.delivered ++ v ∷ [] },
            rw r refl,
            record {
              taken = k.taken ++ s.taken;
              markers = m.0;
              consistent = m.1;
              values =
                  append_assoc t.delivered (v ∷ []) q.values
                  ∙ ap (λ xs. t.delivered ++ v ∷ xs) s.values
                  ∙ ap (◌++◌ t.delivered) (sym e)
                  ∙ k.values;
              inv = s.inv;
            },
          )
    ]

    step-Tracks : (t : Trace S V) (c : Call S V) → Tracks t → Next t (step t c)
    step-Tracks t (marks m) k = mark-Tracks t m k
    step-Tracks t (enqueues v) k = enqueue-Tracks t v k
    step-Tracks t dequeues k = dequeue-Tracks t k

    run-Next : (t : Trace S V) (cs : List (Call S V)) → Tracks t → Next t (run t cs)
    unfolding Next run
    run-Next t [] k = (t, refl, k)
    run-Next t (c ∷ cs) k = let (u, e, l) = step-Tracks t c k in rw (e, run) (run-Next u cs l)

    -- With stamps in a strict weak order, and values none of which is `Coalescing`: no row of calls of
    -- Mark, Enqueue and Dequeue on a new queue panics, and after it the invariant holds, the markers
    -- accepted are a first part that ends in the consistent stamp followed by those still in the queue,
    -- and the values accepted are those delivered, in order, followed by those still in the queue.
    pub run-Tracks :
        (cs : List (Call S V)) → (t : Trace S V) × (run new_trace cs ≡ some t) × Tracks t
    unfolding Next
    run-Tracks cs = run-Next new_trace cs (record {
      taken = [];
      markers = refl;
      consistent = refl;
      values = refl;
      inv = record { rising = tt; queued = tt; caught_up = tt };
    })
