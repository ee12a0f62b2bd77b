-- ===== src/Stamp/Queue/Invariant.antt =====
-- internal/util/stamp/queue.go: the invariant that the comments of `validate` number, and what
-- `validate` says of a queue that grew by one element at the back.
use cdc_sink_redshift.Common.{
  ◌≡◌, refl, Bool, false, Option, none, some, List, [], ◌∷◌, ◌++◌, arith,
}
use cdc_sink_redshift.Stamp.{IsStampOrder}
use cdc_sink_redshift.Stamp.Order.{Below, compare-lt, compare-gt}
use cdc_sink_redshift.Stamp.Queue.{
  Queue, last_two, check_values, check_markers, check_first_value, check_first_marker, validate,
}

module _ {ℓ} {S V : Type ℓ} (same less : S → S → Bool) (stamp : V → S) where
  -- Markers rise strictly, from above the given stamp (invariants 2 and 4).
  abbrev pub Rising : Option S → List S → Type 0
  Rising c [] = Unit
  Rising c (m ∷ ms) = Below same less c (some m) × Rising (some m) ms

  -- Values never fall, from the given value on (invariant 1).
  abbrev pub NonFalling : V → List V → Type 0
  NonFalling v [] = Unit
  NonFalling v (w ∷ ws) = (less (stamp w) (stamp v) ≡ false) × NonFalling w ws

  -- Values never fall, and the first is above the given stamp (invariants 1 and 3).
  abbrev pub Queued : Option S → List V → Type 0
  Queued c [] = Unit
  Queued c (v ∷ vs) = Below same less c (some (stamp v)) × NonFalling v vs

  -- No marker waits that the consistent stamp could have taken.
  abbrev pub CaughtUp : List S → List V → Type 0
  CaughtUp [] vs = Unit
  CaughtUp (m ∷ ms) [] = ⊥
  CaughtUp (m ∷ ms) (v ∷ vs) = less m (stamp v) ≡ false

  pub record Inv (q : Queue S V) : Type 0 where
    pub rising : Rising q.consistent q.markers
    pub queued : Queued q.consistent q.values
    pub caught_up : CaughtUp q.markers q.values

  module _ (o : IsStampOrder same less) where
    check_values-NonFalling :
        (v : V) (vs : List V) → NonFalling v vs → check_values same less stamp (v ∷ vs) ≡ none
    unfolding check_values last_two
    check_values-NonFalling v [] h = refl
    check_values-NonFalling v (w ∷ []) h =
        ground (arith, compare-lt same less o (some (stamp w)) (some (stamp v)))
    check_values-NonFalling v (w ∷ x ∷ vs) h = check_values-NonFalling w (x ∷ vs) h.1

    check_values-push :
        (v : V) (vs : List V) (x : V)
        → NonFalling v vs
        → check_values same less stamp (v ∷ (vs ++ x ∷ [])) ≡ none
        → NonFalling v (vs ++ x ∷ [])
    unfolding check_values last_two
    check_values-push v [] x h e =
        (ground (arith, compare-lt same less o (some (stamp x)) (some (stamp v))), tt)
    check_values-push v (w ∷ []) x h e =
        (h.0, (ground (arith, compare-lt same less o (some (stamp x)) (some (stamp w))), tt))
    check_values-push v (w ∷ y ∷ vs) x h e = (h.0, check_values-push w (y ∷ vs) x h.1 e)

    check_values_all :
        (c : Option S) (vs : List V) → Queued c vs → check_values same less stamp vs ≡ none
    unfolding check_values last_two
    check_values_all c [] h = refl
    check_values_all c (v ∷ vs) h = check_values-NonFalling v vs h.1

    check_markers-Rising :
        (c : Option S) (ms : List S) → Rising c ms → check_markers same less ms ≡ none
    unfolding check_markers last_two
    check_markers-Rising c [] h = refl
    check_markers-Rising c (m ∷ []) h = refl
    check_markers-Rising c (m ∷ n ∷ []) h = ground (arith, compare-gt same less o (some n) (some m))
    check_markers-Rising c (m ∷ n ∷ p ∷ ms) h = check_markers-Rising (some m) (n ∷ p ∷ ms) h.1

    check_markers-push :
        (c : Option S) (m : S) (ms : List S) (x : S)
        → Rising c (m ∷ ms)
        → check_markers same less (m ∷ (ms ++ x ∷ [])) ≡ none
        → Rising c (m ∷ (ms ++ x ∷ []))
    unfolding check_markers last_two
    check_markers-push c m [] x h e =
        (h.0, (ground (arith, compare-gt same less o (some x) (some m)), tt))
    check_markers-push c m (n ∷ []) x h e =
        (h.0, (h.1.0, (ground (arith, compare-gt same less o (some x) (some n)), tt)))
    check_markers-push c m (n ∷ p ∷ ms) x h e =
        (h.0, check_markers-push (some m) n (p ∷ ms) x h.1 e)

    check_first_value-Queued :
        (c : Option S) (vs : List V) → Queued c vs → check_first_value same less stamp c vs ≡ none
    unfolding check_first_value
    check_first_value-Queued c [] h = refl
    check_first_value-Queued c (v ∷ vs) h =
        ground (arith, compare-lt same less o c (some (stamp v)))

    check_first_marker-Rising :
        (c : Option S) (ms : List S) → Rising c ms → check_first_marker same less c ms ≡ none
    unfolding check_first_marker
    check_first_marker-Rising c [] h = refl
    check_first_marker-Rising c (m ∷ ms) h = ground (arith, compare-lt same less o c (some m))

    check_first_value-Below :
        (c : Option S) (v : V) (vs : List V)
        → check_first_value same less stamp c (v ∷ vs) ≡ none
        → Below same less c (some (stamp v))
    unfolding check_first_value
    check_first_value-Below c v vs e = ground (arith, compare-lt same less o c (some (stamp v)))

    check_first_marker-Below :
        (c : Option S) (m : S) (ms : List S)
        → check_first_marker same less c (m ∷ ms) ≡ none
        → Below same less c (some m)
    unfolding check_first_marker
    check_first_marker-Below c m ms e = ground (arith, compare-lt same less o c (some m))

    -- The checks pass on ordered lists.
    pub validate-none :
        (q : Queue S V)
        → Rising q.consistent q.markers
        → Queued q.consistent q.values
        → validate same less stamp q ≡ none
    unfolding validate
    validate-none q r v = simp (
      check_values_all q.consistent q.values v,
      check_markers-Rising q.consistent q.markers r,
      check_first_value-Queued q.consistent q.values v,
      check_first_marker-Rising q.consistent q.markers r,
    )

    -- A value that passes the checks at the back extends the queue.
    pub Queued-push :
        (q : Queue S V) (x : V)
        → Queued q.consistent q.values
        → validate same less stamp (record q { values = q.values ++ x ∷ [] }) ≡ none
        → Queued q.consistent (q.values ++ x ∷ [])
    unfolding validate
    Queued-push q x v e = push q.consistent q.values v (ground arith) (ground arith)
      where
        push :
            (c : Option S) (vs : List V)
            → Queued c vs
            → check_values same less stamp (vs ++ x ∷ []) ≡ none
            → check_first_value same less stamp c (vs ++ x ∷ []) ≡ none
            → Queued c (vs ++ x ∷ [])
        push c [] h a b = (check_first_value-Below c x [] b, tt)
        push c (w ∷ ws) h a b = (h.0, check_values-push w ws x h.1 a)

    -- A marker that passes the checks at the back extends the markers.
    pub Rising-push :
        (q : Queue S V) (x : S)
        → Rising q.consistent q.markers
        → validate same less stamp (record q { markers = q.markers ++ x ∷ [] }) ≡ none
        → Rising q.consistent (q.markers ++ x ∷ [])
    unfolding validate
    Rising-push q x r e = push q.consistent q.markers r (ground arith) (ground arith)
      where
        push :
            (c : Option S) (ms : List S)
            → Rising c ms
            → check_markers same less (ms ++ x ∷ []) ≡ none
            → check_first_marker same less c (ms ++ x ∷ []) ≡ none
            → Rising c (ms ++ x ∷ [])
        push c [] h a b = (check_first_marker-Below c x [] b, tt)
        push c (m ∷ ms) h a b = check_markers-push c m ms x h a
