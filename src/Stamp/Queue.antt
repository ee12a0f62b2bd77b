-- ===== src/Stamp/Queue.antt =====
-- internal/util/stamp/queue.go: a queue of stamped values and of markers, with the consistent stamp
-- that follows the greatest marker before the first value. The lists of the source are lists with
-- the front first.
pub mod Invariant
pub mod Advance
pub mod Calls
pub mod History
mod Tests
use Prim.Native.Nat.{Ordering}
use mathlib.Core.List.{get_last?}
use cdc_sink_redshift.Common.{
  Bool, true, false, Option, none, some, List, [], ◌∷◌, ◌++◌, if◌then◌else◌,
}
use cdc_sink_redshift.Stamp
use cdc_sink_redshift.Stamp.{is_lt, is_le, is_ge}

-- `Queue`.
pub record Queue {ℓ} (S V : Type ℓ) : Type ℓ where
  pub consistent : Option S
  pub markers : List S
  pub values : List V

-- The errors, one for each message of the source.
pub data QueueError : Type 0 where
  values_order markers_order consistent_not_before_value : QueueError
  consistent_not_before_marker consistent_not_increasing : QueueError

-- `Back()` and its `Prev()`: the last element and the one before it.
unfoldable pub last_two {ℓ} : {A : Type ℓ} → List A → Option (A × A)
last_two [] = none
last_two (a ∷ []) = none
last_two (a ∷ b ∷ []) = some (a, b)
last_two (a ∷ b ∷ c ∷ rest) = last_two (b ∷ c ∷ rest)

-- `Front()`.
abbrev pub front {ℓ} : {A : Type ℓ} → List A → Option A
front [] = none
front (a ∷ rest) = some a

-- The first error of a row of checks.
abbrev pub first_error : Option QueueError → Option QueueError → Option QueueError
first_error none e = e
first_error (some e) _ = some e

-- The list with its last element replaced.
unfoldable pub set_last {ℓ} : {A : Type ℓ} → List A → A → List A
set_last [] v = []
set_last (a ∷ []) v = v ∷ []
set_last (a ∷ b ∷ rest) v = a ∷ set_last (b ∷ rest) v

-- An error of `advanceConsistentPoint` is a panic in `Dequeue`.
or_panic {ℓ} : {S V : Type ℓ} → V → Queue S V × Option QueueError → Option (Queue S V × Option V)
or_panic v (q, none) = some (q, some v)
or_panic v (q, some e) = none

module _ {ℓ} {S : Type ℓ} (same less : S → S → Bool) where
  -- The checks of `validate` on the markers (invariants 2 and 4).
  unfoldable pub check_markers : List S → Option QueueError
  check_markers ms = elim (last_two ms) [
    | none ↦ none
    | some (a, b) ↦
        if is_le (Stamp.compare same less (some b) (some a)) then some markers_order else none
  ]

  unfoldable pub check_first_marker : Option S → List S → Option QueueError
  check_first_marker c ms = elim (front ms) [
    | none ↦ none
    | some m ↦
        if is_ge (Stamp.compare same less c (some m))
        then some consistent_not_before_marker
        else none
  ]

  -- The loop of `advanceConsistentPoint`: the last marker dropped, and the markers that stay.
  unfoldable pub drop_below : S → Option S → List S → Option S × List S
  drop_below head next [] = (next, [])
  drop_below head next (m ∷ ms) =
      if less m head then drop_below head (some m) ms else (next, m ∷ ms)

module _ {ℓ} {S V : Type ℓ} (same less : S → S → Bool) (stamp : V → S) where
  -- The checks of `validate` on the values (invariants 1 and 3).
  unfoldable pub check_values : List V → Option QueueError
  check_values vs = elim (last_two vs) [
    | none ↦ none
    | some (a, b) ↦
        if is_lt (Stamp.compare same less (some (stamp b)) (some (stamp a)))
        then some values_order
        else none
  ]

  unfoldable pub check_first_value : Option S → List V → Option QueueError
  check_first_value c vs = elim (front vs) [
    | none ↦ none
    | some v ↦
        if is_ge (Stamp.compare same less c (some (stamp v)))
        then some consistent_not_before_value
        else none
  ]

  -- `validate`: nil is `none`.
  unfoldable pub validate : Queue S V → Option QueueError
  validate q = first_error (check_values q.values) (
      first_error (check_markers same less q.markers) (
        first_error (check_first_value q.consistent q.values)
          (check_first_marker same less q.consistent q.markers)))

  -- `setConsistent`: the queue after the call, and its error.
  unfoldable pub set_consistent : Queue S V → S → Queue S V × Option QueueError
  set_consistent q next =
      if is_le (Stamp.compare same less (some next) q.consistent)
      then (q, some consistent_not_increasing)
      else let q' = record q { consistent = some next } in
        elim (validate q') [ none ↦ (q', none) | some e ↦ (q, some e) ]

  -- The next consistent stamp and the markers that stay.
  unfoldable pub next_consistent : Queue S V → Option S × List S
  next_consistent q = elim (front q.values) [
    | none ↦ elim (get_last? q.markers) [ none ↦ (none, q.markers) | some m ↦ (some m, []) ]
    | some v ↦ drop_below same less (stamp v) none q.markers
  ]

  -- `advanceConsistentPoint`.
  unfoldable pub advance : Queue S V → Queue S V × Option QueueError
  advance q =
      let (next, rest) = next_consistent q in
      let q' = record q { markers = rest } in
      elim next [ none ↦ (q', none) | some m ↦ set_consistent q' m ]

  -- `Mark`.
  unfoldable pub mark : Queue S V → S → Queue S V × Option QueueError
  mark q m =
      let q' = record q { markers = q.markers ++ m ∷ [] } in
      elim (validate q') [ none ↦ advance q' | some e ↦ (q, some e) ]

  -- The rest of `Enqueue`, once the tail value has had its chance to take the new one in.
  unfoldable pub push_value : Queue S V → V → Queue S V × Option QueueError
  push_value q v =
      let q' = record q { values = q.values ++ v ∷ [] } in
      elim (validate q') [ none ↦ (q', none) | some e ↦ (q, some e) ]

  -- `Enqueue`. `coalesce tail next` is `none` if the tail is not `Coalescing`; otherwise the tail as
  -- `Coalesce` leaves it, with the remainder.
  unfoldable pub enqueue :
      (V → V → Option (V × Option V)) → Queue S V → V → Queue S V × Option QueueError
  enqueue coalesce q next = elim (get_last? q.values) [
    | none ↦ push_value q next
    | some tail ↦ elim (coalesce tail next) [
      | none ↦ push_value q next
      | some (tail', remainder) ↦
          let q' = record q { values = set_last q.values tail' } in
          elim remainder [ none ↦ (q', none) | some v ↦ push_value q' v ]
    ]
  ]

  -- `Dequeue`: `none` is the panic; a nil result is an inner `none`.
  unfoldable pub dequeue : Queue S V → Option (Queue S V × Option V)
  unfolding or_panic
  dequeue q = elim q.values [
    | [] ↦ some (q, none)
    | v ∷ vs ↦ or_panic v (advance (record q { values = vs }))
  ]

-- `Consistent`, `Peek`, `PeekMarker`, `Values` and `Markers`.
module _ {ℓ} {S V : Type ℓ} where
  unfoldable pub consistent_of : Queue S V → Option S
  consistent_of q = q.consistent

  unfoldable pub peek : Queue S V → Option V
  peek q = front q.values

  unfoldable pub peek_marker : Queue S V → Option S
  peek_marker q = front q.markers

  unfoldable pub values_of : List V → Queue S V → List V
  values_of buf q = buf ++ q.values

  unfoldable pub markers_of : List S → Queue S V → List S
  markers_of buf q = buf ++ q.markers
