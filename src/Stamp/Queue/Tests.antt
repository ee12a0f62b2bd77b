-- ===== src/Stamp/Queue/Tests.antt =====
-- internal/util/stamp/queue.go: runs with numbers for stamps, and the theorems at concrete inputs.
use cdc_sink_redshift.Common.{
  ℕ, ◌≡◌, refl, Bool, Option, none, some, List, [], ◌∷◌, arith, ltb, ◌==◌,
}
use cdc_sink_redshift.Stamp
use cdc_sink_redshift.Stamp.{IsStampOrder}
use cdc_sink_redshift.Stamp.Queue.{
  Queue, values_order, mark, enqueue, dequeue, or_panic, advance, push_value, validate,
  set_consistent, next_consistent, drop_below, check_values, check_markers, check_first_value,
  check_first_marker, last_two, set_last,
}
use cdc_sink_redshift.Stamp.Queue.Invariant.{Inv}
use cdc_sink_redshift.Stamp.Queue.History.{
  Call, marks, enqueues, dequeues, Trace, new_trace, Coalesce, Tracks, run, run-Tracks,
}

program : Unit {0}
unfolding mark enqueue dequeue or_panic advance push_value validate set_consistent next_consistent
    drop_below check_values check_markers check_first_value check_first_marker last_two set_last
    Stamp.compare
program = tt

same : ℕ → ℕ → Bool
same a b = a == b

less : ℕ → ℕ → Bool
less a b = ltb a b

stamp : ℕ → ℕ
stamp v = v

numbers : IsStampOrder same less
unfolding same less
numbers = record {
  asym = λ a b h. ground arith;
  cotrans = λ a b c h. ground arith;
  same_eq = λ a b h. ground arith;
}

-- Value 5 waits, markers 2 and 7 were made: 2 is consistent.
abbrev waiting : Queue ℕ ℕ
waiting = record { consistent = some 2; markers = 7 ∷ []; values = 5 ∷ 5 ∷ 8 ∷ [] }

first_out :
    dequeue same less stamp waiting
    ≡ some (record { consistent = some 2; markers = 7 ∷ []; values = 5 ∷ 8 ∷ [] }, some 5)
unfolding program same less stamp
first_out = refl

dequeue_passing :
    dequeue same less stamp (record waiting { values = 5 ∷ 8 ∷ [] })
    ≡ some (record { consistent = some 7; markers = []; values = 8 ∷ [] }, some 5)
unfolding program same less stamp
dequeue_passing = refl

abbrev none_of : Coalesce ℕ
none_of a b = none

enqueue_early : enqueue same less stamp none_of waiting 6 ≡ (waiting, some values_order)
unfolding program same less stamp
enqueue_early = refl

waiting-Inv : Inv same less stamp waiting
unfolding same less stamp
waiting-Inv = record { rising = (refl, tt); queued = (refl, (refl, (refl, tt))); caught_up = refl }

-- A deduplication: the tail takes in a value equal to it.
merge_equal : ℕ → ℕ → Option (ℕ × Option ℕ)
merge_equal t n = some (t, none)

merge_equal_keeps :
    (t n t' : ℕ) (r : Option ℕ) → merge_equal t n ≡ some (t', r) → stamp t' ≡ stamp t
unfolding merge_equal stamp
merge_equal_keeps t n t' r e = ground arith

abbrev calls : List (Call ℕ ℕ)
calls = marks 1 ∷ enqueues 5 ∷ marks 2 ∷ marks 7 ∷ enqueues 6 ∷ dequeues ∷ dequeues ∷ []

run-Tracks_example :
    (t : Trace ℕ ℕ) × (run same less stamp none_of new_trace calls ≡ some t)
    × Tracks same less stamp none_of t
run-Tracks_example = run-Tracks same less stamp none_of numbers (λ a b. refl) calls
