-- ===== src/Msort.antt =====
-- internal/util/msort/msort.go: one mutation for each key, by compaction of the slice in place.
pub mod Reference
pub mod Slice
pub mod Loop
pub mod Latest
mod Tests
use cdc_sink_redshift.Common.{
  ℕ, zero, suc, ◌-◌, Bool, true, false, Option, none, some, List, [], ◌∷◌, if◌then◌else◌, length,
  get_elem?, set, drop, Bytes, bytes_eq, is_empty,
}
use cdc_sink_redshift.Hlc
use cdc_sink_redshift.Types.{Mutation}

-- The variables of the loop: the slice, `seenIdx` and `dest`.
pub record State : Type 0 where
  pub x : List Mutation
  pub seen_idx : List (Bytes × ℕ)
  pub dest : ℕ

-- A read of the Go map.
unfoldable pub find_idx : Bytes → List (Bytes × ℕ) → Option ℕ
find_idx k [] = none
find_idx k ((j, i) ∷ rest) = if bytes_eq j k then some i else find_idx k rest

-- The body of the loop at `src`; `none` is the panic on an empty key, or an index out of range.
unfoldable pub body : ℕ → State → Option State
body src s = elim (get_elem? s.x src) [
  | none ↦ none
  | some m ↦ if is_empty m.key then none else elim (find_idx m.key s.seen_idx) [
    | some cur ↦ elim (get_elem? s.x cur) [
      | none ↦ none
      | some c ↦ some (record s { x = if Hlc.gt m.time c.time then set s.x cur m else s.x })
    ]
    | none ↦ some (record {
      x = set s.x (s.dest - 1) m;
      seen_idx = (m.key, s.dest - 1) ∷ s.seen_idx;
      dest = s.dest - 1;
    })
  ]
]

-- The loop, from `src` + 1 down to 0.
unfoldable pub loop : ℕ → State → Option State
loop zero s = some s
loop (suc src) s = elim (body src s) [ none ↦ none | some s' ↦ loop src s' ]

-- `UniqueByKey`.
unfoldable pub unique_by_key : List Mutation → Option (List Mutation)
unique_by_key x = elim (loop (length x) (record { x = x; seen_idx = []; dest = length x })) [
  | none ↦ none
  | some s ↦ some (drop s.dest s.x)
]
