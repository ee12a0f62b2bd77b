-- ===== src/Msort/Reference.antt =====
-- internal/util/msort/msort.go: the reference, a recursion from the right.
use cdc_sink_redshift.Common.{
  ℕ, suc, ◌≡◌, refl, inl, inr, false, Option, none, some, List, [], ◌∷◌, arith, if◌then◌else◌,
  get_elem?, set, rev_app, Bytes, bytes_eq, bytes_eq_iff, is_empty, Bool-cases, Option-cases,
}
use cdc_sink_redshift.Hlc
use cdc_sink_redshift.Types.{Mutation}

unfoldable pub index_of : Bytes → List Mutation → Option ℕ
index_of k [] = none
index_of k (m ∷ ms) =
    if bytes_eq m.key k
    then some 0
    else elim (index_of k ms) [ none ↦ none | some i ↦ some (suc i) ]

-- The entry with the key of `m` becomes the later of the two; on a tie it stays.
unfoldable pub merge_in : Mutation → List Mutation → List Mutation
merge_in m [] = []
merge_in m (c ∷ out) =
    if bytes_eq c.key m.key
    then (if Hlc.gt m.time c.time then m else c) ∷ out
    else c ∷ merge_in m out

unfoldable pub absorb : Mutation → List Mutation → List Mutation
absorb m out = elim (index_of m.key out) [ none ↦ m ∷ out | some i ↦ merge_in m out ]

-- The reference: one entry for each key, from the right.
unfoldable pub unique : List Mutation → List Mutation
unique [] = []
unique (m ∷ ms) = absorb m (unique ms)

pub merge_in-set :
    (m : Mutation) (out : List Mutation) (i : ℕ)
    → index_of m.key out ≡ some i
    → (c : Mutation) × (get_elem? out i ≡ some c)
      × (merge_in m out ≡ (if Hlc.gt m.time c.time then set out i m else out))
unfolding index_of merge_in
merge_in-set m [] i e = ground arith
merge_in-set m (c ∷ out) i e = elim (Bool-cases (bytes_eq c.key m.key)) [
  | inl hit ↦ (c, ground arith, ground arith)
  | inr miss ↦ elim (Option-cases (index_of m.key out)) [
    | inl gone ↦ absurd (ground arith)
    | inr (j, found) ↦
        let (d, at, merged) = merge_in-set m out j found in (d, ground arith, ground arith)
  ]
]

pub index_of-merge_in :
    (k : Bytes) (m : Mutation) (out : List Mutation) → index_of k (merge_in m out) ≡ index_of k out
unfolding index_of merge_in
index_of-merge_in k m [] = refl
index_of-merge_in k m (c ∷ out) =
    ground (arith, index_of-merge_in k m out, bytes_eq_iff c.key m.key)

-- The unread mutations, the nearest first, absorbed into the result.
abbrev pub absorb_all : List Mutation → List Mutation → List Mutation
absorb_all [] out = out
absorb_all (m ∷ r) out = absorb_all r (absorb m out)

abbrev pub HasKey : Mutation → Type 0
HasKey m = is_empty m.key ≡ false

pub absorb_new :
    (m : Mutation) (out : List Mutation) → index_of m.key out ≡ none → absorb m out ≡ m ∷ out
unfolding absorb
absorb_new m out e = rw (e, absorb)

pub absorb_old :
    (m : Mutation) (out : List Mutation) (i : ℕ)
    → index_of m.key out ≡ some i
    → absorb m out ≡ merge_in m out
unfolding absorb
absorb_old m out i e = rw (e, absorb)

-- The slice as the loop meets it, from its end.
pub unique_rev : (r ms : List Mutation) → absorb_all r (unique ms) ≡ unique (rev_app r ms)
unfolding unique
unique_rev [] ms = refl
unique_rev (m ∷ r) ms = unique_rev r (m ∷ ms)

pub unique_nil : unique [] ≡ []
unfolding unique
unique_nil = refl
