-- ===== src/Msort/Loop.antt =====
-- internal/util/msort/msort.go: the loop in place computes what the reference does.
use cdc_sink_redshift.Common.{
  ℕ, suc, ◌+◌, ◌≡◌, refl, sym, ap, subst, ◌∙◌, inl, inr, false, Option, none, some, append-nil,
  List, [], ◌∷◌, ◌++◌, arith, length, drop, take, rev_app, add_step, drop-append, length-take_init,
  All, Bytes, is_empty, Option-cases,
}
use native.Mathlib.Nat.{zero-add}
use cdc_sink_redshift.Types.{Mutation}
use cdc_sink_redshift.Msort.{State, find_idx, loop, unique_by_key}
use cdc_sink_redshift.Msort.Reference.{
  index_of, merge_in, unique, index_of-merge_in, absorb_all, HasKey, absorb_new, absorb_old,
  unique_rev, unique_nil,
}
use cdc_sink_redshift.Msort.Slice.{shift, Seen, slice, body_old, body_new}

Seen-new :
    (seen : List (Bytes × ℕ)) (d : ℕ) (m : Mutation) (out : List Mutation)
    → Seen seen (suc d) out
    → Seen ((m.key, d) ∷ seen) d (m ∷ out)
unfolding find_idx index_of
Seen-new seen d m out h k = ground (arith, h k)

Seen-old :
    (seen : List (Bytes × ℕ)) (d : ℕ) (m : Mutation) (out : List Mutation)
    → Seen seen d out
    → Seen seen d (merge_in m out)
Seen-old seen d m out h k = h k ∙ ap (shift d) (sym (index_of-merge_in k m out))

abbrev Ends : Option State → List Mutation → Type 0
Ends r out = (s : State) × (r ≡ some s) × (drop s.dest s.x ≡ out)

slice_next :
    (r : List Mutation) (m : Mutation) (js out : List Mutation) (seen : List (Bytes × ℕ))
    → slice (m ∷ r) js out seen ≡ record {
      x = rev_app r ((m ∷ js) ++ out);
      seen_idx = seen;
      dest = length r + length (m ∷ js);
    }
slice_next r m js out seen =
    ap (λ (d : ℕ). record { x = rev_app r ((m ∷ js) ++ out); seen_idx = seen; dest = d })
      (add_step (length r) (length js))

Seen-next :
    (r : List Mutation) (js out : List Mutation) (seen : List (Bytes × ℕ))
    → Seen seen (suc (length r) + length js) out
    → Seen seen (length r + suc (length js)) out
Seen-next r js out seen = subst (λ n. Seen seen n out) (add_step (length r) (length js))

loop_old :
    (r : List Mutation) (m : Mutation) (js out : List Mutation) (seen : List (Bytes × ℕ)) (i : ℕ)
    → is_empty m.key ≡ false
    → Seen seen (length r + suc (length js)) out
    → index_of m.key out ≡ some i
    → loop (suc (length r)) (slice (m ∷ r) js out seen)
      ≡ loop (length r) (slice r (m ∷ js) (merge_in m out) seen)
unfolding loop
loop_old r m js out seen i full h at = rw (
  slice_next r m js out seen,
  body_old r m js out seen i full (h m.key ∙ ap (shift _) at) at,
  loop,
)

loop_new :
    (r : List Mutation) (m : Mutation) (js out : List Mutation) (seen : List (Bytes × ℕ))
    → is_empty m.key ≡ false
    → Seen seen (length r + suc (length js)) out
    → index_of m.key out ≡ none
    → loop (suc (length r)) (slice (m ∷ r) js out seen)
      ≡ loop
          (length r)
          (slice r (take (length js) (m ∷ js)) (m ∷ out) ((m.key, length r + length js) ∷ seen))
unfolding loop
loop_new r m js out seen full h at =
    rw (slice_next r m js out seen, body_new r m js out seen full (h m.key ∙ ap (shift _) at), loop)
      (ap
        (λ (n : ℕ). loop (length r) (record {
          x = rev_app r (take (length js) (m ∷ js) ++ m ∷ out);
          seen_idx = (m.key, length r + length js) ∷ seen;
          dest = length r + n;
        }))
        (sym (length-take_init m js)))

loop_done : (s : State) → loop 0 s ≡ some s
unfolding loop
loop_done s = refl

loop-Ends :
    (r js out : List Mutation) (seen : List (Bytes × ℕ))
    → All HasKey r
    → Seen seen (length r + length js) out
    → Ends (loop (length r) (slice r js out seen)) (absorb_all r out)
loop-Ends [] js out seen full h = (
  slice [] js out seen,
  loop_done _,
  ap (λ n. drop n (js ++ out)) (zero-add (length js)) ∙ drop-append js out,
)
loop-Ends (m ∷ r) js out seen full h =
    let d : length r + suc (length js) ≡ suc (length r + length js) = omega arith in
    let h' = Seen-next r js out seen h in
    elim (Option-cases (index_of m.key out)) [
      | inl e ↦
          rw (loop_new r m js out seen full.0 h' e, absorb_new m out e)
            (loop-Ends r (take (length js) (m ∷ js)) (m ∷ out)
              ((m.key, length r + length js) ∷ seen) full.1
              (subst (λ n. Seen ((m.key, length r + length js) ∷ seen) n (m ∷ out))
                (ap (λ n. length r + n) (sym (length-take_init m js)))
                (Seen-new seen (length r + length js) m out (subst (λ n. Seen seen n out) d h'))))
      | inr (i, e) ↦
          rw (loop_old r m js out seen i full.0 h' e, absorb_old m out i e)
            (loop-Ends r (m ∷ js) (merge_in m out) seen full.1
              (Seen-old seen (length r + suc (length js)) m out h'))
    ]

rev_app_twice : (xs ys zs : List Mutation) → rev_app (rev_app xs ys) zs ≡ rev_app ys (xs ++ zs)
rev_app_twice [] ys zs = refl
rev_app_twice (x ∷ xs) ys zs = rev_app_twice xs (x ∷ ys) zs

All-rev_app :
    (P : Mutation → Type 0) (xs ys : List Mutation) → All P xs → All P ys → All P (rev_app xs ys)
All-rev_app P [] ys a b = b
All-rev_app P (x ∷ xs) ys a b = All-rev_app P xs (x ∷ ys) a.1 (a.0, b)

length-rev_app : (xs ys : List Mutation) → length (rev_app xs ys) ≡ length xs + length ys
length-rev_app [] ys = omega arith
length-rev_app (x ∷ xs) ys = omega (arith, length-rev_app xs (x ∷ ys))

Seen-nil : (d : ℕ) → Seen [] d []
unfolding find_idx index_of
Seen-nil d k = refl

-- The first state of the loop.
first_state :
    (x : List Mutation)
    → loop (length x) (record { x = x; seen_idx = []; dest = length x })
      ≡ loop (length (rev_app x [])) (slice (rev_app x []) [] [] [])
first_state x =
    let len : length (rev_app x []) ≡ length x = omega (arith, length-rev_app x []) in
    let dest : length (rev_app x []) + 0 ≡ length x = omega (arith, length-rev_app x []) in
    let back : rev_app (rev_app x []) [] ≡ x = rev_app_twice x [] [] ∙ append-nil x in
    λ i. loop (sym len i) (record { x = sym back i; seen_idx = []; dest = sym dest i })

-- If every mutation has a key, `UniqueByKey` does not panic, and the slice that it returns is the
-- reference's, although it is built inside the slice that is read.
pub unique_by_key-unique : (x : List Mutation) → All HasKey x → unique_by_key x ≡ some (unique x)
unfolding unique_by_key
unique_by_key-unique x full =
    let r = rev_app x [] in
    let (s, e, d) =
      loop-Ends r [] [] [] (All-rev_app HasKey x [] full tt) (Seen-nil (length r + 0)) in
    let back : rev_app r [] ≡ x = rev_app_twice x [] [] ∙ append-nil x in
    rw (first_state x, e, unique_by_key)
      (ap some (d ∙ ap (absorb_all r) (sym unique_nil) ∙ unique_rev r [] ∙ ap unique back))
