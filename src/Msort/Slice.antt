-- ===== src/Msort/Slice.antt =====
-- internal/util/msort/msort.go: one turn of the loop, on the slice as it stands.
use cdc_sink_redshift.Common.{
  ℕ, suc, ◌+◌, ◌-◌, ◌≡◌, sym, ap, ◌∙◌, false, Option, none, some, List, ◌∷◌, ◌++◌, arith, length,
  get_elem?, set, take, rev_app, get_elem?-rev_app, set-rev_app, get_elem?-append, set-append,
  set_end, Bytes, is_empty,
}
use native.Mathlib.Nat.{add_assoc, add-zero}
use cdc_sink_redshift.Types.{Mutation}
use cdc_sink_redshift.Msort.{State, find_idx, body}
use cdc_sink_redshift.Msort.Reference.{index_of, merge_in, merge_in-set}

abbrev pub shift : ℕ → Option ℕ → Option ℕ
shift d none = none
shift d (some i) = some (d + i)

-- `seenIdx` holds the place of each key of the result.
abbrev pub Seen : List (Bytes × ℕ) → ℕ → List Mutation → Type 0
Seen seen d out = (k : Bytes) → find_idx k seen ≡ shift d (index_of k out)

-- The places behind the unread part: those of a middle part, then those of the result.
pub get-place :
    (r js out : List Mutation) (i : ℕ)
    → get_elem? (rev_app r (js ++ out)) (length r + length js + i) ≡ get_elem? out i
get-place r js out i =
    ap (get_elem? (rev_app r (js ++ out))) (add_assoc (length r) (length js) i)
    ∙ get_elem?-rev_app r (js ++ out) (length js + i)
    ∙ get_elem?-append js out i

pub set-place :
    (r js out : List Mutation) (i : ℕ) (m : Mutation)
    → set (rev_app r (js ++ out)) (length r + length js + i) m ≡ rev_app r (js ++ set out i m)
set-place r js out i m =
    ap (λ n. set (rev_app r (js ++ out)) n m) (add_assoc (length r) (length js) i)
    ∙ set-rev_app r (js ++ out) (length js + i) m
    ∙ ap (rev_app r) (set-append js out i m)

pub get-next :
    (r : List Mutation) (m : Mutation) (ys : List Mutation)
    → get_elem? (rev_app r (m ∷ ys)) (length r) ≡ some m
get-next r m ys =
    ap (get_elem? (rev_app r (m ∷ ys))) (sym (add-zero (length r))) ∙ get_elem?-rev_app r (m ∷ ys) 0

-- The slice while `r` is unread: the unread part, a part that is no longer used, and the result.
abbrev pub slice : List Mutation → List Mutation → List Mutation → List (Bytes × ℕ) → State
slice r js out seen = record {
  x = rev_app r (js ++ out);
  seen_idx = seen;
  dest = length r + length js;
}

-- A key that the result holds already.
pub body_old :
    (r : List Mutation) (m : Mutation) (js out : List Mutation) (seen : List (Bytes × ℕ)) (i : ℕ)
    → is_empty m.key ≡ false
    → find_idx m.key seen ≡ some (length r + length (m ∷ js) + i)
    → index_of m.key out ≡ some i
    → body (length r) (record {
      x = rev_app r ((m ∷ js) ++ out);
      seen_idx = seen;
      dest = length r + length (m ∷ js);
    })
      ≡ some (slice r (m ∷ js) (merge_in m out) seen)
unfolding body
body_old r m js out seen i full found at =
    let (c, here, merged) = merge_in-set m out i at in
    ground
      (arith, get-next r m (js ++ out), get-place r (m ∷ js) out i, set-place r (m ∷ js) out i m)

-- A key that is new to the result.
pub body_new :
    (r : List Mutation) (m : Mutation) (js out : List Mutation) (seen : List (Bytes × ℕ))
    → is_empty m.key ≡ false
    → find_idx m.key seen ≡ none
    → body (length r) (record {
      x = rev_app r ((m ∷ js) ++ out);
      seen_idx = seen;
      dest = length r + length (m ∷ js);
    })
      ≡ some (record {
        x = rev_app r (take (length js) (m ∷ js) ++ m ∷ out);
        seen_idx = (m.key, length r + length js) ∷ seen;
        dest = length r + length js;
      })
unfolding body
body_new r m js out seen full missing =
    let e : length r + suc (length js) - 1 ≡ length r + length js = omega arith in
    rw (
      get-next r m (js ++ out),
      full,
      missing,
      e,
      set-rev_app r ((m ∷ js) ++ out) (length js) m,
      set_end m js out m,
      body,
    )
