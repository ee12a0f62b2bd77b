-- ===== src/Apply/Args/Writes.antt =====
-- internal/target/apply/apply.go, upsertArgsLocked: what the properties of a bag write into the slice.
use cdc_sink_redshift.Common.{
  ℕ, ◌+◌, ◌<◌, ◌≡◌, ◌≢◌, ◌↔◌, ◌⊎◌, refl, sym, ap, subst, ◌∙◌, inl, inr, Bool, true, false, Option,
  none, some, List, ltb, ltb→lt, Outcome, returned, bind-returned, Bytes, Any, boolean, length, set,
  get_elem?, get_elem?-set_self, get_elem?-set_ne, Bool-cases, arith,
}
use cdc_sink_redshift.Cmap.{Map}
use cdc_sink_redshift.Merge.Bag.{ColData}
use cdc_sink_redshift.Apply.Mapping.{Position}
use cdc_sink_redshift.Apply.Args.{write, write_flag, write_value}

-- A write that returned was in range.
pub write-returned :
    (E : Type 0) (args out : List Any) (i : ℕ) (v : Any)
    → write {E = E} args i v ≡ returned out
    → (i < length args) × (out ≡ set args i v)
unfolding write
write-returned E args out i v h = elim (Bool-cases (ltb i (length args))) [
  | inl hit ↦ (ltb→lt i (length args) hit, ground arith)
  | inr miss ↦ absurd (ground arith)
]

-- A write elsewhere.
pub write-keeps :
    (E : Type 0) (i z : ℕ) (v : Any) (args out : List Any)
    → i ≢ z
    → write {E = E} args i v ≡ returned out
    → get_elem? out z ≡ get_elem? args z
write-keeps E i z v args out ne h =
    let (r, e) = write-returned E args out i v h in
    ap (λ l. get_elem? l z) e ∙ get_elem?-set_ne args v ne

-- A position of a row at an offset does not write a place of the slice.
abbrev pub Unused : {K : Type 0} → ℕ → Position K → ℕ → Type 0
Unused i p z =
    ((x : ℕ) → p.upsert_index ≡ some x → i + x ≢ z)
    × ((x : ℕ) → p.validity_index ≡ some x → i + x ≢ z)

-- What a position writes at an index: the value, or the flag of a value that is valid.
abbrev pub Writes : {K : Type 0} → Position K → Bool → Any → ℕ → Any → Type 0
Writes p valid value y w =
    ((p.upsert_index ≡ some y) × (w ≡ value))
    ⊎ ((p.validity_index ≡ some y)
        × (p.upsert_index ≢ some y)
        × (p.upsert_index ≢ none)
        × (valid ≡ true)
        × (w ≡ boolean true))

module _ {K C P : Type 0} (eq : C → C → Bool) (eq_iff : (a b : C) → (eq a b ≡ true) ↔ (a ≡ b))
    (mapper : K → C) (plain : Bytes → Option Bytes)
    (parse : ColData K → Option (Any → Outcome P Any))
    (marshal : Map K C Any → Outcome P Bytes) where
  flag-keeps :
      (i z : ℕ) (valid : Bool) (o : Option ℕ) (args out : List Any)
      → ((x : ℕ) → o ≡ some x → i + x ≢ z)
      → write_flag {K = K} eq mapper plain parse marshal i valid o args ≡ returned out
      → get_elem? out z ≡ get_elem? args z
  unfolding write_flag
  flag-keeps i z true (some x) args out ne h =
      write-keeps _ (i + x) z (boolean true) args out (ne x refl) h
  flag-keeps i z true none args out ne h = ap (λ l. get_elem? l z) (ground (arith, h))
  flag-keeps i z false o args out ne h = ap (λ l. get_elem? l z) (ground (arith, h))

  -- A place that a position does not write keeps its content.
  pub value-keeps :
      (i z : ℕ) (valid : Bool) (v : Any) (p : Position K) (args out : List Any)
      → Unused i p z
      → write_value {K = K} eq mapper plain parse marshal i valid v p.validity_index p.upsert_index
          args
        ≡ returned out
      → get_elem? out z ≡ get_elem? args z
  unfolding write_value
  value-keeps i z valid v p args out (nu, nv) h = go p.upsert_index nu h
    where
      go :
          (u : Option ℕ)
          → ((x : ℕ) → u ≡ some x → i + x ≢ z)
          → write_value {K = K} eq mapper plain parse marshal i valid v p.validity_index u args
            ≡ returned out
          → get_elem? out z ≡ get_elem? args z
      go none ne q = ap (λ l. get_elem? l z) (ground (arith, q))
      go (some x) ne q =
          let (mid, f, g) =
            bind-returned (write_flag eq mapper plain parse marshal i valid p.validity_index args)
              (λ a. write a (i + x) v) out q in
          write-keeps _ (i + x) z v mid out (ne x refl) g
          ∙ flag-keeps i z valid p.validity_index args mid nv f

  -- An index that a position writes has what it writes.
  pub value-Writes :
      (i y : ℕ) (valid : Bool) (v w : Any) (p : Position K) (args out : List Any)
      → Writes p valid v y w
      → write_value {K = K} eq mapper plain parse marshal i valid v p.validity_index p.upsert_index
          args
        ≡ returned out
      → get_elem? out (i + y) ≡ some w
  unfolding write_value write_flag
  value-Writes i y valid v w p args out (inl (u, e)) h =
      let q =
        subst
          (λ o.
            write_value {K = K} eq mapper plain parse marshal i valid v p.validity_index o args
            ≡ returned out)
          u h in
      let (mid, f, g) =
        bind-returned (write_flag eq mapper plain parse marshal i valid p.validity_index args)
          (λ a. write a (i + y) v) out q in
      let (r, s) = write-returned _ mid out (i + y) v g in
      ap (λ l. get_elem? l (i + y)) s ∙ get_elem?-set_self mid (i + y) v r ∙ ap some (sym e)
  value-Writes i y valid v w p args out (inr (f, ne, there, t, e)) h = go p.upsert_index ne there h
    where
      cancel : (x : ℕ) → i + x ≡ i + y → x ≡ y
      cancel x q = omega arith

      go :
          (u : Option ℕ)
          → u ≢ some y
          → u ≢ none
          → write_value {K = K} eq mapper plain parse marshal i valid v p.validity_index u args
            ≡ returned out
          → get_elem? out (i + y) ≡ some w
      go none n1 n2 q = absurd (n2 refl)
      go (some x) n1 n2 q =
          let (mid, a, b) =
            bind-returned (write_flag eq mapper plain parse marshal i valid p.validity_index args)
              (λ l. write l (i + x) v) out q in
          let a' =
            subst
              (λ o. write_flag {K = K} eq mapper plain parse marshal i valid o args ≡ returned mid)
              f a in
          let a'' =
            subst
              (λ o.
                write_flag {K = K} eq mapper plain parse marshal i o (some y) args ≡ returned mid)
              t a' in
          let (r, s) = write-returned _ args mid (i + y) (boolean true) a'' in
          write-keeps _ (i + x) (i + y) v mid out (λ z. n1 (ap some (cancel x z))) b
          ∙ ap (λ l. get_elem? l (i + y)) s
          ∙ get_elem?-set_self args (i + y) (boolean true) r
          ∙ ap some (sym e)
