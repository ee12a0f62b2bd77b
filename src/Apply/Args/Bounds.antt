-- ===== src/Apply/Args/Bounds.antt =====
-- internal/target/apply/apply.go, upsertArgsLocked: every write is in range.
use cdc_sink_redshift.Common.{
  ℕ, zero, suc, ◌+◌, ◌≤◌, ◌<◌, ◌≡◌, ◌≢◌, ◌↔◌, refl, ap, ◌∙◌, inl, inr, Bool, true, false, Option,
  none, some, List, [], ◌∷◌, lt→ltb, Outcome, done, failed, returned, raised, Safe, bind-Safe,
  Bytes, Any, null, number, text, boolean, length, length-set, Bool-cases, arith,
}
use cdc_sink_redshift.Cmap as Cmap
use cdc_sink_redshift.Cmap.{Map, Entry, fetch}
use cdc_sink_redshift.Merge.Bag as Bag
use cdc_sink_redshift.Merge.Bag.{ColData, Slot, BagError, validate_pk, validate_no_unmapped}
use cdc_sink_redshift.Merge.Bag.Inv.{Inv}
use cdc_sink_redshift.Merge.Bag.Validation.{validate_pk_iff}
use cdc_sink_redshift.Apply.Mapping.{Position, Mapping}
use cdc_sink_redshift.Apply.Mapping.Bounds.{Below, PositionFits, Fits}
use cdc_sink_redshift.Apply.Numbers.{remove_exponent, parsed, exponent_suffix}
use cdc_sink_redshift.Apply.Args.{
  ArgsError, could_not_parse, write, nils, fix_up, convert, write_flag, write_value, at_position,
  fill_slot, fill_slots, drop_ignored, checked, check_pk, encoded, write_extras, fill_row,
}

-- A slice of a length.
abbrev pub Sized : ℕ → List Any → Type 0
Sized n args = length args ≡ n

pub write-Sized :
    (E : Type 0) (n : ℕ) (args : List Any) (i : ℕ) (v : Any)
    → i < n
    → Sized n args
    → Safe {E = E} (Sized n) (write args i v)
unfolding write
write-Sized E n args i v h s =
    let h' : i < length args = omega arith in
    rw (lt→ltb i (length args) h') (length-set args i v ∙ s)

-- Anything at all.
abbrev pub Anything : {A : Type 0} → A → Type 0
Anything a = Unit

parsed-Safe : (E : Type 0) (o : Option Bytes) → o ≢ none → Safe {E = E} Anything (parsed o)
unfolding parsed
parsed-Safe E none h = absurd (h refl)
parsed-Safe E (some s) h = tt

pub remove_exponent-Safe :
    (E : Type 0) (plain : Bytes → Option Bytes) (n : Bytes)
    → plain n ≢ none
    → Safe {E = E} Anything (remove_exponent plain n)
unfolding remove_exponent
remove_exponent-Safe E plain n h = elim (Bool-cases (exponent_suffix n)) [
  | inl hit ↦ rw hit (parsed-Safe _ (plain n) h)
  | inr miss ↦ rw miss tt
]

pub nils-Sized : (n : ℕ) → Sized n (nils n)
unfolding nils
nils-Sized zero = refl
nils-Sized (suc n) = ap suc (nils-Sized n)

module _ {K C P : Type 0} (eq : C → C → Bool) (eq_iff : (a b : C) → (eq a b ≡ true) ↔ (a ≡ b))
    (mapper : K → C) (plain : Bytes → Option Bytes)
    (parse : ColData K → Option (Any → Outcome P Any)) (marshal : Map K C Any → Outcome P Bytes)
    (parses : (n : Bytes) → plain n ≢ none) where
  fix_up-Safe :
      (v : Any) (o : Option (Any → Outcome P Any))
      → Safe Anything (fix_up {K = K} eq mapper plain parse marshal v o)
  unfolding fix_up
  fix_up-Safe v none = tt
  fix_up-Safe v (some f) = answer (f v)
    where
      answer :
          (o : Outcome P Any)
          → Safe {E = ArgsError K P}
              (Anything {A = Any})
              (elim o [ done w ↦ returned w | failed e ↦ raised (could_not_parse v e) ])
      answer (done w) = tt
      answer (failed e) = tt

  convert-Safe :
      (col : ColData K) (v : Any)
      → Safe Anything (convert {K = K} eq mapper plain parse marshal col v)
  unfolding convert
  convert-Safe col (number n) =
      bind-Safe _ _ (remove_exponent plain n) (λ s. returned (text s))
        (remove_exponent-Safe _ plain n (parses n)) (λ s h. tt)
  convert-Safe col null = tt
  convert-Safe col (text s) = fix_up-Safe (text s) (parse col)
  convert-Safe col (boolean b) = fix_up-Safe (boolean b) (parse col)
  convert-Safe col (Any.integer i) = fix_up-Safe (Any.integer i) (parse col)
  convert-Safe col (Any.opaque n) = fix_up-Safe (Any.opaque n) (parse col)

  write_flag-Sized :
      (n i u : ℕ) (b : Bool) (o : Option ℕ) (args : List Any)
      → i + u ≤ n
      → Below o u
      → Sized n args
      → Safe (Sized n) (write_flag eq mapper plain parse marshal i b o args)
  unfolding write_flag
  write_flag-Sized n i u true (some j) args h b s =
      write-Sized _ n args (i + j) (boolean true) (omega arith) s
  write_flag-Sized n i u true none args h b s = s
  write_flag-Sized n i u false o args h b s = s

  write_value-Sized :
      (n i u : ℕ) (b : Bool) (v : Any) (f o : Option ℕ) (args : List Any)
      → i + u ≤ n
      → Below f u
      → Below o u
      → Sized n args
      → Safe (Sized n) (write_value eq mapper plain parse marshal i b v f o args)
  unfolding write_value
  write_value-Sized n i u b v f none args h bf bo s = s
  write_value-Sized n i u b v f (some j) args h bf bo s =
      bind-Safe _ _ (write_flag eq mapper plain parse marshal i b f args) (λ xs. write xs (i + j) v)
        (write_flag-Sized n i u b f args h bf s)
        (λ xs t. write-Sized _ n xs (i + j) v (omega arith) t)

  -- Positions whose indices are below a count.
  abbrev pub PositionsFit : ℕ → ℕ → Map K C (Position K) → Type 0
  PositionsFit u d ps =
      (c : C) (e : Entry K (Position K)) → fetch eq ps c ≡ some e → PositionFits u d e.value

  fill_slot-Sized :
      (n i u d : ℕ) (ps : Map K C (Position K)) (e : Entry K (Slot K)) (args : List Any)
      → i + u ≤ n
      → PositionsFit u d ps
      → Sized n args
      → Safe (Sized n) (fill_slot eq mapper plain parse marshal ps i e args)
  unfolding fill_slot Cmap.get Cmap.match_key at_position
  fill_slot-Sized n i u d ps e args h fits s =
      bind-Safe _ _ (convert eq mapper plain parse marshal e.value.column e.value.value) _
        (convert-Safe e.value.column e.value.value)
        (λ v t. found v (fetch eq ps (mapper e.key)) refl)
    where
      found :
          (v : Any) (o : Option (Entry K (Position K)))
          → fetch eq ps (mapper e.key) ≡ o
          → Safe (Sized n) (
              at_position eq mapper plain parse marshal i e.key e.value.valid v
                (Cmap.value_of o)
                args)
      found v none q = tt
      found v (some x) q =
          let f = fits (mapper e.key) x q in
          write_value-Sized n i u e.value.valid v x.value.validity_index x.value.upsert_index args h
            f.validity f.upsert s

  pub fill_slots-Sized :
      (n i u d : ℕ) (ps : Map K C (Position K)) (es : List (Entry K (Slot K))) (args : List Any)
      → i + u ≤ n
      → PositionsFit u d ps
      → Sized n args
      → Safe (Sized n) (fill_slots eq mapper plain parse marshal ps i es args)
  unfolding fill_slots
  fill_slots-Sized n i u d ps [] args h fits s = s
  fill_slots-Sized n i u d ps (e ∷ es) args h fits s =
      bind-Safe _ _ (fill_slot eq mapper plain parse marshal ps i e args)
        (fill_slots eq mapper plain parse marshal ps i es)
        (fill_slot-Sized n i u d ps e args h fits s)
        (λ xs t. fill_slots-Sized n i u d ps es xs h fits t)

  checked-Safe :
      (idx : ℕ) (o : Option (BagError K))
      → Safe Anything (checked eq mapper plain parse marshal idx o)
  unfolding checked
  checked-Safe idx none = tt
  checked-Safe idx (some e) = tt

  encoded-Safe :
      (o : Outcome P Bytes) → Safe Anything (encoded {K = K} eq mapper plain parse marshal o)
  unfolding encoded
  encoded-Safe (done s) = tt
  encoded-Safe (failed e) = tt

  pub write_extras-Sized :
      (n idx i u : ℕ) (bag : Bag.Bag K C) (o : Option ℕ) (args : List Any)
      → i + u ≤ n
      → Below o u
      → Sized n args
      → Safe (Sized n) (write_extras eq mapper plain parse marshal idx i bag o args)
  unfolding write_extras
  write_extras-Sized n idx i u bag none args h b s =
      bind-Safe _ _ (checked eq mapper plain parse marshal idx (validate_no_unmapped bag))
        (λ ok. returned args) (checked-Safe idx (validate_no_unmapped bag)) (λ ok t. s)
  write_extras-Sized n idx i u bag (some j) args h b s =
      bind-Safe _ _ (encoded eq mapper plain parse marshal (marshal bag.unmapped))
        (λ x. write args (i + j) (text x)) (encoded-Safe (marshal bag.unmapped))
        (λ x t. write-Sized _ n args (i + j) (text x) (omega arith) s)

  pub check_pk-Safe :
      (idx : ℕ) (bag : Bag.Bag K C)
      → Inv eq eq_iff mapper bag
      → Safe Anything (check_pk eq mapper plain parse marshal idx (validate_pk eq mapper bag))
  unfolding check_pk
  check_pk-Safe idx bag inv =
      let (r, e, iff) = validate_pk_iff eq eq_iff mapper bag inv in
      rw (e, check_pk) (checked-Safe idx r)

  module _ {M : Type 0} (m : Mapping K C M) (fits : Fits eq eq_iff mapper m) where
    pub fill_row-Sized :
        (n idx i : ℕ) (bag : Bag.Bag K C) (args : List Any)
        → i + m.upsert_parameter_count ≤ n
        → Inv eq eq_iff mapper bag
        → Sized n args
        → Safe
            (λ (r : List Any × Bag.Bag K C). Sized n r.0)
            (fill_row eq mapper plain parse marshal m idx i bag args)
    unfolding fill_row
    fill_row-Sized n idx i bag args h inv s =
        bind-Safe _ _ (check_pk eq mapper plain parse marshal idx (validate_pk eq mapper bag)) _
          (check_pk-Safe idx bag inv)
          λ ok t.
            bind-Safe _ _
              (fill_slots eq mapper plain parse marshal m.positions i (Cmap.entries bag.mapped)
                args)
              _
              (fill_slots-Sized n i m.upsert_parameter_count (length m.pk_delete) m.positions
                (Cmap.entries bag.mapped) args h fits.positions s)
              λ xs sx.
                bind-Safe _ _
                  (write_extras eq mapper plain parse marshal idx i
                    (drop_ignored eq mapper plain parse marshal m.ignore bag) m.extras_col_idx xs)
                  _
                  (write_extras-Sized n idx i m.upsert_parameter_count _ m.extras_col_idx xs h
                    fits.extras sx)
                  λ ys sy. sy
