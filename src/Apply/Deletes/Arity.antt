-- ===== src/Apply/Deletes/Arity.antt =====
-- internal/target/apply/apply.go, deleteLocked: no statement is executed for keys that do not fit.
use cdc_sink_redshift.Common.{
  ℕ, suc, ◌+◌, ◌*◌, ◌≡◌, ◌≢◌, refl, sym, ap, inl, inr, Bool, true, false, ◌==◌, ==_iff, Option,
  none, List, [], ◌∷◌, ◌++◌, length, length-append, All, Outcome, done, failed, Safe, bind-Safe,
  map-Safe, Bytes, Any, null, number, text, boolean, Bool-cases, arith,
}
use cdc_sink_redshift.Types.{Mutation}
use cdc_sink_redshift.Apply.Numbers.{remove_exponent}
use cdc_sink_redshift.Apply.Columns.{to_columns-IsPivot}
use cdc_sink_redshift.Apply.Args.{Templates}
use cdc_sink_redshift.Apply.Args.Bounds.{Anything, remove_exponent-Safe}
use cdc_sink_redshift.Apply.Args.Total.{ArgsFit}
use cdc_sink_redshift.Apply.Deletes.{
  decoded, decode_keys, append_keys, plain_number, plain_numbers, key_columns, layout, delete_args,
}

module _ {P : Type 0} (plain : Bytes → Option Bytes) (decode : Bytes → Outcome P (List Any))
    (parses : (n : Bytes) → plain n ≢ none) where
  -- A key that decodes to as many columns as expected.
  abbrev pub KeyFits : ℕ → Mutation → Type 0
  KeyFits expect m = (group : List Any) × (decode m.key ≡ done group) × (length group ≡ expect)

  -- The mutations that were decoded, with their keys.
  abbrev Decoded : List Mutation → List (Mutation × List Any) → Type 0
  Decoded [] [] = Unit
  Decoded [] (g ∷ gs) = ⊥
  Decoded (m ∷ ms) [] = ⊥
  Decoded (m ∷ ms) ((n, group) ∷ gs) = (m ≡ n) × (decode m.key ≡ done group) × Decoded ms gs

  decoded-done :
      (o : Outcome P (List Any)) → Safe (λ group. o ≡ done group) (decoded plain decode o)
  unfolding decoded
  decoded-done (done group) = refl
  decoded-done (failed e) = tt

  decode_keys-Decoded : (muts : List Mutation) → Safe (Decoded muts) (decode_keys plain decode muts)
  unfolding decode_keys
  decode_keys-Decoded [] = tt
  decode_keys-Decoded (m ∷ muts) =
      bind-Safe _ _ (decoded plain decode (decode m.key)) _ (decoded-done (decode m.key)) λ group e.
        bind-Safe _ _ (decode_keys plain decode muts) _ (decode_keys-Decoded muts)
          λ rest d. (refl, e, d)

  append_keys-length :
      (expect : ℕ) (muts : List Mutation) (groups : List (Mutation × List Any)) (args : List Any)
      → Decoded muts groups
      → Safe
          (λ r. (length r ≡ length args + length muts * expect) × All (KeyFits expect) muts)
          (append_keys plain decode expect groups args)
  unfolding append_keys
  append_keys-length expect [] [] args d = (omega arith, tt)
  append_keys-length expect [] (g ∷ gs) args d = absurd d
  append_keys-length expect (m ∷ ms) [] args d = absurd d
  append_keys-length expect (m ∷ ms) ((n, group) ∷ gs) args (same, e, d) =
      elim (Bool-cases (length group == expect)) [
        | inr miss ↦ rw (append_keys, miss) tt
        | inl hit ↦
            let len : length group ≡ expect = (==_iff (length group) expect).0 hit in
            rw (append_keys, hit)
              (map-Safe _ _ (append_keys plain decode expect gs (args ++ group))
                (λ r (total, all).
                  (omega (arith, length-append args group), ((group, e, len), all)))
                (append_keys-length expect ms gs (args ++ group) d))
      ]

  plain_number-Safe : (v : Any) → Safe Anything (plain_number plain decode v)
  unfolding plain_number
  plain_number-Safe (number n) =
      bind-Safe _ _ (remove_exponent plain n) _ (remove_exponent-Safe _ plain n (parses n))
        λ s h. tt
  plain_number-Safe null = tt
  plain_number-Safe (text s) = tt
  plain_number-Safe (boolean b) = tt
  plain_number-Safe (Any.integer i) = tt
  plain_number-Safe (Any.opaque n) = tt

  plain_numbers-length :
      (vs : List Any) → Safe (λ ws. length ws ≡ length vs) (plain_numbers plain decode vs)
  unfolding plain_numbers
  plain_numbers-length [] = refl
  plain_numbers-length (v ∷ vs) =
      bind-Safe _ _ (plain_number plain decode v) _ (plain_number-Safe v) λ w t.
        bind-Safe _ _ (plain_numbers plain decode vs) _ (plain_numbers-length vs) λ ws e. ap suc e

  layout-ArgsFit :
      (b : Bool) (columns rows : ℕ) (args : List Any)
      → length args ≡ rows * columns
      → Safe (ArgsFit columns rows) (layout plain decode b columns rows args)
  unfolding layout key_columns
  layout-ArgsFit false columns rows args s = s
  layout-ArgsFit true columns rows args s = elim (to_columns-IsPivot columns rows args) [
    | inl (ne, e) ↦ absurd (ne (sym s))
    | inr (out, e, p) ↦
        rw (e, key_columns)
          (p.width, λ c h. let (col, at, len, cells) = p.cells c h in (col, at, len))
  ]

  -- The arguments of a deletion are returned only if every key decodes to as many columns as the primary key has, and then
  -- they are as many as the rows and the columns need, by rows or by columns as the templates ask; nothing panics when numbers parse.
  pub delete_args-KeyFits :
      {K C M : Type 0} (t : Templates K C M) (muts : List Mutation)
      → Safe
          (λ args.
            ArgsFit (length t.mapping.pk_delete) (length muts) args
            × All (KeyFits (length t.mapping.pk_delete)) muts)
          (delete_args plain decode t muts)
  unfolding delete_args
  delete_args-KeyFits t muts =
      let n = length t.mapping.pk_delete in
      bind-Safe _ _ (decode_keys plain decode muts) _ (decode_keys-Decoded muts) λ groups d.
        bind-Safe _ _ (append_keys plain decode n groups []) _
          (append_keys-length n muts groups [] d)
          λ args (len, all).
            bind-Safe _ _ (plain_numbers plain decode args) _ (plain_numbers-length args) λ vs e.
              map-Safe _ _ (layout plain decode t.bulk_delete n (length muts) vs) (λ a f. (f, all))
                (layout-ArgsFit t.bulk_delete n (length muts) vs (omega arith))
