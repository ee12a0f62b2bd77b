-- ===== src/Cmap/Size.antt =====
-- internal/util/cmap/cmap.go and equal.go: the number of entries, and maps of one size.
use cdc_sink_redshift.Common.{
  suc, ◌≤◌, ◌≡◌, ◌↔◌, refl, subst, inl, inr, Bool, true, none, some, [], ◌∷◌, arith, length,
  Bool-cases,
}
use cdc_sink_redshift.Cmap.{Entry, Map, fetch, store, remove}
use cdc_sink_redshift.Cmap.Laws.{IsDistinct, fetch-remove, remove-IsDistinct}

module _ {ℓ} {K C V : Type ℓ} (eq : C → C → Bool)
    (eq_iff : (a b : C) → (eq a b ≡ true) ↔ (a ≡ b)) where
  -- A store adds an entry exactly if the key is new.
  pub length-store :
      (m : Map K C V) (c : C) (e : Entry K V)
      → length (store eq m c e)
        ≡ (elim (fetch eq m c) [ none ↦ suc (length m) | some _ ↦ length m ])
  unfolding store fetch
  length-store [] c e = refl
  length-store ((b, f) ∷ m) c e = ground (arith, length-store m c e)

  pub length-remove :
      (m : Map K C V) (c : C) (e : Entry K V)
      → fetch eq m c ≡ some e
      → suc (length (remove eq m c)) ≡ length m
  unfolding remove fetch
  length-remove [] c e h = ground arith
  length-remove ((b, f) ∷ m) c e h = ground (arith, length-remove m c e)

  -- Every key of the first map is one of the second.
  abbrev pub Sub : Map K C V → Map K C V → Type ℓ
  Sub a b =
      (c : C) (e : Entry K V) → fetch eq a c ≡ some e → (f : Entry K V) × (fetch eq b c ≡ some f)

  Sub-tail :
      (c : C) (e : Entry K V) (a b : Map K C V)
      → IsDistinct eq eq_iff ((c, e) ∷ a)
      → IsDistinct eq eq_iff b
      → Sub ((c, e) ∷ a) b
      → Sub a (remove eq b c)
  unfolding fetch
  Sub-tail c e a b da db s d f h = elim (Bool-cases (eq c d)) [
    | inl hit ↦
        let q : fetch eq a d ≡ none = subst (λ x. fetch eq a x ≡ none) ((eq_iff c d).0 hit) da.0 in
        absurd (ground arith)
    | inr miss ↦
        let (g, at) = s d f (rw miss h) in (g, rw (fetch-remove eq eq_iff b c d db, miss) at)
  ]

  -- Where one map's keys are all keys of another with as many, the maps have the same keys.
  pub same_size :
      (a b : Map K C V)
      → IsDistinct eq eq_iff a
      → IsDistinct eq eq_iff b
      → length a ≡ length b
      → Sub a b
      → (c : C) → fetch eq a c ≡ none
      → fetch eq b c ≡ none
  unfolding fetch
  same_size [] [] da db n s c h = refl
  same_size [] (x ∷ b) da db n s c h = absurd (omega arith)
  same_size ((d, e) ∷ a) b da db n s c h = elim (Bool-cases (eq d c)) [
    | inl hit ↦ absurd (ground arith)
    | inr miss ↦
        let (f, at) = s d e (rw ((eq_iff d d).1 refl) refl) in
        let shorter : length a ≡ length (remove eq b d) = omega (arith, length-remove b d f at) in
        let gone =
          same_size a (remove eq b d) da.1 (remove-IsDistinct eq eq_iff b d db) shorter
            (Sub-tail d e a b da db s) c (ground arith) in
        ground (arith, fetch-remove eq eq_iff b d c db)
  ]

  -- Where one map's keys are all keys of another, it has no more of them.
  pub Sub-length :
      (a b : Map K C V)
      → IsDistinct eq eq_iff a
      → IsDistinct eq eq_iff b
      → Sub a b
      → length a ≤ length b
  unfolding fetch
  Sub-length [] b da db s = omega arith
  Sub-length ((d, e) ∷ a) b da db s =
      let (f, at) = s d e (rw ((eq_iff d d).1 refl) refl) in
      omega (
        arith,
        length-remove b d f at,
        Sub-length a (remove eq b d) da.1 (remove-IsDistinct eq eq_iff b d db)
            (Sub-tail d e a b da db s),
      )
