-- ===== src/Cmap/Laws.antt =====
-- internal/util/cmap/cmap.go: what can be read after a call.
use cdc_sink_redshift.Common.{
  ◌≡◌, ◌↔◌, inl, inr, subst, not_true, refl, sym, ◌∙◌, Bool, true, false, none, some, [], ◌∷◌,
  arith, if◌then◌else◌, Bool-cases,
}
use cdc_sink_redshift.Cmap.{Entry, Map, fetch, store, remove}

module _ {ℓ} {K C V : Type ℓ} (eq : C → C → Bool)
    (eq_iff : (a b : C) → (eq a b ≡ true) ↔ (a ≡ b)) where
  pub fetch-store :
      (m : Map K C V) (c d : C) (e : Entry K V)
      → fetch eq (store eq m c e) d ≡ (if eq c d then some e else fetch eq m d)
  unfolding fetch store
  fetch-store [] c d e = refl
  fetch-store ((b, f) ∷ m) c d e =
      ground (arith, fetch-store m c d e, eq_iff b c, eq_iff b d, eq_iff c d)

  -- Every canonical key occurs once.
  abbrev pub IsDistinct : Map K C V → Type ℓ
  IsDistinct [] = Unit
  IsDistinct ((c, e) ∷ m) = (fetch eq m c ≡ none) × IsDistinct m

  pub fetch-remove :
      (m : Map K C V) (c d : C)
      → IsDistinct m
      → fetch eq (remove eq m c) d ≡ (if eq c d then none else fetch eq m d)
  unfolding fetch remove
  fetch-remove [] c d h = ground arith
  fetch-remove ((b, f) ∷ m) c d h = elim (Bool-cases (eq b c)) [
    | inl hit ↦
        let e : b ≡ c = (eq_iff b c).0 hit in
        elim (Bool-cases (eq c d)) [
          | inl same ↦
              let at : b ≡ d = e ∙ (eq_iff c d).0 same in
              rw (hit, same) (subst (λ x. fetch eq m x ≡ none) at h.0)
          | inr other ↦ rw (hit, other) (rw (subst (λ x. eq x d ≡ false) (sym e) other))
        ]
    | inr miss ↦
        rw miss (ground (arith, fetch-remove m c d h.1, eq_iff b c, eq_iff b d, eq_iff c d))
  ]

  pub store-IsDistinct :
      (m : Map K C V) (c : C) (e : Entry K V) → IsDistinct m → IsDistinct (store eq m c e)
  unfolding store fetch
  store-IsDistinct [] c e h = (refl, tt)
  store-IsDistinct ((b, f) ∷ m) c e h = elim (Bool-cases (eq b c)) [
    | inl hit ↦ rw hit (subst (λ x. fetch eq m x ≡ none) ((eq_iff b c).0 hit) h.0, h.1)
    | inr miss ↦ rw miss (
      fetch-store m c b e ∙ rw (not_true (eq c b) (λ q. miss_sym q miss)) h.0,
      store-IsDistinct m c e h.1,
    )
  ]
    where
      miss_sym : eq c b ≡ true → eq b c ≡ false → ⊥
      miss_sym q p = ground (arith, eq_iff c b, eq_iff b c)

  pub remove-IsDistinct : (m : Map K C V) (c : C) → IsDistinct m → IsDistinct (remove eq m c)
  unfolding remove fetch
  remove-IsDistinct [] c h = tt
  remove-IsDistinct ((b, f) ∷ m) c h = elim (Bool-cases (eq b c)) [
    | inl hit ↦ rw hit h.1
    | inr miss ↦ rw miss (fetch-remove m c b h.1 ∙ ground (arith, h.0), remove-IsDistinct m c h.1)
  ]
