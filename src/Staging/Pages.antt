-- ===== src/Staging/Pages.antt =====
-- internal/staging/stage/factory.go: pages of an ordered list, whatever the order.
use cdc_sink_redshift.Common.{
  ℕ, zero, suc, ◌≡◌, refl, ◌∙◌, Bool, true, false, List, [], ◌∷◌, arith, drop, All, Bool-cases, inl,
  inr, subst, get_elem?, some, ◌&&◌,
}
use cdc_sink_redshift.Staging.{filter}

module _ {ℓ} {A : Type ℓ} where
  filter-same : (p r : A → Bool) → ((x : A) → p x ≡ r x) → (xs : List A) → filter p xs ≡ filter r xs
  filter-same p r h xs i = filter (λ x. h x i) xs

  pub All-filter : (P : A → Type 0) (p : A → Bool) (xs : List A) → All P xs → All P (filter p xs)
  unfolding filter
  All-filter P p [] h = tt
  All-filter P p (x ∷ xs) h = elim (Bool-cases (p x)) [
    | inl on ↦ rw on (h.0, All-filter P p xs h.1)
    | inr off ↦ rw off (All-filter P p xs h.1)
  ]

  pub filter-holds : (p : A → Bool) (xs : List A) → All (λ x. p x ≡ true) (filter p xs)
  unfolding filter
  filter-holds p [] = tt
  filter-holds p (x ∷ xs) = elim (Bool-cases (p x)) [
    | inl on ↦ rw on (on, filter-holds p xs)
    | inr off ↦ rw off (filter-holds p xs)
  ]

  module _ (lt : A → A → Bool) where
    -- Every entry is before every later one.
    abbrev pub Sorted : List A → Type 0
    Sorted [] = Unit
    Sorted (x ∷ xs) = All (λ y. lt x y ≡ true) xs × Sorted xs

    pub filter-Sorted : (p : A → Bool) (xs : List A) → Sorted xs → Sorted (filter p xs)
    unfolding filter
    filter-Sorted p [] h = tt
    filter-Sorted p (x ∷ xs) h = elim (Bool-cases (p x)) [
      | inl on ↦ rw on (All-filter (λ y. lt x y ≡ true) p xs h.0, filter-Sorted p xs h.1)
      | inr off ↦ rw off (filter-Sorted p xs h.1)
    ]

  pub All-get :
      (P : A → Type 0) (xs : List A) (i : ℕ) (x : A) → All P xs → get_elem? xs i ≡ some x → P x
  All-get P [] i x h e = absurd (ground arith)
  All-get P (y ∷ xs) zero x h e = let q : y ≡ x = ground arith in subst P q h.0
  All-get P (y ∷ xs) (suc i) x h e = All-get P xs i x h.1 e

  filter-All : (p : A → Bool) (xs : List A) → All (λ x. p x ≡ true) xs → filter p xs ≡ xs
  unfolding filter
  filter-All p [] h = refl
  filter-All p (x ∷ xs) h = rw (h.0, filter-All p xs h.1)

  filter-filter :
      (p r : A → Bool) (xs : List A) → filter (λ x. p x && r x) xs ≡ filter r (filter p xs)
  unfolding filter
  filter-filter p r [] = refl
  filter-filter p r (x ∷ xs) = elim (Bool-cases (p x)) [
    | inl on ↦ rw (on, filter-filter p r xs, filter) refl
    | inr off ↦ rw (off, filter-filter p r xs) refl
  ]

  module _ (lt : A → A → Bool) (irrefl : (x : A) → lt x x ≡ false)
      (asym : (x y : A) → lt x y ≡ true → lt y x ≡ false) where
    -- What lies after the entry at place `n` of a sorted list.
    filter-after :
        (xs : List A) (n : ℕ) (l : A)
        → Sorted lt xs
        → get_elem? xs n ≡ some l
        → filter (lt l) xs ≡ drop (suc n) xs
    unfolding filter
    filter-after [] n l s e = absurd (ground arith)
    filter-after (x ∷ xs) zero l s e =
        let q : x ≡ l = ground arith in
        subst (λ z. filter (lt z) (x ∷ xs) ≡ xs) q (rw (irrefl x) (filter-All (lt x) xs s.0))
    filter-after (x ∷ xs) (suc n) l s e =
        let up = All-get (λ y. lt x y ≡ true) xs n l s.0 e in
        rw (asym x l up) (filter-after xs n l s.1 e)

    -- The next page begins where the last one ended: what a test takes that adds "after the last entry
    -- of the page" to the first test is what the page left.
    pub filter-next :
        (p r : A → Bool) (xs : List A) (n : ℕ) (l : A)
        → Sorted lt xs
        → get_elem? (filter p xs) n ≡ some l
        → ((x : A) → p l ≡ true → r x ≡ (p x && lt l x))
        → filter r xs ≡ drop (suc n) (filter p xs)
    filter-next p r xs n l s e h =
        let on = All-get (λ x. p x ≡ true) (filter p xs) n l (filter-holds p xs) e in
        filter-same r (λ x. p x && lt l x) (λ x. h x on) xs
        ∙ filter-filter p (lt l) xs
        ∙ filter-after (filter p xs) n l (filter-Sorted lt p xs s) e
