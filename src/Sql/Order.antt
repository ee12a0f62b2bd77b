-- ===== src/Sql/Order.antt =====
-- The comparisons of SQL against the orders that they stand for.
use cdc_sink_redshift.Common.{
  ◌≡◌, ◌↔◌, ◌⊎◌, inl, inr, refl, sym, subst, ◌∙◌, true, false, [], ◌∷◌, arith, Bytes, not_true,
}
use cdc_sink_redshift.Hlc.{Time, Before}
use cdc_sink_redshift.Cdc.Stamps.Order.{Before-cotrans, Before-asym, Before-total, Before-irrefl}
use cdc_sink_redshift.Cdc.Stamps.Steps.{NotAfter}
use cdc_sink_redshift.Sql.{pair_lt, key_lt, tuple_lt}

pub pair_lt_iff : (a b : Time) → (pair_lt a b ≡ true) ↔ Before a b
unfolding pair_lt
pair_lt_iff a b = ground arith

pub not_lt : (a b : Time) → pair_lt a b ≡ false → NotAfter b a
not_lt a b h p = absurd (ground (arith, (pair_lt_iff a b).1 p, h))

pub Before-up : (a b c : Time) → NotAfter a b → Before b c → Before a c
Before-up a b c n p = elim (Before-cotrans b c a p) [ inl q ↦ absurd (n q) | inr q ↦ q ]

pub Before-trans : (a b c : Time) → Before a b → Before b c → Before a c
Before-trans a b c p q = Before-up a b c (Before-asym a b p) q

pub key_lt_irrefl : (a : Bytes) → key_lt a a ≡ false
unfolding key_lt
key_lt_irrefl [] = refl
key_lt_irrefl (a ∷ as') = ground (arith, key_lt_irrefl as')

pub key_lt_asym : (a b : Bytes) → key_lt a b ≡ true → key_lt b a ≡ false
unfolding key_lt
key_lt_asym [] [] h = absurd (ground arith)
key_lt_asym [] (b ∷ bs) h = refl
key_lt_asym (a ∷ as') [] h = absurd (ground arith)
key_lt_asym (a ∷ as') (b ∷ bs) h = ground (arith, key_lt_asym as' bs)

pub key_lt_trans : (a b c : Bytes) → key_lt a b ≡ true → key_lt b c ≡ true → key_lt a c ≡ true
unfolding key_lt
key_lt_trans [] [] c h k = absurd (ground arith)
key_lt_trans [] (b ∷ bs) [] h k = absurd (ground arith)
key_lt_trans [] (b ∷ bs) (c ∷ cs) h k = refl
key_lt_trans (a ∷ as') [] c h k = absurd (ground arith)
key_lt_trans (a ∷ as') (b ∷ bs) [] h k = absurd (ground arith)
key_lt_trans (a ∷ as') (b ∷ bs) (c ∷ cs) h k = ground (arith, key_lt_trans as' bs cs)

-- The order of tuples, by time and then by key.
abbrev pub TupleBefore : Time → Bytes → Time → Bytes → Type 0
TupleBefore a k b l = Before a b ⊎ ((a ≡ b) × (key_lt k l ≡ true))

pub tuple_lt_iff :
    (a : Time) (k : Bytes) (b : Time) (l : Bytes) → (tuple_lt a k b l ≡ true) ↔ TupleBefore a k b l
unfolding tuple_lt
tuple_lt_iff a k b l = elim (Before-total a b) [
  | inl p ↦ rw ((pair_lt_iff a b).1 p) (λ h. inl p, λ h. refl)
  | inr (inr p) ↦
      let no_lt = not_true (pair_lt a b) (λ q. Before-asym a b ((pair_lt_iff a b).0 q) p) in
      rw (no_lt, (pair_lt_iff b a).1 p)
        (
          λ h. absurd (ground arith),
          λ h. elim h [
            | inl q ↦ absurd (Before-asym a b q p)
            | inr (e, q) ↦ absurd (Before-irrefl b a (sym e) p)
          ],
        )
  | inr (inl e) ↦
      let f = not_true (pair_lt a b) (λ q. Before-irrefl a b e ((pair_lt_iff a b).0 q)) in
      let g = not_true (pair_lt b a) (λ q. Before-irrefl b a (sym e) ((pair_lt_iff b a).0 q)) in
      rw (f, g)
        (λ h. inr (e, h), λ h. elim h [ inl q ↦ absurd (Before-irrefl a b e q) | inr (d, q) ↦ q ])
]

pub tuple_trans :
    (a : Time) (k : Bytes) (b : Time) (l : Bytes) (c : Time) (m : Bytes)
    → TupleBefore a k b l
    → TupleBefore b l c m
    → TupleBefore a k c m
tuple_trans a k b l c m (inl p) (inl q) = inl (Before-trans a b c p q)
tuple_trans a k b l c m (inl p) (inr (e, q)) = inl (subst (λ t. Before a t) e p)
tuple_trans a k b l c m (inr (e, p)) (inl q) = inl (subst (λ t. Before t c) (sym e) q)
tuple_trans a k b l c m (inr (e, p)) (inr (f, q)) = inr (e ∙ f, key_lt_trans k l m p q)

pub tuple-asym :
    (a : Time) (k : Bytes) (b : Time) (l : Bytes) → TupleBefore a k b l → ¬ TupleBefore b l a k
tuple-asym a k b l (inl p) (inl q) = Before-asym a b p q
tuple-asym a k b l (inl p) (inr (e, q)) = Before-irrefl a b (sym e) p
tuple-asym a k b l (inr (e, p)) (inl q) = Before-irrefl b a (sym e) q
tuple-asym a k b l (inr (e, p)) (inr (f, q)) = absurd (ground (arith, key_lt_asym k l p, q))
