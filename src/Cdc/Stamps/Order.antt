-- ===== src/Cdc/Stamps/Order.antt =====
-- internal/source/cdc/resolved_stamp.go: `Less` against the order that it stands for.
use cdc_sink_redshift.Common.{
  ◌≡◌, ◌↔◌, ◌⊎◌, inl, inr, refl, sym, subst, ◌∙◌, Bool, true, false, not, arith, if◌then◌else◌,
  not_true,
}
use cdc_sink_redshift.Common.Int.{ℤ, ◌<ℤ◌, ltb_ℤ, is_zero}
use cdc_sink_redshift.Hlc.{Time, compare, lt, IsValid, Before}
use cdc_sink_redshift.Hlc.Order.{compare-sign}
use cdc_sink_redshift.Stamp.{IsStampOrder}
use cdc_sink_redshift.Cdc.Stamps.{ResolvedStamp, stamp_less}

-- A stamp whose times are valid.
pub record IsTimed (s : ResolvedStamp) : Type 0 where
  pub committed : IsValid s.committed_time
  pub proposed : IsValid s.proposed_time
  pub offset : IsValid s.offset_time

-- The order that stamps mean: by the committed time, then by the proposed time, then by iteration.
abbrev pub StampBefore : ResolvedStamp → ResolvedStamp → Type 0
StampBefore s o =
    Before s.committed_time o.committed_time
    ⊎ ((s.committed_time ≡ o.committed_time)
        × (Before s.proposed_time o.proposed_time
            ⊎ ((s.proposed_time ≡ o.proposed_time) × (s.iteration <ℤ o.iteration))))

ltb_iff : (a b : ℤ) → (ltb_ℤ a b ≡ true) ↔ (a <ℤ b)
ltb_iff a b = ground arith

-- Two tests that follow one another, where the first says that it is decided.
cascade {ℓ κ μ} :
    {P : Type ℓ} {E : Type κ} {Q : Type μ} (z l rest : Bool)
    → ((l ≡ true) ↔ P)
    → ((z ≡ true) ↔ E)
    → ((rest ≡ true) ↔ Q)
    → (E → ¬ P)
    → ((if not z then l else rest) ≡ true) ↔ (P ⊎ (E × Q))
cascade true l rest hp he hq excl = (
  λ h. inr (he.0 refl, hq.0 h),
  λ x. elim x [ inl p ↦ absurd (excl (he.0 refl) p) | inr (e, q) ↦ hq.1 q ],
)
cascade false l rest hp he hq excl = (
  λ h. inl (hp.0 h),
  λ x. elim x [ inl p ↦ hp.1 p | inr (e, q) ↦ absurd (ground (arith, he.1 e)) ],
)

pub Before-irrefl : (a b : Time) → a ≡ b → ¬ Before a b
Before-irrefl a b e h = absurd (self (subst (λ x. Before x b) e h))
  where
    self : Before b b → ⊥
    self x = omega arith

-- Between stamps with valid times `Less` is the order by committed time, proposed time and iteration.
pub stamp_less_iff :
    (s o : ResolvedStamp) → IsTimed s → IsTimed o → (stamp_less s o ≡ true) ↔ StampBefore s o
unfolding stamp_less lt
stamp_less_iff s o hs ho =
    let c = compare-sign s.committed_time o.committed_time hs.committed ho.committed in
    let p = compare-sign s.proposed_time o.proposed_time hs.proposed ho.proposed in
    cascade (is_zero (compare s.committed_time o.committed_time))
      (lt s.committed_time o.committed_time)
      (if not (is_zero (compare s.proposed_time o.proposed_time))
        then lt s.proposed_time o.proposed_time
        else ltb_ℤ s.iteration o.iteration)
      c.0 c.2
      (cascade (is_zero (compare s.proposed_time o.proposed_time))
        (lt s.proposed_time o.proposed_time) (ltb_ℤ s.iteration o.iteration) p.0 p.2
        (ltb_iff s.iteration o.iteration) (Before-irrefl s.proposed_time o.proposed_time))
      (Before-irrefl s.committed_time o.committed_time)

pub Before-asym : (a b : Time) → Before a b → ¬ Before b a
Before-asym a b p q = absurd (apart p q)
  where
    apart : Before a b → Before b a → ⊥
    apart x y = ground arith

pub Before-cotrans : (a b c : Time) → Before a b → Before a c ⊎ Before c b
Before-cotrans a b c h = ground arith

pub Before-total : (a b : Time) → Before a b ⊎ (a ≡ b) ⊎ Before b a
Before-total a b = ground arith

int-total : (a b c : ℤ) → a <ℤ b → (a <ℤ c) ⊎ (c <ℤ b)
int-total a b c h = ground arith

-- The order by three parts is asymmetric, and every stamp lies after the lower or before the upper
-- of two.
StampBefore-asym : (s o : ResolvedStamp) → StampBefore s o → ¬ StampBefore o s
StampBefore-asym s o (inl p) (inl q) = Before-asym s.committed_time o.committed_time p q
StampBefore-asym s o (inl p) (inr (e, q)) =
    Before-irrefl s.committed_time o.committed_time (sym e) p
StampBefore-asym s o (inr (e, p)) (inl q) =
    Before-irrefl o.committed_time s.committed_time (sym e) q
StampBefore-asym s o (inr (e, inl p)) (inr (f, inl q)) =
    Before-asym s.proposed_time o.proposed_time p q
StampBefore-asym s o (inr (e, inl p)) (inr (f, inr (g, q))) =
    Before-irrefl s.proposed_time o.proposed_time (sym g) p
StampBefore-asym s o (inr (e, inr (d, p))) (inr (f, inl q)) =
    Before-irrefl o.proposed_time s.proposed_time (sym d) q
StampBefore-asym s o (inr (e, inr (d, p))) (inr (f, inr (g, q))) = absurd (omega arith)

StampBefore-cotrans : (s o c : ResolvedStamp) → StampBefore s o → StampBefore s c ⊎ StampBefore c o
StampBefore-cotrans s o c (inl p) =
    elim (Before-cotrans s.committed_time o.committed_time c.committed_time p) [
      | inl q ↦ inl (inl q)
      | inr q ↦ inr (inl q)
    ]
StampBefore-cotrans s o c (inr (e, p)) = elim (Before-total s.committed_time c.committed_time) [
  | inl q ↦ inl (inl q)
  | inr (inr q) ↦ inr (inl (subst (λ t. Before c.committed_time t) e q))
  | inr (inl d) ↦ elim p [
    | inl r ↦ elim (Before-cotrans s.proposed_time o.proposed_time c.proposed_time r) [
      | inl q ↦ inl (inr (d, inl q))
      | inr q ↦ inr (inr (sym d ∙ e, inl q))
    ]
    | inr (f, r) ↦ elim (Before-total s.proposed_time c.proposed_time) [
      | inl q ↦ inl (inr (d, inl q))
      | inr (inr q) ↦ inr (inr (sym d ∙ e, inl (subst (λ t. Before c.proposed_time t) f q)))
      | inr (inl g) ↦ elim (int-total s.iteration o.iteration c.iteration r) [
        | inl q ↦ inl (inr (d, inr (g, q)))
        | inr q ↦ inr (inr (sym d ∙ e, inr (sym g ∙ f, q)))
      ]
    ]
  ]
]

-- A stamp with valid times.
abbrev pub Timed : Type 0
Timed = (s : ResolvedStamp) × IsTimed s

-- `Less` of stamps with valid times is what the stamp queue asks of it, whatever test by identity
-- holds of equal stamps only.
pub stamp_less-IsStampOrder :
    (same : Timed → Timed → Bool)
    → ((a b : Timed) → same a b ≡ true → a ≡ b)
    → IsStampOrder same (λ a b. stamp_less a.0 b.0)
stamp_less-IsStampOrder same same_eq = record {
  asym = λ a b h. not_true (stamp_less b.0 a.0) (λ k.
      StampBefore-asym a.0 b.0 ((stamp_less_iff a.0 b.0 a.1 b.1).0 h)
        ((stamp_less_iff b.0 a.0 b.1 a.1).0 k));
  cotrans = λ a b c h.
      elim (StampBefore-cotrans a.0 b.0 c.0 ((stamp_less_iff a.0 b.0 a.1 b.1).0 h)) [
        | inl p ↦ inl ((stamp_less_iff a.0 c.0 a.1 c.1).1 p)
        | inr p ↦ inr ((stamp_less_iff c.0 b.0 c.1 b.1).1 p)
      ];
  same_eq = same_eq;
}
