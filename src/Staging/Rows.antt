-- ===== src/Staging/Rows.antt =====
-- internal/staging/stage/factory.go: the outer ORDER BY as a test, and the query of the next page.
use cdc_sink_redshift.Common.{
  ℕ, ◌≡◌, ◌↔◌, ◌⊎◌, ◌<◌, inl, inr, refl, sym, Bool, true, false, ◌&&◌, arith, if◌then◌else◌, ltb,
  ltb→lt, Bool-cases, not_true,
}
use cdc_sink_redshift.Hlc.{Time, Before}
use cdc_sink_redshift.Cdc.Stamps.Order.{Before-asym, Before-total, Before-irrefl}
use cdc_sink_redshift.Sql.{pair_lt, key_lt, tuple_lt}
use cdc_sink_redshift.Sql.Order.{pair_lt_iff, tuple_lt_iff, tuple-asym, key_lt_asym}
use cdc_sink_redshift.Staging.{Staged, Cursor, takes}
use cdc_sink_redshift.Staging.Keys.{RowBefore, takes_iff}
use cdc_sink_redshift.Staging.Window.{at_row, Next-Takes}

-- `ORDER BY t, nanos, logical, key` in a backfill, else `ORDER BY nanos, logical, t, key`.
unfoldable pub row_lt : Bool → Staged → Staged → Bool
row_lt true a b =
    if ltb a.t b.t
    then true
    else if ltb b.t a.t
    then false
    else tuple_lt a.mut.time a.mut.key b.mut.time b.mut.key
row_lt false a b =
    if pair_lt a.mut.time b.mut.time
    then true
    else if pair_lt b.mut.time a.mut.time
    then false
    else if ltb a.t b.t
    then true
    else if ltb b.t a.t
    then false
    else key_lt a.mut.key b.mut.key

same_iff : {P : Type 0} (b : Bool) → b ≡ true → P → (b ≡ true) ↔ P
same_iff b e p = (λ _. p, λ _. e)

number_iff :
    {P : Type 0} (a b : ℕ) (rest : Bool)
    → ((rest ≡ true) ↔ P)
    → ((if ltb a b then true else if ltb b a then false else rest) ≡ true)
      ↔ ((a < b) ⊎ ((a ≡ b) × P))
number_iff a b rest h = elim (Bool-cases (ltb a b)) [
  | inl lower ↦ rw lower (λ e. inl (ltb→lt a b lower), λ x. refl)
  | inr not_lower ↦ elim (Bool-cases (ltb b a)) [
    | inl upper ↦
        rw (not_lower, upper)
          (
            λ e. absurd (ground arith),
            λ x. elim x [
              | inl p ↦ absurd (ground (arith, p, upper))
              | inr q ↦ absurd (ground (arith, q.0, upper))
            ],
          )
    | inr not_upper ↦
        let e : a ≡ b = ground arith in
        rw (not_lower, not_upper)
          (
            λ k. inr (e, h.0 k),
            λ x. elim x [ inl p ↦ absurd (omega (arith, p, e)) | inr q ↦ h.1 q.1 ],
          )
  ]
]

time_iff :
    {P : Type 0} (a b : Time) (rest : Bool)
    → ((rest ≡ true) ↔ P)
    → ((if pair_lt a b then true else if pair_lt b a then false else rest) ≡ true)
      ↔ (Before a b ⊎ ((a ≡ b) × P))
time_iff a b rest h = elim (Before-total a b) [
  | inl p ↦ rw ((pair_lt_iff a b).1 p) (λ _. inl p, λ _. refl)
  | inr (inr p) ↦
      let no_lt = not_true (pair_lt a b) (λ q. Before-asym a b ((pair_lt_iff a b).0 q) p) in
      rw (no_lt, (pair_lt_iff b a).1 p)
        (
          λ k. absurd (ground arith),
          λ x. elim x [
            | inl q ↦ absurd (Before-asym a b q p)
            | inr q ↦ absurd (Before-irrefl b a (sym q.0) p)
          ],
        )
  | inr (inl e) ↦
      let f = not_true (pair_lt a b) (λ q. Before-irrefl a b e ((pair_lt_iff a b).0 q)) in
      let g = not_true (pair_lt b a) (λ q. Before-irrefl b a (sym e) ((pair_lt_iff b a).0 q)) in
      rw (f, g)
        (
          λ k. inr (e, h.0 k),
          λ x. elim x [ inl q ↦ absurd (Before-irrefl a b e q) | inr q ↦ h.1 q.1 ],
        )
]

pub row_lt_iff : (b : Bool) (x y : Staged) → (row_lt b x y ≡ true) ↔ RowBefore b x y
unfolding row_lt
row_lt_iff true x y =
    number_iff x.t y.t (tuple_lt x.mut.time x.mut.key y.mut.time y.mut.key)
      (tuple_lt_iff x.mut.time x.mut.key y.mut.time y.mut.key)
row_lt_iff false x y =
    time_iff x.mut.time y.mut.time
      (if ltb x.t y.t then true else if ltb y.t x.t then false else key_lt x.mut.key y.mut.key)
      (number_iff x.t y.t (key_lt x.mut.key y.mut.key) (λ e. e, λ e. e))

RowBefore-asym : (b : Bool) (x y : Staged) → RowBefore b x y → ¬ RowBefore b y x
RowBefore-asym true x y (inl p) (inl q) = absurd (omega arith)
RowBefore-asym true x y (inl p) (inr (e, q)) = absurd (omega arith)
RowBefore-asym true x y (inr (e, p)) (inl q) = absurd (omega arith)
RowBefore-asym true x y (inr (e, p)) (inr (f, q)) =
    tuple-asym x.mut.time x.mut.key y.mut.time y.mut.key p q
RowBefore-asym false x y (inl p) (inl q) = Before-asym x.mut.time y.mut.time p q
RowBefore-asym false x y (inl p) (inr (e, q)) = Before-irrefl x.mut.time y.mut.time (sym e) p
RowBefore-asym false x y (inr (e, p)) (inl q) = Before-irrefl y.mut.time x.mut.time (sym e) q
RowBefore-asym false x y (inr (e, inl p)) (inr (f, inl q)) = absurd (omega arith)
RowBefore-asym false x y (inr (e, inl p)) (inr (f, inr (g, q))) = absurd (omega arith)
RowBefore-asym false x y (inr (e, inr (d, p))) (inr (f, inl q)) = absurd (omega arith)
RowBefore-asym false x y (inr (e, inr (d, p))) (inr (f, inr (g, q))) =
    absurd (ground (arith, key_lt_asym x.mut.key y.mut.key p, q))

pub row_lt_asym : (b : Bool) (x y : Staged) → row_lt b x y ≡ true → row_lt b y x ≡ false
row_lt_asym b x y h =
    not_true (row_lt b y x)
      (λ k. RowBefore-asym b x y ((row_lt_iff b x y).0 h) ((row_lt_iff b y x).0 k))

pub row_lt_irrefl : (b : Bool) (x : Staged) → row_lt b x x ≡ false
row_lt_irrefl b x =
    not_true (row_lt b x x)
      (λ k. RowBefore-asym b x x ((row_lt_iff b x x).0 k) ((row_lt_iff b x x).0 k))

both :
    {P Q : Type 0} (a b c : Bool)
    → ((b ≡ true) ↔ P)
    → ((c ≡ true) ↔ Q)
    → ((a ≡ true) ↔ (P × Q))
    → a ≡ (b && c)
both true true true p q h = refl
both true false c p q h = absurd (ground (arith, p.1 (h.0 refl).0))
both true true false p q h = absurd (ground (arith, q.1 (h.0 refl).1))
both false true true p q h = absurd (ground (arith, h.1 (p.0 refl, q.0 refl)))
both false true false p q h = refl
both false false c p q h = refl

-- After a page whose last row is `l` the query takes what it took before of the rows after `l`.
pub takes-next :
    (q : Cursor) (l r : Staged)
    → takes q l ≡ true
    → takes (at_row q l) r ≡ (takes q r && row_lt q.backfill l r)
takes-next q l r h =
    let n = Next-Takes q.backfill q.offset_table q l r ((takes_iff q l).0 h) in
    let i = takes_iff (at_row q l) r in
    both (takes (at_row q l) r) (takes q r) (row_lt q.backfill l r) (takes_iff q r)
      (row_lt_iff q.backfill l r) (λ e. n.0 (i.0 e), λ x. i.1 (n.1 x))
