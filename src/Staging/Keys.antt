-- ===== src/Staging/Keys.antt =====
-- internal/staging/stage/factory.go: the order of the rows, and what the WHERE clauses take.
use cdc_sink_redshift.Common.{
  ℕ, ◌≡◌, ◌↔◌, ◌⊎◌, ◌<◌, inl, inr, refl, sym, subst, Bool, true, false, not, ◌&&◌, Option, none,
  some, arith, ltb, ◌==◌, ==_iff, ltb→lt, Bytes, Bool-cases, not_true,
}
use cdc_sink_redshift.Hlc.{Time, Before}
use cdc_sink_redshift.Cdc.Stamps.Order.{Before-asym, Before-total, Before-irrefl}
use cdc_sink_redshift.Cdc.Stamps.Steps.{NotAfter}
use cdc_sink_redshift.Sql.{pair_lt, key_lt, tuple_lt}
use cdc_sink_redshift.Sql.Order.{pair_lt_iff, TupleBefore, tuple_lt_iff}
use cdc_sink_redshift.Staging.{Staged, Cursor, takes}

-- Before in the order of a backfill: by table, time and key.
abbrev pub BackfillBefore : ℕ → Time → Bytes → Staged → Type 0
BackfillBefore i t k r = (i < r.t) ⊎ ((i ≡ r.t) × TupleBefore t k r.mut.time r.mut.key)

-- Before in the order of time, table and key.
abbrev pub TimeBefore : ℕ → Time → Bytes → Staged → Type 0
TimeBefore i t k r =
    Before t r.mut.time
    ⊎ ((t ≡ r.mut.time) × ((i < r.t) ⊎ ((i ≡ r.t) × (key_lt k r.mut.key ≡ true))))

-- The order of the outer ORDER BY.
abbrev pub RowBefore : Bool → Staged → Staged → Type 0
RowBefore true a b = BackfillBefore a.t a.mut.time a.mut.key b
RowBefore false a b = TimeBefore a.t a.mut.time a.mut.key b

not_after_iff : (a b : Time) → (not (pair_lt b a) ≡ true) ↔ NotAfter a b
not_after_iff a b = (
  λ e p. absurd (ground (arith, (pair_lt_iff b a).1 p, e)),
  λ n. let e = not_true (pair_lt b a) (λ q. n ((pair_lt_iff b a).0 q)) in ground (arith, e),
)

and_iff :
    {P Q : Type 0} (a b : Bool) → ((a ≡ true) ↔ P) → ((b ≡ true) ↔ Q) → ((a && b) ≡ true) ↔ (P × Q)
and_iff true true p q = (λ e. (p.0 refl, q.0 refl), λ h. refl)
and_iff true false p q = (λ e. absurd (ground arith), λ h. q.1 h.1)
and_iff false b p q = (λ e. absurd (ground arith), λ h. p.1 h.0)

-- What the query takes, as a proposition.
abbrev pub Takes : Bool → Option ℕ → Cursor → Staged → Type 0
Takes true none q r = NotAfter q.start r.mut.time × NotAfter r.mut.time q.end
Takes false none q r = NotAfter q.offset_time r.mut.time × NotAfter r.mut.time q.end
Takes true (some i) q r =
    (((r.t ≡ i) × TupleBefore q.offset_time q.offset_key r.mut.time r.mut.key)
      ⊎ ((i < r.t) × NotAfter q.start r.mut.time))
    × NotAfter r.mut.time q.end
Takes false (some i) q r = TimeBefore i q.offset_time q.offset_key r × NotAfter r.mut.time q.end

pub split_NotAfter : (a b : Time) → NotAfter a b → Before a b ⊎ (a ≡ b)
split_NotAfter a b n = elim (Before-total a b) [
  | inl p ↦ inl p
  | inr (inl e) ↦ inr e
  | inr (inr p) ↦ absurd (n p)
]

pub join_NotAfter : (a b : Time) → Before a b ⊎ (a ≡ b) → NotAfter a b
join_NotAfter a b (inl p) = Before-asym a b p
join_NotAfter a b (inr e) = Before-irrefl b a (sym e)

module _ (q : Cursor) (r : Staged) where
  -- The three WHERE clauses.
  in_end_iff : (not (pair_lt q.end r.mut.time) ≡ true) ↔ NotAfter r.mut.time q.end
  in_end_iff = not_after_iff r.mut.time q.end

  takes-none : q.offset_table ≡ none → (takes q r ≡ true) ↔ Takes q.backfill none q r
  unfolding takes
  takes-none e = elim (Bool-cases q.backfill) [
    | inl on ↦
        rw (e, on, takes)
          (and_iff (not (pair_lt r.mut.time q.start)) (not (pair_lt q.end r.mut.time))
            (not_after_iff q.start r.mut.time) in_end_iff)
    | inr off ↦
        rw (e, off, takes)
          (and_iff (not (pair_lt r.mut.time q.offset_time)) (not (pair_lt q.end r.mut.time))
            (not_after_iff q.offset_time r.mut.time) in_end_iff)
  ]

  iff_map : {P P' Q : Type 0} (a : Bool) → ((a ≡ true) ↔ (P × Q)) → (P ↔ P') → (a ≡ true) ↔ (P' × Q)
  iff_map a h p = (λ e. (p.0 (h.0 e).0, (h.0 e).1), λ x. h.1 (p.1 x.0, x.1))

  -- The clause of a table that the offset is in.
  resumes_iff :
      (tuple_lt q.offset_time q.offset_key r.mut.time r.mut.key && not (pair_lt q.end r.mut.time)
        ≡ true)
      ↔ (TupleBefore q.offset_time q.offset_key r.mut.time r.mut.key × NotAfter r.mut.time q.end)
  resumes_iff =
      and_iff (tuple_lt q.offset_time q.offset_key r.mut.time r.mut.key)
        (not (pair_lt q.end r.mut.time))
        (tuple_lt_iff q.offset_time q.offset_key r.mut.time r.mut.key) in_end_iff

  takes-some_backfill :
      (i : ℕ)
      → q.offset_table ≡ some i
      → q.backfill ≡ true
      → (takes q r ≡ true) ↔ Takes true (some i) q r
  unfolding takes
  takes-some_backfill i e on = elim (Bool-cases (r.t == i)) [
    | inl here ↦
        let f : r.t ≡ i = (==_iff r.t i).0 here in
        rw (e, here, takes)
          (iff_map
            (tuple_lt q.offset_time q.offset_key r.mut.time r.mut.key
              && not (pair_lt q.end r.mut.time))
            resumes_iff
            (
              (λ t. inl (f, t)),
              (λ x. elim x [ inl t ↦ t.1 | inr l ↦ absurd (omega (arith, l.0, f)) ]),
            ))
    | inr there ↦ elim (Bool-cases (ltb r.t i)) [
      | inl below ↦
          rw (e, there, on, below, takes)
            (
              (λ h. absurd (ground arith)),
              (λ x. elim x.0 [
                | inl t ↦ absurd (omega (arith, t.0, ltb→lt r.t i below))
                | inr l ↦ absurd (omega (arith, l.0, ltb→lt r.t i below))
              ]),
            )
      | inr above ↦
          let g : i < r.t = ground arith in
          rw (e, there, on, above, takes)
            (iff_map (not (pair_lt r.mut.time q.start) && not (pair_lt q.end r.mut.time))
              (and_iff (not (pair_lt r.mut.time q.start)) (not (pair_lt q.end r.mut.time))
                (not_after_iff q.start r.mut.time) in_end_iff)
              (
                (λ n. inr (g, n)),
                (λ x. elim x [ inl t ↦ absurd (omega (arith, t.0, g)) | inr l ↦ l.1 ]),
              ))
    ]
  ]

  takes-some_time :
      (i : ℕ)
      → q.offset_table ≡ some i
      → q.backfill ≡ false
      → (takes q r ≡ true) ↔ Takes false (some i) q r
  unfolding takes
  takes-some_time i e off = elim (Bool-cases (r.t == i)) [
    | inl here ↦
        let f : r.t ≡ i = (==_iff r.t i).0 here in
        rw (e, here, takes)
          (iff_map
            (tuple_lt q.offset_time q.offset_key r.mut.time r.mut.key
              && not (pair_lt q.end r.mut.time))
            resumes_iff
            (
              (λ t. elim t [ inl b ↦ inl b | inr k ↦ inr (k.0, inr (sym f, k.1)) ]),
              (λ x. elim x [
                | inl b ↦ inl b
                | inr k ↦ elim k.1 [ inl l ↦ absurd (omega (arith, l, f)) | inr s ↦ inr (k.0, s.1) ]
              ]),
            ))
    | inr there ↦ elim (Bool-cases (ltb r.t i)) [
      | inl below ↦
          let l = ltb→lt r.t i below in
          rw (e, there, off, below, takes)
            (iff_map (pair_lt q.offset_time r.mut.time && not (pair_lt q.end r.mut.time))
              (and_iff (pair_lt q.offset_time r.mut.time) (not (pair_lt q.end r.mut.time))
                (pair_lt_iff q.offset_time r.mut.time) in_end_iff)
              (
                (λ b. inl b),
                (λ x. elim x [
                  | inl b ↦ b
                  | inr k ↦ elim k.1 [
                    | inl m ↦ absurd (omega (arith, l, m))
                    | inr s ↦ absurd (omega (arith, l, s.0))
                  ]
                ]),
              ))
      | inr above ↦
          let g : i < r.t = ground arith in
          rw (e, there, off, above, takes)
            (iff_map (not (pair_lt r.mut.time q.offset_time) && not (pair_lt q.end r.mut.time))
              (and_iff (not (pair_lt r.mut.time q.offset_time)) (not (pair_lt q.end r.mut.time))
                (not_after_iff q.offset_time r.mut.time) in_end_iff)
              (
                (λ n. elim (split_NotAfter q.offset_time r.mut.time n) [
                  | inl b ↦ inl b
                  | inr s ↦ inr (s, inl g)
                ]),
                (λ x.
                    join_NotAfter q.offset_time r.mut.time
                      (elim x [ inl b ↦ inl b | inr k ↦ inr k.0 ])),
              ))
    ]
  ]

  -- The WHERE clauses take the rows of the window that lie after the offset, in the order of the query.
  pub takes_iff : (takes q r ≡ true) ↔ Takes q.backfill q.offset_table q r
  takes_iff = go q.backfill q.offset_table refl refl
    where
      go :
          (b : Bool) (o : Option ℕ)
          → q.backfill ≡ b
          → q.offset_table ≡ o
          → (takes q r ≡ true) ↔ Takes b o q r
      go b none f e = subst (λ x. (takes q r ≡ true) ↔ Takes x none q r) f (takes-none e)
      go true (some i) f e = takes-some_backfill i e f
      go false (some i) f e = takes-some_time i e f
