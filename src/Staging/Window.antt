-- ===== src/Staging/Window.antt =====
-- internal/staging/stage/factory.go: the query of the next page takes what the last one left.
use cdc_sink_redshift.Common.{
  ℕ, ◌↔◌, inl, inr, sym, subst, ◌∙◌, Bool, true, false, Option, none, some, arith, Bytes,
}
use cdc_sink_redshift.Hlc.{Time, Before}
use cdc_sink_redshift.Cdc.Stamps.Steps.{NotAfter, NotAfter-trans}
use cdc_sink_redshift.Sql.Order.{Before-trans, TupleBefore, tuple_trans, key_lt_trans}
use cdc_sink_redshift.Staging.{Staged, Cursor}
use cdc_sink_redshift.Staging.Keys.{TimeBefore, RowBefore, Takes, join_NotAfter}

-- The cursor moved to a row.
abbrev pub at_row : Cursor → Staged → Cursor
at_row q l = record q { offset_key = l.mut.key; offset_table = some l.t; offset_time = l.mut.time }

TupleBefore-NotAfter :
    (a : Time) (k : Bytes) (b : Time) (l : Bytes) → TupleBefore a k b l → NotAfter a b
TupleBefore-NotAfter a k b l (inl p) = join_NotAfter a b (inl p)
TupleBefore-NotAfter a k b l (inr (e, h)) = join_NotAfter a b (inr e)

pub TimeBefore-NotAfter :
    (i : ℕ) (t : Time) (k : Bytes) (r : Staged) → TimeBefore i t k r → NotAfter t r.mut.time
TimeBefore-NotAfter i t k r (inl p) = join_NotAfter t r.mut.time (inl p)
TimeBefore-NotAfter i t k r (inr (e, h)) = join_NotAfter t r.mut.time (inr e)

pub TimeBefore-trans :
    (i : ℕ) (t : Time) (k : Bytes) (l r : Staged)
    → TimeBefore i t k l
    → RowBefore false l r
    → TimeBefore i t k r
TimeBefore-trans i t k l r (inl p) (inl q) = inl (Before-trans t l.mut.time r.mut.time p q)
TimeBefore-trans i t k l r (inl p) (inr (e, q)) = inl (subst (λ x. Before t x) e p)
TimeBefore-trans i t k l r (inr (e, p)) (inl q) = inl (subst (λ x. Before x r.mut.time) (sym e) q)
TimeBefore-trans i t k l r (inr (e, inl p)) (inr (f, inl q)) = inr (e ∙ f, inl (omega arith))
TimeBefore-trans i t k l r (inr (e, inl p)) (inr (f, inr (g, q))) = inr (e ∙ f, inl (omega arith))
TimeBefore-trans i t k l r (inr (e, inr (d, p))) (inr (f, inl q)) = inr (e ∙ f, inl (omega arith))
TimeBefore-trans i t k l r (inr (e, inr (d, p))) (inr (f, inr (g, q))) =
    inr (e ∙ f, inr (d ∙ g, key_lt_trans k l.mut.key r.mut.key p q))

-- What the moved cursor takes is what the old one takes after the row.
abbrev Next : Bool → Option ℕ → Cursor → Staged → Staged → Type 0
Next b o q l r = Takes b (some l.t) (at_row q l) r ↔ (Takes b o q r × RowBefore b l r)

Next-time_none : (q : Cursor) (l r : Staged) → Takes false none q l → Next false none q l r
Next-time_none q l r h = (
  (λ x. (
    (
      NotAfter-trans q.offset_time l.mut.time r.mut.time h.0
          (TimeBefore-NotAfter l.t l.mut.time l.mut.key r x.0),
      x.1,
    ),
    x.0,
  )),
  (λ x. (x.1, x.0.1)),
)

Next-time :
    (i : ℕ) (q : Cursor) (l r : Staged) → Takes false (some i) q l → Next false (some i) q l r
Next-time i q l r h = (
  (λ x. ((TimeBefore-trans i q.offset_time q.offset_key l r h.0 x.0, x.1), x.0)),
  (λ x. (x.1, x.0.1)),
)

Next-backfill_none : (q : Cursor) (l r : Staged) → Takes true none q l → Next true none q l r
Next-backfill_none q l r h = (
  (λ x. elim x.0 [
    | inl same ↦ (
      (
        NotAfter-trans q.start l.mut.time r.mut.time h.0
            (TupleBefore-NotAfter l.mut.time l.mut.key r.mut.time r.mut.key same.1),
        x.1,
      ),
      inr (sym same.0, same.1),
    )
    | inr more ↦ ((more.1, x.1), inl more.0)
  ]),
  (λ x. elim x.1 [
    | inl up ↦ (inr (up, x.0.0), x.0.1)
    | inr same ↦ (inl (sym same.0, same.1), x.0.1)
  ]),
)

Next-backfill :
    (i : ℕ) (q : Cursor) (l r : Staged) → Takes true (some i) q l → Next true (some i) q l r
Next-backfill i q l r h = (
  (λ x. elim x.0 [
    | inl same ↦ (
      (
        elim h.0 [
          | inl here ↦ inl (
            same.0 ∙ here.0,
            tuple_trans q.offset_time q.offset_key l.mut.time l.mut.key r.mut.time r.mut.key here.1
                same.1,
          )
          | inr up ↦ inr (
            omega (arith, up.0, same.0),
            NotAfter-trans q.start l.mut.time r.mut.time up.1
                (TupleBefore-NotAfter l.mut.time l.mut.key r.mut.time r.mut.key same.1),
          )
        ],
        x.1,
      ),
      inr (sym same.0, same.1),
    )
    | inr more ↦ (
      (
        inr (
          elim h.0 [
            | inl here ↦ omega (arith, here.0, more.0)
            | inr up ↦ omega (arith, up.0, more.0)
          ],
          more.1,
        ),
        x.1,
      ),
      inl more.0,
    )
  ]),
  (λ x. elim x.1 [
    | inl up ↦ (
      inr (
        up,
        elim x.0.0 [
          | inr more ↦ more.1
          | inl at_i ↦ elim h.0 [
            | inl here ↦ absurd (omega (arith, here.0, up, at_i.0))
            | inr higher ↦ absurd (omega (arith, higher.0, up, at_i.0))
          ]
        ],
      ),
      x.0.1,
    )
    | inr same ↦ (inl (sym same.0, same.1), x.0.1)
  ]),
)

pub Next-Takes :
    (b : Bool) (o : Option ℕ) (q : Cursor) (l r : Staged) → Takes b o q l → Next b o q l r
Next-Takes true none q l r h = Next-backfill_none q l r h
Next-Takes true (some i) q l r h = Next-backfill i q l r h
Next-Takes false none q l r h = Next-time_none q l r h
Next-Takes false (some i) q l r h = Next-time i q l r h
