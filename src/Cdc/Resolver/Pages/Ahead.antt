-- ===== src/Cdc/Resolver/Pages/Ahead.antt =====
-- internal/staging/stage/factory.go: the cursors that the loop over the pages sets, against the rows that it
-- still brings.
use cdc_sink_redshift.Common.{
  ℕ, zero, suc, ◌-◌, ◌≡◌, ◌<◌, refl, sym, subst, ◌∙◌, Bool, true, false, Option, none, some, List,
  [], ◌∷◌, arith, ltb, length, take, length-take, All, All-map,
}
use cdc_sink_redshift.Hlc.{Time}
use cdc_sink_redshift.Ident.{Table}
use cdc_sink_redshift.Staging.{Staged, Cursor, takes, filter, move_cursor}
use cdc_sink_redshift.Staging.Pages.{All-get, filter-holds, All-filter}
use cdc_sink_redshift.Staging.Keys.{Takes, takes_iff}
use cdc_sink_redshift.Staging.Window.{at_row, TimeBefore-NotAfter}
use cdc_sink_redshift.Cdc.Stamps.{Offset}
use cdc_sink_redshift.Cdc.Stamps.Steps.{NotAfter, NotAfter-trans}
use cdc_sink_redshift.Cdc.Resolver.{Event, mutation, cursor_set, query_failed}
use cdc_sink_redshift.Cdc.Resolver.Pages.{
  offset_of, page_events, select_events, Database, next_round,
}
use cdc_sink_redshift.Staging.Select.{Complete}
use cdc_sink_redshift.Cdc.Resolver.Pages.Received.{
  round, select_events-round, full-at_row, IsRead, All-take,
}

-- The rows of the query of a cursor are neither before its offset nor after its end.
taken-NotAfter :
    (q : Cursor) (r : Staged)
    → q.backfill ≡ false
    → takes q r ≡ true
    → NotAfter q.offset_time r.mut.time × NotAfter r.mut.time q.end
taken-NotAfter q r off h =
    go q.offset_table (subst (λ b. Takes b q.offset_table q r) off ((takes_iff q r).0 h))
  where
    go :
        (o : Option ℕ)
        → Takes false o q r
        → NotAfter q.offset_time r.mut.time × NotAfter r.mut.time q.end
    go none (a, b) = (a, b)
    go (some i) (a, b) = (TimeBefore-NotAfter i q.offset_time q.offset_key r a, b)

module _ (start end : Time) where
  -- A time of the window that is not before an offset.
  abbrev pub Fits : Time → Time → Type 0
  Fits lo t = NotAfter start t × NotAfter lo t × NotAfter t end

  -- No mutation is before the cursor, as it is set when the mutation comes.
  abbrev pub Ahead : {E : Type 0} → Time → List (Event E) → Type 0
  Ahead lo [] = Unit
  Ahead lo (cursor_set c ∷ evs) = Ahead c.time evs
  Ahead lo (query_failed e ∷ evs) = Unit
  Ahead lo (mutation t m ∷ evs) = Fits lo m.time × Ahead lo evs

  page_events-Ahead :
      {E : Type 0} (tables : List Table) (db : Database E) (lo : Time) (page : List Staged)
      (evs : List (Event E))
      → All (IsRead db) page
      → All (λ (r : Staged). Fits lo r.mut.time) page
      → Ahead lo evs
      → Ahead lo (page_events tables db page evs)
  unfolding page_events
  page_events-Ahead tables db lo [] evs g h k = k
  page_events-Ahead tables db lo (r ∷ rs) evs g h k =
      rw (page_events, g.0) (h.0, page_events-Ahead tables db lo rs evs g.1 h.1 k)

  taken-Fits :
      (q : Cursor) (rows : List Staged)
      → q.backfill ≡ false
      → q.end ≡ end
      → NotAfter start q.offset_time
      → All (λ (r : Staged). Fits q.offset_time r.mut.time) (filter (takes q) rows)
  taken-Fits q rows off at_end from =
      All-map
        (λ r h.
          let (lo, hi) = taken-NotAfter q r off h in
          (
            NotAfter-trans start q.offset_time r.mut.time from lo,
            lo,
            subst (λ e. NotAfter r.mut.time e) at_end hi,
          ))
        (filter (takes q) rows) (filter-holds (takes q) rows)

  -- A cursor outside a backfill, whose offset is within the window.
  pub record Forward (q : Cursor) : Type 0 where
    pub paged : 0 < q.limit
    pub in_order : q.backfill ≡ false
    pub at_end : q.end ≡ end
    pub from : NotAfter start q.offset_time

  at_row-Forward : (q : Cursor) (l : Staged) → Forward q → takes q l ≡ true → Forward (at_row q l)
  at_row-Forward q l h t = record {
    paged = h.paged;
    in_order = h.in_order;
    at_end = h.at_end;
    from = NotAfter-trans start q.offset_time l.mut.time h.from (taken-NotAfter q l h.in_order t).0;
  }

  -- The cursor that a full page leaves is as good as the one that it began with.
  full-Forward :
      (rows : List Staged) (q : Cursor)
      → Forward q
      → ltb (length (take q.limit (filter (takes q) rows))) q.limit ≡ false
      → Forward (move_cursor q (take q.limit (filter (takes q) rows)))
  full-Forward rows q h long =
      let f = filter (takes q) rows in
      let n = q.limit - 1 in
      let lim : q.limit ≡ suc n = omega (arith, h.paged) in
      let full : n < length f = ground (arith, length-take q.limit f, lim, long) in
      let (l, at, mv) = full-at_row n rows q lim full in
      let on = All-get (λ x. takes q x ≡ true) f n l (filter-holds (takes q) rows) at in
      subst Forward (sym mv) (at_row-Forward q l h on)

  module _ {E : Type 0} (tables : List Table) where
    -- One round, from the rest of the loop.
    round-Ahead :
        (db : Database E) (lo : Time) (page : List Staged) (c : Offset) (b : Bool)
        (rest : Option (List (Event E))) (evs : List (Event E))
        → All (IsRead db) page
        → All (λ (r : Staged). Fits lo r.mut.time) page
        → (b ≡ false → (more : List (Event E)) → rest ≡ some more → Ahead c.time more)
        → round tables db page c b rest ≡ some evs
        → Ahead lo evs
    round-Ahead db lo page c true rest evs g h k e =
        let same : page_events tables db page (cursor_set c ∷ []) ≡ evs = ground arith in
        subst (Ahead lo) same (page_events-Ahead tables db lo page (cursor_set c ∷ []) g h tt)
    round-Ahead db lo page c false none evs g h k e = absurd (ground arith)
    round-Ahead db lo page c false (some more) evs g h k e =
        let same : page_events tables db page (cursor_set c ∷ more) ≡ evs = ground arith in
        subst (Ahead lo) same
          (page_events-Ahead tables db lo page (cursor_set c ∷ more) g h (k refl more refl))

    pub select_events-Ahead :
        (db : Database E) (fuel : ℕ) (rows : List Staged) (q : Cursor) (evs : List (Event E))
        → Complete db.answers
        → All (IsRead db) rows
        → Forward q
        → select_events tables db fuel rows q ≡ some evs
        → Ahead q.offset_time evs
    unfolding select_events
    select_events-Ahead db zero rows q evs ok g h e = absurd (ground arith)
    select_events-Ahead db (suc fuel) rows q evs ok g h e =
        let f = filter (takes q) rows in
        let page = take q.limit f in
        let q' = move_cursor q page in
        round-Ahead db q.offset_time page (offset_of tables q') (ltb (length page) q.limit)
          (select_events tables (next_round db) fuel rows q') evs
          (All-take (IsRead db) q.limit f (All-filter (IsRead db) (takes q) rows g))
          (All-take (λ (r : Staged). Fits q.offset_time r.mut.time) q.limit f
            (taken-Fits q rows h.in_order h.at_end h.from))
          (λ long more k.
            select_events-Ahead (next_round db) fuel rows q' more (λ i. ok (suc i)) g
              (full-Forward rows q h long) k)
          (sym (select_events-round tables db fuel rows q (ok 0)) ∙ e)
