-- ===== src/Cdc/Resolver/Pages/Received.antt =====
-- internal/staging/stage/factory.go: the rows that the events of the loop over the pages bring.
use mathlib.Core.List.{map-append}
use cdc_sink_redshift.Common.{
  ℕ, zero, suc, ◌-◌, ◌≡◌, ◌<◌, inl, inr, refl, sym, ap, subst, ◌∙◌, Bool, true, false, Option, none,
  some, List, [], ◌∷◌, ◌++◌, map, arith, ltb, ltb→lt, length, take, drop, take-append-drop,
  get_elem?, All, done, failed, Bytes, length-take, length-drop, if◌then◌else◌, Bool-cases,
  append-nil,
}
use cdc_sink_redshift.Ident.{Table}
use cdc_sink_redshift.Staging.{
  Staged, Cursor, takes, filter, move_cursor, complete, rows_read, read_staged,
}
use cdc_sink_redshift.Staging.Pages.{Sorted, filter-next, All-filter}
use cdc_sink_redshift.Staging.Window.{at_row}
use cdc_sink_redshift.Staging.Rows.{row_lt, row_lt_asym, row_lt_irrefl, takes-next}
use cdc_sink_redshift.Staging.Select.{move_cursor-last, take-short, Complete}
use cdc_sink_redshift.Cdc.Stamps.{Offset}
use cdc_sink_redshift.Cdc.Resolver.{Event, cursor_set}
use cdc_sink_redshift.Cdc.Resolver.Plan.{Row}
use cdc_sink_redshift.Cdc.Resolver.Windows.{received}
use cdc_sink_redshift.Cdc.Resolver.Pages.{
  table_at, offset_of, page_events, select_events, Database, next_round,
}

-- What `maybeGunzip` returns, or the same bytes if it fails.
abbrev pub plain : {E : Type 0} → Database E → Bytes → Bytes
plain db b = elim (db.gunzip b) [ done z ↦ z | failed e ↦ b ]

-- A row as it is read.
abbrev pub decoded : {E : Type 0} → Database E → Staged → Staged
decoded db r = record r {
  mut = record r.mut { before = plain db r.mut.before; contents = plain db r.mut.contents };
}

-- The row is scanned and decompressed without an error.
abbrev pub IsRead : {E : Type 0} → Database E → Staged → Type 0
IsRead db r = read_staged db.scan db.gunzip r ≡ done (decoded db r)

-- A staged row as it is read, under the name of its table.
abbrev pub named : {E : Type 0} → List Table → Database E → Staged → Row
named tables db r = (table_at tables r.t, (decoded db r).mut)

pub All-take : (P : Staged → Type 0) (n : ℕ) (xs : List Staged) → All P xs → All P (take n xs)
All-take P zero xs h = tt
All-take P (suc n) [] h = tt
All-take P (suc n) (x ∷ xs) h = (h.0, All-take P n xs h.1)

-- After a full page the cursor is at its last row.
pub full-at_row :
    (n : ℕ) (rows : List Staged) (q : Cursor)
    → q.limit ≡ suc n
    → n < length (filter (takes q) rows)
    → (l : Staged) × (get_elem? (filter (takes q) rows) n ≡ some l)
      × (move_cursor q (take q.limit (filter (takes q) rows)) ≡ at_row q l)
full-at_row n rows q e full =
    let f = filter (takes q) rows in
    let (l, at, moved) = move_cursor-last q f n full in
    (l, at, ap (λ m. move_cursor q (take m f)) e ∙ moved)

module _ {E : Type 0} (tables : List Table) (db : Database E) where
  received-page_events :
      (page : List Staged) (evs : List (Event E)) (rows : List Row)
      → All (IsRead db) page
      → received evs ≡ some rows
      → received (page_events tables db page evs) ≡ some (map (named tables db) page ++ rows)
  unfolding page_events
  received-page_events [] evs rows g h = h
  received-page_events (r ∷ rs) evs rows g h =
      rw (page_events, g.0, received, received-page_events rs evs rows g.1 h) refl

  -- The loop ends, and its events bring the given rows.
  abbrev pub Brings : List Staged → Option (List (Event E)) → Type 0
  Brings xs r =
      (evs : List (Event E)) × (r ≡ some evs) × (received evs ≡ some (map (named tables db) xs))

  -- One round of the loop, from whether the page was short, and from the rest of the loop.
  abbrev pub round : List Staged → Offset → Bool → Option (List (Event E)) → Option (List (Event E))
  round page c true rest = some (page_events tables db page (cursor_set c ∷ []))
  round page c false none = none
  round page c false (some evs) = some (page_events tables db page (cursor_set c ∷ evs))

  pub select_events-round :
      (fuel : ℕ) (rows : List Staged) (q : Cursor)
      → db.answers 0 ≡ complete
      → let page = take q.limit (filter (takes q) rows) in
        select_events tables db (suc fuel) rows q
        ≡ round page
            (offset_of tables (move_cursor q page))
            (ltb (length page) q.limit)
            (select_events tables (next_round db) fuel rows (move_cursor q page))
  unfolding select_events rows_read
  select_events-round fuel rows q ok =
      let page = take q.limit (filter (takes q) rows) in
      rw (select_events, ok, rows_read)
        (go page (offset_of tables (move_cursor q page)) (ltb (length page) q.limit)
          (select_events tables (next_round db) fuel rows (move_cursor q page)))
    where
      go :
          (page : List Staged) (c : Offset) (b : Bool) (rest : Option (List (Event E)))
          → (if b then some (page_events tables db page (cursor_set c ∷ [])) else elim rest [
            | none ↦ none
            | some evs ↦ some (page_events tables db page (cursor_set c ∷ evs))
          ])
            ≡ round page c b rest
      go page c true rest = refl
      go page c false none = refl
      go page c false (some evs) = refl

-- What is shown of the loop with some fuel.
abbrev Claim : (E : Type 0) → List Table → ℕ → List Staged → Type 0
Claim E tables fuel rows =
    (db : Database E)
    → Complete db.answers
    → All (IsRead db) rows
    → (q : Cursor) → 0 < q.limit
    → Sorted (row_lt q.backfill) rows
    → length (filter (takes q) rows) < fuel
    → Brings {E = E} tables db (filter (takes q) rows) (select_events tables db fuel rows q)

module _ {E : Type 0} (tables : List Table) where
  short-Brings :
      (db : Database E) (n : ℕ) (xs : List Staged) (c : Offset) (rest : Option (List (Event E)))
      → All (IsRead db) xs
      → length (take n xs) < n
      → Brings tables db xs (round tables db (take n xs) c true rest)
  short-Brings db n xs c rest g h = (
    page_events tables db (take n xs) (cursor_set c ∷ []),
    refl,
    received-page_events tables db (take n xs) (cursor_set c ∷ []) [] (All-take (IsRead db) n xs g)
          refl
        ∙ ap some (
            append-nil (map (named tables db) (take n xs))
            ∙ ap (map (named tables db)) (take-short n xs h)),
  )

  full-Brings :
      (db : Database E) (n : ℕ) (xs : List Staged) (c : Offset) (rest : Option (List (Event E)))
      → All (IsRead db) xs
      → Brings tables db (drop n xs) rest
      → Brings tables db xs (round tables db (take n xs) c false rest)
  full-Brings db n xs c rest g (evs, e, h) = (
    page_events tables db (take n xs) (cursor_set c ∷ evs),
    ap (round tables db (take n xs) c false) e,
    received-page_events tables db (take n xs) (cursor_set c ∷ evs)
          (map (named tables db) (drop n xs)) (All-take (IsRead db) n xs g) h
        ∙ ap some (
            sym (map-append (named tables db) (take n xs) (drop n xs))
            ∙ ap (map (named tables db)) (take-append-drop n xs)),
  )

  -- What the loop on the moved cursor brings is what the full page left.
  rest-Brings :
      (db : Database E) (fuel n : ℕ) (rows : List Staged) (q : Cursor)
      → Claim E tables fuel rows
      → Complete db.answers
      → All (IsRead db) rows
      → q.limit ≡ suc n
      → Sorted (row_lt q.backfill) rows
      → length (filter (takes q) rows) < suc fuel
      → n < length (filter (takes q) rows)
      → Brings {E = E} tables db
          (drop q.limit (filter (takes q) rows))
          (select_events tables db fuel rows (move_cursor q (take q.limit (filter (takes q) rows))))
  rest-Brings db fuel n rows q ih ok g e sorted enough full =
      let f = filter (takes q) rows in
      let (l, at, mv) = full-at_row n rows q e full in
      let next : filter (takes (at_row q l)) rows ≡ drop (suc n) f =
        filter-next (row_lt q.backfill) (row_lt_irrefl q.backfill) (row_lt_asym q.backfill)
          (takes q) (takes (at_row q l)) rows n l sorted at (λ x h. takes-next q l x h) in
      let small : length (filter (takes (at_row q l)) rows) < fuel =
        subst (λ xs. length xs < fuel) (sym next)
          (omega (arith, length-drop (suc n) f, enough, full)) in
      let (evs, r, brought) = ih db ok g (at_row q l) (omega (arith, e)) sorted small in
      (
        evs,
        ap (select_events tables db fuel rows) mv ∙ r,
        brought ∙ ap (λ xs. some (map (named tables db) xs)) (next ∙ ap (λ m. drop m f) (sym e)),
      )

  pub select_events-Brings : (fuel : ℕ) (rows : List Staged) → Claim E tables fuel rows
  select_events-Brings zero rows db ok g q p sorted enough = absurd (omega arith)
  select_events-Brings (suc fuel) rows db ok g q p sorted enough =
      let f = filter (takes q) rows in
      let page = take q.limit f in
      let c = offset_of tables (move_cursor q page) in
      let rest = select_events tables (next_round db) fuel rows (move_cursor q page) in
      subst (Brings tables db f) (sym (select_events-round tables db fuel rows q (ok 0)))
        (elim (Bool-cases (ltb (length page) q.limit)) [
          | inl short ↦
              subst (λ b. Brings tables db f (round tables db page c b rest)) (sym short)
                (short-Brings db q.limit f c rest (All-filter (IsRead db) (takes q) rows g)
                  (ltb→lt (length page) q.limit short))
          | inr long ↦
              let n = q.limit - 1 in
              let lim : q.limit ≡ suc n = omega (arith, p) in
              let full : n < length f = ground (arith, length-take q.limit f, lim, long) in
              subst (λ b. Brings tables db f (round tables db page c b rest)) (sym long)
                (full-Brings db q.limit f c rest (All-filter (IsRead db) (takes q) rows g) (
                  rest-Brings (next_round db) fuel n rows q (select_events-Brings fuel rows)
                    (λ i. ok (suc i)) g lim sorted enough full))
        ])
