-- ===== src/Staging/Select.antt =====
-- internal/staging/stage/factory.go: `SelectMany` passes every row of its window to the callback.
use cdc_sink_redshift.Common.{
  ℕ, zero, suc, ◌-◌, ◌≡◌, ◌<◌, ◌≤◌, inl, inr, refl, sym, ap, subst, ◌∙◌, Bool, true, false, Option,
  none, some, List, [], ◌∷◌, ◌++◌, arith, ltb, ltb→lt, ◌==◌, length, take, drop, take-append-drop,
  length-take, length-drop, get_elem?, Outcome, done, failed, Bytes, Bool-cases,
}
use cdc_sink_redshift.Hlc.{lt}
use cdc_sink_redshift.Staging.{
  Staged, Cursor, takes, filter, move_cursor, clamp, deliver, select_loop, select_many, Answer,
  complete, rows_read, pass_row,
}
use cdc_sink_redshift.Staging.Pages.{Sorted, filter-next}
use cdc_sink_redshift.Staging.Window.{at_row}
use cdc_sink_redshift.Staging.Rows.{row_lt, row_lt_asym, row_lt_irrefl, takes-next}

-- A full page has a last row, and the cursor is moved to it.
pub move_cursor-last :
    (q : Cursor) (xs : List Staged) (n : ℕ)
    → n < length xs
    → (l : Staged) × (get_elem? xs n ≡ some l) × (move_cursor q (take (suc n) xs) ≡ at_row q l)
unfolding move_cursor
move_cursor-last q [] n h = absurd (omega arith)
move_cursor-last q (x ∷ xs) zero h = (x, refl, refl)
move_cursor-last q (x ∷ []) (suc n) h = absurd (omega arith)
move_cursor-last q (x ∷ y ∷ xs) (suc n) h = move_cursor-last q (y ∷ xs) n (omega arith)

pub take-short : {A : Type 0} (n : ℕ) (xs : List A) → length (take n xs) < n → take n xs ≡ xs
take-short zero xs h = absurd (omega arith)
take-short (suc n) [] h = refl
take-short (suc n) (x ∷ xs) h = ap (◌∷◌ x) (take-short n xs (omega arith))

pub length-filter : (p : Staged → Bool) (xs : List Staged) → length (filter p xs) ≤ length xs
unfolding filter
length-filter p [] = omega arith
length-filter p (x ∷ xs) = ground (arith, length-filter p xs)

pub clamp-keeps : (q : Cursor) → ((clamp q).limit ≡ q.limit) × ((clamp q).backfill ≡ q.backfill)
unfolding clamp
clamp-keeps q = elim (Bool-cases (lt q.offset_time q.start)) [
  | inl before ↦ rw before (refl, refl)
  | inr not_before ↦ rw not_before (refl, refl)
]

-- The database refuses no query, and every result is read to its end.
abbrev pub Complete : {E : Type 0} → (ℕ → Answer E) → Type 0
Complete answers = (i : ℕ) → answers i ≡ complete

module _ {S E : Type 0} (scan : Staged → Option E) (gunzip : Bytes → Outcome E Bytes)
    (fn : Staged → S → S × Option E) where
  -- What remains to deliver after a part.
  abbrev after : List Staged → S × Option E → S × Option E
  after ys (s, some e) = (s, some e)
  after ys (s, none) = deliver scan gunzip fn ys s

  deliver-append :
      (xs ys : List Staged) (s : S)
      → deliver scan gunzip fn (xs ++ ys) s ≡ after ys (deliver scan gunzip fn xs s)
  unfolding deliver
  deliver-append [] ys s = refl
  deliver-append (r ∷ rs) ys s = step (pass_row scan gunzip fn r s) (λ t. deliver-append rs ys t)
    where
      step :
          (x : S × Option E)
          → ((t : S) → deliver scan gunzip fn (rs ++ ys) t ≡ after ys (deliver scan gunzip fn rs t))
          → (elim x.1 [ some e ↦ (x.0, some e) | none ↦ deliver scan gunzip fn (rs ++ ys) x.0 ])
            ≡ after ys (elim x.1 [ some e ↦ (x.0, some e) | none ↦ deliver scan gunzip fn rs x.0 ])
      step (t, some e) ih = refl
      step (t, none) ih = ih t

  -- One round of the loop, from whether the page was short, and from what delivering it gave.
  abbrev choice :
      (ℕ → Answer E)
      → ℕ
      → List Staged
      → Cursor
      → List Staged
      → S
      → Bool
      → Option (Cursor × S × Option E)
  choice answers fuel rows q page s true = some (move_cursor q page, s, none)
  choice answers fuel rows q page s false =
      select_loop scan gunzip fn answers fuel rows (move_cursor q page) s

  abbrev round :
      (ℕ → Answer E)
      → ℕ
      → List Staged
      → Cursor
      → List Staged
      → S × Option E
      → Option (Cursor × S × Option E)
  round answers fuel rows q page (s, some e) = some (q, s, some e)
  round answers fuel rows q page (s, none) =
      choice answers fuel rows q page s (ltb (length page) q.limit)

  -- What follows the rows that were read.
  abbrev paged :
      (ℕ → Answer E)
      → ℕ
      → List Staged
      → Cursor
      → S
      → Outcome E (List Staged)
      → Option (Cursor × S × Option E)
  paged answers fuel rows q s (failed e) = some (q, s, some e)
  paged answers fuel rows q s (done page) =
      round answers fuel rows q page (deliver scan gunzip fn page s)

  select_loop-paged :
      (answers : ℕ → Answer E) (fuel : ℕ) (rows : List Staged) (q : Cursor) (s : S)
      → select_loop scan gunzip fn answers (suc fuel) rows q s
        ≡ paged
            (λ i. answers (suc i))
            fuel
            rows
            q
            s
            (rows_read (answers 0) (take q.limit (filter (takes q) rows)))
  unfolding select_loop
  select_loop-paged answers fuel rows q s =
      read (rows_read (answers 0) (take q.limit (filter (takes q) rows)))
    where
      pick :
          (page : List Staged) (t : S) (b : Bool)
          → (elim b [
            | true ↦ some (move_cursor q page, t, none)
            | false ↦
                select_loop scan gunzip fn (λ i. answers (suc i)) fuel rows (move_cursor q page) t
          ])
            ≡ choice (λ i. answers (suc i)) fuel rows q page t b
      pick page t true = refl
      pick page t false = refl

      go :
          (page : List Staged) (x : S × Option E)
          → (elim x.1 [
            | some e ↦ some (q, x.0, some e)
            | none ↦ elim (ltb (length page) q.limit) [
              | true ↦ some (move_cursor q page, x.0, none)
              | false ↦
                  select_loop scan gunzip fn
                    (λ i. answers (suc i))
                    fuel
                    rows
                    (move_cursor q page)
                    x.0
            ]
          ])
            ≡ round (λ i. answers (suc i)) fuel rows q page x
      go page (t, some e) = refl
      go page (t, none) = pick page t (ltb (length page) q.limit)

      read :
          (r : Outcome E (List Staged))
          → (elim r [
            | failed e ↦ some (q, s, some e)
            | done page ↦
                let (s', err) = deliver scan gunzip fn page s in
                elim err [
                  | some e ↦ some (q, s', some e)
                  | none ↦ elim (ltb (length page) q.limit) [
                    | true ↦ some (move_cursor q page, s', none)
                    | false ↦
                        select_loop scan gunzip fn
                          (λ i. answers (suc i))
                          fuel
                          rows
                          (move_cursor q page)
                          s'
                  ]
                ]
          ])
            ≡ paged (λ i. answers (suc i)) fuel rows q s r
      read (failed e) = refl
      read (done page) = go page (deliver scan gunzip fn page s)

  select_loop-round :
      (answers : ℕ → Answer E) (fuel : ℕ) (rows : List Staged) (q : Cursor) (s : S)
      → Complete answers
      → select_loop scan gunzip fn answers (suc fuel) rows q s
        ≡ round
            (λ i. answers (suc i))
            fuel
            rows
            q
            (take q.limit (filter (takes q) rows))
            (deliver scan gunzip fn (take q.limit (filter (takes q) rows)) s)
  unfolding rows_read
  select_loop-round answers fuel rows q s ok =
      let page = take q.limit (filter (takes q) rows) in
      select_loop-paged answers fuel rows q s
      ∙ ap (λ a. paged (λ i. answers (suc i)) fuel rows q s (rows_read a page)) (ok 0)

  -- The loop ends as delivering the whole list at once does.
  abbrev pub Delivers : List Staged → S → Option (Cursor × S × Option E) → Type 0
  Delivers xs s r =
      (q' : Cursor) × (r
        ≡ some (q', (deliver scan gunzip fn xs s).0, (deliver scan gunzip fn xs s).1))

  abbrev Claim : ℕ → List Staged → Type 0
  Claim fuel rows =
      (answers : ℕ → Answer E)
      → Complete answers
      → (q : Cursor) (s : S) → 0 < q.limit
      → Sorted (row_lt q.backfill) rows
      → length (filter (takes q) rows) < fuel
      → Delivers (filter (takes q) rows) s (select_loop scan gunzip fn answers fuel rows q s)

  page-split :
      (n : ℕ) (xs : List Staged) (s : S) (x : S × Option E)
      → deliver scan gunzip fn (take n xs) s ≡ x
      → deliver scan gunzip fn xs s ≡ after (drop n xs) x
  page-split n xs s x e =
      ap (λ ys. deliver scan gunzip fn ys s) (sym (take-append-drop n xs))
      ∙ deliver-append (take n xs) (drop n xs) s
      ∙ ap (after (drop n xs)) e

  -- A full page, and the loop on what it left.
  full-page :
      (answers : ℕ → Answer E) (fuel n : ℕ) (rows : List Staged) (q : Cursor) (s t : S)
      → Claim fuel rows
      → Complete answers
      → q.limit ≡ suc n
      → Sorted (row_lt q.backfill) rows
      → length (filter (takes q) rows) < suc fuel
      → n < length (filter (takes q) rows)
      → deliver scan gunzip fn (take q.limit (filter (takes q) rows)) s ≡ (t, none)
      → Delivers (filter (takes q) rows) s (
          select_loop scan gunzip fn answers fuel rows
            (move_cursor q (take q.limit (filter (takes q) rows)))
            t)
  full-page answers fuel n rows q s t ih ok e sorted enough full k =
      let f = filter (takes q) rows in
      let (l, at, moved) = move_cursor-last q f n full in
      let mv : move_cursor q (take q.limit f) ≡ at_row q l =
        ap (λ m. move_cursor q (take m f)) e ∙ moved in
      let next : filter (takes (at_row q l)) rows ≡ drop (suc n) f =
        filter-next (row_lt q.backfill) (row_lt_irrefl q.backfill) (row_lt_asym q.backfill)
          (takes q) (takes (at_row q l)) rows n l sorted at (λ x h. takes-next q l x h) in
      let small : length (filter (takes (at_row q l)) rows) < fuel =
        subst (λ xs. length xs < fuel) (sym next)
          (omega (arith, length-drop (suc n) f, enough, full)) in
      let (q', r) = ih answers ok (at_row q l) t (omega (arith, e)) sorted small in
      let whole : deliver scan gunzip fn (filter (takes (at_row q l)) rows) t
          ≡ deliver scan gunzip fn f s =
        ap (λ xs. deliver scan gunzip fn xs t) (next ∙ ap (λ m. drop m f) (sym e))
        ∙ sym (page-split q.limit f s (t, none) k) in
      (
        q',
        ap (λ c. select_loop scan gunzip fn answers fuel rows c t) mv
            ∙ r
            ∙ ap (λ (x : S × Option E). some (q', x.0, x.1)) whole,
      )

  round-Delivers :
      (answers : ℕ → Answer E) (fuel n : ℕ) (rows : List Staged) (q : Cursor) (s : S)
      (x : S × Option E)
      → Claim fuel rows
      → Complete answers
      → q.limit ≡ suc n
      → Sorted (row_lt q.backfill) rows
      → length (filter (takes q) rows) < suc fuel
      → deliver scan gunzip fn (take q.limit (filter (takes q) rows)) s ≡ x
      → Delivers
          (filter (takes q) rows)
          s
          (round answers fuel rows q (take q.limit (filter (takes q) rows)) x)
  round-Delivers answers fuel n rows q s (t, some e) ih ok lim sorted enough k = (
    q,
    ap (λ (x : S × Option E). some (q, x.0, x.1))
        (sym (page-split q.limit (filter (takes q) rows) s (t, some e) k)),
  )
  round-Delivers answers fuel n rows q s (t, none) ih ok lim sorted enough k =
      let f = filter (takes q) rows in go (ltb (length (take q.limit f)) q.limit) refl
    where
      go :
          (b : Bool)
          → ltb (length (take q.limit (filter (takes q) rows))) q.limit ≡ b
          → Delivers
              (filter (takes q) rows)
              s
              (choice answers fuel rows q (take q.limit (filter (takes q) rows)) t b)
      go true short =
          let f = filter (takes q) rows in
          let all : deliver scan gunzip fn f s ≡ (t, none) =
            ap (λ xs. deliver scan gunzip fn xs s)
              (sym (take-short q.limit f (ltb→lt (length (take q.limit f)) q.limit short)))
            ∙ k in
          (
            move_cursor q (take q.limit f),
            ap (λ (x : S × Option E). some (move_cursor q (take q.limit f), x.0, x.1)) (sym all),
          )
      go false long =
          let f = filter (takes q) rows in
          let full : n < length f = ground (arith, length-take q.limit f, lim, long) in
          full-page answers fuel n rows q s t ih ok lim sorted enough full k

  loop-Delivers : (fuel : ℕ) (rows : List Staged) → Claim fuel rows
  loop-Delivers zero rows answers ok q s p sorted enough = absurd (omega arith)
  loop-Delivers (suc fuel) rows answers ok q s p sorted enough =
      let x = deliver scan gunzip fn (take q.limit (filter (takes q) rows)) s in
      let (q', r) =
        round-Delivers (λ i. answers (suc i)) fuel (q.limit - 1) rows q s x
          (loop-Delivers fuel rows) (λ i. ok (suc i)) (omega (arith, p)) sorted enough refl in
      (q', select_loop-round answers fuel rows q s ok ∙ r)

  -- With a positive limit, staged rows in the order of the query, and a database that refuses no query and
  -- lets every result be read to its end, `SelectMany` ends, and it passes to the callback every staged
  -- row that its query takes from the first cursor, decompressed, once and in the order of the query,
  -- whatever the limit, up to the first error of a scan, of the decompression or of the callback, which
  -- it returns.
  pub select_many-deliver :
      (no_limit : E) (answers : ℕ → Answer E) (rows : List Staged) (q : Cursor) (s : S)
      → 0 < q.limit
      → Sorted (row_lt q.backfill) rows
      → Complete answers
      → Delivers
          (filter (takes (clamp q)) rows)
          s
          (select_many scan gunzip fn no_limit answers rows q s)
  unfolding select_many
  select_many-deliver no_limit answers rows q s p sorted ok =
      let (same, mode) = clamp-keeps q in
      let no : (q.limit == 0) ≡ false = ground (arith, p) in
      rw no (
        loop-Delivers (suc (length rows)) rows answers ok (clamp q) s (omega (arith, same, p))
          (subst (λ b. Sorted (row_lt b) rows) (sym mode) sorted)
          (omega (arith, length-filter (takes (clamp q)) rows)))
