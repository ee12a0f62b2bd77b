-- ===== src/Apply/Columns.antt =====
-- internal/target/apply/apply.go, toColumns: arguments laid out by rows become one slice for each column.
use cdc_sink_redshift.Common.{
  ℕ, zero, suc, ◌+◌, ◌*◌, ◌<◌, ◌≡◌, ◌≢◌, refl, sym, ap, subst, ◌∙◌, ◌⊎◌, inl, inr, ◌==◌, ==_iff,
  Option, none, some, List, [], ◌∷◌, if◌then◌else◌, Outcome, done, failed, length, get_elem?,
  Bool-cases, arith,
}

-- The error of `toColumns`.
pub data ColumnsError {ℓ} : Type ℓ where
  element_count : ℕ → ℕ → ℕ → ColumnsError

module _ {ℓ} {A : Type ℓ} where
  -- An entry before the others; `none` is an index out of range, which panics.
  unfoldable pub cons_at : Option A → Option (List A) → Option (List A)
  cons_at none rest = none
  cons_at (some a) none = none
  cons_at (some a) (some xs) = some (a ∷ xs)

  -- A loop that fills `n` places from the place `i` on.
  unfoldable pub fill : (ℕ → Option A) → ℕ → ℕ → Option (List A)
  fill f i zero = some []
  fill f i (suc n) = let rest = fill f (suc i) n in cons_at (f i) rest

-- The result of `toColumns`, of the columns filled; `none` is a panic.
unfoldable pub with_columns {ℓ} :
    {A : Type ℓ} → Option (List (List A)) → Option (Outcome ColumnsError (List (List A)))
with_columns none = none
with_columns (some col_data) = some (done col_data)

-- `toColumns`.
unfoldable pub to_columns {ℓ} :
    {A : Type ℓ} → ℕ → ℕ → List A → Option (Outcome ColumnsError (List (List A)))
to_columns columns rows args =
    let row_data =
      λ (col_idx : ℕ). fill (λ row_idx. get_elem? args (row_idx * columns + col_idx)) 0 rows in
    if rows * columns == length args
    then with_columns (fill row_data 0 columns)
    else some (failed (element_count columns rows (length args)))

module _ {ℓ} {A : Type ℓ} where
  -- A loop whose entries are all in range fills every place with its entry.
  fill_all :
      (f : ℕ → Option A) (i n : ℕ)
      → ((j : ℕ) → j < n → (a : A) × (f (i + j) ≡ some a))
      → (xs : List A) × (fill f i n ≡ some xs)
        × (length xs ≡ n)
        × ((j : ℕ) → j < n → get_elem? xs j ≡ f (i + j))
  unfolding fill cons_at
  fill_all f i zero h = ([], refl, refl, λ j p. absurd (omega arith))
  fill_all f i (suc n) h =
      let (a, at) = h 0 (omega arith) in
      let (xs, e, len, each) = fill_all f (suc i) n (λ j p. shift j (h (suc j) (omega arith))) in
      let here : f i ≡ some a = ap f (omega arith) ∙ at in
      (a ∷ xs, rw (here, e), ap suc len, places a xs here each)
    where
      shift : (j : ℕ) → (a : A) × (f (i + suc j) ≡ some a) → (a : A) × (f (suc i + j) ≡ some a)
      shift j (a, e) = (a, ap f (omega arith) ∙ e)

      places :
          (a : A) (xs : List A)
          → f i ≡ some a
          → ((j : ℕ) → j < n → get_elem? xs j ≡ f (suc i + j))
          → (j : ℕ) → j < suc n
          → get_elem? (a ∷ xs) j ≡ f (i + j)
      places a xs here each zero p = sym here ∙ ap f (omega arith)
      places a xs here each (suc j) p = each j (omega arith) ∙ ap f (omega arith)

  -- The same from the first place on.
  pub fill_from_zero :
      (f : ℕ → Option A) (n : ℕ)
      → ((j : ℕ) → j < n → (a : A) × (f j ≡ some a))
      → (xs : List A) × (fill f 0 n ≡ some xs)
        × (length xs ≡ n)
        × ((j : ℕ) → j < n → get_elem? xs j ≡ f j)
  fill_from_zero f n h =
      let (xs, e, len, each) =
        fill_all f 0 n (λ j p. subst (λ k. (a : A) × (f k ≡ some a)) (omega arith) (h j p)) in
      (xs, e, len, λ j p. each j p ∙ ap f (omega arith))

pub cell_lt : (c r columns rows : ℕ) → c < columns → r < rows → r * columns + c < rows * columns
cell_lt c r columns zero hc hr = absurd (omega arith)
cell_lt c zero columns (suc rows) hc hr = omega arith
cell_lt c (suc r) columns (suc rows) hc hr =
    omega (arith, cell_lt c r columns rows hc (omega arith))

pub get_elem?-some {ℓ} :
    {A : Type ℓ} (xs : List A) (i : ℕ) → i < length xs → (a : A) × (get_elem? xs i ≡ some a)
get_elem?-some [] i h = absurd (omega arith)
get_elem?-some (x ∷ xs) zero h = (x, refl)
get_elem?-some (x ∷ xs) (suc i) h = get_elem?-some xs i (omega arith)

-- What the columns are: as many as asked for, each with the rows asked for, and the entry of a column and
-- a row is the argument at the place of that column in that row.
pub record IsPivot {ℓ} {A : Type ℓ} (columns rows : ℕ) (args : List A) (out : List (List A))
    : Type ℓ where
  pub width : length out ≡ columns
  pub cells :
      (c : ℕ)
      → c < columns
      → (col : List A) × (get_elem? out c ≡ some col)
        × (length col ≡ rows)
        × ((r : ℕ) → r < rows → get_elem? col r ≡ get_elem? args (r * columns + c))

module _ {ℓ} {A : Type ℓ} (columns rows : ℕ) (args : List A) where
  -- The argument of a column in a row.
  abbrev cell : ℕ → ℕ → Option A
  cell c r = get_elem? args (r * columns + c)

  filled_column :
      rows * columns ≡ length args
      → (c : ℕ) → c < columns
      → (col : List A) × (fill (cell c) 0 rows ≡ some col)
        × (length col ≡ rows)
        × ((r : ℕ) → r < rows → get_elem? col r ≡ cell c r)
  filled_column fits c hc = fill_from_zero (cell c) rows λ r hr.
      get_elem?-some args (r * columns + c)
        (subst (λ n. r * columns + c < n) fits (cell_lt c r columns rows hc hr))

-- `toColumns` returns its error exactly when the count does not fit; otherwise no index is out of range
-- and it returns the transposed arguments.
pub to_columns-IsPivot {ℓ} :
    {A : Type ℓ} (columns rows : ℕ) (args : List A)
    → ((rows * columns ≢ length args)
        × (to_columns columns rows args ≡ some (failed (element_count columns rows (length args)))))
      ⊎ ((out : List (List A)) × (to_columns columns rows args ≡ some (done out))
          × IsPivot columns rows args out)
unfolding to_columns with_columns
to_columns-IsPivot columns rows args = elim (Bool-cases (rows * columns == length args)) [
  | inr miss ↦ inl (ground arith, rw miss)
  | inl hit ↦
      let column =
        filled_column columns rows args ((==_iff (rows * columns) (length args)).0 hit) in
      let (out, e, width, each) =
        fill_from_zero (λ c. fill (cell columns rows args c) 0 rows) columns
          (λ c hc. let (col, f, _, _) = column c hc in (col, f)) in
      inr (
        out,
        rw (hit, e),
        record {
          width = width;
          cells = λ c hc.
              let (col, f, len, rows_of) = column c hc in (col, each c hc ∙ f, len, rows_of);
        },
      )
]
