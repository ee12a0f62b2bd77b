-- ===== src/Staging/Stage.antt =====
-- internal/staging/stage/stage.go and gzip.go: the staging table of one target table. Its rows are a list in the order of
-- the primary key (nanos, logical, key). The gzip package is a pair of parameters, an attempt under
-- `retry.Retry` is one call, and a table that is missing is `none`.
pub mod Stored
pub mod Retired
mod Tests
use cdc_sink_redshift.Common.{
  ℕ, zero, suc, ◌-◌, Bool, true, false, not, ◌&&◌, ◌==◌, ltb, leb, Option, none, some, List, [],
  ◌∷◌, ◌++◌, if◌then◌else◌, length, take, drop, Outcome, done, failed, Bytes, bytes_eq,
}
use cdc_sink_redshift.Hlc.{Time, lt, gt}
use cdc_sink_redshift.Types.{Mutation, null_bytes, is_delete}
use cdc_sink_redshift.Batches.{window}
use cdc_sink_redshift.Sql.{pair_lt, tuple_lt}
use cdc_sink_redshift.Staging.{filter}

-- A row of the staging table.
pub record StageRow : Type 0 where
  pub time : Time
  pub key : Bytes
  pub mut : Bytes
  pub before : Bytes

pub data StageError (P : Type 0) : Type 0 where
  out_of_order : Time → Time → StageError P
  of_gzip : P → StageError P

-- `gzipMinSize`.
abbrev pub gzip_min_size : ℕ
gzip_min_size = 1024

infixl 5 ◌>>=◌
abbrev pub ◌>>=◌ : {E A B : Type 0} → Outcome E A → (A → Outcome E B) → Outcome E B
done a >>= f = f a
failed e >>= f = failed e

-- The magic numbers of gzip.
unfoldable pub has_magic : Bytes → Bool
has_magic [] = false
has_magic (a ∷ []) = false
has_magic (a ∷ b ∷ s) = (a == 31) && (b == 139)

module _ {P : Type 0} where
  unfoldable pub from_gzip : Outcome P Bytes → Outcome (StageError P) Bytes
  from_gzip (done s) = done s
  from_gzip (failed e) = failed (of_gzip e)

  -- `maybeGZip`.
  unfoldable pub maybe_gzip : (Bytes → Outcome P Bytes) → Bytes → Outcome (StageError P) Bytes
  maybe_gzip compress s =
      if leb (length s) gzip_min_size
      then done s
      else (do z ← from_gzip (compress s); done (if ltb (length z) (length s) then z else s))

  -- `maybeGunzip`.
  unfoldable pub maybe_gunzip : (Bytes → Outcome P Bytes) → Bytes → Outcome (StageError P) Bytes
  maybe_gunzip decompress s = if has_magic s then from_gzip (decompress s) else done s

  -- What `putOne` stores of a mutation.
  unfoldable pub staged_contents :
      (Bytes → Outcome P Bytes) → Mutation → Outcome (StageError P) Bytes
  staged_contents compress m =
      if is_delete m then done null_bytes else maybe_gzip compress m.contents

  unfoldable pub put_row : (Bytes → Outcome P Bytes) → Mutation → Outcome (StageError P) StageRow
  put_row compress m = do
    before ← maybe_gzip compress m.before
    mut ← staged_contents compress m
    done (record { time = m.time; key = m.key; mut = mut; before = before })

  unfoldable pub put_rows :
      (Bytes → Outcome P Bytes) → List Mutation → Outcome (StageError P) (List StageRow)
  put_rows compress [] = done []
  put_rows compress (m ∷ muts) = do
    r ← put_row compress m
    rs ← put_rows compress muts
    done (r ∷ rs)

-- The primary key of two rows is the same, or that of the first is before.
unfoldable pub same_key : Time → Bytes → StageRow → Bool
same_key t k r = not (pair_lt t r.time) && not (pair_lt r.time t) && bytes_eq k r.key

-- UPSERT of one row, then of a row of rows.
unfoldable pub upsert_row : StageRow → List StageRow → List StageRow
upsert_row r [] = r ∷ []
upsert_row r (s ∷ rows) =
    if same_key r.time r.key s
    then r ∷ rows
    else (if tuple_lt r.time r.key s.time s.key then r ∷ s ∷ rows else s ∷ upsert_row r rows)

unfoldable pub upsert_rows : List StageRow → List StageRow → List StageRow
upsert_rows [] table = table
upsert_rows (r ∷ rs) table = upsert_rows rs (upsert_row r table)

module _ {P : Type 0} (compress : Bytes → Outcome P Bytes) where
  unfoldable pub put_encoded :
      Outcome (StageError P) (List StageRow) → List StageRow → List StageRow × Option (StageError P)
  put_encoded (done rs) table = (upsert_rows rs table, none)
  put_encoded (failed e) table = (table, some e)

  -- `putOne`.
  unfoldable pub put_one : List Mutation → List StageRow → List StageRow × Option (StageError P)
  put_one muts table = put_encoded (put_rows compress muts) table

  -- `Store` in a transaction, where the batches go one after another; `none` means that the loop did not end.
  unfoldable pub store_mutations :
      ℕ → List Mutation → List StageRow → Option (List StageRow × Option (StageError P))
  store_mutations size muts table =
      window (λ begin end. put_one (take (end - begin) (drop begin muts))) size (length muts) table

module _ {P : Type 0} (decompress : Bytes → Outcome P Bytes) where
  -- A row as `SelectPartial` reads it.
  unfoldable pub read_row : StageRow → Outcome (StageError P) Mutation
  read_row r = do
    contents ← maybe_gunzip decompress r.mut
    done (record { before = r.before; contents = contents; key = r.key; meta = []; time = r.time })

  unfoldable pub read_rows : List StageRow → Outcome (StageError P) (List Mutation)
  read_rows [] = done []
  read_rows (r ∷ rs) = do m ← read_row r; ms ← read_rows rs; done (m ∷ ms)

  -- The WHERE clauses of the two queries.
  unfoldable pub between : Time → Time → StageRow → Bool
  between prev next r = not (pair_lt r.time prev) && not (pair_lt next r.time)

  unfoldable pub after_key_until : Time → Bytes → Time → StageRow → Bool
  after_key_until prev after_key next r =
      tuple_lt prev after_key r.time r.key && not (pair_lt next r.time)

  unfoldable pub select_rows : Time → Time → Bytes → ℕ → List StageRow → List StageRow
  select_rows prev next after_key zero table = filter (between prev next) table
  select_rows prev next after_key (suc n) table =
      take (suc n) (filter (after_key_until prev after_key next) table)

  -- `SelectPartial`; a limit that is not positive is 0.
  unfoldable pub select_partial :
      Time → Time → Bytes → ℕ → Option (List StageRow) → Outcome (StageError P) (List Mutation)
  select_partial prev next after_key limit none =
      if gt prev next then failed (out_of_order prev next) else done []
  select_partial prev next after_key limit (some table) =
      if gt prev next
      then failed (out_of_order prev next)
      else read_rows (select_rows prev next after_key limit table)

  -- `Select`.
  unfoldable pub select_all :
      Time → Time → Option (List StageRow) → Outcome (StageError P) (List Mutation)
  select_all prev next table = select_partial prev next [] 0 table

-- `TransactionTimes`: SELECT DISTINCT of the times, in their order.
unfoldable pub distinct_times : Option Time → List StageRow → List Time
distinct_times seen [] = []
distinct_times none (r ∷ rs) = r.time ∷ distinct_times (some r.time) rs
distinct_times (some t) (r ∷ rs) = elim (pair_lt t r.time) [
  | true ↦ r.time ∷ distinct_times (some r.time) rs
  | false ↦ distinct_times (some t) rs
]

unfoldable pub transaction_times : Time → Time → List StageRow → List Time
transaction_times before after table =
    distinct_times none (filter (λ r. pair_lt before r.time && not (pair_lt after r.time)) table)

-- The DELETE statement: the rows left, and the time of the last row deleted.
abbrev or_last : Time → Option Time → Option Time
or_last t none = some t
or_last t (some u) = some u

unfoldable pub delete_first : ℕ → (StageRow → Bool) → List StageRow → List StageRow × Option Time
delete_first zero p table = (table, none)
delete_first (suc n) p [] = ([], none)
delete_first (suc n) p (r ∷ rows) = elim (p r) [
  | true ↦ let (rest, last) = delete_first n p rows in (rest, or_last r.time last)
  | false ↦ let (rest, last) = delete_first (suc n) p rows in (r ∷ rest, last)
]

-- The rows that a round deletes.
unfoldable pub in_range : Time → Time → StageRow → Bool
in_range from end r = not (pair_lt r.time from) && not (pair_lt end r.time)

-- If there was nothing to delete, still advance the marker.
unfoldable pub advance_marker : Time → Time → Time
advance_marker from end = if lt from end then end else from

-- The loop of `Retire` with its limit, from the marker `retireFrom` on; `none` means that the fuel ran out.
unfoldable pub retire_loop : ℕ → ℕ → Time → Time → List StageRow → Option (Time × List StageRow)
retire_loop zero limit from end table = none
retire_loop (suc fuel) limit from end table = elim (lt from end) [
  | false ↦ some (advance_marker from end, table)
  | true ↦
      let (rest, last) = delete_first limit (in_range from end) table in
      elim last [
        | none ↦ some (advance_marker from end, rest)
        | some t ↦ retire_loop fuel limit t end rest
      ]
]

-- `Retire`.
unfoldable pub retire : Time → Time → List StageRow → Option (Time × List StageRow)
retire from end table = retire_loop (suc (suc (length table))) 10000 from end table
