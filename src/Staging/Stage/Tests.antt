-- ===== src/Staging/Stage/Tests.antt =====
-- internal/staging/stage/stage.go: runs, and the theorems at a table with two rows.
use cdc_sink_redshift.Common.{
  ℕ, zero, suc, ◌≤◌, ◌≡◌, subst, sym, ap, inl, inr, Bool-cases, bytes_eq_iff, if◌then◌else◌, refl,
  true, some, List, [], ◌∷◌, Outcome, done, failed, Bytes, bytes_eq, arith,
}
use cdc_sink_redshift.Common.Int.{pos}
use cdc_sink_redshift.Hlc
use cdc_sink_redshift.Hlc.{Time, IsValid}
use cdc_sink_redshift.Types.{Mutation, is_delete}
use cdc_sink_redshift.Cdc.Stamps.Steps.{NotAfter}
use cdc_sink_redshift.Sql.{pair_lt}
use cdc_sink_redshift.Staging as Staging
use cdc_sink_redshift.Staging.Stage.{
  StageRow, has_magic, maybe_gzip, from_gzip, staged_contents, put_row, put_rows, upsert_rows,
  in_range, delete_first, retire, distinct_times, transaction_times,
}
use cdc_sink_redshift.Staging.Stage.Stored.{IsGzip, IsPlain, Reads, put_rows-Reads}
use cdc_sink_redshift.Staging.Stage.Retired.{Sorted, IsRetired, retire-IsRetired}

abbrev at : ℕ → Time
at n = Hlc.new (pos n) (pos 0)

abbrev row : ℕ → ℕ → StageRow
row t k = record { time = at t; key = k ∷ []; mut = []; before = [] }

abbrev table : List StageRow
table = row 3 1 ∷ row 5 1 ∷ []

at-IsValid : (n : ℕ) → n ≤ 100 → IsValid (at n)
at-IsValid n h = record {
  nanos_range = omega arith;
  logical_range = omega arith;
  nanos_nonneg = omega arith;
  logical_nonneg = omega arith;
}

retire-IsRetired_example :
    (f : Time) × (rest : List StageRow) × (retire (at 1) (at 4) table ≡ some (f, rest))
    × NotAfter (at 4) f
    × IsRetired (at 1) (at 4) table rest
retire-IsRetired_example =
    retire-IsRetired (at 1) (at 4) table (at-IsValid 1 (omega arith)) (at-IsValid 4 (omega arith))
      sorted ((at-IsValid 3 (omega arith), (at-IsValid 5 (omega arith), tt)))
  where
    sorted : Sorted table
    sorted = (((λ h. absurd (ground arith)), tt), (tt, tt))

abbrev copies : ℕ → ℕ → Bytes
copies zero b = []
copies (suc n) b = b ∷ copies n b

-- Contents that are large enough to be compressed.
abbrev large : Bytes
large = copies 1030 7

-- A code that puts the magic numbers before the data, and writes the large contents as these alone.
abbrev compress : Bytes → Outcome ℕ Bytes
compress s = if bytes_eq s large then done (31 ∷ 139 ∷ []) else done (31 ∷ 139 ∷ 0 ∷ s)

abbrev decompress : Bytes → Outcome ℕ Bytes
decompress (a ∷ b ∷ []) = done large
decompress (a ∷ b ∷ c ∷ s) = done s
decompress s = failed 0

compress-IsGzip : IsGzip compress decompress
unfolding has_magic
compress-IsGzip = record {
  magic = λ s z h. elim (Bool-cases (bytes_eq s large)) [
    | inl hit ↦
        let e : 31 ∷ 139 ∷ [] ≡ z = ground (arith, h, hit) in subst (λ x. has_magic x ≡ true) e refl
    | inr miss ↦
        let e : 31 ∷ 139 ∷ 0 ∷ s ≡ z = ground (arith, h, miss) in
        subst (λ x. has_magic x ≡ true) e refl
  ];
  inverse = λ s z h. elim (Bool-cases (bytes_eq s large)) [
    | inl hit ↦
        let e : 31 ∷ 139 ∷ [] ≡ z = ground (arith, h, hit) in
        subst (λ x. decompress x ≡ done s) e (ap done (sym ((bytes_eq_iff s large).0 hit)))
    | inr miss ↦
        let e : 31 ∷ 139 ∷ 0 ∷ s ≡ z = ground (arith, h, miss) in
        subst (λ x. decompress x ≡ done s) e refl
  ];
}

abbrev change : Mutation
change = record { before = []; contents = large; key = 1 ∷ []; meta = []; time = at 5 }

abbrev compressed : StageRow
compressed = record { time = at 5; key = 1 ∷ []; mut = 31 ∷ 139 ∷ []; before = [] }

change_row : put_rows compress (change ∷ []) ≡ done (compressed ∷ [])
unfolding put_rows put_row staged_contents maybe_gzip is_delete bytes_eq from_gzip
change_row = refl

change-IsPlain : IsPlain compress decompress compress-IsGzip change
unfolding has_magic
change-IsPlain = refl

put_rows-Reads_example :
    Reads compress decompress compress-IsGzip
      (at 5)
      (1 ∷ [])
      (change ∷ [])
      table
      (upsert_rows (compressed ∷ []) table)
put_rows-Reads_example =
    put_rows-Reads compress decompress compress-IsGzip (at 5) (1 ∷ []) (change ∷ [])
      (compressed ∷ []) table (change-IsPlain, tt) change_row

-- The times of the table, and the rows that a statement leaves.
times_run : transaction_times (at 1) (at 9) table ≡ at 3 ∷ at 5 ∷ []
unfolding transaction_times distinct_times Staging.filter pair_lt
times_run = refl

delete_run : delete_first 1 (in_range (at 1) (at 9)) table ≡ (row 5 1 ∷ [], some (at 3))
unfolding delete_first in_range pair_lt
delete_run = refl
