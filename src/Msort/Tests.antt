-- ===== src/Msort/Tests.antt =====
-- internal/util/msort/msort.go: a run, and the theorems at concrete inputs.
use cdc_sink_redshift.Common.{ℕ, ◌≡◌, refl, none, some, List, [], ◌∷◌, arith, All, Bytes, bytes_eq}
use cdc_sink_redshift.Common.Int.{pos, wrap64, ◌-ℤ◌}
use cdc_sink_redshift.Hlc
use cdc_sink_redshift.Types.{Mutation}
use cdc_sink_redshift.Msort.{find_idx, body, loop, unique_by_key}
use cdc_sink_redshift.Msort.Reference.{HasKey}
use cdc_sink_redshift.Msort.Latest.{find, newest, DistinctKeys, IsTimed, unique_by_key-newest}

mutation : Bytes → ℕ → Bytes → Mutation
mutation k t d = record {
  before = [];
  contents = d;
  key = k;
  meta = [];
  time = Hlc.new (pos t) (pos 0);
}

-- Key 1 at times 4, 6 and 6, and key 2 at time 5.
input : List Mutation
unfolding mutation
input =
    mutation (1 ∷ []) 4 (10 ∷ [])
    ∷ mutation (1 ∷ []) 6 (11 ∷ [])
    ∷ mutation (2 ∷ []) 5 (12 ∷ [])
    ∷ mutation (1 ∷ []) 6 (13 ∷ [])
    ∷ []

run :
    unique_by_key input ≡ some (mutation (2 ∷ []) 5 (12 ∷ []) ∷ mutation (1 ∷ []) 6 (13 ∷ []) ∷ [])
unfolding input unique_by_key loop body find_idx bytes_eq Hlc.gt Hlc.compare wrap64 ◌-ℤ◌
run = refl

no_key : unique_by_key (mutation [] 4 [] ∷ []) ≡ none
unfolding mutation unique_by_key loop body
no_key = refl

input-HasKey : All HasKey input
unfolding input
input-HasKey = (refl, (refl, (refl, (refl, tt))))

input-IsTimed : All IsTimed input
unfolding input
input-IsTimed = (omega arith, (omega arith, (omega arith, (omega arith, tt))))

unique_by_key-newest_example :
    (r : List Mutation) × (unique_by_key input ≡ some r)
    × DistinctKeys r
    × ((k : Bytes) → find k r ≡ newest k input)
unique_by_key-newest_example = unique_by_key-newest input input-HasKey
