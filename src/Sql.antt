-- ===== src/Sql.antt =====
-- Comparisons of tuples in the SQL statements of internal/source/cdc/resolver.go and
-- internal/staging/stage/factory.go.
pub mod Order
use cdc_sink_redshift.Common.{Bool, true, false, List, [], ◌∷◌, if◌then◌else◌, ltb, Bytes}
use cdc_sink_redshift.Common.Int.{ltb_ℤ}
use cdc_sink_redshift.Hlc.{Time}

-- `(a.nanos, a.logical) < (b.nanos, b.logical)` in SQL.
unfoldable pub pair_lt : Time → Time → Bool
pair_lt a b =
    if ltb_ℤ a.nanos b.nanos
    then true
    else if ltb_ℤ b.nanos a.nanos
    then false
    else ltb_ℤ a.logical b.logical

-- The order of two keys as strings of bytes.
unfoldable pub key_lt : Bytes → Bytes → Bool
key_lt [] [] = false
key_lt [] (b ∷ bs) = true
key_lt (a ∷ as') [] = false
key_lt (a ∷ as') (b ∷ bs) =
    let rest = key_lt as' bs in if ltb a b then true else if ltb b a then false else rest

-- `(nanos, logical, key) < (nanos', logical', key')` in SQL.
unfoldable pub tuple_lt : Time → Bytes → Time → Bytes → Bool
tuple_lt a k b l = if pair_lt a b then true else if pair_lt b a then false else key_lt k l
