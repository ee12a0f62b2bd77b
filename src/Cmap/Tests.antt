-- ===== src/Cmap/Tests.antt =====
-- internal/util/cmap: the theorems at a concrete map, whose keys are equal up to their last digit.
use cdc_sink_redshift.Common.{ℕ, Bool, ◌%◌, ◌==◌, [], ◌∷◌}
use cdc_sink_redshift.Cmap.{Entry, Map}

abbrev digit : ℕ → ℕ
digit n = n % 10

abbrev eq : ℕ → ℕ → Bool
eq a b = a == b

entry : ℕ → ℕ → Entry ℕ ℕ
entry k v = record { key = k; value = v }

abbrev small : Map ℕ ℕ ℕ
small = (3, entry 13 7) ∷ (4, entry 14 8) ∷ []

abbrev other : Map ℕ ℕ ℕ
other = (4, entry 24 8) ∷ (3, entry 3 7) ∷ []
