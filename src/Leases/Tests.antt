-- ===== src/Leases/Tests.antt =====
-- internal/staging/leases/leases.go: the theorems at a table with one lease.
use cdc_sink_redshift.Common.{
  ◌≡◌, refl, true, some, List, [], ◌∷◌, arith, All, Bytes, bytes_eq, bytes_eq_iff,
}
use cdc_sink_redshift.Cmap as Cmap
use cdc_sink_redshift.Cmap.Laws.{IsDistinct}
use cdc_sink_redshift.Leases.{Row, Lease, LeaseTable, find_row, try_acquire, acquire_at}
use cdc_sink_redshift.Leases.Exclusive.{
  Call, acquires, renews, releases, run, Foreign, run-exclusive,
}

abbrev my_name : Bytes
my_name = b'a' ∷ []

abbrev my_row : Row
my_row = record { expires = 9000000; nonce = 5 }

abbrev leases : LeaseTable
leases = (my_name, record { key = my_name; value = my_row }) ∷ []

leases-IsDistinct : IsDistinct bytes_eq bytes_eq_iff leases
unfolding Cmap.fetch
leases-IsDistinct = (refl, tt)

leases-row : find_row leases my_name ≡ some my_row
unfolding Cmap.fetch bytes_eq
leases-row = refl

abbrev stale : Lease
stale = record { expires = 1000000; name = my_name; nonce = 4 }

abbrev calls : List Call
calls = acquires 5000000 6 my_name 8000000 ∷ renews 5000000 stale 8000000 ∷ releases stale ∷ []

calls-Foreign : All (Foreign my_name my_row) calls
calls-Foreign =
    (omega arith, ((λ h. absurd (omega (arith, h.1))), ((λ h. absurd (omega (arith, h.1))), tt)))

run-exclusive_example :
    (find_row (run leases calls).0 my_name ≡ some my_row)
    × All (λ got. ¬ (got ≡ some my_name)) (run leases calls).1
run-exclusive_example =
    run-exclusive leases my_name my_row calls leases-IsDistinct leases-row calls-Foreign

acquired : (try_acquire leases 5000000 6 my_name 9500000).2 ≡ true
unfolding try_acquire acquire_at Cmap.fetch bytes_eq
acquired = refl
