-- ===== src/Leases.antt =====
-- internal/staging/leases/leases.go: leases as rows of a table. A time is a number of nanoseconds, a nonce
-- a number; `gen_random_uuid()` is the argument `fresh` of what acquires. A statement that the database
-- refuses changes nothing, and is not modelled.
pub mod Exclusive
pub mod Acquire
mod Tests
use cdc_sink_redshift.Common.{
  ℕ, ◌+◌, ◌-◌, ◌%◌, Bool, true, false, Option, none, some, List, [], ◌∷◌, if◌then◌else◌, ltb, ◌==◌,
  Bytes, bytes_eq,
}
use cdc_sink_redshift.Cmap as Cmap
use cdc_sink_redshift.Cmap.{Map, value_of}

-- A row without its key, and `lease`.
pub record Row : Type 0 where
  pub expires : ℕ
  pub nonce : ℕ

pub record Lease : Type 0 where
  pub expires : ℕ
  pub name : Bytes
  pub nonce : ℕ

abbrev pub LeaseTable : Type 0
LeaseTable = Map Bytes Bytes Row

abbrev pub find_row : LeaseTable → Bytes → Option Row
find_row t name = value_of (Cmap.fetch bytes_eq t name)

abbrev pub write_row : LeaseTable → Bytes → Row → LeaseTable
write_row t name r = Cmap.store bytes_eq t name (record { key = name; value = r })

-- `now.UTC().Truncate(time.Millisecond)`.
abbrev pub truncate : ℕ → ℕ
truncate now = now - now % 1000000

-- `tryAcquire`, from the row of the name: the table, the lease, and whether it was acquired.
unfoldable pub acquire_at : LeaseTable → ℕ → ℕ → Bytes → ℕ → Option Row → LeaseTable × Lease × Bool
acquire_at t lifetime fresh name at none = (
  write_row t name (record { expires = at + lifetime; nonce = fresh }),
  record { expires = at + lifetime; name = name; nonce = fresh },
  true,
)
acquire_at t lifetime fresh name at (some r) =
    if ltb at r.expires
    then (t, record { expires = r.expires; name = name; nonce = 0 }, false)
    else (
      write_row t name (record { expires = at + lifetime; nonce = fresh }),
      record { expires = at + lifetime; name = name; nonce = fresh },
      true,
    )

unfoldable pub try_acquire : LeaseTable → ℕ → ℕ → Bytes → ℕ → LeaseTable × Lease × Bool
try_acquire t lifetime fresh name now =
    acquire_at t lifetime fresh name (truncate now) (find_row t name)

-- `tryRenew`, from the row of the name.
unfoldable pub renew_at : LeaseTable → ℕ → Lease → ℕ → Option Row → LeaseTable × Lease × Bool
renew_at t lifetime tgt now none = (t, tgt, false)
renew_at t lifetime tgt now (some r) =
    if r.nonce == tgt.nonce
    then (
      write_row t tgt.name (record { expires = now + lifetime; nonce = r.nonce }),
      record tgt { expires = now + lifetime },
      true,
    )
    else (t, tgt, false)

unfoldable pub try_renew : LeaseTable → ℕ → Lease → ℕ → LeaseTable × Lease × Bool
try_renew t lifetime tgt now = renew_at t lifetime tgt now (find_row t tgt.name)

-- `tryRelease`, from the row of the name.
unfoldable pub release_at : LeaseTable → Lease → Option Row → LeaseTable × Bool
release_at t rel none = (t, false)
release_at t rel (some r) =
    if r.nonce == rel.nonce then (Cmap.remove bytes_eq t rel.name, true) else (t, false)

unfoldable pub try_release : LeaseTable → Lease → LeaseTable × Bool
try_release t rel = release_at t rel (find_row t rel.name)
