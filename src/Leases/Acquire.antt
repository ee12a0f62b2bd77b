-- ===== src/Leases/Acquire.antt =====
-- internal/staging/leases/leases.go: when a lease is acquired, and what its holder can do.
use cdc_sink_redshift.Common.{
  ℕ, ◌+◌, ◌≤◌, ◌≡◌, ◌↔◌, inl, inr, refl, sym, ap, subst, ◌∙◌, true, Option, none, some, ltb, ==_iff,
  Bytes, bytes_eq, bytes_eq_iff, bytes_eq_refl, arith, Bool-cases,
}
use cdc_sink_redshift.Cmap as Cmap
use cdc_sink_redshift.Cmap.{value_of}
use cdc_sink_redshift.Cmap.Laws.{IsDistinct, fetch-store, fetch-remove, store-IsDistinct}
use cdc_sink_redshift.Leases.{
  Row, Lease, LeaseTable, find_row, write_row, truncate, acquire_at, try_acquire, renew_at,
  try_renew, release_at, try_release,
}

-- The row of a name is free at a time.
abbrev pub IsFree : ℕ → Option Row → Type 0
IsFree at none = Unit
IsFree at (some r) = r.expires ≤ at

find-write : (t : LeaseTable) (name : Bytes) (r : Row) → find_row (write_row t name r) name ≡ some r
find-write t name r =
    ap value_of (fetch-store bytes_eq bytes_eq_iff t name name (record { key = name; value = r }))
    ∙ (rw (bytes_eq_refl name) refl)

find-remove :
    (t : LeaseTable) (name : Bytes)
    → IsDistinct bytes_eq bytes_eq_iff t
    → find_row (Cmap.remove bytes_eq t name) name ≡ none
find-remove t name d =
    ap value_of (fetch-remove bytes_eq bytes_eq_iff t name name d) ∙ (rw (bytes_eq_refl name) refl)

acquire_at_iff :
    (t : LeaseTable) (lifetime fresh : ℕ) (name : Bytes) (at : ℕ) (o : Option Row)
    → ((acquire_at t lifetime fresh name at o).2 ≡ true) ↔ IsFree at o
unfolding acquire_at
acquire_at_iff t lifetime fresh name at none = (λ e. tt, λ h. refl)
acquire_at_iff t lifetime fresh name at (some r) = elim (Bool-cases (ltb at r.expires)) [
  | inl busy ↦ rw busy (λ e. absurd (ground arith), λ h. absurd (ground (arith, h, busy)))
  | inr free ↦ rw free (λ e. ground (arith, free), λ h. refl)
]

-- What the table and the lease are after an acquisition.
acquire_at-row :
    (t : LeaseTable) (lifetime fresh : ℕ) (name : Bytes) (at : ℕ) (o : Option Row)
    → (acquire_at t lifetime fresh name at o).2 ≡ true
    → ((acquire_at t lifetime fresh name at o).0
        ≡ write_row t name (record { expires = at + lifetime; nonce = fresh }))
      × ((acquire_at t lifetime fresh name at o).1
          ≡ record { expires = at + lifetime; name = name; nonce = fresh })
unfolding acquire_at
acquire_at-row t lifetime fresh name at none h = (refl, refl)
acquire_at-row t lifetime fresh name at (some r) h = elim (Bool-cases (ltb at r.expires)) [
  | inl busy ↦ absurd (ground (arith, h, busy))
  | inr free ↦ rw free (refl, refl)
]

-- What the holder of a row can do.
holder :
    (t : LeaseTable) (lifetime : ℕ) (name : Bytes) (expires nonce now : ℕ)
    → IsDistinct bytes_eq bytes_eq_iff t
    → let u = write_row t name (record { expires = expires; nonce = nonce }) in
      let l : Lease = record { expires = expires; name = name; nonce = nonce } in
      ((try_renew u lifetime l now).2 ≡ true)
      × (find_row (try_renew u lifetime l now).0 name
          ≡ some (record { expires = now + lifetime; nonce = nonce }))
      × ((try_release u l).1 ≡ true)
      × (find_row (try_release u l).0 name ≡ none)
unfolding try_renew renew_at try_release release_at
holder t lifetime name expires nonce now d =
    let r : Row = record { expires = expires; nonce = nonce } in
    let own = (==_iff nonce nonce).1 refl in
    let at = find-write t name r in
    (
      rw (at, own) refl,
      rw (at, own)
          (find-write (write_row t name r) name
            (record { expires = now + lifetime; nonce = nonce })),
      rw (at, own) refl,
      rw (at, own)
          (find-remove (write_row t name r) name
            (store-IsDistinct bytes_eq bytes_eq_iff t name (record { key = name; value = r }) d)),
    )

-- `tryAcquire` acquires a lease exactly if the name has no row, or one that has expired at the current
-- time to the millisecond.
pub try_acquire_iff :
    (t : LeaseTable) (lifetime fresh : ℕ) (name : Bytes) (now : ℕ)
    → ((try_acquire t lifetime fresh name now).2 ≡ true) ↔ IsFree (truncate now) (find_row t name)
unfolding try_acquire
try_acquire_iff t lifetime fresh name now =
    acquire_at_iff t lifetime fresh name (truncate now) (find_row t name)

-- The lease can be renewed, which extends its row, and released, which frees the name.
abbrev pub CanUse : ℕ → Bytes → ℕ → ℕ → LeaseTable → Lease → Type 0
CanUse lifetime name nonce now u l =
    ((try_renew u lifetime l now).2 ≡ true)
    × (find_row (try_renew u lifetime l now).0 name
        ≡ some (record { expires = now + lifetime; nonce = nonce }))
    × ((try_release u l).1 ≡ true)
    × (find_row (try_release u l).0 name ≡ none)

-- A lease that `tryAcquire` has acquired can be renewed, which extends the expiration in the table, and
-- released, which frees the name.
pub try_acquire-CanUse :
    (t : LeaseTable) (lifetime fresh : ℕ) (name : Bytes) (now later : ℕ)
    → IsDistinct bytes_eq bytes_eq_iff t
    → (try_acquire t lifetime fresh name now).2 ≡ true
    → CanUse lifetime name fresh later
        (try_acquire t lifetime fresh name now).0
        (try_acquire t lifetime fresh name now).1
unfolding try_acquire
try_acquire-CanUse t lifetime fresh name now later d h =
    let at = truncate now in
    let (u, l) = acquire_at-row t lifetime fresh name at (find_row t name) h in
    let own = holder t lifetime name (at + lifetime) fresh later d in
    subst
      (λ (x : LeaseTable).
        CanUse lifetime name fresh later x
          (acquire_at t lifetime fresh name at (find_row t name)).1)
      (sym u)
      (subst
        (λ (x : Lease).
          CanUse lifetime name fresh later
            (write_row t name (record { expires = at + lifetime; nonce = fresh })) x)
        (sym l) own)
