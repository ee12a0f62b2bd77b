-- ===== src/Leases/Exclusive.antt =====
-- internal/staging/leases/leases.go: a lease keeps others out until it expires.
use cdc_sink_redshift.Common.{
  ℕ, ◌+◌, ◌<◌, ◌≡◌, inl, inr, refl, sym, ap, subst, ◌∙◌, Bool, true, false, Option, none, some,
  List, [], ◌∷◌, if◌then◌else◌, ltb, lt→ltb, ◌==◌, ==_iff, Bytes, bytes_eq, bytes_eq_iff, arith,
  Bool-cases, not_true, All,
}
use cdc_sink_redshift.Cmap as Cmap
use cdc_sink_redshift.Cmap.{value_of}
use cdc_sink_redshift.Cmap.Laws.{
  IsDistinct, fetch-store, fetch-remove, store-IsDistinct, remove-IsDistinct,
}
use cdc_sink_redshift.Leases.{
  Row, Lease, LeaseTable, find_row, write_row, truncate, acquire_at, try_acquire, renew_at,
  try_renew, release_at, try_release,
}

-- A call of some instance.
pub data Call : Type 0 where
  acquires : ℕ → ℕ → Bytes → ℕ → Call
  renews : ℕ → Lease → ℕ → Call
  releases : Lease → Call

-- The table after a call, and the name that the call acquired or renewed, if it did.
abbrev granted : Bytes → Bool → Option Bytes
granted name true = some name
granted name false = none

abbrev pub step : LeaseTable → Call → LeaseTable × Option Bytes
step t (acquires lifetime fresh name now) =
    let r = try_acquire t lifetime fresh name now in (r.0, granted name r.2)
step t (renews lifetime tgt now) =
    let r = try_renew t lifetime tgt now in (r.0, granted tgt.name r.2)
step t (releases rel) = ((try_release t rel).0, none)

-- A call of an instance that does not hold the lease, made before the lease expires.
abbrev pub Foreign : Bytes → Row → Call → Type 0
Foreign name row (acquires lifetime fresh other now) = now < row.expires
Foreign name row (renews lifetime tgt now) = ¬ ((name ≡ tgt.name) × (row.nonce ≡ tgt.nonce))
Foreign name row (releases rel) = ¬ ((name ≡ rel.name) × (row.nonce ≡ rel.nonce))

-- The table still has the row, and the call was not granted the name.
abbrev Kept : Bytes → Row → LeaseTable × Option Bytes → Type 0
Kept name row (t, got) =
    (find_row t name ≡ some row) × ¬ (got ≡ some name) × IsDistinct bytes_eq bytes_eq_iff t

write_other :
    (t : LeaseTable) (name other : Bytes) (r : Row)
    → ¬ (name ≡ other)
    → find_row (write_row t other r) name ≡ find_row t name
write_other t name other r h =
    ap value_of (fetch-store bytes_eq bytes_eq_iff t other name (record { key = other; value = r }))
    ∙ (let e = not_true (bytes_eq other name) (λ q. h (sym ((bytes_eq_iff other name).0 q))) in
        rw e refl)

remove_other :
    (t : LeaseTable) (name other : Bytes)
    → IsDistinct bytes_eq bytes_eq_iff t
    → ¬ (name ≡ other)
    → find_row (Cmap.remove bytes_eq t other) name ≡ find_row t name
remove_other t name other d h =
    ap value_of (fetch-remove bytes_eq bytes_eq_iff t other name d)
    ∙ (let e = not_true (bytes_eq other name) (λ q. h (sym ((bytes_eq_iff other name).0 q))) in
        rw e refl)

not_some : (name other : Bytes) → ¬ (name ≡ other) → ¬ (some other ≡ some name)
not_some name other h e = absurd (h (sym (ground (arith, e))))

module _ (name : Bytes) (row : Row) (t : LeaseTable) (held : find_row t name ≡ some row)
    (distinct : IsDistinct bytes_eq bytes_eq_iff t) where
  no_call : Kept name row (t, none)
  no_call = (held, (λ e. absurd (ground arith)), distinct)

  written :
      (other : Bytes) (r : Row) → ¬ (name ≡ other) → Kept name row (write_row t other r, some other)
  written other r h = (
    write_other t name other r h ∙ held,
    not_some name other h,
    store-IsDistinct bytes_eq bytes_eq_iff t other (record { key = other; value = r }) distinct,
  )

  acquire_other :
      (lifetime fresh : ℕ) (other : Bytes) (at : ℕ) (o : Option Row)
      → ¬ (name ≡ other)
      → Kept name row (
        (acquire_at t lifetime fresh other at o).0,
        granted other (acquire_at t lifetime fresh other at o).2,
      )
  unfolding acquire_at
  acquire_other lifetime fresh other at none h =
      written other (record { expires = at + lifetime; nonce = fresh }) h
  acquire_other lifetime fresh other at (some r) h = go (ltb at r.expires)
    where
      go :
          (b : Bool)
          → Kept name row (
              let x : LeaseTable × Lease × Bool =
                if b then (t, record { expires = r.expires; name = other; nonce = 0 }, false) else (
                  write_row t other (record { expires = at + lifetime; nonce = fresh }),
                  record { expires = at + lifetime; name = other; nonce = fresh },
                  true,
                ) in
              (x.0, granted other x.2))
      go true = no_call
      go false = written other (record { expires = at + lifetime; nonce = fresh }) h

  acquire_refused :
      (lifetime fresh at : ℕ)
      → at < row.expires
      → Kept name row (
        (acquire_at t lifetime fresh name at (find_row t name)).0,
        granted name (acquire_at t lifetime fresh name at (find_row t name)).2,
      )
  unfolding acquire_at
  acquire_refused lifetime fresh at early = rw (held, lt→ltb at row.expires early) no_call

  renew_other :
      (lifetime : ℕ) (tgt : Lease) (now : ℕ) (o : Option Row)
      → find_row t tgt.name ≡ o
      → ¬ ((name ≡ tgt.name) × (row.nonce ≡ tgt.nonce))
      → Kept name row
          ((renew_at t lifetime tgt now o).0, granted tgt.name (renew_at t lifetime tgt now o).2)
  unfolding renew_at
  renew_other lifetime tgt now none at h = no_call
  renew_other lifetime tgt now (some r) at h = elim (Bool-cases (r.nonce == tgt.nonce)) [
    | inr other ↦ rw other no_call
    | inl own ↦ rw own (
        written tgt.name (record { expires = now + lifetime; nonce = r.nonce })
          (λ e.
            let same : row ≡ r = ground (arith, sym held ∙ ap (find_row t) e ∙ at) in
            h (e, ap (λ (x : Row). x.nonce) same ∙ (==_iff r.nonce tgt.nonce).0 own)))
  ]

  release_other :
      (rel : Lease) (o : Option Row)
      → find_row t rel.name ≡ o
      → ¬ ((name ≡ rel.name) × (row.nonce ≡ rel.nonce))
      → Kept name row ((release_at t rel o).0, none)
  unfolding release_at
  release_other rel none at h = no_call
  release_other rel (some r) at h = elim (Bool-cases (r.nonce == rel.nonce)) [
    | inr other ↦ rw other no_call
    | inl own ↦
        let apart : ¬ (name ≡ rel.name) = λ e.
          let same : row ≡ r = ground (arith, sym held ∙ ap (find_row t) e ∙ at) in
          h (e, ap (λ (x : Row). x.nonce) same ∙ (==_iff r.nonce rel.nonce).0 own) in
        rw own (
          remove_other t name rel.name distinct apart ∙ held,
          (λ e. absurd (ground arith)),
          remove-IsDistinct bytes_eq bytes_eq_iff t rel.name distinct,
        )
  ]

  Step-Kept : (c : Call) → Foreign name row c → Kept name row (step t c)
  unfolding try_acquire try_renew try_release
  Step-Kept (acquires lifetime fresh other now) early = elim (Bool-cases (bytes_eq name other)) [
    | inl hit ↦
        subst
          (λ n. Kept name row (
            (acquire_at t lifetime fresh n (truncate now) (find_row t n)).0,
            granted n (acquire_at t lifetime fresh n (truncate now) (find_row t n)).2,
          ))
          ((bytes_eq_iff name other).0 hit)
          (acquire_refused lifetime fresh (truncate now) (omega (arith, early)))
    | inr miss ↦
        acquire_other lifetime fresh other (truncate now) (find_row t other)
          (λ e. absurd (ground (arith, (bytes_eq_iff name other).1 e, miss)))
  ]
  Step-Kept (renews lifetime tgt now) h = renew_other lifetime tgt now (find_row t tgt.name) refl h
  Step-Kept (releases rel) h = release_other rel (find_row t rel.name) refl h

-- A row of calls, with the names that were acquired or renewed.
abbrev pub run : LeaseTable → List Call → LeaseTable × List (Option Bytes)
run t [] = (t, [])
run t (c ∷ cs) = let r = step t c in let rest = run r.0 cs in (rest.0, r.1 ∷ rest.1)

-- While a lease has not expired, whatever the other instances acquire, renew and release, with any
-- nonce but that of its holder, the row of the lease stays as it is, and no call is granted its name.
pub run-exclusive :
    (t : LeaseTable) (name : Bytes) (row : Row) (cs : List Call)
    → IsDistinct bytes_eq bytes_eq_iff t
    → find_row t name ≡ some row
    → All (Foreign name row) cs
    → (find_row (run t cs).0 name ≡ some row) × All (λ got. ¬ (got ≡ some name)) (run t cs).1
run-exclusive t name row [] d held h = (held, tt)
run-exclusive t name row (c ∷ cs) d held h =
    let k = Step-Kept name row t held d c h.0 in
    let rest = run-exclusive (step t c).0 name row cs k.2 k.0 h.1 in (rest.0, (k.1, rest.1))
