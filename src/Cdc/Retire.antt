-- ===== src/Cdc/Retire.antt =====
-- internal/source/cdc/resolver.go: one round of `retireLoop`, which asks the stager of every table to
-- drop the mutations up to a time.
mod Tests
use cdc_sink_redshift.Common.{
  ℕ, zero, suc, ◌<◌, ◌≡◌, ◌≢◌, refl, sym, ap, ◌∙◌, Bool, true, false, Option, none, some, List, [],
  ◌∷◌, if◌then◌else◌, ltb, length, get_elem?, arith,
}
use cdc_sink_redshift.Common.Int.{ℤ, pos, ◌-ℤ◌, wrap64}
use cdc_sink_redshift.Hlc as Hlc
use cdc_sink_redshift.Hlc.{Time}
use cdc_sink_redshift.Ident.{Table}

-- What `stagers.Get` and `stager.Retire` return.
pub data Access : Type 0 where
  ready canceled unavailable : Access

-- `next` moved back by the retirement offset, if that is positive.
unfoldable pub back_off : ℕ → Time → Time
back_off off next =
    if ltb 0 off then Hlc.new (wrap64 (next.nanos -ℤ pos off)) next.logical else next

-- The callback on the tables in their order: the calls of `Retire`, and the `next` that is left in the
-- variable of the loop. A cancellation ends the round.
unfoldable pub retire_round :
    (Table → Access) → (Table → Time → Access) → ℕ → List Table → Time → List (Table × Time) × Time
retire_round stager retire off [] next = ([], next)
retire_round stager retire off (t ∷ ts) next = elim (stager t) [
  | canceled ↦ ([], next)
  | unavailable ↦ retire_round stager retire off ts next
  | ready ↦
      let next' = back_off off next in
      elim (retire t next') [
        | canceled ↦ ((t, next') ∷ [], next')
        | _ ↦
            let (calls, last) = retire_round stager retire off ts next' in
            ((t, next') ∷ calls, last)
      ]
]

-- A call that is not canceled, and the calls for the other tables.
round-cons :
    (retire : Table → Time → Access) (off : ℕ) (u : Table) (ts : List Table) (next : Time)
    → retire u (back_off off next) ≢ canceled
    → let rest = retire_round (λ _. ready) retire off ts (back_off off next) in
      retire_round (λ _. ready) retire off (u ∷ ts) next ≡ ((u, back_off off next) ∷ rest.0, rest.1)
unfolding retire_round
round-cons retire off u ts next k = go (retire u (back_off off next)) k
  where
    go :
        (a : Access)
        → a ≢ canceled
        → let rest = retire_round (λ _. ready) retire off ts (back_off off next) in
          ◌≡◌ {A = List (Table × Time) × Time}
            (elim a [
              | canceled ↦ ((u, back_off off next) ∷ [], back_off off next)
              | _ ↦ ((u, back_off off next) ∷ rest.0, rest.1)
            ])
            ((u, back_off off next) ∷ rest.0, rest.1)
    go ready n = refl
    go unavailable n = refl
    go canceled n = absurd (n refl)

-- The offset taken from a time again and again.
unfoldable pub backed_off : ℕ → ℕ → Time → Time
backed_off off zero next = next
backed_off off (suc n) next = backed_off off n (back_off off next)

-- When every stager is ready, a round in which no call of `Retire` is canceled, whatever other error a
-- call has, retires every table, the table at place `i` up to the time from which the offset is taken
-- `i + 1` times: the offset adds up over the tables.
pub retire_round-backed_off :
    (retire : Table → Time → Access) (off : ℕ) (ts : List Table) (next : Time) (i : ℕ) (t : Table)
    → ((u : Table) (x : Time) → retire u x ≢ canceled)
    → get_elem? ts i ≡ some t
    → get_elem? (retire_round (λ _. ready) retire off ts next).0 i
      ≡ some (t, backed_off off (suc i) next)
unfolding backed_off
retire_round-backed_off retire off [] next i t k h = absurd (ground arith)
retire_round-backed_off retire off (u ∷ ts) next zero t k h =
    let e : u ≡ t = ground arith in
    ap (λ (r : List (Table × Time) × Time). get_elem? r.0 0)
      (round-cons retire off u ts next (k u (back_off off next)))
    ∙ ap (λ x. some (x, back_off off next)) e
retire_round-backed_off retire off (u ∷ ts) next (suc i) t k h =
    ap (λ (r : List (Table × Time) × Time). get_elem? r.0 (suc i))
      (round-cons retire off u ts next (k u (back_off off next)))
    ∙ retire_round-backed_off retire off ts (back_off off next) i t k h
