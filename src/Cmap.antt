-- ===== src/Cmap.antt =====
-- internal/util/cmap/cmap.go and equal.go: maps whose keys are compared in a canonical form. The Go map
-- inside is a list of entries; the order in which Go visits them is that of the list.
pub mod Laws
pub mod Size
pub mod Copies
mod Tests
use cdc_sink_redshift.Common.{
  ℕ, Bool, true, false, ◌==◌, Option, none, some, List, [], ◌∷◌, if◌then◌else◌, length,
}

-- `Entry`.
pub record Entry {ℓ} (K V : Type ℓ) : Type ℓ where
  pub key : K
  pub value : V

-- `impl`: the map from canonical keys to entries. The mapper and the equality of canonical keys are
-- arguments of the operations.
abbrev pub Map {ℓ} : Type ℓ → Type ℓ → Type ℓ → Type ℓ
Map K C V = List (C × Entry K V)

-- The value of an entry, if there is one.
abbrev pub value_of {ℓ} : {K V : Type ℓ} → Option (Entry K V) → Option V
value_of none = none
value_of (some e) = some e.value

-- A value that was found, or the zero value.
abbrev pub or_zero {ℓ} : {V : Type ℓ} → V → Option V → V
or_zero zero_value none = zero_value
or_zero zero_value (some v) = v

module _ {ℓ} {K C V : Type ℓ} (eq : C → C → Bool) where
  -- `m[c]`, `m[c] = e` and `delete(m, c)` on the Go map.
  unfoldable pub fetch : Map K C V → C → Option (Entry K V)
  fetch [] c = none
  fetch ((d, e) ∷ m) c = if eq d c then some e else fetch m c

  unfoldable pub store : Map K C V → C → Entry K V → Map K C V
  store [] c e = (c, e) ∷ []
  store ((d, f) ∷ m) c e = if eq d c then (c, e) ∷ m else (d, f) ∷ store m c e

  unfoldable pub remove : Map K C V → C → Map K C V
  remove [] c = []
  remove ((d, f) ∷ m) c = if eq d c then m else (d, f) ∷ remove m c

module _ {ℓ} {K C V : Type ℓ} (eq : C → C → Bool) (mapper : K → C) where
  -- `Match`.
  unfoldable pub match_key : Map K C V → K → Option (Entry K V)
  match_key m key = fetch eq m (mapper key)

  -- `Get`.
  unfoldable pub get : Map K C V → K → Option V
  get m key = value_of (match_key m key)

  -- `GetZero`, with the zero value of the type.
  unfoldable pub get_zero : V → Map K C V → K → V
  get_zero zero_value m key = or_zero zero_value (get m key)

  -- `Put`.
  unfoldable pub put : Map K C V → K → V → Map K C V
  put m key value = store eq m (mapper key) (record { key = key; value = value })

  -- `Delete`.
  unfoldable pub delete : Map K C V → K → Map K C V
  delete m key = remove eq m (mapper key)

  -- `CopyInto`: every entry is put into the destination.
  unfoldable pub copy_into : Map K C V → Map K C V → Map K C V
  copy_into [] dest = dest
  copy_into ((c, e) ∷ m) dest = copy_into m (put dest e.key e.value)

  -- The callback of `Equal` on every entry, up to the first difference.
  unfoldable pub same_in : (V → V → Bool) → Map K C V → Map K C V → Bool
  same_in comparator [] b = true
  same_in comparator ((c, e) ∷ a) b = elim (get b e.key) [
    | none ↦ false
    | some w ↦ if comparator e.value w then same_in comparator a b else false
  ]

  -- `Equal`, of two maps that are not nil.
  unfoldable pub equal : (V → V → Bool) → Map K C V → Map K C V → Bool
  equal comparator a b = if length a == length b then same_in comparator a b else false

module _ {ℓ} {K C V : Type ℓ} where
  -- `Len`.
  unfoldable pub len : Map K C V → ℕ
  len m = length m

  -- `Entries`.
  unfoldable pub entries : Map K C V → List (Entry K V)
  entries [] = []
  entries ((c, e) ∷ m) = e ∷ entries m

-- `Range`: the callback changes the state of its caller and may return an error, which ends the loop.
unfoldable pub range {ℓ κ} :
    {K C V : Type ℓ} {S E : Type κ} → (K → V → S → S × Option E) → Map K C V → S → S × Option E
range fn [] s = (s, none)
range fn ((c, e) ∷ m) s =
    let (s', err) = fn e.key e.value s in elim err [ some x ↦ (s', some x) | none ↦ range fn m s' ]
