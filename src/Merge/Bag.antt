-- ===== src/Merge/Bag.antt =====
-- internal/util/merge/bag.go and bag_validate.go: properties of which some have a column. A name is the
-- parameter `K`, and what an identifier map compares of it is the parameter `mapper`.
pub mod Inv
pub mod Reads
pub mod Validation
mod Tests
use cdc_sink_redshift.Common.{
  ℕ, suc, ◌+◌, Bool, true, false, Option, none, some, List, [], ◌∷◌, ◌++◌, if◌then◌else◌, Bytes,
  Any, null, length, is_empty, map,
}
use cdc_sink_redshift.Cmap as Cmap
use cdc_sink_redshift.Cmap.{Entry, Map}

-- `ColData`, less its parse function.
pub record ColData (K : Type 0) : Type 0 where
  pub default_expr : Bytes
  pub ignored : Bool
  pub name : K
  pub primary : Bool
  pub type_name : Bytes

-- `Entry` of the bag: a column, and its value if `valid`.
pub record Slot (K : Type 0) : Type 0 where
  pub column : ColData K
  pub valid : Bool
  pub value : Any

-- `Bag` with its `BagSpec`.
pub record Bag (K C : Type 0) : Type 0 where
  pub columns : List (ColData K)
  pub rename : Option (Map K C K)
  pub mapped : Map K C (Slot K)
  pub meta : List (Bytes × Any)
  pub unmapped : Map K C Any

-- The value of a slot, if it is valid.
unfoldable pub valid_value {ℓ} : {A : Type ℓ} → Bool → A → Option A
valid_value true v = some v
valid_value false v = none

-- What a slot gives, or the unmapped property where there is no slot.
unfoldable pub read : {K : Type 0} → Option (Slot K) → Option Any → Option Any
read none unmapped = unmapped
read (some slot) unmapped = valid_value slot.valid slot.value

-- The entries of the mapped properties that are valid.
unfoldable pub valid_entries : {K C : Type 0} → Map K C (Slot K) → List (Entry K Any)
valid_entries [] = []
valid_entries ((c, e) ∷ m) =
    let rest = valid_entries m in
    if e.value.valid then record { key = e.key; value = e.value.value } ∷ rest else rest

-- The counter of `Len`.
unfoldable pub count_valid : {K C : Type 0} → Map K C (Slot K) → ℕ
count_valid [] = 0
count_valid ((c, e) ∷ m) = if e.value.valid then suc (count_valid m) else count_valid m

module _ {K C : Type 0} (eq : C → C → Bool) (mapper : K → C) where
  -- The loop of `NewBag`: an invalid slot for every column.
  unfoldable pub seed_columns : List (ColData K) → Map K C (Slot K) → Map K C (Slot K)
  seed_columns [] m = m
  seed_columns (c ∷ cs) m =
      seed_columns cs
        (Cmap.put eq mapper m c.name (record { column = c; valid = false; value = null }))

  -- `NewBag`.
  unfoldable pub new_bag : List (ColData K) → Option (Map K C K) → Bag K C
  new_bag columns rename = record {
    columns = columns;
    rename = rename;
    mapped = seed_columns columns [];
    meta = [];
    unmapped = [];
  }

  -- `renamed`.
  unfoldable pub renamed : Option (Map K C K) → K → K
  renamed none key = key
  renamed (some r) key = Cmap.get_zero eq mapper key r key

  -- `Get`.
  unfoldable pub get : Bag K C → K → Option Any
  get b key =
      let k = renamed b.rename key in
      read (Cmap.get eq mapper b.mapped k) (Cmap.get eq mapper b.unmapped k)

  -- `Match`: the spelling of the key in the bag, and the value.
  unfoldable pub match_key : Bag K C → K → Option (K × Any)
  match_key b key =
      let k = renamed b.rename key in
      elim (Cmap.match_key eq mapper b.mapped k) [
        | some e ↦ valid_value e.value.valid (e.key, e.value.value)
        | none ↦ elim (Cmap.match_key eq mapper b.unmapped k) [
          | some e ↦ some (e.key, e.value)
          | none ↦ none
        ]
      ]

  -- A write through the pointer to a slot: its key in the map stays as it is spelled.
  unfoldable pub write_slot :
      Map K C (Slot K) → K → Entry K (Slot K) → Bool → Any → Map K C (Slot K)
  write_slot m k e valid value = Cmap.store eq m (mapper k) (record {
    key = e.key;
    value = record { column = e.value.column; valid = valid; value = value };
  })

  -- `Put`, of the renamed key, with the slot found.
  unfoldable pub put_at : Bag K C → K → Any → Option (Entry K (Slot K)) → Bag K C
  put_at b k value (some e) = record b { mapped = write_slot b.mapped k e true value }
  put_at b k value none = record b { unmapped = Cmap.put eq mapper b.unmapped k value }

  -- `Put`.
  unfoldable pub put : Bag K C → K → Any → Bag K C
  put b key value =
      let k = renamed b.rename key in put_at b k value (Cmap.match_key eq mapper b.mapped k)

  -- `Delete`, of the renamed key, with the slot found.
  unfoldable pub delete_at : Bag K C → K → Option (Entry K (Slot K)) → Bag K C
  delete_at b k (some e) = record b { mapped = write_slot b.mapped k e false null }
  delete_at b k none = record b { unmapped = Cmap.delete eq mapper b.unmapped k }

  -- `Delete`.
  unfoldable pub delete : Bag K C → K → Bag K C
  delete b key = let k = renamed b.rename key in delete_at b k (Cmap.match_key eq mapper b.mapped k)

  -- `CopyInto`, into a map.
  unfoldable pub put_entries : List (Entry K Any) → Map K C Any → Map K C Any
  put_entries [] dest = dest
  put_entries (e ∷ es) dest = put_entries es (Cmap.put eq mapper dest e.key e.value)

  unfoldable pub copy_into : Bag K C → Map K C Any → Map K C Any
  copy_into b dest = Cmap.copy_into eq mapper b.unmapped (put_entries (valid_entries b.mapped) dest)

  -- The loop of `ValidatePK` up to the first column outside the key; a column without a slot, whose
  -- nil pointer the code would follow, is `none`.
  unfoldable pub missing_pks :
      Map K C (Slot K) → List (ColData K) → Map K C Unit → Option (Map K C Unit)
  missing_pks mapped [] m = some m
  missing_pks mapped (c ∷ cs) m = elim c.primary [
    | false ↦ some m
    | true ↦ elim (Cmap.get eq mapper mapped c.name) [
      | none ↦ none
      | some slot ↦ missing_pks mapped cs (if slot.valid then m else Cmap.put eq mapper m c.name tt)
    ]
  ]

module _ {K C : Type 0} where
  -- `Len`.
  unfoldable pub len : Bag K C → ℕ
  len b = count_valid b.mapped + Cmap.len b.unmapped

  -- `Entries`, in the order of `Range`.
  unfoldable pub entries : Bag K C → List (Entry K Any)
  entries b = valid_entries b.mapped ++ Cmap.entries b.unmapped

-- An error of the validation, with the names that its text joins.
pub data BagError (K : Type 0) : Type 0 where
  missing_pk_columns unexpected_columns : List K → BagError K

unfoldable pub keys {ℓ} : {K C V : Type ℓ} → Map K C V → List K
keys [] = []
keys ((c, e) ∷ m) = e.key ∷ keys m

module _ {K C : Type 0} where
  -- `ValidateNoUnmappedColumns`.
  unfoldable pub validate_no_unmapped : Bag K C → Option (BagError K)
  validate_no_unmapped b =
      if is_empty b.unmapped then none else some (unexpected_columns (keys b.unmapped))

  -- `ValidatePK`; `none` means that it panics.
  unfoldable pub validate_pk : (C → C → Bool) → (K → C) → Bag K C → Option (Option (BagError K))
  validate_pk eq mapper b = elim (missing_pks eq mapper b.mapped b.columns []) [
    | none ↦ none
    | some m ↦ some (if is_empty m then none else some (missing_pk_columns (keys m)))
  ]
