-- ===== src/Merge/Bag/Tests.antt =====
-- internal/util/merge: the theorems at a bag with the columns 1 and 2, of which the first is primary,
-- and with the name 9 for column 1. Names are equal up to their last digit.
use cdc_sink_redshift.Common.{
  ℕ, Bool, true, false, ◌%◌, ◌==◌, ==_iff, ◌≡◌, ◌↔◌, Option, none, some, List, [], ◌∷◌,
  if◌then◌else◌, boolean,
}
use cdc_sink_redshift.Cmap as Cmap
use cdc_sink_redshift.Merge.Bag.{ColData, Bag, BagError, new_bag, get, put, delete, validate_pk}
use cdc_sink_redshift.Merge.Bag.Inv.{Inv, new_bag-Inv, put-delete-Inv}
use cdc_sink_redshift.Merge.Bag.Reads.{canonical, get-put-delete}
use cdc_sink_redshift.Merge.Bag.Validation.{HasPks, validate_pk_iff}

abbrev digit : ℕ → ℕ
digit n = n % 10

abbrev eq : ℕ → ℕ → Bool
eq a b = a == b

abbrev column : ℕ → Bool → ColData ℕ
column n p = record { default_expr = []; ignored = false; name = n; primary = p; type_name = [] }

abbrev columns : List (ColData ℕ)
columns = column 1 true ∷ column 2 false ∷ []

abbrev names : Option (Cmap.Map ℕ ℕ ℕ)
names = some ((9, record { key = 9; value = 1 }) ∷ [])

abbrev my_bag : Bag ℕ ℕ
my_bag = new_bag eq digit columns names

my_bag-Inv : Inv eq ==_iff digit my_bag
my_bag-Inv = new_bag-Inv eq ==_iff digit columns names

put-delete-Inv_example :
    Inv eq ==_iff digit (put eq digit my_bag 19 (boolean true))
    × Inv eq ==_iff digit (delete eq digit my_bag 19)
put-delete-Inv_example = put-delete-Inv eq ==_iff digit my_bag 19 (boolean true) my_bag-Inv

get-put-delete_example :
    (get eq digit (put eq digit my_bag 19 (boolean true)) 11 ≡ (
      if eq (canonical eq ==_iff digit my_bag 19) (canonical eq ==_iff digit my_bag 11)
      then some (boolean true)
      else get eq digit my_bag 11))
    × (get eq digit (delete eq digit my_bag 19) 11 ≡ (
        if eq (canonical eq ==_iff digit my_bag 19) (canonical eq ==_iff digit my_bag 11)
        then none
        else get eq digit my_bag 11))
get-put-delete_example =
    get-put-delete eq ==_iff digit my_bag 19 11 (boolean true) my_bag-Inv.unmapped_distinct

validate_pk_iff_example :
    (r : Option (BagError ℕ)) × (validate_pk eq digit my_bag ≡ some r)
    × ((r ≡ none) ↔ HasPks eq ==_iff digit my_bag.mapped my_bag.columns)
validate_pk_iff_example = validate_pk_iff eq ==_iff digit my_bag my_bag-Inv
