-- ===== src/Notify/Tests.antt =====
-- internal/util/notify/var.go: a run, and the theorem at a variable that was set.
use cdc_sink_redshift.Common.{ℕ, ◌≡◌, refl, false, none, some, List, [], ◌∷◌, failed, arith}
use cdc_sink_redshift.Notify.{Var, zero_var, get, peek_var, Call, got, set_to, updated_by, calls}
use cdc_sink_redshift.Notify.Wakes.{mem, any_wakes, Inv, get-wakes}

abbrev my_var : Var ℕ
my_var = record { data_now = 4; updated = some 1; closed = 0 ∷ []; made = 2 }

my_var-Inv : Inv my_var
my_var-Inv = record { old = (omega arith, tt); current = λ c e. ground (arith, e) }

abbrev my_calls : List (Call ℕ ℕ)
my_calls = got ∷ updated_by (λ x. failed x) ∷ set_to 7 ∷ []

get-wakes_example :
    (mem (get my_var).2 (calls my_calls (get my_var).0).closed ≡ any_wakes my_calls (get my_var).0)
    × (any_wakes my_calls (get my_var).0 ≡ false
        → ((calls my_calls (get my_var).0).data_now ≡ (get my_var).1)
          × ((calls my_calls (get my_var).0).updated ≡ some (get my_var).2))
    × Inv (calls my_calls (get my_var).0)
get-wakes_example = get-wakes my_var my_calls my_var-Inv

-- `Peek` of a new variable gives no channel, so its caller would wait forever.
peek_run : peek_var {T = ℕ} {E = ℕ} (λ x. none) (zero_var 4) ≡ (none, none)
unfolding peek_var zero_var
peek_run = refl
