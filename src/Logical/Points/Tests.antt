-- ===== src/Logical/Points/Tests.antt =====
-- internal/source/logical/loop.go: a loop that is started again, and a point at the edge of its window.
use cdc_sink_redshift.Common.{
  ℕ, ◌≡◌, refl, Bytes, bytes_eq, Bool, true, false, not, ltb, ◌==◌, ==_iff, Option, none, some,
  List, [], ◌∷◌, Outcome, done, failed, All, arith,
}
use cdc_sink_redshift.Common.Int.{pos}
use cdc_sink_redshift.Cmap as Cmap
use cdc_sink_redshift.Stamp as Stamp
use cdc_sink_redshift.Stamp.{IsStampOrder}
use cdc_sink_redshift.Notify.{zero_var, set_var, update, update_with, notify}
use cdc_sink_redshift.Staging.Memo.{memo_get, memo_put}
use cdc_sink_redshift.Logical.Points.{
  LoopState, accept, after_update, set_consistent_point, first_point, load_consistent_point, reload,
  set_loaded, store_consistent_point, write_point, choose_fill_strategy, can_backfill, stops,
}
use cdc_sink_redshift.Logical.Points.Toggles.{choose-stops}
use cdc_sink_redshift.Logical.Points.Resumes.{AtMost, set_calls, restart, restart-set_calls}

abbrev my_encode : ℕ → Outcome ℕ Bytes
my_encode n = done (n ∷ [])

abbrev my_decode : Bytes → Outcome ℕ ℕ
my_decode [] = failed 0
my_decode (n ∷ bs) = done n

abbrev my_loop : LoopState ℕ
my_loop = record { memo = []; consistent_point = zero_var none }

-- The second write is refused, and the third call goes backwards.
abbrev my_calls : List (ℕ × Option ℕ)
my_calls = (5, none) ∷ (7, some 1) ∷ (6, none) ∷ []

numbers : IsStampOrder ◌==◌ ltb
numbers = record {
  asym = λ a b h. ground arith;
  cotrans = λ a b c h. ground arith;
  same_eq = λ a b h. (==_iff a b).0 h;
}

abbrev my_restart : LoopState ℕ → LoopState ℕ
my_restart =
    restart ◌==◌ ltb numbers my_encode my_decode none (97 ∷ []) [] 3
      (λ n. (n ∷ [], refl, refl, refl))

abbrev my_run : LoopState ℕ → LoopState ℕ
my_run l =
    set_calls ◌==◌ ltb numbers my_encode my_decode none (97 ∷ []) [] 3
      (λ n. (n ∷ [], refl, refl, refl)) my_calls l

abbrev MyAtMost : Option ℕ → Option ℕ → Type 0
MyAtMost =
    AtMost ◌==◌ ltb numbers my_encode my_decode none (97 ∷ []) [] 3
      (λ n. (n ∷ [], refl, refl, refl))

restart-set_calls_example :
    (q : ℕ) × ((my_restart (my_run (my_restart my_loop))).consistent_point.data_now ≡ some q)
    × MyAtMost (some q) (my_run (my_restart my_loop)).consistent_point.data_now
    × MyAtMost (some 3) (some q)
    × (All (λ c. c.1 ≡ none) my_calls
        → some q ≡ (my_run (my_restart my_loop)).consistent_point.data_now)
unfolding load_consistent_point first_point memo_get Cmap.fetch
restart-set_calls_example =
    restart-set_calls ◌==◌ ltb numbers my_encode my_decode none (97 ∷ []) [] 3
      (λ n. (n ∷ [], refl, refl, refl)) my_loop 3 my_calls refl

-- The point of the write that was refused is in memory only: the first one is loaded.
restart_run : (my_restart (my_run (my_restart my_loop))).consistent_point.data_now ≡ some 5
unfolding reload set_loaded set_consistent_point store_consistent_point write_point after_update
    accept update update_with set_var notify zero_var load_consistent_point first_point memo_get
    memo_put Cmap.fetch Cmap.store bytes_eq Stamp.compare
restart_run = refl

choose-stops_example :
    (stops
        (choose_fill_strategy false true (pos 600) (some (pos 900))).2
        (can_backfill true (pos 600))
        (pos 600)
        (pos 900)
      ≡ false)
    × ((mode : Bool)
        → (mode ≡ true → can_backfill true (pos 600) ≡ true)
        → stops mode (can_backfill true (pos 600)) (pos 600) (pos 900) ≡ true
        → (choose_fill_strategy false true (pos 600) (some (pos 900))).2 ≡ not mode)
choose-stops_example = choose-stops false true (pos 600) (pos 900)
