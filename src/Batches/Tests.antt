-- ===== src/Batches/Tests.antt =====
-- internal/util/batches/batches.go: a run, and the theorem at a concrete input.
use cdc_sink_redshift.Common.{ℕ, ◌≡◌, refl, none, some, List, [], ◌∷◌, ◌++◌, arith}
use cdc_sink_redshift.Batches.{Callback, window_loop, window}
use cdc_sink_redshift.Batches.Cover.{Covers, each, window-each}

record_window : Callback (List (ℕ × ℕ)) ℕ
record_window b e s = (s ++ (b, e) ∷ [], none)

window_run : window record_window 3 7 [] ≡ some ((0, 3) ∷ (3, 6) ∷ (6, 7) ∷ [], none)
unfolding window window_loop record_window
window_run = refl

window-each_example :
    (ws : List (ℕ × ℕ)) × Covers 3 0 7 ws
    × ((s : List (ℕ × ℕ)) → window record_window 3 7 s ≡ some (each record_window ws s))
window-each_example = window-each record_window 3 7 (omega arith)
