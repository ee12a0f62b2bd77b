-- ===== src/Logical/Fan/Tests.antt =====
-- internal/source/logical/fan_batch.go: runs of two tables, and the theorems at them.
use cdc_sink_redshift.Common.{
  Bool, true, ℕ, ◌≡◌, ◌↔◌, refl, true, false, ◌==◌, ==_iff, none, some, List, [], ◌∷◌, arith,
}
use cdc_sink_redshift.Cmap as Cmap
use cdc_sink_redshift.Logical.Fan.{
  flush_now, new_fan, find_work, first_of, on_data, dequeue_work, wait_for_work,
  notify_on_completion,
}
use cdc_sink_redshift.Logical.Fan.Runs.{
  FanEvent, offered, polled, finished, completed, exited, start, run, Balanced,
}
use cdc_sink_redshift.Logical.Fan.Balance.{run-Balanced}
use cdc_sink_redshift.Logical.Fan.Flushed.{IsFlushed, flush_now_iff}

-- Three mutations of a table in batches of two, and the end of both.
abbrev my_events : List (FanEvent ℕ ℕ)
my_events =
    offered 1 (10 ∷ 11 ∷ 12 ∷ [])
    ∷ polled
    ∷ offered 2 (20 ∷ [])
    ∷ finished 0
    ∷ polled
    ∷ polled
    ∷ finished 1
    ∷ completed true
    ∷ finished 0
    ∷ exited
    ∷ []

-- One batch is under way, one mutation waits for its turn when the rollback comes.
abbrev my_rollback : List (FanEvent ℕ ℕ)
my_rollback = offered 1 (10 ∷ 11 ∷ 12 ∷ []) ∷ polled ∷ completed false ∷ polled ∷ []

run-Balanced_example : Balanced ◌==◌ ==_iff (λ k. k) 2 (run ◌==◌ (λ k. k) 2 my_rollback start)
run-Balanced_example = run-Balanced ◌==◌ ==_iff (λ k. k) 2 my_rollback (omega arith)

flush_now_iff_example :
    ((take_done : Bool) × (flush_now {E = ℕ} true take_done
          (some 1)
          (run ◌==◌ (λ k. k) 2 my_events start).fan
        ≡ some none))
    ↔ IsFlushed ◌==◌ ==_iff (λ k. k) 2 (run ◌==◌ (λ k. k) 2 my_events start)
flush_now_iff_example =
    flush_now_iff ◌==◌ ==_iff (λ k. k) 2 true (some 1) my_events (omega arith)
      (tt, (tt, (tt, (tt, (tt, (tt, (tt, (refl, (tt, (tt, tt))))))))))

-- After a rollback the counter keeps the mutation that was dropped, and the batch under way is still counted.
pending_run : (run ◌==◌ (λ k. k) 2 my_rollback start).fan.pending ≡ 3
unfolding on_data wait_for_work find_work first_of dequeue_work new_fan notify_on_completion
    Cmap.put Cmap.store Cmap.get_zero Cmap.get Cmap.match_key Cmap.fetch
pending_run = refl
