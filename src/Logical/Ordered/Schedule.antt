-- ===== src/Logical/Ordered/Schedule.antt =====
-- internal/source/logical/ordered_events.go: the calls of the wrapped batch, as a row made from the data.
use cdc_sink_redshift.Common.{ℕ, ◌≡◌, refl, sym, ◌∙◌, Option, none, some, List, [], ◌∷◌}
use cdc_sink_redshift.Ident.{Table}
use cdc_sink_redshift.Logical.Ordered.{
  DeferredData, Delegate, OrderedError, flush_failed, data_failed, commit_failed, wrap, write_all,
  on_commit,
}
use cdc_sink_redshift.Logical.Ordered.Commit.{at_level, by_level, then_commit}

-- A call of the wrapped batch.
pub data Call : Type 0 where
  flushes commits : Call
  writes : DeferredData → Call

abbrev writes_of : List DeferredData → List Call → List Call
writes_of [] rest = rest
writes_of (d ∷ ds) rest = writes d ∷ writes_of ds rest

abbrev deferred_calls : List (List DeferredData) → List Call
deferred_calls [] = commits ∷ []
deferred_calls (ds ∷ levels) = flushes ∷ writes_of ds (deferred_calls levels)

-- The calls for some data, of which the groups after the first are `n`.
abbrev pub schedule : (Table → Option ℕ) → ℕ → List DeferredData → List Call
schedule level n ds = writes_of (at_level level 0 ds) (deferred_calls (by_level level n 1 ds))

module _ {S E : Type 0} (delegate : Delegate S E) where
  abbrev failing : (E → OrderedError E) → S × Option E → S × Option (OrderedError E)
  failing f (s, some e) = (s, some (f e))
  failing f (s, none) = (s, none)

  abbrev call : Call → S → S × Option (OrderedError E)
  call flushes s = failing flush_failed (delegate.flush s)
  call commits s = failing commit_failed (delegate.on_commit s)
  call (writes d) s = failing data_failed (delegate.on_data d s)

  -- What follows a call.
  abbrev go_on :
      (S → S × Option (OrderedError E)) → S × Option (OrderedError E) → S × Option (OrderedError E)
  go_on next (s, some e) = (s, some e)
  go_on next (s, none) = next s

  -- Some calls, one after another, up to the first error.
  abbrev pub run_calls : List Call → S → S × Option (OrderedError E)
  run_calls [] s = (s, none)
  run_calls (c ∷ cs) s = go_on (run_calls cs) (call c s)

  run_calls-writes_of :
      (ds : List DeferredData) (cs : List Call) (s : S)
      → run_calls (writes_of ds cs) s ≡ go_on (run_calls cs) (write_all delegate ds s)
  unfolding write_all
  run_calls-writes_of [] cs s = refl
  run_calls-writes_of (d ∷ ds) cs s = step (delegate.on_data d s) (run_calls-writes_of ds cs)
    where
      step :
          (x : S × Option E)
          → ((t : S)
              → run_calls (writes_of ds cs) t ≡ go_on (run_calls cs) (write_all delegate ds t))
          → go_on (run_calls (writes_of ds cs)) (failing data_failed x)
            ≡ go_on (run_calls cs) (elim x.1 [
              | some e ↦ (x.0, some (data_failed e))
              | none ↦ write_all delegate ds x.0
            ])
      step (t, some e) ih = refl
      step (t, none) ih = ih t

  -- `OnCommit` makes the calls for what was put off.
  on_commit-calls :
      (levels : List (List DeferredData)) (s : S)
      → on_commit delegate levels s ≡ run_calls (deferred_calls levels) s
  unfolding on_commit wrap
  on_commit-calls [] s = last (delegate.on_commit s)
    where
      last :
          (x : S × Option E)
          → wrap delegate commit_failed x ≡ go_on (run_calls []) (failing commit_failed x)
      last (t, some e) = refl
      last (t, none) = refl
  on_commit-calls (ds ∷ levels) s = flushed (delegate.flush s) (on_commit-calls levels)
    where
      written :
          (x : S × Option (OrderedError E))
          → ((t : S) → on_commit delegate levels t ≡ run_calls (deferred_calls levels) t)
          → (elim x.1 [ some e ↦ (x.0, some e) | none ↦ on_commit delegate levels x.0 ])
            ≡ go_on (run_calls (deferred_calls levels)) x
      written (t, some e) ih = refl
      written (t, none) ih = ih t

      flushed :
          (x : S × Option E)
          → ((t : S) → on_commit delegate levels t ≡ run_calls (deferred_calls levels) t)
          → (elim x.1 [
            | some e ↦ (x.0, some (flush_failed e))
            | none ↦
                let (s2, err2) = write_all delegate ds x.0 in
                elim err2 [ some e ↦ (s2, some e) | none ↦ on_commit delegate levels s2 ]
          ])
            ≡ go_on (run_calls (writes_of ds (deferred_calls levels))) (failing flush_failed x)
      flushed (t, some e) ih = refl
      flushed (t, none) ih =
          written (write_all delegate ds t) ih
          ∙ sym (run_calls-writes_of ds (deferred_calls levels) t)

  pub then_commit-schedule :
      (level : Table → Option ℕ) (n : ℕ) (ds : List DeferredData) (s : S)
      → then_commit level delegate
          (by_level level n 1 ds)
          (write_all delegate (at_level level 0 ds) s)
        ≡ run_calls (schedule level n ds) s
  then_commit-schedule level n ds s =
      after (write_all delegate (at_level level 0 ds) s)
      ∙ sym (run_calls-writes_of (at_level level 0 ds) (deferred_calls (by_level level n 1 ds)) s)
    where
      after :
          (x : S × Option (OrderedError E))
          → then_commit level delegate (by_level level n 1 ds) x
            ≡ go_on (run_calls (deferred_calls (by_level level n 1 ds))) x
      after (t, some e) = refl
      after (t, none) = on_commit-calls (by_level level n 1 ds) t
