-- ===== src/Logical/Fan/Runs.antt =====
-- internal/source/logical/fan_batch.go: runs of calls and workers, and the account of the mutations.
use cdc_sink_redshift.Common.{
  ℕ, zero, suc, ◌+◌, ◌≤◌, ◌<◌, ◌≡◌, ◌⊎◌, ◌↔◌, refl, ap, ◌∙◌, Bool, true, false, Option, none, some,
  List, [], ◌∷◌, ◌++◌, append_assoc, if◌then◌else◌, length, All, arith,
}
use cdc_sink_redshift.Cmap.{fetch}
use cdc_sink_redshift.Cmap.Laws.{IsDistinct}
use cdc_sink_redshift.Cmap.Copies.{IsKeyed}
use cdc_sink_redshift.Logical.Fan.{
  Fan, FanError, Work, found, stopped, waiting, new_fan, on_data, wait_for_work,
  notify_on_completion, applied, exit_worker,
}
use cdc_sink_redshift.Logical.Fan.Conserve.{value_or_nil, queued}

-- What happens to a batch: a call of `OnData`, a worker that asks for work, the end of the application at a position of
-- those under way, a call of `OnCommit` or `OnRollback`, and the end of a worker.
pub data FanEvent (K A : Type 0) : Type 0 where
  offered : K → List A → FanEvent K A
  polled : FanEvent K A
  finished : ℕ → FanEvent K A
  completed : Bool → FanEvent K A
  exited : FanEvent K A

-- The state, the sizes of the batches that workers are applying, and what happened to the mutations of each table.
pub record World (K C A : Type 0) : Type 0 where
  pub fan : Fan K C A
  pub running : List ℕ
  pub accepted : C → List A
  pub taken : C → List A
  pub dropped : C → List A
  pub lost : ℕ

abbrev pub start : {K C A : Type 0} → World K C A
start = record {
  fan = new_fan;
  running = [];
  accepted = λ c. [];
  taken = λ c. [];
  dropped = λ c. [];
  lost = 0;
}

abbrev pub size_at : List ℕ → ℕ → ℕ
size_at [] i = 0
size_at (n ∷ ns) zero = n
size_at (n ∷ ns) (suc i) = size_at ns i

abbrev pub remove_at : List ℕ → ℕ → List ℕ
remove_at [] i = []
remove_at (n ∷ ns) zero = ns
remove_at (n ∷ ns) (suc i) = n ∷ remove_at ns i

abbrev pub total : List ℕ → ℕ
total [] = 0
total (n ∷ ns) = n + total ns

pub total-remove_at : (ns : List ℕ) (i : ℕ) → total (remove_at ns i) + size_at ns i ≡ total ns
total-remove_at [] i = refl
total-remove_at (n ∷ ns) zero = omega arith
total-remove_at (n ∷ ns) (suc i) = omega (arith, total-remove_at ns i)

pub total-append : (ns : List ℕ) (n : ℕ) → total (ns ++ (n ∷ [])) ≡ total ns + n
total-append [] n = omega arith
total-append (m ∷ ns) n = omega (arith, total-append ns n)

pub All-remove_at : (P : ℕ → Type 0) (ns : List ℕ) (i : ℕ) → All P ns → All P (remove_at ns i)
All-remove_at P [] i h = tt
All-remove_at P (n ∷ ns) zero h = h.1
All-remove_at P (n ∷ ns) (suc i) h = (h.0, All-remove_at P ns i h.1)

module _ {K C A : Type 0} (eq : C → C → Bool) (mapper : K → C) (size : ℕ) where
  -- Mutations of a table after those that are there.
  abbrev pub logged : K → List A → (C → List A) → C → List A
  logged table muts log c = if eq (mapper table) c then log c ++ muts else log c

  abbrev pub after_offer : K → List A → World K C A → Fan K C A × Option FanError → World K C A
  after_offer table muts w (fan, none) = record w {
    fan = fan;
    accepted = logged table muts w.accepted;
  }
  after_offer table muts w (fan, some err) = record w { fan = fan }

  abbrev pub after_poll : World K C A → Fan K C A × Work K A → World K C A
  after_poll w (fan, found table muts) = record w {
    fan = fan;
    running = w.running ++ (length muts ∷ []);
    taken = logged table muts w.taken;
  }
  after_poll w (fan, stopped) = record w { fan = fan }
  after_poll w (fan, waiting) = record w { fan = fan }

  abbrev pub after_completion : Bool → World K C A → World K C A
  after_completion true w = record w { fan = notify_on_completion true w.fan }
  after_completion false w = record w {
    fan = notify_on_completion false w.fan;
    dropped = λ c. w.dropped c ++ value_or_nil (fetch eq w.fan.queues c);
    lost = w.lost + queued w.fan.queues;
  }

  abbrev pub step : FanEvent K A → World K C A → World K C A
  step (offered table muts) w = after_offer table muts w (on_data eq mapper table muts w.fan)
  step polled w = after_poll w (wait_for_work eq mapper size w.fan)
  step (finished i) w = record w {
    fan = applied (size_at w.running i) w.fan;
    running = remove_at w.running i;
  }
  step (completed graceful) w = after_completion graceful w
  step exited w = record w { fan = exit_worker w.fan }

  abbrev pub run : List (FanEvent K A) → World K C A → World K C A
  run [] w = w
  run (e ∷ es) w = run es (step e w)

-- Between one mutation and as many as a batch may have.
abbrev pub IsSized : ℕ → ℕ → Type 0
IsSized size n = (0 < n) × (n ≤ size)

pub append_last : {A : Type 0} → (t d q m : List A) → (t ++ (d ++ q)) ++ m ≡ t ++ (d ++ (q ++ m))
append_last t d q m = append_assoc t (d ++ q) m ∙ ap (λ y. t ++ y) (append_assoc d q m)

module _ {K C A : Type 0} (eq : C → C → Bool) (eq_iff : (a b : C) → (eq a b ≡ true) ↔ (a ≡ b))
    (mapper : K → C) (size : ℕ) where
  -- The mutations of a table that were accepted are those that workers took, those that a rollback dropped and
  -- those that are queued, in this order; the counter is the number of those queued, under way and dropped.
  pub record Balanced (w : World K C A) : Type 0 where
    pub distinct : IsDistinct eq eq_iff w.fan.queues
    pub keyed : IsKeyed eq eq_iff mapper w.fan.queues
    pub order :
        (c : C)
        → w.accepted c ≡ w.taken c ++ (w.dropped c ++ value_or_nil (fetch eq w.fan.queues c))
    pub counted : w.fan.pending ≡ queued w.fan.queues + total w.running + w.lost
    pub sized : All (IsSized size) w.running
    pub settled : (w.fan.queues ≡ []) × (w.fan.drain ≡ true) ⊎ ((c : C) → w.dropped c ≡ [])
