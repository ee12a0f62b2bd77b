-- ===== src/Logical/Fan/Balance.antt =====
-- internal/source/logical/fan_batch.go: the account of the mutations holds in every run.
use cdc_sink_redshift.Common.{
  ℕ, ◌+◌, ◌<◌, ◌≡◌, ◌↔◌, refl, sym, ap, ◌∙◌, inl, inr, Bool, true, false, List, [], ◌∷◌, ◌++◌,
  append-nil, length, length-append, Bool-cases, arith,
}
use cdc_sink_redshift.Cmap.{Entry, fetch, put, get_zero, get, match_key}
use cdc_sink_redshift.Cmap.Laws.{fetch-store, store-IsDistinct}
use cdc_sink_redshift.Cmap.Copies.{store-IsKeyed}
use cdc_sink_redshift.Logical.Fan.{new_fan, on_data, notify_on_completion, applied, exit_worker}
use cdc_sink_redshift.Logical.Fan.Conserve.{value_or_nil, queued-store}
use cdc_sink_redshift.Logical.Fan.Runs.{
  FanEvent, offered, polled, finished, completed, exited, World, start, total-remove_at,
  All-remove_at, append_last, logged, step, run, IsSized, Balanced,
}
use cdc_sink_redshift.Logical.Fan.Taking.{poll-Balanced}

module _ {K C A : Type 0} (eq : C → C → Bool) (eq_iff : (a b : C) → (eq a b ≡ true) ↔ (a ≡ b))
    (mapper : K → C) (size : ℕ) where
  start-Balanced : Balanced {A = A} eq eq_iff mapper size start
  unfolding new_fan fetch
  start-Balanced = record {
    distinct = tt;
    keyed = tt;
    order = λ c. refl;
    counted = refl;
    sized = tt;
    settled = inr (λ c. refl);
  }

  offer_order :
      (table : K) (muts : List A) (w : World K C A)
      → Balanced eq eq_iff mapper size w
      → (c : C)
      → logged eq mapper size table muts w.accepted c
        ≡ w.taken c
          ++ (w.dropped c
              ++ value_or_nil (
                  fetch eq
                    (put eq mapper w.fan.queues table
                      (get_zero eq mapper [] w.fan.queues table ++ muts))
                    c))
  unfolding put get_zero get match_key
  offer_order table muts w b c = elim (Bool-cases (eq (mapper table) c)) [
    | inl hit ↦
        let old = value_or_nil (fetch eq w.fan.queues (mapper table)) in
        let at : value_or_nil (fetch eq w.fan.queues c) ≡ old =
          ap (λ d. value_or_nil (fetch eq w.fan.queues d))
            (sym ((eq_iff (mapper table) c).0 hit)) in
        rw
          (
            fetch-store eq eq_iff w.fan.queues (mapper table) c
                (record { key = table; value = old ++ muts }),
            hit,
          )
          (ap (λ y. y ++ muts) (b.order c ∙ ap (λ y. w.taken c ++ (w.dropped c ++ y)) at)
            ∙ append_last (w.taken c) (w.dropped c) old muts)
    | inr miss ↦
        rw
          (
            fetch-store eq eq_iff w.fan.queues (mapper table) c (record {
              key = table;
              value = value_or_nil (fetch eq w.fan.queues (mapper table)) ++ muts;
            }),
            miss,
          )
          (b.order c)
  ]

  offer-Balanced :
      (table : K) (muts : List A) (w : World K C A)
      → Balanced eq eq_iff mapper size w
      → Balanced eq eq_iff mapper size (step eq mapper size (offered table muts) w)
  unfolding on_data put get_zero get match_key
  offer-Balanced table muts w b = elim (Bool-cases w.fan.drain) [
    | inl closed ↦ simp closed b
    | inr opened ↦
        let old = value_or_nil (fetch eq w.fan.queues (mapper table)) in
        let e : Entry K (List A) = record { key = table; value = old ++ muts } in
        let after : Balanced eq eq_iff mapper size (record w {
          fan = record w.fan {
            queues = put eq mapper w.fan.queues table (old ++ muts);
            pending = w.fan.pending + length muts;
            drain = false;
          };
          accepted = logged eq mapper size table muts w.accepted;
        }) =
          record {
            distinct = store-IsDistinct eq eq_iff w.fan.queues (mapper table) e b.distinct;
            keyed = store-IsKeyed eq eq_iff mapper w.fan.queues e b.keyed;
            order = offer_order table muts w b;
            counted =
                let q = queued-store eq eq_iff mapper w.fan.queues (mapper table) e in
                let n = length-append old muts in let r = b.counted in omega arith;
            sized = b.sized;
            settled = elim b.settled [
              | inl h ↦ absurd (ground (arith, h.1, opened))
              | inr h ↦ inr h
            ];
          } in
        simp opened after
  ]

  finish-Balanced :
      (i : ℕ) (w : World K C A)
      → Balanced eq eq_iff mapper size w
      → Balanced eq eq_iff mapper size (step eq mapper size (finished i) w)
  unfolding applied
  finish-Balanced i w b = record {
    distinct = b.distinct;
    keyed = b.keyed;
    order = b.order;
    counted = let q = total-remove_at w.running i in let r = b.counted in omega arith;
    sized = All-remove_at (IsSized size) w.running i b.sized;
    settled = b.settled;
  }

  exit-Balanced :
      (w : World K C A)
      → Balanced eq eq_iff mapper size w
      → Balanced eq eq_iff mapper size (step eq mapper size exited w)
  unfolding exit_worker
  exit-Balanced w b = record {
    distinct = b.distinct;
    keyed = b.keyed;
    order = b.order;
    counted = b.counted;
    sized = b.sized;
    settled = b.settled;
  }

  completion-Balanced :
      (graceful : Bool) (w : World K C A)
      → Balanced eq eq_iff mapper size w
      → Balanced eq eq_iff mapper size (step eq mapper size (completed graceful) w)
  unfolding notify_on_completion fetch
  completion-Balanced true w b = record {
    distinct = b.distinct;
    keyed = b.keyed;
    order = b.order;
    counted = b.counted;
    sized = b.sized;
    settled = elim b.settled [ inl h ↦ inl (h.0, refl) | inr h ↦ inr h ];
  }
  completion-Balanced false w b = record {
    distinct = tt;
    keyed = tt;
    order = λ c.
        b.order c
        ∙ ap (λ y. w.taken c ++ y)
            (sym (append-nil (w.dropped c ++ value_or_nil (fetch eq w.fan.queues c))));
    counted = let r = b.counted in omega arith;
    sized = b.sized;
    settled = inl (refl, refl);
  }

  step-Balanced :
      (e : FanEvent K A)
      → 0 < size
      → (w : World K C A) → Balanced eq eq_iff mapper size w
      → Balanced eq eq_iff mapper size (step eq mapper size e w)
  step-Balanced (offered table muts) pos w b = offer-Balanced table muts w b
  step-Balanced polled pos w b = poll-Balanced eq eq_iff mapper size pos w b
  step-Balanced (finished i) pos w b = finish-Balanced i w b
  step-Balanced (completed graceful) pos w b = completion-Balanced graceful w b
  step-Balanced exited pos w b = exit-Balanced w b

  run-Balanced_from :
      (events : List (FanEvent K A))
      → 0 < size
      → (w : World K C A) → Balanced eq eq_iff mapper size w
      → Balanced eq eq_iff mapper size (run eq mapper size events w)
  run-Balanced_from [] pos w b = b
  run-Balanced_from (e ∷ events) pos w b =
      run-Balanced_from events pos (step eq mapper size e w) (step-Balanced e pos w b)

  -- However calls, workers and their ends are interleaved, with a batch size above zero: the mutations of a table that were
  -- accepted are those that workers took, those that a rollback dropped and those still queued, in this order; the counter of
  -- pending mutations is the number of those queued, under way and dropped by a rollback; and every batch under way has
  -- between one mutation and as many as the batch size.
  pub run-Balanced :
      (events : List (FanEvent K A))
      → 0 < size
      → Balanced eq eq_iff mapper size (run eq mapper size events start)
  run-Balanced events pos = run-Balanced_from events pos start start-Balanced
