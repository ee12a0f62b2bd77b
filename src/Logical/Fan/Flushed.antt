-- ===== src/Logical/Fan/Flushed.antt =====
-- internal/source/logical/fan_batch.go: what a caller of `Flush` knows when it returns nil.
use cdc_sink_redshift.Common.{
  ℕ, ◌<◌, ◌≡◌, ◌↔◌, refl, sym, ap, subst, ◌∙◌, inl, inr, Bool, true, false, not, ◌&&◌, ◌||◌, ◌==◌,
  ==_iff, Option, none, some, List, [], ◌∷◌, ◌++◌, append-nil, if◌then◌else◌, length, length-append,
  Bool-cases, All, arith,
}
use cdc_sink_redshift.Cmap.{Map, fetch}
use cdc_sink_redshift.Cmap.Laws.{IsDistinct}
use cdc_sink_redshift.Logical.Fan.{
  Fan, FanError, Work, found, stopped, waiting, on_data, wait_for_work, flush_now, flush_check,
  check_error,
}
use cdc_sink_redshift.Logical.Fan.Conserve.{value_or_nil, queued, queued-zero}
use cdc_sink_redshift.Logical.Fan.Runs.{
  after_offer, after_poll, FanEvent, offered, polled, finished, completed, exited, World, start,
  step, run, total, IsSized, Balanced,
}
use cdc_sink_redshift.Logical.Fan.Balance.{run-Balanced}

-- Anything but a rollback.
abbrev pub IsForward : {K A : Type 0} → FanEvent K A → Type 0
IsForward (offered table muts) = Unit
IsForward polled = Unit
IsForward (finished i) = Unit
IsForward (completed graceful) = graceful ≡ true
IsForward exited = Unit

total-zero : (size : ℕ) (ns : List ℕ) → All (IsSized size) ns → total ns ≡ 0 → ns ≡ []
total-zero size [] h z = refl
total-zero size (n ∷ ns) h z = absurd (let p = h.0.0 in omega arith)

append_self : {A : Type 0} → (a q : List A) → a ≡ a ++ q → q ≡ []
append_self a [] h = refl
append_self a (x ∷ q) h =
    absurd (let n = ap length h in let m = length-append a (x ∷ q) in omega arith)

-- The choice that a round of `Flush` makes, once it is known whether anything is pending.
abbrev choose : {E : Type 0} → Bool → Bool → Bool → Option E → Option (Option E)
choose done_now changed take_done err =
    if done_now && (not changed || take_done)
    then some none
    else if changed
    then (elim err as (λ x. Option (Option _)) [ some e ↦ some (some e) | none ↦ none ])
    else none

choose-done :
    {E : Type 0} (done_now changed take_done : Bool) (err : Option E)
    → choose done_now changed take_done err ≡ some none
    → done_now ≡ true
choose-done true changed take_done err h = refl
choose-done false true take_done (some e) h = absurd (ground (arith, h))
choose-done false true take_done none h = absurd (ground (arith, h))
choose-done false false take_done err h = absurd (ground (arith, h))

done-choose :
    {E : Type 0} (changed : Bool) (err : Option E) → choose true changed true err ≡ some none
done-choose true err = refl
done-choose false err = refl

module _ {K C A : Type 0} (eq : C → C → Bool) (eq_iff : (a b : C) → (eq a b ≡ true) ↔ (a ≡ b)) where
  -- A map without mutations of any table has none.
  all_nil-queued :
      (m : Map K C (List A))
      → IsDistinct eq eq_iff m
      → ((c : C) → value_or_nil (fetch eq m c) ≡ [])
      → queued m ≡ 0
  unfolding fetch
  all_nil-queued [] d h = refl
  all_nil-queued ((c, e) ∷ m) d h =
      let here : e.value ≡ [] = rw (← h c, (eq_iff c c).1 refl) refl in
      let below = all_nil-queued m d.1 (λ x. tail x (h x)) in let n = ap length here in omega arith
    where
      tail :
          (x : C)
          → value_or_nil (if eq c x then some e else fetch eq m x) ≡ []
          → value_or_nil (fetch eq m x) ≡ []
      tail x q = elim (Bool-cases (eq c x)) [
        | inl hit ↦ ap value_or_nil (subst (λ y. fetch eq m y ≡ none) ((eq_iff c x).0 hit) d.0)
        | inr miss ↦ subst (λ o. value_or_nil (if o then some e else fetch eq m x) ≡ []) miss q
      ]

  module _ (mapper : K → C) (size : ℕ) where
    -- Nothing was lost.
    abbrev IsLossless : World K C A → Type 0
    IsLossless w = (w.lost ≡ 0) × ((c : C) → w.dropped c ≡ [])

    after_offer-forward :
        (table : K) (muts : List A) (w : World K C A) (r : Fan K C A × Option FanError)
        → IsLossless w
        → IsLossless (after_offer eq mapper size table muts w r)
    after_offer-forward table muts w (fan, none) h = h
    after_offer-forward table muts w (fan, some err) h = h

    after_poll-forward :
        (w : World K C A) (r : Fan K C A × Work K A)
        → IsLossless w
        → IsLossless (after_poll eq mapper size w r)
    after_poll-forward w (fan, found table muts) h = h
    after_poll-forward w (fan, stopped) h = h
    after_poll-forward w (fan, waiting) h = h

    step-forward :
        (e : FanEvent K A) (w : World K C A)
        → IsForward e
        → IsLossless w
        → IsLossless (step eq mapper size e w)
    step-forward (offered table muts) w f h =
        after_offer-forward table muts w (on_data eq mapper table muts w.fan) h
    step-forward polled w f h = after_poll-forward w (wait_for_work eq mapper size w.fan) h
    step-forward (finished i) w f h = h
    step-forward exited w f h = h
    step-forward (completed true) w f h = h
    step-forward (completed false) w f h = absurd (ground (arith, f))

    run-forward :
        (events : List (FanEvent K A)) (w : World K C A)
        → All IsForward events
        → IsLossless w
        → IsLossless (run eq mapper size events w)
    run-forward [] w f h = h
    run-forward (e ∷ events) w f h =
        run-forward events (step eq mapper size e w) f.1 (step-forward e w f.0 h)

    -- Every accepted mutation was taken by a worker, in order, and no worker still applies one.
    abbrev pub IsFlushed : World K C A → Type 0
    IsFlushed w = (w.running ≡ []) × ((c : C) → w.accepted c ≡ w.taken c)

    pending_iff :
        (w : World K C A)
        → Balanced eq eq_iff mapper size w
        → IsLossless w
        → (w.fan.pending ≡ 0) ↔ IsFlushed w
    pending_iff w b (l, d) = (
      λ z.
          let r = b.counted in
          (
            total-zero size w.running b.sized (omega arith),
            λ c.
                b.order c
                ∙ rw (d c, queued-zero eq eq_iff mapper w.fan.queues c (omega arith))
                    (append-nil (w.taken c)),
          ),
      λ h.
          let q = all_nil-queued w.fan.queues b.distinct (λ c.
            append_self (w.taken c) (value_or_nil (fetch eq w.fan.queues c))
              (sym (h.1 c) ∙ b.order c ∙ rw (d c) refl)) in
          let r = b.counted in let t = ap total h.0 in omega arith,
    )

    -- After any interleaving without a rollback, with a batch size above zero: whatever the status of
    -- the workers, and whether or not the state has changed, a round of the loop of `Flush` can return
    -- nil exactly if no worker still applies mutations, and of every table all the accepted mutations, in
    -- their order, were taken by workers.
    pub flush_now_iff :
        {E : Type 0} (changed : Bool) (worker_status : Option E) (events : List (FanEvent K A))
        → 0 < size
        → All IsForward events
        → ((take_done : Bool) × (flush_now changed take_done worker_status
                (run eq mapper size events start).fan
              ≡ some none))
          ↔ IsFlushed (run eq mapper size events start)
    unfolding flush_now flush_check
    flush_now_iff changed worker_status events pos f =
        let w = run eq mapper size events start in
        let i =
          pending_iff w (run-Balanced eq eq_iff mapper size events pos)
            (run-forward events start f (refl, λ c. refl)) in
        let err = check_error worker_status w.fan in
        (
          λ x.
              i.0
                ((==_iff w.fan.pending 0).0 (choose-done (w.fan.pending == 0) changed x.0 err x.1)),
          λ x. (true, rw ((==_iff w.fan.pending 0).1 (i.1 x), flush_now) (done-choose changed err)),
        )
