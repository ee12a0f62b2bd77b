-- ===== src/Logical/Fan/Taking.antt =====
-- internal/source/logical/fan_batch.go: what a worker that asks for work changes in the account of the mutations.
use cdc_sink_redshift.Common.{
  ℕ, ◌+◌, ◌<◌, ◌≡◌, ◌↔◌, refl, sym, ap, ◌∙◌, inl, inr, Bool, true, false, ltb, ltb→lt, Option, none,
  some, List, [], ◌∷◌, ◌++◌, append_assoc, append-nil, if◌then◌else◌, length, length-take,
  length-drop, take, drop, take-append-drop, Bool-cases, All-append, arith,
}
use cdc_sink_redshift.Cmap.{Map, Entry, fetch, put, delete}
use cdc_sink_redshift.Cmap.Laws.{
  IsDistinct, fetch-store, fetch-remove, store-IsDistinct, remove-IsDistinct,
}
use cdc_sink_redshift.Cmap.Copies.{IsKeyed, store-IsKeyed, remove-IsKeyed}
use cdc_sink_redshift.Logical.Fan.{found, find_work, dequeue_work, wait_for_work}
use cdc_sink_redshift.Logical.Fan.Conserve.{
  value_or_nil, queued, queued-store, queued-remove, find_work-fetch,
}
use cdc_sink_redshift.Logical.Fan.Runs.{
  polled, World, total-append, logged, after_poll, step, IsSized, Balanced,
}

module _ {K C A : Type 0} (eq : C → C → Bool) (eq_iff : (a b : C) → (eq a b ≡ true) ↔ (a ≡ b))
    (mapper : K → C) (size : ℕ) where
  -- Taking a prefix of the mutations of a table, when nothing was dropped.
  take_order :
      (table : K) (got rest : List A) (w : World K C A) (m : Map K C (List A))
      → Balanced eq eq_iff mapper size w
      → ((c : C) → w.dropped c ≡ [])
      → value_or_nil (fetch eq w.fan.queues (mapper table)) ≡ got ++ rest
      → ((c : C)
          → value_or_nil (fetch eq m c)
            ≡ (if eq (mapper table) c then rest else value_or_nil (fetch eq w.fan.queues c)))
      → (c : C)
      → w.accepted c
        ≡ logged eq mapper size table got w.taken c ++ (w.dropped c ++ value_or_nil (fetch eq m c))
  take_order table got rest w m b none_dropped there reads c =
      elim (Bool-cases (eq (mapper table) c)) [
        | inl hit ↦
            let at : value_or_nil (fetch eq w.fan.queues c) ≡ got ++ rest =
              ap (λ d. value_or_nil (fetch eq w.fan.queues d))
                (sym ((eq_iff (mapper table) c).0 hit))
              ∙ there in
            rw (reads c, hit, none_dropped c)
              (b.order c ∙ rw (none_dropped c, at) (sym (append_assoc (w.taken c) got rest)))
        | inr miss ↦ rw (reads c, miss) (b.order c)
      ]

  take-Balanced :
      (table : K) (got rest : List A) (w : World K C A) (m : Map K C (List A))
      → Balanced eq eq_iff mapper size w
      → ((c : C) → w.dropped c ≡ [])
      → value_or_nil (fetch eq w.fan.queues (mapper table)) ≡ got ++ rest
      → ((c : C)
          → value_or_nil (fetch eq m c)
            ≡ (if eq (mapper table) c then rest else value_or_nil (fetch eq w.fan.queues c)))
      → IsDistinct eq eq_iff m
      → IsKeyed eq eq_iff mapper m
      → queued m + length got ≡ queued w.fan.queues
      → IsSized size (length got)
      → Balanced eq eq_iff mapper size
          (after_poll eq mapper size w (record w.fan { queues = m }, found table got))
  take-Balanced table got rest w m b none_dropped there reads d k n sized = record {
    distinct = d;
    keyed = k;
    order = take_order table got rest w m b none_dropped there reads;
    counted = let r = b.counted in let t = total-append w.running (length got) in omega arith;
    sized = All-append (IsSized size) w.running (length got ∷ []) b.sized (sized, tt);
    settled = inr none_dropped;
  }

  part-Balanced :
      (table : K) (muts : List A) (w : World K C A)
      → 0 < size
      → Balanced eq eq_iff mapper size w
      → ((c : C) → w.dropped c ≡ [])
      → value_or_nil (fetch eq w.fan.queues (mapper table)) ≡ muts
      → size < length muts
      → Balanced eq eq_iff mapper size (
          after_poll eq mapper size w (
            record w.fan { queues = put eq mapper w.fan.queues table (drop size muts) },
            found table (take size muts),
          ))
  unfolding put
  part-Balanced table muts w pos b none_dropped there more =
      let e : Entry K (List A) = record { key = table; value = drop size muts } in
      take-Balanced table (take size muts) (drop size muts) w
        (put eq mapper w.fan.queues table (drop size muts)) b none_dropped
        (there ∙ sym (take-append-drop size muts))
        (λ c.
          ap value_or_nil (fetch-store eq eq_iff w.fan.queues (mapper table) c e)
          ∙ choose (eq (mapper table) c) e (fetch eq w.fan.queues c))
        (store-IsDistinct eq eq_iff w.fan.queues (mapper table) e b.distinct)
        (store-IsKeyed eq eq_iff mapper w.fan.queues e b.keyed)
        (let q = queued-store eq eq_iff mapper w.fan.queues (mapper table) e in
          let n = ap length there in
          let t = length-take size muts in let u = length-drop size muts in omega arith)
        (let t = length-take size muts in (omega arith, omega arith))
    where
      choose :
          (hit : Bool) (e : Entry K (List A)) (o : Option (Entry K (List A)))
          → value_or_nil (if hit then some e else o) ≡ (if hit then e.value else value_or_nil o)
      choose true e o = refl
      choose false e o = refl

  whole-Balanced :
      (table : K) (muts : List A) (w : World K C A)
      → Balanced eq eq_iff mapper size w
      → ((c : C) → w.dropped c ≡ [])
      → value_or_nil (fetch eq w.fan.queues (mapper table)) ≡ muts
      → IsSized size (length muts)
      → Balanced eq eq_iff mapper size (
          after_poll eq mapper size w
            (record w.fan { queues = delete eq mapper w.fan.queues table }, found table muts))
  unfolding delete
  whole-Balanced table muts w b none_dropped there sized =
      take-Balanced table muts [] w (delete eq mapper w.fan.queues table) b none_dropped
        (there ∙ sym (append-nil muts))
        (λ c.
          ap value_or_nil (fetch-remove eq eq_iff w.fan.queues (mapper table) c b.distinct)
          ∙ choose (eq (mapper table) c) (fetch eq w.fan.queues c))
        (remove-IsDistinct eq eq_iff w.fan.queues (mapper table) b.distinct)
        (remove-IsKeyed eq eq_iff mapper w.fan.queues (mapper table) b.keyed)
        (let q = queued-remove eq eq_iff mapper w.fan.queues (mapper table) in
          let n = ap length there in omega arith)
        sized
    where
      choose :
          (hit : Bool) (o : Option (Entry K (List A)))
          → value_or_nil (if hit then none else o) ≡ (if hit then [] else value_or_nil o)
      choose true o = refl
      choose false o = refl

  taken-Balanced :
      (table : K) (muts : List A)
      → 0 < size
      → (w : World K C A) → Balanced eq eq_iff mapper size w
      → find_work w.fan.queues ≡ some (table, muts)
      → Balanced eq eq_iff mapper size
          (after_poll eq mapper size w (dequeue_work eq mapper size (some (table, muts)) w.fan))
  unfolding dequeue_work find_work
  taken-Balanced table muts pos w b q =
      let (one, there) =
        find_work-fetch eq eq_iff mapper w.fan.queues table muts b.distinct b.keyed q in
      elim (Bool-cases (ltb size (length muts))) [
        | inl more ↦
            rw more
              (part-Balanced table muts w pos b none_dropped there (ltb→lt size (length muts) more))
        | inr all ↦
            rw all (whole-Balanced table muts w b none_dropped there (one, ground (arith, all)))
      ]
    where
      nothing : find_work {K = K} {C = C} {A = A} [] ≡ some (table, muts) → ⊥
      nothing h = ground (arith, h)

      none_dropped : (c : C) → w.dropped c ≡ []
      none_dropped = elim b.settled [
        | inl h ↦ absurd (nothing (sym (ap find_work h.0) ∙ q))
        | inr h ↦ h
      ]

  pub poll-Balanced :
      0 < size
      → (w : World K C A) → Balanced eq eq_iff mapper size w
      → Balanced eq eq_iff mapper size (step eq mapper size polled w)
  unfolding wait_for_work dequeue_work
  poll-Balanced pos w b = go (find_work w.fan.queues) refl
    where
      go :
          (o : Option (K × List A))
          → find_work w.fan.queues ≡ o
          → Balanced eq eq_iff mapper size
              (after_poll eq mapper size w (dequeue_work eq mapper size o w.fan))
      go none q = elim (Bool-cases w.fan.drain) [
        | inl closed ↦ simp closed b
        | inr opened ↦ simp opened b
      ]
      go (some (table, muts)) q = taken-Balanced table muts pos w b q
