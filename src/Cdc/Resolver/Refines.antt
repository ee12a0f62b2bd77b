-- ===== src/Cdc/Resolver/Refines.antt =====
-- internal/source/cdc/resolver.go: `process` carries out the plan of its events.
use cdc_sink_redshift.Common.{
  ◌≡◌, ◌↔◌, refl, sym, ap, ◌∙◌, inl, inr, Bool, true, false, Option, none, some, List, [], ◌∷◌,
  ◌++◌, if◌then◌else◌, is_empty, Outcome, done, failed, length, Bool-cases,
}
use cdc_sink_redshift.Cmap as Cmap
use cdc_sink_redshift.Hlc.{zero_time}
use cdc_sink_redshift.Ident.{Table}
use cdc_sink_redshift.Types.{Mutation}
use cdc_sink_redshift.Cdc.Stamps.{ResolvedStamp, Offset, new_progress}
use cdc_sink_redshift.Cdc.Resolver.{
  Config, Event, mutation, cursor_set, query_failed, Sink, State, needs_flush, and_then,
  flush_tables, save_stamp, flush, flatten, lookup, accumulate, after_flush, flushed, receive,
  receive_all, process,
}
use cdc_sink_redshift.Cdc.Resolver.Plan.{
  Row, plan, plan-quiet, plan-flush, rows_of, perform, Holds, accumulate-Holds, after_flush-Holds,
}

-- A stamp that a flush returned still has the given flag.
abbrev Flags : {S E : Type 0} → Bool → S × Outcome E ResolvedStamp → Type 0
Flags b (s, failed e) = Unit
Flags b (s, done rs) = rs.backfill ≡ b

module _ {S E : Type 0} (sink : Sink S E) where
  and_then-Flags :
      (b : Bool) (x : S × Option E) (next : S → S × Outcome E ResolvedStamp)
      → ((s : S) → Flags b (next s))
      → Flags b (and_then sink x next)
  unfolding and_then
  and_then-Flags b (s, some e) next h = tt
  and_then-Flags b (s, none) next h = h s

  rollback-Flags :
      (b : Bool) (x : S × Outcome E ResolvedStamp) → Flags b x → Flags b (sink.on_rollback x.0, x.1)
  rollback-Flags b (s, failed e) h = tt
  rollback-Flags b (s, done rs) h = h

  progress-flag :
      (rs : ResolvedStamp) (c : Offset) → (new_progress rs (some c)).backfill ≡ rs.backfill
  unfolding new_progress
  progress-flag rs c = elim (Bool-cases rs.backfill) [ inl on ↦ rw on refl | inr off ↦ rw off refl ]

  -- A flush that is not the last keeps the flag of the stamp.
  flush-Flags :
      (targets : List (List Table)) (rs : ResolvedStamp) (c : Offset) (f : Table → List Mutation)
      (s : S)
      → Flags rs.backfill (flush sink targets false rs c f s)
  unfolding flush save_stamp
  flush-Flags targets rs c f s = and_then-Flags rs.backfill (sink.on_begin s) _ (λ s1.
      rollback-Flags rs.backfill
        (and_then sink (flush_tables sink (flatten targets) f s1)
          (λ s3. and_then sink (sink.on_commit s3) (save_stamp sink false rs c)))
        (and_then-Flags rs.backfill (flush_tables sink (flatten targets) f s1) _ (λ s3.
          and_then-Flags rs.backfill (sink.on_commit s3) _ (λ s4.
            and_then-Flags rs.backfill (sink.set_consistent_point (new_progress rs (some c)) s4) _
              (λ s5. progress-flag rs c)))))

-- The cursor that `process` starts with.
abbrev pub start_of : ResolvedStamp → Offset
start_of rs = record { key = rs.offset_key; table = rs.offset_table; time = rs.offset_time }

module _ {C S E : Type 0} (eq : C → C → Bool) (eq_iff : (a b : C) → (eq a b ≡ true) ↔ (a ≡ b))
    (mapper : Table → C) (sink : Sink S E) (cfg : Config) (targets : List (List Table)) where
  -- What follows the callback in `receive_all`.
  abbrev continue : List (Event E) → S × Outcome E (State C) → S × Outcome E ResolvedStamp
  continue evs (s, failed e) = (s, failed e)
  continue evs (s, done st) = receive_all eq mapper sink cfg targets evs st s

  receive_all-continue :
      (evs : List (Event E)) (t : Table) (m : Mutation) (st : State C) (s : S)
      → receive_all eq mapper sink cfg targets (mutation t m ∷ evs) st s
        ≡ continue evs (receive eq mapper sink cfg targets t m st s)
  unfolding receive_all
  receive_all-continue evs t m st s = go (receive eq mapper sink cfg targets t m st s)
    where
      go :
          (x : S × Outcome E (State C))
          → (elim x.1 [
            | failed e ↦ (x.0, failed e)
            | done st' ↦ receive_all eq mapper sink cfg targets evs st' x.0
          ])
            ≡ continue evs x
      go (s, failed e) = refl
      go (s, done st) = refl

  receive-quiet :
      (t : Table) (m : Mutation) (st : State C) (s : S)
      → needs_flush cfg st.rs.backfill st.flush_counter st.epoch m.time ≡ false
      → receive eq mapper sink cfg targets t m st s
        ≡ (s, done (accumulate eq mapper sink cfg targets t m st))
  unfolding receive
  receive-quiet t m st s q = rw q

  receive-flush :
      (t : Table) (m : Mutation) (st : State C) (s : S)
      → needs_flush cfg st.rs.backfill st.flush_counter st.epoch m.time ≡ true
      → receive eq mapper sink cfg targets t m st s
        ≡ flushed eq mapper sink cfg targets t m st (
            flush sink targets false st.rs st.cursor
              (lookup eq mapper sink cfg targets st.to_apply)
              s)
  unfolding receive
  receive-flush t m st s q = rw q

  -- `SelectMany` and the final flush carry out the plan of the events that are left.
  abbrev Carries : List (Event E) → Type 0
  Carries evs =
      (st : State C) (acc : List Row) (s : S)
      → Holds eq eq_iff mapper sink cfg targets st acc
      → receive_all eq mapper sink cfg targets evs st s
        ≡ perform eq eq_iff mapper sink cfg targets
            (plan cfg st.rs.backfill st.epoch acc st.cursor evs) st.rs s

  -- What follows a flush, from what it returned.
  flushed-Carries :
      (evs : List (Event E))
      → Carries evs
      → (t : Table) (m : Mutation) (st : State C) (x : S × Outcome E ResolvedStamp)
      → Flags st.rs.backfill x
      → continue evs (flushed eq mapper sink cfg targets t m st x) ≡ (elim x.1 [
        | failed e ↦ (x.0, failed e)
        | done rs ↦
            perform eq eq_iff mapper sink cfg targets
              (plan cfg st.rs.backfill m.time ((t, m) ∷ []) st.cursor evs)
              rs
              x.0
      ])
  unfolding flushed accumulate after_flush
  flushed-Carries evs ih t m st (s, failed e) k = refl
  flushed-Carries evs ih t m st (s, done rs) k =
      let st' = after_flush eq mapper sink cfg targets st rs in
      let h =
        accumulate-Holds eq eq_iff mapper sink cfg targets st' [] t m
          (after_flush-Holds eq eq_iff mapper sink cfg targets st rs) in
      ih (accumulate eq mapper sink cfg targets t m st') ((t, m) ∷ []) s h
      ∙ ap
          (λ b.
            perform eq eq_iff mapper sink cfg targets
              (plan cfg b m.time ((t, m) ∷ []) st.cursor evs) rs s)
          k

  mutation-Carries :
      (evs : List (Event E)) (t : Table) (m : Mutation) → Carries evs → Carries (mutation t m ∷ evs)
  unfolding accumulate perform
  mutation-Carries evs t m ih st acc s h =
      let needs = needs_flush cfg st.rs.backfill (length acc) st.epoch m.time in
      let counted = ap (λ n. needs_flush cfg st.rs.backfill n st.epoch m.time) h.count in
      receive_all-continue evs t m st s ∙ (elim (Bool-cases needs) [
        | inr q ↦
            ap (continue evs) (receive-quiet t m st s (counted ∙ q))
            ∙ ih (accumulate eq mapper sink cfg targets t m st) (acc ++ (t, m) ∷ []) s
                (accumulate-Holds eq eq_iff mapper sink cfg targets st acc t m h)
            ∙ sym (
                ap (λ p. perform eq eq_iff mapper sink cfg targets p st.rs s)
                  (plan-quiet cfg st.rs.backfill st.epoch acc st.cursor t m evs q))
        | inl q ↦
            ap (continue evs) (receive-flush t m st s (counted ∙ q))
            ∙ ap
                (λ f. continue evs (
                  flushed eq mapper sink cfg targets t m st
                    (flush sink targets false st.rs st.cursor f s)))
                (λ i j. h.tables j i)
            ∙ flushed-Carries evs ih t m st
                (flush sink targets false st.rs st.cursor
                  (rows_of eq eq_iff mapper sink cfg targets acc) s)
                (flush-Flags sink targets st.rs st.cursor
                  (rows_of eq eq_iff mapper sink cfg targets acc) s)
            ∙ sym (
                ap (λ p. perform eq eq_iff mapper sink cfg targets p st.rs s)
                  (plan-flush cfg st.rs.backfill st.epoch acc st.cursor t m evs q))
      ])

  all-Carries : (evs : List (Event E)) → Carries evs
  unfolding receive_all plan perform
  all-Carries [] st acc s h =
      ap (λ f. flush sink targets true st.rs st.cursor f s) (λ i t. h.tables t i)
  all-Carries (cursor_set c ∷ evs) st acc s h =
      all-Carries evs (record st { cursor = c }) acc s
        (record { tables = h.tables; count = h.count })
  all-Carries (query_failed e ∷ evs) st acc s h = refl
  all-Carries (mutation t m ∷ evs) st acc s h =
      mutation-Carries evs t m (all-Carries evs) st acc s h

  -- `process` refuses a schema without tables; otherwise it carries out the plan of its events: the
  -- batches in their order, each with the mutations of every table in the order received, saving a
  -- stamp after each, up to the first error of a sink or of the query, which it returns.
  pub process-plan :
      (rs : ResolvedStamp) (evs : List (Event E)) (s : S)
      → process eq mapper sink cfg targets rs evs s ≡ (
          if is_empty targets
          then (s, failed sink.no_tables)
          else perform eq eq_iff mapper sink cfg targets
              (plan cfg rs.backfill zero_time [] (start_of rs) evs)
              rs
              s)
  unfolding process lookup Cmap.get_zero Cmap.get Cmap.match_key Cmap.fetch
  process-plan rs evs s = elim (Bool-cases (is_empty targets)) [
    | inl none_known ↦ rw none_known
    | inr known ↦ rw known (
        all-Carries evs
          (record {
            rs = rs;
            epoch = zero_time;
            flush_counter = 0;
            to_apply = [];
            cursor = start_of rs;
            total = 0;
          })
          [] s (record { tables = λ t. refl; count = refl }))
  ]
