-- ===== src/Cdc/Resolver/Pages/Commits.antt =====
-- internal/source/cdc/resolver.go: the end of `process` over sinks that do not fail.
use cdc_sink_redshift.Common.{
  ℕ, ◌≡◌, ◌↔◌, ◌<◌, inl, inr, refl, sym, ap, subst, ◌∙◌, Bool, true, false, Option, none, some,
  List, [], ◌∷◌, ◌++◌, arith, All, length, Outcome, done, failed, is_empty, Bool-cases,
}
use cdc_sink_redshift.Cmap.{Map}
use cdc_sink_redshift.Hlc.{Time, is_zero_time, zero_time}
use cdc_sink_redshift.Ident.{Table}
use cdc_sink_redshift.Types.{Mutation}
use cdc_sink_redshift.Staging.{Staged}
use cdc_sink_redshift.Staging.Pages.{Sorted}
use cdc_sink_redshift.Staging.Rows.{row_lt}
use cdc_sink_redshift.Cdc.Stamps.{ResolvedStamp, Offset, zero_stamp, new_committed, new_progress}
use cdc_sink_redshift.Cdc.Resolver.{
  Config, Event, mutation, cursor_set, query_failed, Sink, needs_flush, and_then, flush_tables,
  save_stamp, flush, flatten,
}
use cdc_sink_redshift.Cdc.Resolver.Plan.{
  Row, Plan, finish, batch, broken, plan, plan-quiet, plan-flush, perform, rows_of,
}
use cdc_sink_redshift.Cdc.Resolver.Refines.{start_of, process-plan}
use cdc_sink_redshift.Cdc.Resolver.Windows.{received, received-mutation}
use cdc_sink_redshift.Cdc.Resolver.Pages.{number_tables, Database, process_staged}
use cdc_sink_redshift.Staging.Select.{Complete}
use cdc_sink_redshift.Cdc.Resolver.Pages.Received.{IsRead}
use cdc_sink_redshift.Cdc.Resolver.Pages.Whole.{staged_events-received}

-- No call of a sink returns an error.
pub record NeverFails {S E : Type 0} (sink : Sink S E) : Type 0 where
  pub begins : (s : S) → (sink.on_begin s).1 ≡ none
  pub applies : (t : Table) (ms : List Mutation) (s : S) → (sink.on_data t ms s).1 ≡ none
  pub commits : (s : S) → (sink.on_commit s).1 ≡ none
  pub records : (t : Time) (s : S) → (sink.record_time t s).1 ≡ none
  pub saves : (rs : ResolvedStamp) (s : S) → (sink.set_consistent_point rs s).1 ≡ none

-- A call ends with the given result.
abbrev EndsWith : {S E A : Type 0} → A → S × Outcome E A → Type 0
EndsWith a (s, r) = r ≡ done a

-- The committed stamp of a proposed time.
abbrev pub committed_at : Time → ResolvedStamp
committed_at t = record zero_stamp { committed_time = t }

-- A plan without a failure of the query.
abbrev Unbroken : {E : Type 0} → Plan E → Type 0
Unbroken (finish rows c) = Unit
Unbroken (batch rows c p) = Unbroken p
Unbroken (broken e) = ⊥

plan-Unbroken :
    {E : Type 0} (cfg : Config) (b : Bool) (epoch : Time) (acc : List Row) (c : Offset)
    (evs : List (Event E)) (rows : List Row)
    → received evs ≡ some rows
    → Unbroken (plan cfg b epoch acc c evs)
unfolding plan
plan-Unbroken cfg b epoch acc c [] rows h = tt
plan-Unbroken cfg b epoch acc c (cursor_set d ∷ evs) rows h =
    plan-Unbroken cfg b epoch acc d evs rows h
plan-Unbroken cfg b epoch acc c (query_failed e ∷ evs) rows h = absurd (ground arith)
plan-Unbroken cfg b epoch acc c (mutation t m ∷ evs) rows h =
    let (rest, k, e) = received-mutation evs t m rows h in
    elim (Bool-cases (needs_flush cfg b (length acc) epoch m.time)) [
      | inl q ↦
          subst Unbroken (sym (plan-flush cfg b epoch acc c t m evs q))
            (plan-Unbroken cfg b m.time ((t, m) ∷ []) c evs rest k)
      | inr q ↦
          subst Unbroken (sym (plan-quiet cfg b epoch acc c t m evs q))
            (plan-Unbroken cfg b m.time (acc ++ (t, m) ∷ []) c evs rest k)
    ]

module _ {S E : Type 0} (sink : Sink S E) (sound : NeverFails sink) where
  and_then-EndsWith :
      {A : Type 0} (a : A) (x : S × Option E) (next : S → S × Outcome E A)
      → x.1 ≡ none
      → ((s : S) → EndsWith a (next s))
      → EndsWith a (and_then sink x next)
  unfolding and_then
  and_then-EndsWith a (s, some e) next h k = absurd (ground arith)
  and_then-EndsWith a (s, none) next h k = k s

  flush_tables-none :
      (ts : List Table) (f : Table → List Mutation) (s : S) → (flush_tables sink ts f s).1 ≡ none
  unfolding flush_tables
  flush_tables-none [] f s = refl
  flush_tables-none (t ∷ ts) f s = elim (Bool-cases (is_empty (f t))) [
    | inl on ↦ rw on (flush_tables-none ts f s)
    | inr off ↦ rw (off, sound.applies t (f t) s) (flush_tables-none ts f _)
  ]

  -- A flush that is the last commits the proposed time; any other one makes progress.
  flush-EndsWith :
      (targets : List (List Table)) (final : Bool) (rs next : ResolvedStamp) (c : Offset)
      (f : Table → List Mutation) (s : S)
      → ((t : S) → EndsWith next (save_stamp sink final rs c t))
      → EndsWith next (flush sink targets final rs c f s)
  unfolding flush
  flush-EndsWith targets final rs next c f s h =
      and_then-EndsWith next (sink.on_begin s) _ (sound.begins s) (λ s1.
        and_then-EndsWith next (flush_tables sink (flatten targets) f s1) _
          (flush_tables-none (flatten targets) f s1)
          (λ s3. and_then-EndsWith next (sink.on_commit s3) _ (sound.commits s3) h))

  save_stamp-progress :
      (rs : ResolvedStamp) (c : Offset) (s : S)
      → EndsWith (new_progress rs (some c)) (save_stamp sink false rs c s)
  unfolding save_stamp
  save_stamp-progress rs c s =
      and_then-EndsWith (new_progress rs (some c))
        (sink.set_consistent_point (new_progress rs (some c)) s) _
        (sound.saves (new_progress rs (some c)) s) (λ s1. refl)

  save_stamp-commit :
      (rs : ResolvedStamp) (c : Offset) (s : S)
      → is_zero_time rs.proposed_time ≡ false
      → EndsWith (committed_at rs.proposed_time) (save_stamp sink true rs c s)
  unfolding save_stamp new_committed
  save_stamp-commit rs c s h =
      let next = committed_at rs.proposed_time in
      rw (save_stamp, h)
        (and_then-EndsWith next (sink.record_time rs.proposed_time s) _
          (sound.records rs.proposed_time s)
          (λ s1.
            and_then-EndsWith next (sink.set_consistent_point next s1) _ (sound.saves next s1)
              (λ s2. refl)))

  module _ {C : Type 0} (eq : C → C → Bool) (eq_iff : (a b : C) → (eq a b ≡ true) ↔ (a ≡ b))
      (mapper : Table → C) (cfg : Config) (targets : List (List Table)) where
    abbrev pub run_plan : Plan E → ResolvedStamp → S → S × Outcome E ResolvedStamp
    run_plan p rs s = perform eq eq_iff mapper sink cfg targets p rs s

    progress-proposed :
        (rs : ResolvedStamp) (c : Offset)
        → (new_progress rs (some c)).proposed_time ≡ rs.proposed_time
    unfolding new_progress
    progress-proposed rs c = elim (Bool-cases rs.backfill) [
      | inl on ↦ rw on refl
      | inr off ↦ rw off refl
    ]

    -- The rest of the plan after a batch that made progress.
    perform-rest :
        (p : Plan E) (next : ResolvedStamp) (x : S × Outcome E ResolvedStamp)
        → EndsWith next x
        → (elim x.1 [ failed e ↦ (x.0, failed e) | done rs ↦ run_plan p rs x.0 ])
          ≡ run_plan p next x.0
    perform-rest p next (t, failed e) h = absurd (ground arith)
    perform-rest p next (t, done rs) h =
        let same : rs ≡ next = ground arith in ap (λ r. run_plan p r t) same

    perform-EndsWith :
        (p : Plan E) (rs : ResolvedStamp) (s : S)
        → Unbroken p
        → is_zero_time rs.proposed_time ≡ false
        → EndsWith (committed_at rs.proposed_time) (run_plan p rs s)
    unfolding perform
    perform-EndsWith (finish rows c) rs s u h =
        flush-EndsWith targets true rs (committed_at rs.proposed_time) c
          (rows_of eq eq_iff mapper sink cfg targets rows) s (λ t. save_stamp-commit rs c t h)
    perform-EndsWith (broken e) rs s u h = absurd u
    perform-EndsWith (batch rows c p) rs s u h =
        let next = new_progress rs (some c) in
        let f = rows_of eq eq_iff mapper sink cfg targets rows in
        let same = progress-proposed rs c in
        let x = flush sink targets false rs c f s in
        let e =
          perform-rest p next x
            (flush-EndsWith targets false rs next c f s (λ t. save_stamp-progress rs c t)) in
        let rest = perform-EndsWith p next x.0 u (ap is_zero_time same ∙ h) in
        ap (λ (y : S × Outcome E ResolvedStamp). y.1) e
        ∙ rest
        ∙ ap (λ t. done (committed_at t)) same

    -- With a positive limit, at least one table and none named twice, rows in the order of the query, a
    -- database that refuses no query and lets every result be read to its end, rows that are scanned and
    -- decompressed without an error, and sinks whose calls return no error: `process` with its
    -- `SelectMany` ends, and the stamp that it returns is committed at the proposed time, if that is not
    -- zero, with no offset left.
    pub process_staged-commits :
        (no_limit duplicate_table : E) (db : Database E) (rs : ResolvedStamp) (rows : List Staged)
        (ids : Map Table C ℕ) (s : S)
        → is_empty targets ≡ false
        → 0 < cfg.select_batch_size
        → number_tables eq mapper (flatten targets) [] ≡ some ids
        → Sorted (row_lt rs.backfill) rows
        → Complete db.answers
        → All (IsRead db) rows
        → is_zero_time rs.proposed_time ≡ false
        → (s' : S) × (process_staged eq mapper sink cfg targets no_limit duplicate_table db rs rows
              s
            ≡ some (s', done (committed_at rs.proposed_time)))
    unfolding process_staged
    process_staged-commits no_limit duplicate_table db rs rows ids s has positive known sorted ok g
          proposed =
        let (evs, e, h) =
          staged_events-received eq eq_iff mapper sink cfg targets no_limit duplicate_table db rs
            rows ids positive known sorted ok g in
        let p = plan cfg rs.backfill zero_time [] (start_of rs) evs in
        let whole = plan-Unbroken cfg rs.backfill zero_time [] (start_of rs) evs _ h in
        let x = run_plan p rs s in
        (
          x.0,
          rw (process_staged, e)
              (ap some (
                process-plan eq eq_iff mapper sink cfg targets rs evs s
                ∙ rw has (ap (λ r. (x.0, r)) (perform-EndsWith p rs s whole proposed)))),
        )
