-- ===== src/Cdc/Resolver.antt =====
-- internal/source/cdc/resolver.go: `process`, which applies the staged mutations of a window in batches.
-- What `SelectMany` does is a row of events: a mutation passed to the callback, the cursor set, at
-- the end of a page, or its own failure. The sinks are operations on a state `S` with errors `E`.
pub mod Plan
pub mod Refines
pub mod Pages
pub mod Windows
mod Tests
use cdc_sink_redshift.Common.{
  ℕ, suc, ◌+◌, Bool, true, false, not, ◌&&◌, Option, none, some, List, [], ◌∷◌, ◌++◌, if◌then◌else◌,
  leb, is_empty, Outcome, done, failed, Bytes,
}
use cdc_sink_redshift.Cmap as Cmap
use cdc_sink_redshift.Cmap.{Map}
use cdc_sink_redshift.Hlc.{Time, gt, zero_time, is_zero_time}
use cdc_sink_redshift.Ident.{Table}
use cdc_sink_redshift.Types.{Mutation}
use cdc_sink_redshift.Script.{add_meta}
use cdc_sink_redshift.Cdc.Stamps.{ResolvedStamp, Offset, StampError, new_committed, new_progress}

-- The fields of `Config` that `process` reads.
pub record Config : Type 0 where
  pub ideal_flush_batch_size : ℕ
  pub flush_every_timestamp : Bool
  pub select_batch_size : ℕ

pub data Event (E : Type 0) : Type 0 where
  mutation : Table → Mutation → Event E
  cursor_set : Offset → Event E
  query_failed : E → Event E

-- `logical.Events` and its batch, and `Record`.
pub record Sink (S E : Type 0) : Type 0 where
  pub on_begin : S → S × Option E
  pub on_data : Table → List Mutation → S → S × Option E
  pub on_commit : S → S × Option E
  pub on_rollback : S → S
  pub record_time : Time → S → S × Option E
  pub set_consistent_point : ResolvedStamp → S → S × Option E
  pub no_tables : E
  pub stamp_error : StampError → E

-- The variables of `process`.
pub record State (C : Type 0) : Type 0 where
  pub rs : ResolvedStamp
  pub epoch : Time
  pub flush_counter : ℕ
  pub to_apply : Map Table C (List Mutation)
  pub cursor : Offset
  pub total : ℕ

-- "cdc".
abbrev pub cdc_source : Bytes
cdc_source = b'c' ∷ b'd' ∷ b'c' ∷ []

-- `needsFlush`.
unfoldable pub needs_flush : Config → Bool → ℕ → Time → Time → Bool
needs_flush cfg backfill flush_counter epoch time =
    if backfill
    then leb cfg.ideal_flush_batch_size flush_counter
    else if cfg.flush_every_timestamp
    then not (is_zero_time epoch) && gt time epoch
    else leb cfg.ideal_flush_batch_size flush_counter && gt time epoch

-- The tables of the groups, in the order of the two loops of `flush`.
unfoldable pub flatten : List (List Table) → List Table
flatten [] = []
flatten (ts ∷ groups) = ts ++ flatten groups

module _ {S E : Type 0} (sink : Sink S E) where
  -- One call after another, up to the first error.
  unfoldable pub and_then : {A : Type 0} → S × Option E → (S → S × Outcome E A) → S × Outcome E A
  and_then (s, some e) next = (s, failed e)
  and_then (s, none) next = next s

  -- The loop over the tables of `flush`: a table without mutations is passed over.
  unfoldable pub flush_tables : List Table → (Table → List Mutation) → S → S × Option E
  flush_tables [] to_apply s = (s, none)
  flush_tables (t ∷ ts) to_apply s =
      if is_empty (to_apply t)
      then flush_tables ts to_apply s
      else let (s', err) = sink.on_data t (to_apply t) s in
        elim err [ some e ↦ (s', some e) | none ↦ flush_tables ts to_apply s' ]

  -- The end of `flush`: the stamp is advanced and saved.
  unfoldable pub save_stamp : Bool → ResolvedStamp → Offset → S → S × Outcome E ResolvedStamp
  save_stamp true rs cursor s = elim (new_committed rs) [
    | failed e ↦ (s, failed (sink.stamp_error e))
    | done next ↦
        and_then (sink.record_time next.committed_time s)
          (λ s1. and_then (sink.set_consistent_point next s1) (λ s2. (s2, done next)))
  ]
  save_stamp false rs cursor s =
      let next = new_progress rs (some cursor) in
      and_then (sink.set_consistent_point next s) (λ s1. (s1, done next))

  -- `flush`, whose deferred rollback runs once a batch has begun, whatever follows.
  unfoldable pub flush :
      List (List Table)
      → Bool
      → ResolvedStamp
      → Offset
      → (Table → List Mutation)
      → S
      → S × Outcome E ResolvedStamp
  flush targets final rs cursor to_apply s = and_then (sink.on_begin s) (λ s1.
      let (s2, r) =
        and_then (flush_tables (flatten targets) to_apply s1)
          (λ s3. and_then (sink.on_commit s3) (save_stamp final rs cursor)) in
      (sink.on_rollback s2, r))

-- `muts[:0]` in every entry.
unfoldable pub clear : {C : Type 0} → Map Table C (List Mutation) → Map Table C (List Mutation)
clear [] = []
clear ((c, e) ∷ m) = (c, record e { value = [] }) ∷ clear m

module _ {C S E : Type 0} (eq : C → C → Bool) (mapper : Table → C) (sink : Sink S E) (cfg : Config)
    (targets : List (List Table)) where
  -- `toApply.GetZero(table)`.
  unfoldable pub lookup : Map Table C (List Mutation) → Table → List Mutation
  lookup m t = Cmap.get_zero eq mapper [] m t

  -- The end of the callback: the mutation is counted and kept under its table.
  unfoldable pub accumulate : Table → Mutation → State C → State C
  accumulate tbl mut st = record st {
    flush_counter = suc st.flush_counter;
    to_apply =
        Cmap.put eq mapper st.to_apply tbl
          (lookup st.to_apply tbl ++ add_meta cdc_source tbl mut ∷ []);
    epoch = mut.time;
  }

  -- What the callback resets after a flush.
  unfoldable pub after_flush : State C → ResolvedStamp → State C
  after_flush st rs = record st {
    rs = rs;
    total = st.total + st.flush_counter;
    flush_counter = 0;
    to_apply = clear st.to_apply;
  }

  -- The callback after its flush, which has returned an error or the advanced stamp.
  unfoldable pub flushed :
      Table → Mutation → State C → S × Outcome E ResolvedStamp → S × Outcome E (State C)
  flushed tbl mut st (s, failed e) = (s, failed e)
  flushed tbl mut st (s, done rs) = (s, done (accumulate tbl mut (after_flush st rs)))

  -- The callback of `SelectMany`.
  unfoldable pub receive : Table → Mutation → State C → S → S × Outcome E (State C)
  receive tbl mut st s =
      if needs_flush cfg st.rs.backfill st.flush_counter st.epoch mut.time
      then flushed tbl mut st (flush sink targets false st.rs st.cursor (lookup st.to_apply) s)
      else (s, done (accumulate tbl mut st))

  -- `SelectMany` with the callback, and the final flush.
  unfoldable pub receive_all : List (Event E) → State C → S → S × Outcome E ResolvedStamp
  receive_all [] st s = flush sink targets true st.rs st.cursor (lookup st.to_apply) s
  receive_all (cursor_set c ∷ evs) st s = receive_all evs (record st { cursor = c }) s
  receive_all (query_failed e ∷ evs) st s = (s, failed e)
  receive_all (mutation tbl mut ∷ evs) st s =
      let (s', r) = receive tbl mut st s in
      elim r [ failed e ↦ (s', failed e) | done st' ↦ receive_all evs st' s' ]

  -- `process`, of the events of `SelectMany` on the cursor that starts at the stamp's offsets.
  unfoldable pub process : ResolvedStamp → List (Event E) → S → S × Outcome E ResolvedStamp
  process rs evs s =
      if is_empty targets
      then (s, failed sink.no_tables)
      else receive_all evs
          (record {
            rs = rs;
            epoch = zero_time;
            flush_counter = 0;
            to_apply = [];
            cursor = record { key = rs.offset_key; table = rs.offset_table; time = rs.offset_time };
            total = 0;
          })
          s
