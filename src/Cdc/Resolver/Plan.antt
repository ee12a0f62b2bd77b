-- ===== src/Cdc/Resolver/Plan.antt =====
-- internal/source/cdc/resolver.go: what `process` does, as a plan made from the events alone.
use cdc_sink_redshift.Common.{
  suc, ◌≡◌, ◌↔◌, refl, sym, ap, ◌∙◌, inl, inr, Bool, true, false, List, [], ◌∷◌, ◌++◌,
  if◌then◌else◌, Outcome, done, failed, length, Bool-cases,
}
use cdc_sink_redshift.Cmap as Cmap
use cdc_sink_redshift.Cmap.{Map, fetch}
use cdc_sink_redshift.Cmap.Laws.{fetch-store}
use cdc_sink_redshift.Hlc.{Time}
use cdc_sink_redshift.Ident.{Table}
use cdc_sink_redshift.Types.{Mutation}
use cdc_sink_redshift.Script.{add_meta}
use cdc_sink_redshift.Cdc.Stamps.{ResolvedStamp, Offset}
use cdc_sink_redshift.Cdc.Resolver.{
  Config, Event, mutation, cursor_set, query_failed, Sink, State, cdc_source, needs_flush, flush,
  clear, lookup, accumulate, after_flush,
}

abbrev pub Row : Type 0
Row = Table × Mutation

-- The batches that are flushed, each with the cursor at its flush.
pub data Plan (E : Type 0) : Type 0 where
  finish : List Row → Offset → Plan E
  batch : List Row → Offset → Plan E → Plan E
  broken : E → Plan E

-- The plan of the events, with the rows received since the last flush.
unfoldable pub plan :
    {E : Type 0} → Config → Bool → Time → List Row → Offset → List (Event E) → Plan E
plan cfg b epoch acc cursor [] = finish acc cursor
plan cfg b epoch acc cursor (cursor_set c ∷ evs) = plan cfg b epoch acc c evs
plan cfg b epoch acc cursor (query_failed e ∷ evs) = broken e
plan cfg b epoch acc cursor (mutation t m ∷ evs) =
    elim (needs_flush cfg b (length acc) epoch m.time) [
      | true ↦ batch acc cursor (plan cfg b m.time ((t, m) ∷ []) cursor evs)
      | false ↦ plan cfg b m.time (acc ++ (t, m) ∷ []) cursor evs
    ]

pub plan-quiet :
    {E : Type 0} (cfg : Config) (b : Bool) (epoch : Time) (acc : List Row) (c : Offset) (t : Table)
    (m : Mutation) (evs : List (Event E))
    → needs_flush cfg b (length acc) epoch m.time ≡ false
    → plan cfg b epoch acc c (mutation t m ∷ evs) ≡ plan cfg b m.time (acc ++ (t, m) ∷ []) c evs
unfolding plan
plan-quiet cfg b epoch acc c t m evs q = rw (q, plan)

pub plan-flush :
    {E : Type 0} (cfg : Config) (b : Bool) (epoch : Time) (acc : List Row) (c : Offset) (t : Table)
    (m : Mutation) (evs : List (Event E))
    → needs_flush cfg b (length acc) epoch m.time ≡ true
    → plan cfg b epoch acc c (mutation t m ∷ evs)
      ≡ batch acc c (plan cfg b m.time ((t, m) ∷ []) c evs)
unfolding plan
plan-flush cfg b epoch acc c t m evs q = rw (q, plan)

module _ {C S E : Type 0} (eq : C → C → Bool) (eq_iff : (a b : C) → (eq a b ≡ true) ↔ (a ≡ b))
    (mapper : Table → C) (sink : Sink S E) (cfg : Config) (targets : List (List Table)) where
  -- The mutations of a table among the rows, in their order, with their metadata.
  abbrev pub rows_at : List Row → C → List Mutation
  rows_at [] c = []
  rows_at ((t, m) ∷ acc) c =
      if eq (mapper t) c then add_meta cdc_source t m ∷ rows_at acc c else rows_at acc c

  abbrev pub rows_of : List Row → Table → List Mutation
  rows_of acc t = rows_at acc (mapper t)

  -- To flush the batches of a plan one after another, up to the first error.
  unfoldable pub perform : Plan E → ResolvedStamp → S → S × Outcome E ResolvedStamp
  perform (finish rows c) rs s = flush sink targets true rs c (rows_of rows) s
  perform (broken e) rs s = (s, failed e)
  perform (batch rows c p) rs s =
      let (s', r) = flush sink targets false rs c (rows_of rows) s in
      elim r [ failed e ↦ (s', failed e) | done rs' ↦ perform p rs' s' ]

  -- The map holds the rows, and the counter counts them.
  pub record Holds (st : State C) (acc : List Row) : Type 0 where
    pub tables : (t : Table) → lookup eq mapper sink cfg targets st.to_apply t ≡ rows_of acc t
    pub count : st.flush_counter ≡ length acc

  rows_at-snoc :
      (acc : List Row) (t : Table) (m : Mutation) (c : C)
      → rows_at (acc ++ (t, m) ∷ []) c
        ≡ (if eq (mapper t) c then rows_at acc c ++ add_meta cdc_source t m ∷ [] else rows_at acc c)
  rows_at-snoc [] t m c = elim (Bool-cases (eq (mapper t) c)) [
    | inl hit ↦ rw hit
    | inr miss ↦ rw miss
  ]
  rows_at-snoc ((u, n) ∷ acc) t m c = elim (Bool-cases (eq (mapper u) c)) [
    | inl here ↦ elim (Bool-cases (eq (mapper t) c)) [
      | inl hit ↦ rw (here, rows_at-snoc acc t m c, hit)
      | inr miss ↦ rw (here, rows_at-snoc acc t m c, miss)
    ]
    | inr there ↦ rw (there, rows_at-snoc acc t m c)
  ]

  lookup-put :
      (m : Map Table C (List Mutation)) (t j : Table) (v : List Mutation)
      → lookup eq mapper sink cfg targets (Cmap.put eq mapper m t v) j
        ≡ (if eq (mapper t) (mapper j) then v else lookup eq mapper sink cfg targets m j)
  unfolding lookup Cmap.get_zero Cmap.get Cmap.match_key Cmap.put
  lookup-put m t j v = elim (Bool-cases (eq (mapper t) (mapper j))) [
    | inl hit ↦
        rw (fetch-store eq eq_iff m (mapper t) (mapper j) (record { key = t; value = v }), hit)
    | inr miss ↦
        rw (fetch-store eq eq_iff m (mapper t) (mapper j) (record { key = t; value = v }), miss)
  ]

  lookup-clear :
      (m : Map Table C (List Mutation)) (j : Table)
      → lookup eq mapper sink cfg targets (clear m) j ≡ []
  unfolding lookup Cmap.get_zero Cmap.get Cmap.match_key clear fetch
  lookup-clear [] j = refl
  lookup-clear ((c, e) ∷ m) j = elim (Bool-cases (eq c (mapper j))) [
    | inl hit ↦ rw hit
    | inr miss ↦ rw miss (lookup-clear m j)
  ]

  rows_at-same :
      (acc : List Row) (a b : Table)
      → eq (mapper a) (mapper b) ≡ true
      → rows_of acc a ≡ rows_of acc b
  rows_at-same acc a b h = ap (rows_at acc) ((eq_iff (mapper a) (mapper b)).0 h)

  length-snoc : (acc : List Row) (r : Row) → length (acc ++ r ∷ []) ≡ suc (length acc)
  length-snoc [] r = refl
  length-snoc (x ∷ acc) r = ap suc (length-snoc acc r)

  pub accumulate-Holds :
      (st : State C) (acc : List Row) (t : Table) (m : Mutation)
      → Holds st acc
      → Holds (accumulate eq mapper sink cfg targets t m st) (acc ++ (t, m) ∷ [])
  unfolding accumulate
  accumulate-Holds st acc t m h = record {
    tables = λ j.
        lookup-put st.to_apply t j
          (lookup eq mapper sink cfg targets st.to_apply t ++ add_meta cdc_source t m ∷ [])
        ∙ (elim (Bool-cases (eq (mapper t) (mapper j))) [
          | inl hit ↦
              rw (h.tables t, rows_at-same acc t j hit, rows_at-snoc acc t m (mapper j), hit) refl
          | inr miss ↦ rw (h.tables j, rows_at-snoc acc t m (mapper j), miss) refl
        ]);
    count = ap suc h.count ∙ sym (length-snoc acc (t, m));
  }

  pub after_flush-Holds :
      (st : State C) (rs : ResolvedStamp) → Holds (after_flush eq mapper sink cfg targets st rs) []
  unfolding after_flush
  after_flush-Holds st rs = record { tables = lookup-clear st.to_apply; count = refl }
