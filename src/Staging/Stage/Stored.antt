-- ===== src/Staging/Stage/Stored.antt =====
-- internal/staging/stage/stage.go and gzip.go: what is read of what was stored.
use cdc_sink_redshift.Common.{
  All, ◌≡◌, ◌↔◌, ◌⊎◌, inl, inr, refl, sym, subst, ◌∙◌, Bool, true, false, not, ◌&&◌, ltb, leb,
  Option, none, some, List, [], ◌∷◌, if◌then◌else◌, length, Outcome, done, failed, Bytes, bytes_eq,
  bytes_eq_iff, not_true, Bool-cases, arith,
}
use cdc_sink_redshift.Hlc.{Time}
use cdc_sink_redshift.Types.{Mutation, null_bytes, is_delete}
use cdc_sink_redshift.Cdc.Stamps.Order.{Before-total, Before-irrefl}
use cdc_sink_redshift.Sql.{pair_lt, tuple_lt}
use cdc_sink_redshift.Sql.Order.{pair_lt_iff}
use cdc_sink_redshift.Staging.Stage.{
  StageRow, StageError, from_gzip, maybe_gzip, has_magic, maybe_gunzip, staged_contents, put_row,
  put_rows, same_key, upsert_row, upsert_rows, read_row, ◌>>=◌,
}

-- Two tests on the time and the key.
same_key_iff :
    (t : Time) (k : Bytes) (r : StageRow) → (same_key t k r ≡ true) ↔ ((t ≡ r.time) × (k ≡ r.key))
unfolding same_key
same_key_iff t k r = (
  λ h. elim (Before-total t r.time) [
    | inl p ↦ absurd (ground (arith, (pair_lt_iff t r.time).1 p))
    | inr (inl e) ↦ (e, (bytes_eq_iff k r.key).0 (ground arith))
    | inr (inr p) ↦ absurd (ground (arith, (pair_lt_iff r.time t).1 p))
  ],
  λ (e, f).
      let before =
        not_true (pair_lt t r.time) (λ q. Before-irrefl t r.time e ((pair_lt_iff t r.time).0 q)) in
      let after =
        not_true (pair_lt r.time t)
          (λ q. Before-irrefl r.time t (sym e) ((pair_lt_iff r.time t).0 q)) in
      rw (same_key, before, after, (bytes_eq_iff k r.key).1 f) refl,
)

-- The row of a time and a key.
unfoldable pub find_row : Time → Bytes → List StageRow → Option StageRow
find_row t k [] = none
find_row t k (r ∷ rows) = if same_key t k r then some r else find_row t k rows

same_key-cong :
    (t : Time) (k : Bytes) (r s : StageRow)
    → r.time ≡ s.time
    → r.key ≡ s.key
    → same_key t k r ≡ same_key t k s
unfolding same_key
same_key-cong t k r s p q = λ i. not (pair_lt t (p i)) && not (pair_lt (p i) t) && bytes_eq k (q i)

alike :
    (t : Time) (k : Bytes) (r s : StageRow)
    → same_key r.time r.key s ≡ true
    → same_key t k r ≡ same_key t k s
alike t k r s hit =
    let (e, f) = (same_key_iff r.time r.key s).0 hit in
    let a = same_key_iff t k r in
    let b = same_key_iff t k s in
    elim (Bool-cases (same_key t k r)) [
      | inl h ↦ let (p, q) = a.0 h in h ∙ sym (b.1 (p ∙ e, q ∙ f))
      | inr h ↦
          h
          ∙ sym (
              not_true (same_key t k s)
                (λ g. let (p, q) = b.0 g in absurd (ground (arith, a.1 (p ∙ sym e, q ∙ sym f)))))
    ]

-- A time and a key are not those of two rows that differ in them.
split :
    (t : Time) (k : Bytes) (r s : StageRow)
    → same_key r.time r.key s ≡ false
    → (same_key t k r ≡ false) ⊎ (same_key t k s ≡ false)
split t k r s miss = elim (Bool-cases (same_key t k r)) [
  | inr h ↦ inl h
  | inl h ↦ inr (
      not_true (same_key t k s) (λ g.
        let (p, q) = (same_key_iff t k r).0 h in
        let (p', q') = (same_key_iff t k s).0 g in
        absurd (ground (arith, (same_key_iff r.time r.key s).1 (sym p ∙ p', sym q ∙ q')))))
]

-- After a row was put, its time and key read as the row, and every other one as before.
find_row-upsert_row :
    (t : Time) (k : Bytes) (r : StageRow) (table : List StageRow)
    → find_row t k (upsert_row r table) ≡ (if same_key t k r then some r else find_row t k table)
unfolding find_row upsert_row
find_row-upsert_row t k r [] = refl
find_row-upsert_row t k r (s ∷ table) = elim (Bool-cases (same_key r.time r.key s)) [
  | inl hit ↦
      rw (upsert_row, hit)
        (let same : same_key t k r ≡ same_key t k s = alike t k r s hit in rw same (ground arith))
  | inr miss ↦ elim (Bool-cases (tuple_lt r.time r.key s.time s.key)) [
    | inl here ↦ rw (upsert_row, miss, here) refl
    | inr later ↦
        rw (upsert_row, miss, later)
          (ground (arith, find_row-upsert_row t k r table, split t k r s miss))
  ]
]

-- What the gzip package promises: what it compresses begins with its magic numbers and decompresses to what it was.
pub record IsGzip {P : Type 0} (compress decompress : Bytes → Outcome P Bytes) : Type 0 where
  pub magic : (s z : Bytes) → compress s ≡ done z → has_magic z ≡ true
  pub inverse : (s z : Bytes) → compress s ≡ done z → decompress z ≡ done s

-- A mutation is for a time and a key.
abbrev is_for : Time → Bytes → Mutation → Bool
is_for t k m = same_key t k (record { time = m.time; key = m.key; mut = []; before = [] })

abbrev later_put : Time → Bytes → Mutation → Option Mutation → Option Mutation
later_put t k m (some n) = some n
later_put t k m none = if is_for t k m then some m else none

-- The last of some mutations with a time and a key.
unfoldable pub last_put : Time → Bytes → List Mutation → Option Mutation
last_put t k [] = none
last_put t k (m ∷ muts) = later_put t k m (last_put t k muts)

-- The contents of a mutation in the table.
abbrev pub contents_of : Mutation → Bytes
contents_of m = if is_delete m then null_bytes else m.contents

module _ {P : Type 0} (compress decompress : Bytes → Outcome P Bytes)
    (gzip : IsGzip compress decompress) where
  maybe_gunzip-gzip :
      (s z : Bytes)
      → has_magic s ≡ false
      → maybe_gzip compress s ≡ done z
      → maybe_gunzip decompress z ≡ done s
  unfolding maybe_gzip maybe_gunzip from_gzip
  maybe_gunzip-gzip s z plain h = elim (Bool-cases (leb (length s) 1024)) [
    | inl small ↦
        let e : s ≡ z = ground (arith, h) in
        subst (λ x. maybe_gunzip decompress x ≡ done s) e (rw (maybe_gunzip, plain) refl)
    | inr large ↦ zipped (compress s) refl (ground arith)
  ]
    where
      zipped :
          (o : Outcome P Bytes)
          → compress s ≡ o
          → (from_gzip o >>= (λ y. done (if ltb (length y) (length s) then y else s))) ≡ done z
          → maybe_gunzip decompress z ≡ done s
      zipped (failed e) at q = absurd (ground (arith, q))
      zipped (done y) at q = elim (Bool-cases (ltb (length y) (length s))) [
        | inl less ↦
            let e : y ≡ z = ground (arith, q) in
            subst (λ x. maybe_gunzip decompress x ≡ done s) e
              (rw (maybe_gunzip, gzip.magic s y at, gzip.inverse s y at) refl)
        | inr more ↦
            let e : s ≡ z = ground (arith, q) in
            subst (λ x. maybe_gunzip decompress x ≡ done s) e (rw (maybe_gunzip, plain) refl)
      ]

  bind-done :
      {A B : Type 0} (o : Outcome (StageError P) A) (f : A → Outcome (StageError P) B) (b : B)
      → (o >>= f) ≡ done b
      → (a : A) × (o ≡ done a) × (f a ≡ done b)
  bind-done (done a) f b h = (a, refl, h)
  bind-done (failed e) f b h = absurd (ground (arith, h))

  -- A mutation whose contents do not look compressed.
  abbrev pub IsPlain : Mutation → Type 0
  IsPlain m = has_magic m.contents ≡ false

  null_read : maybe_gunzip decompress null_bytes ≡ done null_bytes
  unfolding maybe_gunzip has_magic
  null_read = refl

  staged_contents-read :
      (m : Mutation) (z : Bytes)
      → IsPlain m
      → staged_contents compress m ≡ done z
      → maybe_gunzip decompress z ≡ done (contents_of m)
  unfolding staged_contents
  staged_contents-read m z plain h = elim (Bool-cases (is_delete m)) [
    | inl del ↦
        let e : null_bytes ≡ z = ground (arith, h) in
        rw del (subst (λ x. maybe_gunzip decompress x ≡ done null_bytes) e null_read)
    | inr up ↦ rw up (maybe_gunzip-gzip m.contents z plain (ground arith))
  ]

  -- What is read of the row of a mutation.
  abbrev pub ReadsAs : Mutation → StageRow → Type 0
  ReadsAs m r =
      (maybe_gzip compress m.before ≡ done r.before)
      × (read_row decompress r
          ≡ done (record {
            before = r.before;
            contents = contents_of m;
            key = m.key;
            meta = [];
            time = m.time;
          }))

  put_row-ReadsAs :
      (m : Mutation) (r : StageRow)
      → IsPlain m
      → put_row compress m ≡ done r
      → (r.time ≡ m.time) × (r.key ≡ m.key) × ReadsAs m r
  unfolding put_row read_row
  put_row-ReadsAs m r plain h =
      let (before, b, h1) = bind-done (maybe_gzip compress m.before) _ r h in
      let (mut, c, h2) = bind-done (staged_contents compress m) _ r h1 in
      let made : StageRow = record { time = m.time; key = m.key; mut = mut; before = before } in
      let same : made ≡ r = ground (arith, h2) in
      subst (λ (x : StageRow). (x.time ≡ m.time) × (x.key ≡ m.key) × ReadsAs m x) same
        (refl, refl, (b, rw (read_row, staged_contents-read m mut plain c) refl))

  -- What the table holds for a time and a key after some mutations were put.
  abbrev pub Reads : Time → Bytes → List Mutation → List StageRow → List StageRow → Type 0
  Reads t k muts table stored =
      ((last_put t k muts ≡ none) × (find_row t k stored ≡ find_row t k table))
      ⊎ ((m : Mutation) × (r : StageRow) × (last_put t k muts ≡ some m)
          × (find_row t k stored ≡ some r)
          × ReadsAs m r)

  -- For a gzip package whose compressed data begins with the magic numbers and decompresses to what it
  -- was, and mutations whose contents do not begin with these numbers: when the mutations are encoded
  -- and put, in one statement, every time and key of the table reads as before, if none of them has it,
  -- or else as the last of them that has it: the contents, or null for a deletion, are those that were
  -- staged, compressed or not. The data before the mutation is read as it is stored, that is, compressed
  -- when it is large.
  pub put_rows-Reads :
      (t : Time) (k : Bytes) (muts : List Mutation) (rs table : List StageRow)
      → All IsPlain muts
      → put_rows compress muts ≡ done rs
      → Reads t k muts table (upsert_rows rs table)
  unfolding put_rows upsert_rows last_put
  put_rows-Reads t k [] rs table plain h =
      let e : [] ≡ rs = ground (arith, h) in
      inl (refl, subst (λ x. find_row t k (upsert_rows x table) ≡ find_row t k table) e refl)
  put_rows-Reads t k (m ∷ muts) rs table plain h =
      let (r, a, h1) = bind-done (put_row compress m) _ rs h in
      let (rest, b, h2) = bind-done (put_rows compress muts) _ rs h1 in
      let same : r ∷ rest ≡ rs = ground (arith, h2) in
      let (p, q, as') = put_row-ReadsAs m r plain.0 a in
      subst (λ x. Reads t k (m ∷ muts) table (upsert_rows x table)) same
        (elim (put_rows-Reads t k muts rest (upsert_row r table) plain.1 b) [
          | inr (n, s, l, f, x) ↦ inr (n, s, rw l refl, f, x)
          | inl (none_later, f) ↦
              here r rest p q as' none_later (f ∙ find_row-upsert_row t k r table)
        ])
    where
      here :
          (r : StageRow) (rest : List StageRow)
          → r.time ≡ m.time
          → r.key ≡ m.key
          → ReadsAs m r
          → last_put t k muts ≡ none
          → find_row t k (upsert_rows rest (upsert_row r table))
            ≡ (if same_key t k r then some r else find_row t k table)
          → Reads t k (m ∷ muts) table (upsert_rows rest (upsert_row r table))
      here r rest p q as' l f =
          let alike : is_for t k m ≡ same_key t k r = same_key-cong t k _ r (sym p) (sym q) in
          elim (Bool-cases (same_key t k r)) [
            | inl hit ↦ inr (m, r, rw (l, alike, hit) refl, f ∙ rw hit refl, as')
            | inr miss ↦ inl (rw (l, alike, miss) refl, f ∙ rw miss refl)
          ]
