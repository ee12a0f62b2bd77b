-- ===== src/Msort/Latest.antt =====
-- internal/util/msort/msort.go: what the compacted slice holds, one entry for each key, the latest.
use cdc_sink_redshift.Common.{
  ℕ, zero, suc, get_elem?, not_true, ◌≡◌, refl, subst, ◌∙◌, ◌⊎◌, inl, inr, Bool, true, false,
  Option, none, some, List, [], ◌∷◌, arith, if◌then◌else◌, All, Bytes, bytes_eq, bytes_eq_iff,
  bytes_eq_refl, Bool-cases, Option-cases,
}
use cdc_sink_redshift.Hlc
use cdc_sink_redshift.Hlc.{Time}
use cdc_sink_redshift.Hlc.Order.{gt_irrefl, gt_trans}
use cdc_sink_redshift.Types.{Mutation}
use cdc_sink_redshift.Msort.{unique_by_key}
use cdc_sink_redshift.Msort.Reference.{
  index_of, merge_in, absorb, unique, HasKey, absorb_new, absorb_old,
}
use cdc_sink_redshift.Msort.Loop.{unique_by_key-unique}

-- The first entry with a key.
unfoldable pub find : Bytes → List Mutation → Option Mutation
find k [] = none
find k (m ∷ ms) = if bytes_eq m.key k then some m else find k ms

-- The later of a mutation and one further back: the one further back wins a tie.
abbrev later : Mutation → Option Mutation → Option Mutation
later m none = some m
later m (some c) = some (if Hlc.gt m.time c.time then m else c)

-- The latest mutation of a key.
unfoldable pub newest : Bytes → List Mutation → Option Mutation
newest k [] = none
newest k (m ∷ ms) = if bytes_eq m.key k then later m (newest k ms) else newest k ms

-- No key twice.
abbrev pub DistinctKeys : List Mutation → Type 0
DistinctKeys [] = Unit
DistinctKeys (m ∷ ms) = (find m.key ms ≡ none) × DistinctKeys ms

find-index_of : (k : Bytes) (ms : List Mutation) → index_of k ms ≡ none → find k ms ≡ none
unfolding find index_of
find-index_of k [] e = refl
find-index_of k (m ∷ ms) e = ground (arith, find-index_of k ms)

find-some :
    (k : Bytes) (ms : List Mutation) (i : ℕ)
    → index_of k ms ≡ some i
    → (c : Mutation) × (find k ms ≡ some c)
unfolding find index_of
find-some k [] i e = ground arith
find-some k (m ∷ ms) i e = elim (Bool-cases (bytes_eq m.key k)) [
  | inl hit ↦ (m, rw hit)
  | inr miss ↦ elim (Option-cases (index_of k ms)) [
    | inl gone ↦ absurd (ground arith)
    | inr (j, found) ↦ let (c, at) = find-some k ms j found in (c, rw miss at)
  ]
]

find-merge_in :
    (k : Bytes) (m : Mutation) (out : List Mutation)
    → find k (merge_in m out) ≡ (
        if bytes_eq m.key k
        then elim (find k out) [ none ↦ none | some c ↦ later m (some c) ]
        else find k out)
unfolding find merge_in
find-merge_in k m [] = ground arith
find-merge_in k m (c ∷ out) = ground (
  arith,
  find-merge_in k m out,
  bytes_eq_iff c.key m.key,
  bytes_eq_iff c.key k,
  bytes_eq_iff m.key k,
)

absorb_front :
    (k : Bytes) (m : Mutation) (out : List Mutation)
    → find m.key out ≡ none
    → find k (m ∷ out) ≡ (if bytes_eq m.key k then later m (find k out) else find k out)
unfolding find
absorb_front k m out e = elim (Bool-cases (bytes_eq m.key k)) [
  | inl hit ↦ ground (arith, (bytes_eq_iff m.key k).0 hit)
  | inr miss ↦ ground arith
]

absorb_back :
    (k : Bytes) (m c : Mutation) (out : List Mutation)
    → find m.key out ≡ some c
    → (if bytes_eq m.key k
        then elim (find k out) [ none ↦ none | some c ↦ later m (some c) ]
        else find k out)
      ≡ (if bytes_eq m.key k then later m (find k out) else find k out)
absorb_back k m c out e = elim (Bool-cases (bytes_eq m.key k)) [
  | inl hit ↦
      let here : find k out ≡ some c = rw (← (bytes_eq_iff m.key k).0 hit) e in rw (hit, here)
  | inr miss ↦ rw miss
]

-- Absorbing a mutation changes the entry of its key alone.
find-absorb :
    (k : Bytes) (m : Mutation) (out : List Mutation)
    → find k (absorb m out) ≡ (if bytes_eq m.key k then later m (find k out) else find k out)
find-absorb k m out = elim (Option-cases (index_of m.key out)) [
  | inl e ↦ rw (absorb_new m out e) (absorb_front k m out (find-index_of m.key out e))
  | inr (i, e) ↦
      let (c, at) = find-some m.key out i e in
      rw (absorb_old m out i e) (find-merge_in k m out ∙ absorb_back k m c out at)
]

find_nil : (k : Bytes) → find k [] ≡ none
unfolding find
find_nil k = refl

pub find-unique : (k : Bytes) (ms : List Mutation) → find k (unique ms) ≡ newest k ms
unfolding unique newest
find-unique k [] = find_nil k
find-unique k (m ∷ ms) = find-absorb k m (unique ms) ∙ rw (find-unique k ms)

merge_in-DistinctKeys :
    (m : Mutation) (out : List Mutation) → DistinctKeys out → DistinctKeys (merge_in m out)
unfolding merge_in
merge_in-DistinctKeys m [] d = tt
merge_in-DistinctKeys m (c ∷ out) d = elim (Bool-cases (bytes_eq c.key m.key)) [
  | inl hit ↦ rw hit (head (Bool-cases (Hlc.gt m.time c.time)) ((bytes_eq_iff c.key m.key).0 hit))
  | inr miss ↦ rw miss (
    find-merge_in c.key m out ∙ absent (bytes_eq m.key c.key) (find c.key out) d.0,
    merge_in-DistinctKeys m out d.1,
  )
]
  where
    head :
        (Hlc.gt m.time c.time ≡ true) ⊎ (Hlc.gt m.time c.time ≡ false)
        → c.key ≡ m.key
        → DistinctKeys ((if Hlc.gt m.time c.time then m else c) ∷ out)
    head (inl p) e = rw p (rw (← e) d.0, d.1)
    head (inr p) e = rw p d

    absent :
        (b : Bool) (o : Option Mutation)
        → o ≡ none
        → (if b then elim o [ none ↦ none | some c ↦ later m (some c) ] else o) ≡ none
    absent b o e = ground arith

pub unique-DistinctKeys : (ms : List Mutation) → DistinctKeys (unique ms)
unfolding unique
unique-DistinctKeys [] = tt
unique-DistinctKeys (m ∷ ms) = elim (Option-cases (index_of m.key (unique ms))) [
  | inl e ↦
      rw (absorb_new m (unique ms) e) (find-index_of m.key (unique ms) e, unique-DistinctKeys ms)
  | inr (i, e) ↦
      rw (absorb_old m (unique ms) i e)
        (merge_in-DistinctKeys m (unique ms) (unique-DistinctKeys ms))
]

-- If every mutation has a key, `UniqueByKey` returns a slice that holds no key twice, and under each
-- key the mutation with the latest time; among those with the same time, the last of the input.
pub unique_by_key-newest :
    (x : List Mutation)
    → All HasKey x
    → (r : List Mutation) × (unique_by_key x ≡ some r)
      × DistinctKeys r
      × ((k : Bytes) → find k r ≡ newest k x)
unique_by_key-newest x full =
    (unique x, unique_by_key-unique x full, unique-DistinctKeys x, λ k. find-unique k x)

none≢some : {m : Mutation} → none ≡ some m → ⊥
none≢some e = cc

abbrev pub IsTimed : Mutation → Type 0
IsTimed m = Hlc.IsValid m.time

-- The newest entry of a key, which is at least as late as the given time.
abbrev AtLeast : Bytes → List Mutation → Time → Type 0
AtLeast k x t = (c : Mutation) × (newest k x ≡ some c) × IsTimed c × (Hlc.gt t c.time ≡ false)

-- A mutation before the newest so far keeps what was known of it.
AtLeast-cons :
    (k : Bytes) (h : Mutation) (x : List Mutation) (t : Time)
    → Hlc.IsValid t
    → IsTimed h
    → AtLeast k x t
    → AtLeast k (h ∷ x) t
unfolding newest
AtLeast-cons k h x t vt vh (c, e, vc, g) = elim (Bool-cases (bytes_eq h.key k)) [
  | inr miss ↦ (c, rw (miss, e), vc, g)
  | inl hit ↦ elim (Bool-cases (Hlc.gt h.time c.time)) [
    | inr early ↦ (c, rw (hit, e, early), vc, g)
    | inl late ↦ (
      h,
      rw (hit, e, late),
      vh,
      not_true (Hlc.gt t h.time) (λ p. true≢false p (gt_trans t h.time c.time vt vh vc p late) g),
    )
  ]
]
  where
    true≢false : Hlc.gt t h.time ≡ true → Hlc.gt t c.time ≡ true → Hlc.gt t c.time ≡ false → ⊥
    true≢false p q r = cc

newest-IsTimed :
    (k : Bytes) (x : List Mutation) (c : Mutation) → All IsTimed x → newest k x ≡ some c → IsTimed c
unfolding newest
newest-IsTimed k [] c v e = absurd (none≢some e)
newest-IsTimed k (h ∷ x) c v e = elim (Bool-cases (bytes_eq h.key k)) [
  | inr miss ↦ newest-IsTimed k x c v.1 (ground arith)
  | inl hit ↦ elim (Option-cases (newest k x)) [
    | inl alone ↦ let q : h ≡ c = ground arith in subst IsTimed q v.0
    | inr (d, some_d) ↦ elim (Bool-cases (Hlc.gt h.time d.time)) [
      | inl late ↦ let q : h ≡ c = ground arith in subst IsTimed q v.0
      | inr early ↦ newest-IsTimed k x c v.1 (ground arith)
    ]
  ]
]

AtLeast-here :
    (h : Mutation) (x : List Mutation) → IsTimed h → All IsTimed x → AtLeast h.key (h ∷ x) h.time
unfolding newest
AtLeast-here h x vh vx = go (newest h.key x) refl
  where
    go : (o : Option Mutation) → newest h.key x ≡ o → AtLeast h.key (h ∷ x) h.time
    go none e = (h, rw (bytes_eq_refl h.key, e), vh, gt_irrefl h.time vh)
    go (some c) e = elim (Bool-cases (Hlc.gt h.time c.time)) [
      | inl late ↦ (h, rw (bytes_eq_refl h.key, e, late), vh, gt_irrefl h.time vh)
      | inr early ↦ (c, rw (bytes_eq_refl h.key, e, early), newest-IsTimed h.key x c vx e, early)
    ]

timed :
    (x : List Mutation) (i : ℕ) (m : Mutation) → All IsTimed x → get_elem? x i ≡ some m → IsTimed m
timed [] i m v e = absurd (none≢some e)
timed (y ∷ x) zero m v e = let q : y ≡ m = cc in subst IsTimed q v.0
timed (y ∷ x) (suc i) m v e = timed x i m v.1 e

newest-AtLeast :
    (x : List Mutation) (i : ℕ) (m : Mutation)
    → All IsTimed x
    → get_elem? x i ≡ some m
    → AtLeast m.key x m.time
newest-AtLeast [] i m v e = absurd (none≢some e)
newest-AtLeast (h ∷ x) zero m v e =
    let q : h ≡ m = cc in
    subst (λ (n : Mutation). AtLeast n.key (h ∷ x) n.time) q (AtLeast-here h x v.0 v.1)
newest-AtLeast (h ∷ x) (suc i) m v e =
    AtLeast-cons m.key h x m.time (timed x i m v.1 e) v.0 (newest-AtLeast x i m v.1 e)

-- Where the times are valid, the returned slice has an entry for the key of every mutation given,
-- and that mutation's time is not after the entry's.
pub unique_by_key-latest :
    (x : List Mutation) (i : ℕ) (m : Mutation)
    → All HasKey x
    → All IsTimed x
    → get_elem? x i ≡ some m
    → (r : List Mutation) × (c : Mutation) × (unique_by_key x ≡ some r)
      × (find m.key r ≡ some c)
      × (Hlc.gt m.time c.time ≡ false)
unique_by_key-latest x i m full v e =
    let (c, n, vc, g) = newest-AtLeast x i m v e in
    (unique x, c, unique_by_key-unique x full, find-unique m.key x ∙ n, g)
