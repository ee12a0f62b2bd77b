-- ===== src/Logical/Points/Resumes.antt =====
-- internal/source/logical/loop.go: a loop that starts again goes on from a point that it had reached.
use cdc_sink_redshift.Common.{
  ◌≡◌, ◌⊎◌, refl, sym, subst, inl, inr, Bytes, bytes_eq_refl, Bool, false, is_empty, Option, none,
  some, List, [], ◌∷◌, Outcome, done, All, arith,
}
use Prim.Native.Nat.{Ordering}
use cdc_sink_redshift.Stamp as Stamp
use cdc_sink_redshift.Stamp.{IsStampOrder}
use cdc_sink_redshift.Stamp.Order.{Below, Below-trans, compare-gt}
use cdc_sink_redshift.Notify.{set_var, update, update_with, notify}
use cdc_sink_redshift.Staging.Memo.{MemoTable, memo_put, get-put}
use cdc_sink_redshift.Logical.Points.{
  LoopState, accept, write_point, store_consistent_point, after_update, set_consistent_point,
  load_consistent_point, set_loaded, reload,
}

module _ {S E : Type 0} (same less : S → S → Bool) (o : IsStampOrder same less)
    (encode : S → Outcome E Bytes) (unmarshal : Bytes → Outcome E S)
    (unmarshal_text : Option (Bytes → Outcome E S)) (name default_point : Bytes) (zero_stamp : S)
    (encoded : (s : S)
      → (data_put : Bytes) × (encode s ≡ done data_put)
        × (is_empty data_put ≡ false)
        × (unmarshal data_put ≡ done s)) where
  -- One point is not after another.
  abbrev pub AtMost : Option S → Option S → Type 0
  AtMost x y = (x ≡ y) ⊎ Below same less x y

  AtMost-trans : (x y z : Option S) → AtMost x y → AtMost y z → AtMost x z
  AtMost-trans x y z (inl p) q = rw p q
  AtMost-trans x y z (inr p) (inl q) = inr (rw (← q) p)
  AtMost-trans x y z (inr p) (inr q) = inr (Below-trans same less o x y z p q)

  abbrev pub load : MemoTable → Outcome E S
  load = load_consistent_point unmarshal unmarshal_text name default_point zero_stamp

  -- The calls of `SetConsistentPoint`, each with what the database says to its write.
  abbrev pub set_calls : List (S × Option E) → LoopState S → LoopState S
  set_calls [] l = l
  set_calls ((next, refused) ∷ calls) l =
      set_calls calls (set_consistent_point encode name same less refused next l).0

  -- A point that is stored is loaded.
  load-put :
      (t : MemoTable) (s : S)
      → (data_put : Bytes) × (encode s ≡ done data_put) × (load (memo_put t name data_put) ≡ done s)
  unfolding load_consistent_point
  load-put t s =
      let (d, e, full, back) = encoded s in
      (d, e, rw (get-put t name name d, bytes_eq_refl name, full) back)

  -- What a call comes to, from a loop whose stored point is at most the one in memory.
  abbrev Steps : S → Option E → LoopState S → LoopState S → Type 0
  Steps p refused before l =
      (q : S) × (load l.memo ≡ done q)
      × AtMost (some q) l.consistent_point.data_now
      × AtMost (some p) (some q)
      × (refused ≡ none
          → some p ≡ before.consistent_point.data_now
          → some q ≡ l.consistent_point.data_now)

  stored-Steps :
      (next : S) (refused : Option E) (l : LoopState S) (p : S)
      → load l.memo ≡ done p
      → Below same less (some p) (some next)
      → Steps p refused l
          (after_update encode name refused next l.memo
            (set_var (some next) l.consistent_point, none)).0
  unfolding after_update store_consistent_point write_point set_var notify
  stored-Steps next none l p h below =
      let (d, e, back) = load-put l.memo next in rw e (next, back, inl refl, inr below, λ r q. refl)
  stored-Steps next (some x) l p h below =
      let (d, e, back) = load-put l.memo next in
      rw e (p, h, inr below, inl refl, λ r. absurd (ground (arith, r)))

  step-Steps :
      (next : S) (refused : Option E) (l : LoopState S) (p : S)
      → load l.memo ≡ done p
      → AtMost (some p) l.consistent_point.data_now
      → Steps p refused l (set_consistent_point encode name same less refused next l).0
  unfolding set_consistent_point update update_with accept after_update
  step-Steps next refused l p h m =
      go (Stamp.compare same less (some next) l.consistent_point.data_now) refl
    where
      go :
          (ord : Ordering)
          → Stamp.compare same less (some next) l.consistent_point.data_now ≡ ord
          → Steps p refused l
              (after_update encode name refused next l.memo
                (update_with (accept next ord) l.consistent_point)).0
      go Ordering.lt c = (p, h, m, inl refl, λ r q. q)
      go Ordering.eq c = (p, h, m, inl refl, λ r q. q)
      go Ordering.gt c =
          let up = (compare-gt same less o (some next) l.consistent_point.data_now).0 c in
          stored-Steps next refused l p h (below m up)
        where
          below :
              AtMost (some p) l.consistent_point.data_now
              → Below same less l.consistent_point.data_now (some next)
              → Below same less (some p) (some next)
          below (inl e) up = subst (λ x. Below same less x (some next)) (sym e) up
          below (inr b) up =
              Below-trans same less o (some p) l.consistent_point.data_now (some next) b up

  set_calls-Steps :
      (calls : List (S × Option E)) (l : LoopState S) (p : S)
      → load l.memo ≡ done p
      → AtMost (some p) l.consistent_point.data_now
      → (q : S) × (load (set_calls calls l).memo ≡ done q)
        × AtMost (some q) (set_calls calls l).consistent_point.data_now
        × AtMost (some p) (some q)
        × (All (λ c. c.1 ≡ none) calls
            → some p ≡ l.consistent_point.data_now
            → some q ≡ (set_calls calls l).consistent_point.data_now)
  set_calls-Steps [] l p h m = (p, h, m, inl refl, λ a e. e)
  set_calls-Steps ((next, refused) ∷ calls) l p h m =
      let (q, h1, m1, up1, same1) = step-Steps next refused l p h m in
      let (r, h2, m2, up2, same2) =
        set_calls-Steps calls (set_consistent_point encode name same less refused next l).0 q h1
          m1 in
      (r, h2, m2, AtMost-trans (some p) (some q) (some r) up1 up2, λ a e. same2 a.1 (same1 a.0 e))

  -- The state of a loop that has loaded its point.
  abbrev pub restart : LoopState S → LoopState S
  restart l = (reload unmarshal unmarshal_text name default_point zero_stamp l).0

  restart-point :
      (l : LoopState S) (p : S)
      → load l.memo ≡ done p
      → (load (restart l).memo ≡ done p) × ((restart l).consistent_point.data_now ≡ some p)
  unfolding reload set_loaded set_var notify
  restart-point l p h =
      subst
        (λ r.
          (load (set_loaded l r).0.memo ≡ done p)
          × ((set_loaded l r).0.consistent_point.data_now ≡ some p))
        (sym h) (h, refl)

  -- When the stamps are in a strict weak order and a marshalled stamp is not empty and unmarshals to itself, a loop that
  -- loads a point and makes any calls of SetConsistentPoint, of which the database may refuse any write, starts again at
  -- a point that is not after the one in memory and not before the one it had loaded; and exactly at the one in
  -- memory, if no write was refused.
  pub restart-set_calls :
      (l : LoopState S) (p : S) (calls : List (S × Option E))
      → load l.memo ≡ done p
      → (q : S) × ((restart (set_calls calls (restart l))).consistent_point.data_now ≡ some q)
        × AtMost (some q) (set_calls calls (restart l)).consistent_point.data_now
        × AtMost (some p) (some q)
        × (All (λ c. c.1 ≡ none) calls
            → some q ≡ (set_calls calls (restart l)).consistent_point.data_now)
  restart-set_calls l p calls h =
      let (h0, e0) = restart-point l p h in
      let (q, h1, m, up, same_point) = set_calls-Steps calls (restart l) p h0 (inl (sym e0)) in
      (q, (restart-point (set_calls calls (restart l)) q h1).1, m, up, λ a. same_point a (sym e0))
