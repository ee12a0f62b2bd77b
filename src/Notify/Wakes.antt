-- ===== src/Notify/Wakes.antt =====
-- internal/util/notify/var.go: no reader misses a change.
use cdc_sink_redshift.Common.{
  ℕ, suc, ◌<◌, ◌≡◌, refl, sym, subst, ◌∙◌, Bool, true, false, ◌||◌, ◌==◌, Option, none, some, List,
  [], ◌∷◌, Outcome, done, failed, All, arith,
}
use cdc_sink_redshift.Notify.{
  Var, get_with, get, close, notify, set_var, update_with, update, Call, got, notified, peeked,
  set_to, updated_by, call, calls,
}

-- A channel is among those that were closed.
abbrev pub mem : ℕ → List ℕ → Bool
mem c [] = false
mem c (d ∷ ds) = (c == d) || mem c ds

module _ {T E : Type 0} where
  -- A call changes the variable or notifies.
  abbrev succeeds : Outcome E T → Bool
  succeeds (done next) = true
  succeeds (failed e) = false

  abbrev pub wakes : Call T E → Var T → Bool
  wakes got v = false
  wakes notified v = true
  wakes peeked v = false
  wakes (set_to next) v = true
  wakes (updated_by fn) v = succeeds (fn v.data_now)

  unfoldable pub any_wakes : List (Call T E) → Var T → Bool
  any_wakes [] v = false
  any_wakes (c ∷ cs) v = let rest = any_wakes cs (call c v) in wakes c v || rest

-- The channels that were closed were made, and the current one is open.
pub record Inv {T : Type 0} (v : Var T) : Type 0 where
  pub old : All (λ d. d < v.made) v.closed
  pub current : (c : ℕ) → v.updated ≡ some c → (c < v.made) × (mem c v.closed ≡ false)

fresh : (ds : List ℕ) (n : ℕ) → All (λ d. d < n) ds → mem n ds ≡ false
fresh [] n h = refl
fresh (d ∷ ds) n h = ground (arith, fresh ds n h.1, h.0)

older : (ds : List ℕ) (n : ℕ) → All (λ d. d < n) ds → All (λ d. d < suc n) ds
older [] n h = tt
older (d ∷ ds) n h = (omega arith, older ds n h.1)

module _ {T : Type 0} where
  notify-Inv : (v : Var T) → Inv v → Inv (notify v)
  unfolding notify close
  notify-Inv v h = record {
    old = closed_old v.updated refl;
    current = λ c e.
        let same : v.made ≡ c = ground (arith, e) in
        subst (λ x. (x < suc v.made) × (mem x (close v.updated v.closed) ≡ false)) same
          (omega arith, still_fresh v.updated refl);
  }
    where
      closed_old : (o : Option ℕ) → v.updated ≡ o → All (λ d. d < suc v.made) (close o v.closed)
      closed_old none e = older v.closed v.made h.old
      closed_old (some c) e =
          let (lt, out) = h.current c e in (omega arith, older v.closed v.made h.old)

      still_fresh : (o : Option ℕ) → v.updated ≡ o → mem v.made (close o v.closed) ≡ false
      still_fresh none e = fresh v.closed v.made h.old
      still_fresh (some c) e =
          let (lt, out) = h.current c e in ground (arith, fresh v.closed v.made h.old)

  get-Inv : (v : Var T) → Inv v → Inv (get v).0
  unfolding get get_with
  get-Inv v h = cases v.updated refl
    where
      cases : (o : Option ℕ) → v.updated ≡ o → Inv (get_with o v).0
      cases (some c) e = h
      cases none e = record {
        old = older v.closed v.made h.old;
        current = λ c f.
            let same : v.made ≡ c = ground (arith, f) in
            subst (λ x. (x < suc v.made) × (mem x v.closed ≡ false)) same
              (omega arith, fresh v.closed v.made h.old);
      }

  set_var-Inv : (next : T) (v : Var T) → Inv v → Inv (set_var next v)
  unfolding set_var
  set_var-Inv next v h =
      notify-Inv (record v { data_now = next }) (record { old = h.old; current = h.current })

closed-grows : (c : ℕ) (o : Option ℕ) (ds : List ℕ) → mem c ds ≡ true → mem c (close o ds) ≡ true
unfolding close
closed-grows c none ds h = h
closed-grows c (some d) ds h = ground (arith, h)

module _ {T : Type 0} where
  -- What a reader knows of the channel `c` that it got with the value `x`: it is closed if `b`, or else both are current.
  abbrev Tracks : Var T → T → ℕ → Bool → Type 0
  Tracks v x c true = mem c v.closed ≡ true
  Tracks v x c false = (mem c v.closed ≡ false) × (v.data_now ≡ x) × (v.updated ≡ some c)

  notify-Tracks :
      (v w : Var T) (x : T) (c : ℕ) (b : Bool)
      → w.closed ≡ v.closed
      → w.updated ≡ v.updated
      → Tracks v x c b
      → mem c (notify w).closed ≡ true
  unfolding notify close
  notify-Tracks v w x c true e f h =
      closed-grows c w.updated w.closed (subst (λ l. mem c l ≡ true) (sym e) h)
  notify-Tracks v w x c false e f (h, d, u) =
      subst (λ o. mem c (close o w.closed) ≡ true) (sym (f ∙ u)) (self c)
    where
      self : (n : ℕ) → ((n == n) || mem n w.closed) ≡ true
      self n = ground arith

  get-Tracks : (v : Var T) (x : T) (c : ℕ) (b : Bool) → Tracks v x c b → Tracks (get v).0 x c b
  unfolding get get_with
  get-Tracks v x c true h = cases v.updated
    where
      cases : (o : Option ℕ) → mem c (get_with o v).0.closed ≡ true
      cases (some d) = h
      cases none = h
  get-Tracks v x c false (h, d, u) =
      subst (λ o. Tracks (get_with o v).0 x c false) (sym u) (h, d, u)

  get-reads : (v : Var T) → Inv v → Tracks (get v).0 (get v).1 (get v).2 false
  unfolding get get_with
  get-reads v h = cases v.updated refl
    where
      cases :
          (o : Option ℕ)
          → v.updated ≡ o
          → Tracks (get_with o v).0 (get_with o v).1 (get_with o v).2 false
      cases (some c) e = ((h.current c e).1, refl, e)
      cases none e = (fresh v.closed v.made h.old, refl, refl)

module _ {T E : Type 0} where
  call-Inv : (k : Call T E) (v : Var T) → Inv v → Inv (call k v)
  unfolding call update update_with set_var
  call-Inv got v h = get-Inv v h
  call-Inv notified v h = notify-Inv v h
  call-Inv peeked v h = h
  call-Inv (set_to next) v h = set_var-Inv next v h
  call-Inv (updated_by fn) v h = cases (fn v.data_now)
    where
      cases : (o : Outcome E T) → Inv (update_with o v).0
      cases (done next) = set_var-Inv next v h
      cases (failed e) = h

  call-Tracks :
      (k : Call T E) (v : Var T) (x : T) (c : ℕ) (b : Bool)
      → Tracks v x c b
      → Tracks (call k v) x c (wakes k v || b)
  unfolding call update update_with set_var
  call-Tracks got v x c b h = get-Tracks v x c b h
  call-Tracks notified v x c b h = notify-Tracks v v x c b refl refl h
  call-Tracks peeked v x c b h = h
  call-Tracks (set_to next) v x c b h =
      notify-Tracks v (record v { data_now = next }) x c b refl refl h
  call-Tracks (updated_by fn) v x c b h = cases (fn v.data_now)
    where
      cases : (o : Outcome E T) → Tracks (update_with o v).0 x c (succeeds o || b)
      cases (done next) = notify-Tracks v (record v { data_now = next }) x c b refl refl h
      cases (failed e) = h

  calls-Tracks :
      (ks : List (Call T E)) (v : Var T) (x : T) (c : ℕ) (b : Bool)
      → Tracks v x c b
      → Tracks (calls ks v) x c (any_wakes ks v || b)
  unfolding calls any_wakes
  calls-Tracks [] v x c b h = h
  calls-Tracks (k ∷ ks) v x c b h =
      subst (Tracks (calls ks (call k v)) x c) (swapped (any_wakes ks (call k v)) (wakes k v) b)
        (calls-Tracks ks (call k v) x c (wakes k v || b) (call-Tracks k v x c b h))
    where
      swapped : (p q r : Bool) → (p || (q || r)) ≡ ((q || p) || r)
      swapped p q r = ground arith

  calls-Inv : (ks : List (Call T E)) (v : Var T) → Inv v → Inv (calls ks v)
  unfolding calls
  calls-Inv [] v h = h
  calls-Inv (k ∷ ks) v h = calls-Inv ks (call k v) (call-Inv k v h)

  -- After a reader got a value and a channel, and other goroutines made any calls: the channel is closed exactly if one of these calls set the
  -- variable, updated it with success or notified; while it is open, the value that was read and the channel are still the
  -- current ones. And whatever is called, no channel is closed twice: the current one is open.
  pub get-wakes :
      (v : Var T) (ks : List (Call T E))
      → Inv v
      → let w = calls ks (get v).0 in
        (mem (get v).2 w.closed ≡ any_wakes ks (get v).0)
        × (any_wakes ks (get v).0 ≡ false → (w.data_now ≡ (get v).1) × (w.updated ≡ some (get v).2))
        × Inv w
  get-wakes v ks h =
      let t = calls-Tracks ks (get v).0 (get v).1 (get v).2 false (get-reads v h) in
      let i = calls-Inv ks (get v).0 (get-Inv v h) in
      (
        known (calls ks (get v).0) (any_wakes ks (get v).0) t,
        unchanged (calls ks (get v).0) (any_wakes ks (get v).0) t,
        i,
      )
    where
      known :
          (w : Var T) (b : Bool)
          → Tracks w (get v).1 (get v).2 (b || false)
          → mem (get v).2 w.closed ≡ b
      known w true t = t
      known w false t = t.0

      unchanged :
          (w : Var T) (b : Bool)
          → Tracks w (get v).1 (get v).2 (b || false)
          → b ≡ false
          → (w.data_now ≡ (get v).1) × (w.updated ≡ some (get v).2)
      unchanged w true t e = absurd (ground arith)
      unchanged w false t e = (t.1, t.2)
