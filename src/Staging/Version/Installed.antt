-- ===== src/Staging/Version/Installed.antt =====
-- internal/staging/version/versions.go: a check of a table without markers installs them.
use cdc_sink_redshift.Common.{
  ℕ, ◌≡◌, ◌⊎◌, refl, ◌∙◌, inl, inr, Bytes, Bool, true, false, ◌||◌, is_empty, bytes_eq,
  bytes_eq_refl, Bool-cases, List, [], ◌∷◌, if◌then◌else◌, Outcome, done, All, arith,
}
use cdc_sink_redshift.Staging.Memo.{MemoTable, memo_get, memo_put, get-put}
use cdc_sink_redshift.Staging.Version.{
  Version, Warning, marker_warnings, put_marker, read_marker, check_version, check_loop, commit,
  check,
}

module _ {E : Type 0} (version_key : ℕ → Bytes) (decode : Bytes → Outcome E Bytes)
    (encode : Bytes → Outcome E Bytes) (applied_state payload : Bytes) where
  -- The marker of a version is that of an applied change.
  abbrev pub IsApplied : MemoTable → Version → Type 0
  IsApplied t v = memo_get t (version_key v.pr) ≡ payload

  abbrev pub IsAbsent : MemoTable → Version → Type 0
  IsAbsent t v = memo_get t (version_key v.pr) ≡ []

  -- A version whose marker is there, or is not.
  abbrev pub IsMarkedOrNot : MemoTable → Version → Type 0
  IsMarkedOrNot t v = IsAbsent t v ⊎ IsApplied t v

  put-IsApplied :
      (t : MemoTable) (v w : Version)
      → IsApplied t w
      → IsApplied (memo_put t (version_key v.pr) payload) w
  put-IsApplied t v w h =
      get-put t (version_key v.pr) (version_key w.pr) payload
      ∙ choose (bytes_eq (version_key v.pr) (version_key w.pr))
    where
      choose : (hit : Bool) → (if hit then payload else memo_get t (version_key w.pr)) ≡ payload
      choose true = refl
      choose false = h

  put-IsMarkedOrNot :
      (t : MemoTable) (v w : Version)
      → IsMarkedOrNot t w
      → IsMarkedOrNot (memo_put t (version_key v.pr) payload) w
  put-IsMarkedOrNot t v w (inl h) =
      elim (Bool-cases (bytes_eq (version_key v.pr) (version_key w.pr))) [
        | inl hit ↦ inr (rw (get-put t (version_key v.pr) (version_key w.pr) payload, hit) refl)
        | inr miss ↦ inl (rw (get-put t (version_key v.pr) (version_key w.pr) payload, miss) h)
      ]
  put-IsMarkedOrNot t v w (inr h) = inr (put-IsApplied t v w h)

  All-put :
      (t : MemoTable) (v : Version) (vs : List Version)
      → All (IsMarkedOrNot t) vs
      → All (IsMarkedOrNot (memo_put t (version_key v.pr) payload)) vs
  All-put t v [] h = tt
  All-put t v (w ∷ vs) h = (put-IsMarkedOrNot t v w h.0, All-put t v vs h.1)

  module _ (encoded : encode applied_state ≡ done payload)
      (decoded : decode payload ≡ done applied_state) (not_empty : is_empty payload ≡ false) where
    -- A loop that may put markers puts those that are not there, without a warning, and loses none.
    abbrev Installs : MemoTable → List Version → Outcome E (MemoTable × List Warning) → Type 0
    Installs t vs r =
        (u : MemoTable) × (r ≡ done (u, []))
        × All (IsApplied u) vs
        × ((w : Version) → IsApplied t w → IsApplied u w)

    may : (first : Bool) → (first || true) ≡ true
    may true = refl
    may false = refl

    put_marker_lem :
        (first bootstrap : Bool) (v : Version) (t : MemoTable)
        → (first || bootstrap) ≡ true
        → check_version version_key decode encode applied_state first bootstrap v t [] []
          ≡ done (true, memo_put t (version_key v.pr) payload, [])
    unfolding check_version put_marker
    put_marker_lem first bootstrap v t may = rw (may, encoded) refl

    read_marker_lem :
        (first bootstrap : Bool) (v : Version) (t : MemoTable)
        → check_version version_key decode encode applied_state first bootstrap v t [] payload
          ≡ done (bootstrap, t, [])
    unfolding check_version read_marker marker_warnings
    read_marker_lem first bootstrap v t = go payload not_empty decoded
      where
        go :
            (p : Bytes)
            → is_empty p ≡ false
            → decode p ≡ done applied_state
            → check_version version_key decode encode applied_state first bootstrap v t [] p
              ≡ done (bootstrap, t, [])
        go [] e d = absurd (ground (arith, e))
        go (b ∷ bs) e d = rw (d, bytes_eq_refl applied_state) refl

    bootstrap-Installs :
        (first : Bool) (vs : List Version) (t : MemoTable)
        → All (IsMarkedOrNot t) vs
        → Installs t vs (check_loop version_key decode encode applied_state first true vs t [])
    unfolding check_loop
    bootstrap-Installs first [] t h = (t, refl, tt, λ w p. p)
    bootstrap-Installs first (v ∷ vs) t (inl gone, h) =
        let u0 = memo_put t (version_key v.pr) payload in
        let (u, r, all, keep) = bootstrap-Installs false vs u0 (All-put t v vs h) in
        let here : IsApplied u0 v =
          rw
            (
              get-put t (version_key v.pr) (version_key v.pr) payload,
              bytes_eq_refl (version_key v.pr),
            )
            refl in
        (
          u,
          rw (gone, put_marker_lem first true v t (may first)) r,
          (keep v here, all),
          λ w p. keep w (put-IsApplied t v w p),
        )
    bootstrap-Installs first (v ∷ vs) t (inr there, h) =
        let (u, r, all, keep) = bootstrap-Installs false vs t h in
        (u, rw (there, read_marker_lem first true v t) r, (keep v there, all), keep)

    applied-silent :
        (first bootstrap : Bool) (vs : List Version) (t : MemoTable)
        → All (IsApplied t) vs
        → check_loop version_key decode encode applied_state first bootstrap vs t [] ≡ done (t, [])
    unfolding check_loop
    applied-silent first bootstrap [] t h = refl
    applied-silent first bootstrap (v ∷ vs) t h =
        rw (h.0, read_marker_lem first bootstrap v t) (applied-silent false bootstrap vs t h.1)

    -- When the marker of the first version is missing, and every other one is missing or that of an applied change: a check
    -- returns no error and no warning, after it every version has the marker of an applied change, and another check
    -- then changes nothing and returns no warning either.
    pub check-Installs :
        (v : Version) (vs : List Version) (t : MemoTable)
        → IsAbsent t v
        → All (IsMarkedOrNot t) vs
        → (u : MemoTable) × (check version_key decode encode applied_state (v ∷ vs) t
            ≡ (u, done []))
          × All (IsApplied u) (v ∷ vs)
          × (check version_key decode encode applied_state (v ∷ vs) u ≡ (u, done []))
    unfolding check commit check_loop
    check-Installs v vs t gone h =
        let u0 = memo_put t (version_key v.pr) payload in
        let (u, r, all, keep) = bootstrap-Installs false vs u0 (All-put t v vs h) in
        let here : IsApplied u0 v =
          rw
            (
              get-put t (version_key v.pr) (version_key v.pr) payload,
              bytes_eq_refl (version_key v.pr),
            )
            refl in
        let now : All (IsApplied u) (v ∷ vs) = (keep v here, all) in
        (
          u,
          rw (gone, put_marker_lem true false v t refl, r) refl,
          now,
          rw (applied-silent true false (v ∷ vs) u now) refl,
        )
