-- ===== src/Staging/Version/Tests.antt =====
-- internal/staging/version/versions.go: a first check, and a table without the marker of a later version.
use cdc_sink_redshift.Common.{
  ℕ, ◌≡◌, refl, inl, Bytes, bytes_eq, [], ◌∷◌, Outcome, done, failed, All,
}
use cdc_sink_redshift.Cmap as Cmap
use cdc_sink_redshift.Staging.Memo.{MemoTable, memo_get, memo_put}
use cdc_sink_redshift.Staging.Version.{
  Version, manual_change, marker_warnings, read_marker, check_version, check_loop, commit, check,
}
use cdc_sink_redshift.Staging.Version.Installed.{IsApplied, check-Installs}

abbrev my_key : ℕ → Bytes
my_key pr = pr ∷ []

-- A payload is its state after a mark.
abbrev my_decode : Bytes → Outcome Bytes Bytes
my_decode [] = failed []
my_decode (b ∷ state) = done state

abbrev my_encode : Bytes → Outcome Bytes Bytes
my_encode state = done (123 ∷ state)

abbrev first_version : Version
first_version = record { info = 1 ∷ []; pr = 400 }

abbrev later_version : Version
later_version = record { info = 2 ∷ []; pr = 389 }

check-Installs_example :
    (u : MemoTable) × (check my_key my_decode my_encode
        (97 ∷ [])
        (first_version ∷ later_version ∷ [])
        []
      ≡ (u, done []))
    × All
        (IsApplied my_key my_decode my_encode (97 ∷ []) (123 ∷ 97 ∷ []) u)
        (first_version ∷ later_version ∷ [])
    × (check my_key my_decode my_encode (97 ∷ []) (first_version ∷ later_version ∷ []) u
        ≡ (u, done []))
unfolding memo_get Cmap.fetch
check-Installs_example =
    check-Installs my_key my_decode my_encode (97 ∷ []) (123 ∷ 97 ∷ []) refl refl refl first_version
      (later_version ∷ []) [] refl (inl refl, tt)

-- A version that came after the first check is reported, and gets no marker.
warning_run :
    (check my_key my_decode my_encode
      (97 ∷ [])
      (first_version ∷ later_version ∷ [])
      (memo_put [] (400 ∷ []) (123 ∷ 97 ∷ []))).1
    ≡ done (manual_change later_version ∷ [])
unfolding check commit check_loop check_version read_marker marker_warnings memo_get memo_put
    Cmap.fetch Cmap.store bytes_eq
warning_run = refl
