-- ===== src/Staging/Version.antt =====
-- internal/staging/version/versions.go: the check of the markers of incompatible changes. A warning keeps its parts in
-- place of its text; the name of a marker and its JSON payload are of the parameters. The errors of the database are not
-- modelled, and one that is raised leaves the transaction, whose changes are lost.
pub mod Installed
mod Tests
use cdc_sink_redshift.Common.{
  ℕ, Bytes, Bool, true, false, ◌||◌, is_empty, bytes_eq, List, [], ◌∷◌, ◌++◌, if◌then◌else◌,
  Outcome, done, failed,
}
use cdc_sink_redshift.Staging.Memo.{MemoTable, memo_get, memo_put}

-- `Version`.
pub record Version : Type 0 where
  pub info : Bytes
  pub pr : ℕ

-- A warning of `Check`.
pub data Warning : Type 0 where
  unexpected_state : Bytes → Version → Warning
  manual_change : Version → Warning

module _ {E : Type 0} (version_key : ℕ → Bytes) (decode : Bytes → Outcome E Bytes)
    (encode : Bytes → Outcome E Bytes) (applied_state : Bytes) where
  -- The warnings of a marker that is there.
  unfoldable pub marker_warnings : Version → Bytes → List Warning
  marker_warnings v state =
      if bytes_eq state applied_state then [] else unexpected_state state v ∷ []

  -- What the loop does with a version whose marker has the given data, when it may put a marker or not: whether it goes on
  -- putting markers, the table, and the warnings so far.
  unfoldable pub put_marker :
      Version
      → MemoTable
      → List Warning
      → Outcome E Bytes
      → Outcome E (Bool × MemoTable × List Warning)
  put_marker v t warnings (failed e) = failed e
  put_marker v t warnings (done data_put) =
      done (true, memo_put t (version_key v.pr) data_put, warnings)

  unfoldable pub read_marker :
      Bool
      → Version
      → MemoTable
      → List Warning
      → Outcome E Bytes
      → Outcome E (Bool × MemoTable × List Warning)
  read_marker bootstrap v t warnings (failed e) = failed e
  read_marker bootstrap v t warnings (done state) =
      done (bootstrap, t, warnings ++ marker_warnings v state)

  unfoldable pub check_version :
      Bool
      → Bool
      → Version
      → MemoTable
      → List Warning
      → Bytes
      → Outcome E (Bool × MemoTable × List Warning)
  check_version first bootstrap v t warnings [] =
      if first || bootstrap
      then put_marker v t warnings (encode applied_state)
      else done (bootstrap, t, warnings ++ (manual_change v ∷ []))
  check_version first bootstrap v t warnings (b ∷ bs) =
      read_marker bootstrap v t warnings (decode (b ∷ bs))

  -- The rest of the loop after a version, unless that failed.
  abbrev pub next_version :
      Outcome E (Bool × MemoTable × List Warning)
      → (Bool → MemoTable → List Warning → Outcome E (MemoTable × List Warning))
      → Outcome E (MemoTable × List Warning)
  next_version (failed e) rest = failed e
  next_version (done (bootstrap, t, warnings)) rest = rest bootstrap t warnings

  -- The loop over the versions: `first` is set for the first of them only.
  unfoldable pub check_loop :
      Bool → Bool → List Version → MemoTable → List Warning → Outcome E (MemoTable × List Warning)
  check_loop first bootstrap [] t warnings = done (t, warnings)
  check_loop first bootstrap (v ∷ vs) t warnings =
      next_version (check_version first bootstrap v t warnings (memo_get t (version_key v.pr)))
        (λ b u ws. check_loop false b vs u ws)

-- The end of the transaction: after an error nothing has changed.
unfoldable pub commit :
    {E : Type 0}
    → MemoTable
    → Outcome E (MemoTable × List Warning)
    → MemoTable × Outcome E (List Warning)
commit before (done (t, warnings)) = (t, done warnings)
commit before (failed e) = (before, failed e)

module _ {E : Type 0} (version_key : ℕ → Bytes) (decode : Bytes → Outcome E Bytes)
    (encode : Bytes → Outcome E Bytes) (applied_state : Bytes) where
  -- `Check`.
  unfoldable pub check : List Version → MemoTable → MemoTable × Outcome E (List Warning)
  check versions t =
      commit t (check_loop version_key decode encode applied_state true false versions t [])
