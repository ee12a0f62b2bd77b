-- ===== src/Staging/Memo.antt =====
-- internal/staging/memo/memo.go: the table of keys and values. What the database refuses is an argument of the callers.
use cdc_sink_redshift.Common.{
  ◌≡◌, refl, ◌∙◌, ap, Bytes, bytes_eq, bytes_eq_iff, [], Bool, true, false, if◌then◌else◌, some,
}
use cdc_sink_redshift.Cmap as Cmap
use cdc_sink_redshift.Cmap.{Map, Entry, value_of, or_zero}
use cdc_sink_redshift.Cmap.Laws.{fetch-store}

abbrev pub MemoTable : Type 0
MemoTable = Map Bytes Bytes Bytes

-- `Memo.Get`: the value, or nothing if the key does not exist.
unfoldable pub memo_get : MemoTable → Bytes → Bytes
memo_get t key = or_zero [] (value_of (Cmap.fetch bytes_eq t key))

-- `Memo.Put`.
unfoldable pub memo_put : MemoTable → Bytes → Bytes → MemoTable
memo_put t key value = Cmap.store bytes_eq t key (record { key = key; value = value })

-- A key that was put reads as its value, and any other as before.
pub get-put :
    (t : MemoTable) (key other value : Bytes)
    → memo_get (memo_put t key value) other
      ≡ (if bytes_eq key other then value else memo_get t other)
unfolding memo_get memo_put
get-put t key other value =
    ap (λ o. or_zero [] (value_of o))
      (fetch-store bytes_eq bytes_eq_iff t key other (record { key = key; value = value }))
    ∙ choose (bytes_eq key other)
  where
    choose :
        (hit : Bool)
        → or_zero [] (
            value_of (
              if hit
              then some (record { key = key; value = value })
              else Cmap.fetch bytes_eq t other))
          ≡ (if hit then value else or_zero [] (value_of (Cmap.fetch bytes_eq t other)))
    choose true = refl
    choose false = refl
