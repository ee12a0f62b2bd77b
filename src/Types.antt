-- ===== src/Types.antt =====
-- internal/types/types.go: the data that the parts of the program share.
use cdc_sink_redshift.Common.{Bool, ◌||◌, List, [], ◌∷◌, Bytes, bytes_eq, is_empty, Any}
use cdc_sink_redshift.Hlc.{Time}

-- `Mutation`.
pub record Mutation : Type 0 where
  pub before : Bytes
  pub contents : Bytes
  pub key : Bytes
  pub meta : List (Bytes × Any)
  pub time : Time

-- `nullBytes`: the text "null".
abbrev pub null_bytes : Bytes
null_bytes = b'n' ∷ b'u' ∷ b'l' ∷ b'l' ∷ []

-- `IsDelete`.
unfoldable pub is_delete : Mutation → Bool
is_delete m = is_empty m.contents || bytes_eq m.contents null_bytes
