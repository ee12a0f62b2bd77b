-- ===== src/Script.antt =====
-- internal/script/meta.go: the metadata that a source adds to a mutation. A Go map is a list of entries;
-- a nil map and an empty one are the same list.
use cdc_sink_redshift.Common.{
  List, [], ◌∷◌, if◌then◌else◌, Bytes, bytes_eq, Any, boolean, integer, text, true,
}
use cdc_sink_redshift.Ident.{Table, raw, schema_of, table_of, schema_idents, join, separator}
use cdc_sink_redshift.Types.{Mutation}

abbrev pub Meta : Type 0
Meta = List (Bytes × Any)

-- `mut.Meta[k] = v`.
unfoldable pub set_meta : Meta → Bytes → Any → Meta
set_meta [] k v = (k, v) ∷ []
set_meta ((j, w) ∷ m) k v = if bytes_eq j k then (k, v) ∷ m else (j, w) ∷ set_meta m k v

unfoldable pub set_all : Meta → Meta → Meta
set_all m [] = m
set_all m ((k, v) ∷ kvs) = set_all (set_meta m k v) kvs

abbrev pub logical_key : Bytes
logical_key = b'l' ∷ b'o' ∷ b'g' ∷ b'i' ∷ b'c' ∷ b'a' ∷ b'l' ∷ []

abbrev pub nanos_key : Bytes
nanos_key = b'n' ∷ b'a' ∷ b'n' ∷ b'o' ∷ b's' ∷ []

abbrev pub schema_key : Bytes
schema_key = b's' ∷ b'c' ∷ b'h' ∷ b'e' ∷ b'm' ∷ b'a' ∷ []

abbrev pub table_key : Bytes
table_key = b't' ∷ b'a' ∷ b'b' ∷ b'l' ∷ b'e' ∷ []

-- `AddMeta`.
unfoldable pub add_meta : Bytes → Table → Mutation → Mutation
add_meta source tbl mut = record mut {
  meta = set_all mut.meta (
      (source, boolean true)
      ∷ (logical_key, integer mut.time.logical)
      ∷ (nanos_key, integer mut.time.nanos)
      ∷ (schema_key, text (join raw separator (schema_idents (schema_of tbl))))
      ∷ (table_key, text (raw (table_of tbl)))
      ∷ []);
}
