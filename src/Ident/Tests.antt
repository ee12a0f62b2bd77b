-- ===== src/Ident/Tests.antt =====
-- internal/util/ident: the theorems at concrete names.
use cdc_sink_redshift.Common.{◌≡◌, refl, some, List, [], ◌∷◌}
use cdc_sink_redshift.Ident.{
  Text, quote, separator, Ident, Schema, Table, new, quoted, join, schema_idents, table_string,
  schema_empty, ident_empty, Result, ok,
}
use cdc_sink_redshift.Ident.Parse.{parse_dotted_ident, parse_table}
use cdc_sink_redshift.Ident.Dotted.{parse_dotted_ident-join}
use cdc_sink_redshift.Ident.Names.{parse_table-table_string}
use cdc_sink_redshift.Ident.Ends.{parse_dotted_ident_total}
use cdc_sink_redshift.Ident.Qualify.{relative, Relatives, relative-Relatives}

-- `a"b`, and the table `db.public.t`.
odd : Text
odd = b'a' ∷ quote ∷ b'b' ∷ []

my_schema : Schema
my_schema = some (new (b'd' ∷ b'b' ∷ []), new (b'p' ∷ []))

my_table : Table
unfolding my_schema
my_table = some (my_schema, new (b't' ∷ []))

parse_dotted_ident-join_example :
    parse_dotted_ident (join quoted separator (new odd ∷ new (b'c' ∷ []) ∷ []))
    ≡ some (ok (new odd ∷ new (b'c' ∷ []) ∷ []))
unfolding odd
parse_dotted_ident-join_example =
    parse_dotted_ident-join (new odd) (new (b'c' ∷ []) ∷ [])
      ((refl, (refl, (refl, tt))), ((refl, tt), tt))

parse_table-table_string_example : parse_table (table_string my_table) ≡ some (ok my_table)
unfolding my_table my_schema schema_empty ident_empty
parse_table-table_string_example =
    parse_table-table_string my_table ((refl, (refl, tt)), (refl, tt), refl, (refl, tt))

parse_dotted_ident_total_example :
    (r : Result (List Ident)) × (parse_dotted_ident (separator ∷ odd) ≡ some r)
parse_dotted_ident_total_example = parse_dotted_ident_total (separator ∷ odd)

relative-Relatives_example :
    Relatives (schema_idents my_schema) (new odd ∷ []) (relative my_schema (new odd ∷ []))
relative-Relatives_example = relative-Relatives my_schema (new odd ∷ [])
