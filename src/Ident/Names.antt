-- ===== src/Ident/Names.antt =====
-- internal/util/ident/parse.go: `ParseTable` reads back `Table.String`, and the parser of qualified
-- names ends on every text.
use cdc_sink_redshift.Common.{◌≡◌, refl, ap, ◌∙◌, false, none, some, List, [], ◌∷◌, arith, All}
use cdc_sink_redshift.Ident.{
  Text, separator, Ident, Table, quoted, join, schema_idents, schema_empty, key_idents,
  table_idents, table_empty, table_string, ident_empty, new_schema, ok,
}
use cdc_sink_redshift.Ident.Parse.{
  parse_dotted, parse_dotted_ident, parse_table, table_of_parts, init, last,
}
use cdc_sink_redshift.Ident.Dotted.{IsPart, parse_dotted_ident-join}

-- A table that its text tells: it is empty, or its schema is nil or has a text that is not empty, its
-- parts are valid UTF-8 without U+FFFD, and a table with no schema has a name.
abbrev pub IsWritable : Table → Type 0
IsWritable none = Unit
IsWritable (some (none, t)) = IsPart t × (ident_empty t ≡ false)
IsWritable (some (some (a, none), t)) = IsPart a × (ident_empty a ≡ false) × IsPart t
IsWritable (some (some (a, some b), t)) =
    IsPart a × IsPart (some b) × (schema_empty (some (a, some b)) ≡ false) × IsPart t

-- `ParseTable`, from the parts that the name parses to.
parse_parts :
    (s : Text) (p : Ident) (ps : List Ident)
    → parse_dotted_ident s ≡ some (ok (p ∷ ps))
    → parse_table s ≡ some (table_of_parts (p ∷ ps))
unfolding parse_table
parse_parts s p ps e = rw (e, parse_table)

one_part : (t : Ident) → ident_empty t ≡ false → table_idents (some (none, t)) ≡ t ∷ []
unfolding table_idents table_empty schema_empty schema_idents
one_part t h = ground arith

two_parts :
    (a t : Ident)
    → IsPart a
    → ident_empty a ≡ false
    → table_idents (some (some (a, none), t)) ≡ a ∷ t ∷ []
unfolding table_idents table_empty schema_empty schema_idents key_idents ident_empty
two_parts none t k h = elim k [ ]
two_parts (some a) t k h = rw h

three_parts :
    (a : Ident) (b : Text) (t : Ident)
    → IsPart a
    → schema_empty (some (a, some b)) ≡ false
    → table_idents (some (some (a, some b), t)) ≡ a ∷ some b ∷ t ∷ []
unfolding table_idents table_empty schema_idents key_idents
three_parts none b t k h = elim k [ ]
three_parts (some a) b t k h = rw h

read_back :
    (t : Table) (p : Ident) (ps : List Ident)
    → table_idents t ≡ p ∷ ps
    → All IsPart (p ∷ ps)
    → table_of_parts (p ∷ ps) ≡ ok t
    → parse_table (table_string t) ≡ some (ok t)
unfolding table_string
read_back t p ps e k r =
    ap (λ l. parse_table (join quoted separator l)) e
    ∙ parse_parts (join quoted separator (p ∷ ps)) p ps (parse_dotted_ident-join p ps k)
    ∙ ap some r

empty_table : parse_table (table_string none) ≡ some (ok none)
unfolding parse_table table_string table_idents parse_dotted_ident parse_dotted join table_of_parts
empty_table = refl

-- `ParseTable` of the quoted text of a table is the table, if the text tells it.
pub parse_table-table_string :
    (t : Table) → IsWritable t → parse_table (table_string t) ≡ some (ok t)
unfolding table_of_parts init last new_schema
parse_table-table_string none k = empty_table
parse_table-table_string (some (none, t)) k =
    read_back (some (none, t)) t [] (one_part t k.1) (k.0, tt) refl
parse_table-table_string (some (some (a, none), t)) k =
    read_back (some (some (a, none), t)) a (t ∷ []) (two_parts a t k.0 k.1) (k.0, (k.2, tt)) refl
parse_table-table_string (some (some (a, some b), t)) k =
    read_back (some (some (a, some b), t)) a (some b ∷ t ∷ []) (three_parts a b t k.0 k.2)
      (k.0, (k.1, (k.3, tt))) refl
