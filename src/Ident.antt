-- ===== src/Ident.antt =====
-- internal/util/ident: identifiers, schemas and tables, their parts, texts and comparison. A text is
-- the list of its code points; an invalid byte of UTF-8 reads as the code point U+FFFD. A nil atom is
-- `none`; the interning of atoms by `canonicalMap` is the equality of texts. `strings.ToLower` is the
-- parameter `lower` of what compares.
pub mod Parse
pub mod Quote
pub mod Dotted
pub mod Qualify
pub mod Names
pub mod Ends
mod Tests
use Prim.Native.Nat.{Ordering}
use cdc_sink_redshift.Common.{
  ℕ, zero, suc, Bool, true, false, ◌&&◌, Option, none, some, List, [], ◌∷◌, ◌++◌, if◌then◌else◌,
  ltb, ◌==◌, length, take, drop, Bytes, is_empty, leb,
}

abbrev pub Text : Type 0
Text = Bytes

-- `quote` and `separator`.
abbrev pub quote : ℕ
quote = b'"'

abbrev pub separator : ℕ
separator = b'.'

-- `Ident`, the pointer to an `atom`.
abbrev pub Ident : Type 0
Ident = Option Text

-- `New`.
abbrev pub new : Text → Ident
new raw = some raw

-- `maxArrayLength`.
abbrev pub max_array_length : ℕ
max_array_length = 2

-- `Schema`, the pointer to an `array` of two atoms.
abbrev pub Schema : Type 0
Schema = Option (Ident × Ident)

-- `Table`, the pointer to a `qualified` name.
abbrev pub Table : Type 0
Table = Option (Schema × Ident)

-- `atom.Raw`.
unfoldable pub raw : Ident → Text
raw none = []
raw (some t) = t

-- `strings.ReplaceAll(key, "\"", "\"\"")`.
unfoldable pub escape : Text → Text
escape [] = []
escape (c ∷ t) = if c == quote then quote ∷ quote ∷ escape t else c ∷ escape t

-- `atom.quoted` and `atom.String`.
unfoldable pub quoted : Ident → Text
quoted none = quote ∷ quote ∷ []
quoted (some t) = quote ∷ (escape t ++ quote ∷ [])

-- `atom.Empty`.
unfoldable pub ident_empty : Ident → Bool
ident_empty none = true
ident_empty (some t) = is_empty t

-- `array.Empty`.
unfoldable pub schema_empty : Schema → Bool
schema_empty none = true
schema_empty (some (a, b)) = ident_empty a && ident_empty b

-- The atoms of a key up to the first nil, as the loop of `array.Idents` appends them.
unfoldable pub key_idents : Ident → Ident → List Ident
key_idents none b = []
key_idents (some a) none = some a ∷ []
key_idents (some a) (some b) = some a ∷ some b ∷ []

-- `array.Idents`.
unfoldable pub schema_idents : Schema → List Ident
unfolding schema_empty key_idents
schema_idents none = []
schema_idents (some (a, b)) = if schema_empty (some (a, b)) then [] else key_idents a b

-- `qualified.Empty`.
unfoldable pub table_empty : Table → Bool
table_empty none = true
table_empty (some (s, t)) = schema_empty s && ident_empty t

-- `qualified.Idents`.
unfoldable pub table_idents : Table → List Ident
table_idents none = []
table_idents (some (s, t)) = if table_empty (some (s, t)) then [] else schema_idents s ++ t ∷ []

-- `Join`: the parts, raw or quoted, with a separator between them.
unfoldable pub join : (Ident → Text) → ℕ → List Ident → Text
join show sep [] = []
join show sep (p ∷ []) = show p
join show sep (p ∷ q ∷ ps) = show p ++ sep ∷ join show sep (q ∷ ps)

-- `array.String` and `qualified.String`; `Raw`.
unfoldable pub schema_string : Schema → Text
schema_string s = join quoted separator (schema_idents s)

unfoldable pub table_string : Table → Text
table_string t = join quoted separator (table_idents t)

unfoldable pub table_raw : Table → Text
table_raw t = join raw separator (table_idents t)

-- The errors of the package that these functions return.
pub data IdentError : Type 0 where
  too_many_parts empty_string leading_separator malformed_utf8 : IdentError
  no_trailing_quote expecting_separator empty_table_name too_many_schema_parts : IdentError

pub data Result {ℓ} (A : Type ℓ) : Type ℓ where
  ok : A → Result A
  err : IdentError → Result A

infixl 5 ◌>>=◌
abbrev pub ◌>>=◌ {ℓ κ} : {A : Type ℓ} {B : Type κ} → Result A → (A → Result B) → Result B
ok a >>= f = f a
err e >>= f = err e

-- `NewSchema`.
unfoldable pub new_schema : List Ident → Result Schema
new_schema [] = ok none
new_schema (a ∷ []) = ok (some (a, none))
new_schema (a ∷ b ∷ []) = ok (some (a, b))
new_schema (a ∷ b ∷ c ∷ rest) = err too_many_parts

-- `NewTable`.
unfoldable pub new_table : Schema → Ident → Table
new_table enclosing name =
    if schema_empty enclosing && ident_empty name then none else some (enclosing, name)

-- `Table.Schema` and `Table.Table`.
unfoldable pub schema_of : Table → Schema
schema_of none = none
schema_of (some (s, t)) = s

unfoldable pub table_of : Table → Ident
table_of none = none
table_of (some (s, t)) = t
