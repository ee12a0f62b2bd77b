-- ===== src/Ident/Parse.antt =====
-- internal/util/ident/parse.go: from text to identifiers.
use cdc_sink_redshift.Common.{
  ℕ, zero, suc, ◌-◌, true, false, ◌&&◌, Option, none, some, List, [], ◌∷◌, if◌then◌else◌, ◌==◌,
  length, take, drop,
}
use cdc_sink_redshift.Ident.{
  Text, quote, separator, Ident, Schema, Table, new, empty_string, leading_separator,
  malformed_utf8, no_trailing_quote, expecting_separator, Result, ok, err, ◌>>=◌, new_schema,
}

-- `utf8.RuneError`.
abbrev pub rune_error : ℕ
rune_error = 0xFFFD

-- The loop of `parseQuotedIdent` from `idx` on: the place of the closing quote, if it was found.
unfoldable pub scan : Text → ℕ → Option ℕ → ℕ → Result (Option ℕ)
scan [] idx last prev = ok last
scan (c ∷ rest) idx last prev = elim (c == rune_error) [
  | true ↦ err malformed_utf8
  | false ↦ elim (c == quote) [
    | true ↦ elim (prev == quote) [
      | true ↦ scan rest (suc idx) none 0
      | false ↦ scan rest (suc idx) (some idx) c
    ]
    | false ↦ elim (prev == quote) [ true ↦ ok last | false ↦ scan rest (suc idx) last c ]
  ]
]

-- `strings.ReplaceAll(s, "\"\"", "\"")`.
unfoldable pub unescape : Text → Text
unescape [] = []
unescape (c ∷ []) = c ∷ []
unescape (c ∷ d ∷ t) = elim (c == quote && d == quote) [
  | true ↦ quote ∷ unescape t
  | false ↦ c ∷ unescape (d ∷ t)
]

-- `parseQuotedIdent`, of a text that begins with a quote.
unfoldable pub parse_quoted_ident : Text → Result (Ident × Text)
parse_quoted_ident s = do
  last ← scan (drop 1 s) 1 none 0
  elim last [
    | none ↦ err no_trailing_quote
    | some i ↦ ok (new (unescape (take (i - 1) (drop 1 s))), drop (suc i) s)
  ]

-- The loop of `parseUnquotedIdent`: what stands before the separator, and the rest.
unfoldable pub until_separator : Text → Result (Text × Text)
until_separator [] = ok ([], [])
until_separator (c ∷ rest) = elim (c == separator) [
  | true ↦ ok ([], c ∷ rest)
  | false ↦ elim (c == rune_error) [
    | true ↦ err malformed_utf8
    | false ↦ until_separator rest >>= (λ p. ok (c ∷ p.0, p.1))
  ]
]

-- `parseUnquotedIdent`.
unfoldable pub parse_unquoted_ident : Text → Result (Ident × Text)
parse_unquoted_ident s = until_separator s >>= (λ p. ok (new p.0, p.1))

-- `ParseIdent`.
unfoldable pub parse_ident : Text → Result (Ident × Text)
parse_ident [] = err empty_string
parse_ident (c ∷ s) =
    if c == separator
    then err leading_separator
    else if c == quote
    then parse_quoted_ident (c ∷ s)
    else parse_unquoted_ident (c ∷ s)

-- `parseDottedIdent`, on fuel; a part takes at least one character, so the length of the text and
-- one more is enough. `none` means that the fuel ran out.
unfoldable pub parse_dotted : ℕ → Text → Option (Result (List Ident))
parse_dotted zero s = none
parse_dotted (suc fuel) [] = some (ok [])
parse_dotted (suc fuel) (c ∷ s) = elim (parse_ident (c ∷ s)) [
  | err e ↦ some (err e)
  | ok (part, []) ↦ some (ok (part ∷ []))
  | ok (part, d ∷ remaining) ↦ elim (d == separator) [
    | false ↦ some (err expecting_separator)
    | true ↦ elim (parse_dotted fuel remaining) [
      | none ↦ none
      | some (err e) ↦ some (err e)
      | some (ok parts) ↦ some (ok (part ∷ parts))
    ]
  ]
]

-- `parseDottedIdent` with enough fuel.
unfoldable pub parse_dotted_ident : Text → Option (Result (List Ident))
parse_dotted_ident s = parse_dotted (suc (length s)) s

-- `ParseSchema`.
unfoldable pub parse_schema : Text → Option (Result Schema)
parse_schema s = elim (parse_dotted_ident s) [ none ↦ none | some r ↦ some (r >>= new_schema) ]

-- `parts[:len(parts)-1]` and `parts[len(parts)-1]`, of a list that is not empty.
unfoldable pub init : Ident → List Ident → List Ident
init p [] = []
init p (q ∷ ps) = p ∷ init q ps

unfoldable pub last : Ident → List Ident → Ident
last p [] = p
last p (q ∷ ps) = last q ps

-- The rest of `ParseTable`, from the parts. The table is taken from its key as it is, without the test
-- of `NewTable`.
unfoldable pub table_of_parts : List Ident → Result Table
table_of_parts [] = ok none
table_of_parts (p ∷ ps) = new_schema (init p ps) >>= (λ s. ok (some (s, last p ps)))

-- `ParseTable`.
unfoldable pub parse_table : Text → Option (Result Table)
parse_table s = elim (parse_dotted_ident s) [ none ↦ none | some r ↦ some (r >>= table_of_parts) ]
