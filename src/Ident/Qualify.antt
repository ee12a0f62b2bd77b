-- ===== src/Ident/Qualify.antt =====
-- internal/util/ident/schema.go and parse.go: schemas relative to one another.
use cdc_sink_redshift.Common.{
  ℕ, zero, suc, ◌-◌, ◌≤◌, ◌<◌, ◌≡◌, refl, sym, ap, ◌∙◌, Option, none, some, List, [], ◌∷◌, ◌++◌,
  arith, if◌then◌else◌, ltb, ◌==◌, ◌⊎◌, inl, inr, length, take, length-append, length-take,
  Bool-cases, ltb→lt,
}
use cdc_sink_redshift.Ident.{
  Text, Ident, Schema, Table, schema_idents, schema_empty, key_idents, new_schema, new_table,
  Result, ok, err, ◌>>=◌, too_many_schema_parts, empty_table_name,
}
use cdc_sink_redshift.Ident.Parse.{parse_dotted_ident, init, last}

-- `Qualification`.
pub data Qualification : Type 0 where
  table_only partial_schema fully_qualified : Qualification

-- `Schema.Relative`, from the parts of the schema: the last ones are replaced by the given ones.
unfoldable relative_parts : List Ident → List Ident → Result (Schema × Qualification)
relative_parts existing parts =
    if ltb (length existing) (length parts)
    then err too_many_schema_parts
    else if length parts == length existing
    then new_schema parts >>= (λ r. ok (r, fully_qualified))
    else new_schema (take (length existing - length parts) existing ++ parts)
      >>= (λ r. ok (r, partial_schema))

-- `Schema.Relative`.
unfoldable pub relative : Schema → List Ident → Result (Schema × Qualification)
unfolding relative_parts
relative s parts = relative_parts (schema_idents s) parts

-- `ParseTableRelative`, from the parts.
unfoldable pub table_relative : Schema → List Ident → Result (Table × Qualification)
table_relative relative_to [] = err empty_table_name
table_relative relative_to (p ∷ []) = ok (new_table relative_to p, table_only)
table_relative relative_to (p ∷ q ∷ ps) =
    relative relative_to (init p (q ∷ ps)) >>= (λ r. ok (new_table r.0 (last p (q ∷ ps)), r.1))

-- `ParseTableRelative`.
unfoldable pub parse_table_relative : Text → Schema → Option (Result (Table × Qualification))
parse_table_relative s relative_to = elim (parse_dotted_ident s) [
  | none ↦ none
  | some r ↦ some (r >>= table_relative relative_to)
]

-- The schema that `Relative` returns, as a list of parts.
abbrev pub Relatives : List Ident → List Ident → Result (Schema × Qualification) → Type 0
Relatives existing parts r =
    ((length existing < length parts) × (r ≡ err too_many_schema_parts))
    ⊎ ((s : Schema) × (q : Qualification) × (r ≡ ok (s, q))
        × (new_schema (take (length existing - length parts) existing ++ parts) ≡ ok s))

schema_idents-length : (s : Schema) → length (schema_idents s) ≤ 2
unfolding schema_idents schema_empty key_idents
schema_idents-length none = omega arith
schema_idents-length (some (none, b)) = ground arith
schema_idents-length (some (some a, none)) = ground arith
schema_idents-length (some (some a, some b)) = ground arith

new_schema_total :
    (parts : List Ident) → length parts ≤ 2 → (s : Schema) × (new_schema parts ≡ ok s)
unfolding new_schema
new_schema_total [] h = (none, refl)
new_schema_total (a ∷ []) h = (some (a, none), refl)
new_schema_total (a ∷ b ∷ []) h = (some (a, b), refl)
new_schema_total (a ∷ b ∷ c ∷ r) h = absurd (omega arith)

replaced-length :
    (x parts : List Ident)
    → length parts ≤ length x
    → length (take (length x - length parts) x ++ parts) ≡ length x
replaced-length x parts h = omega (
  arith,
  length-append (take (length x - length parts) x) parts,
  length-take (length x - length parts) x,
)

take-none : (n : ℕ) (x parts : List Ident) → n ≡ 0 → take n x ++ parts ≡ parts
take-none zero x parts e = refl
take-none (suc n) x parts e = absurd (omega arith)

relative_parts-Relatives :
    (x parts : List Ident) → length x ≤ 2 → Relatives x parts (relative_parts x parts)
unfolding relative_parts
relative_parts-Relatives x parts h = elim (Bool-cases (ltb (length x) (length parts))) [
  | inl more ↦ inl (ltb→lt (length x) (length parts) more, rw more)
  | inr fits ↦
      let (s, e) =
        new_schema_total (take (length x - length parts) x ++ parts)
          (omega (arith, replaced-length x parts (ground arith))) in
      elim (Bool-cases (length parts == length x)) [
        | inr fewer ↦ inr (s, partial_schema, rw (fits, fewer, e), e)
        | inl same ↦
            let eq = take-none (length x - length parts) x parts (ground arith) in
            let e2 = sym (ap new_schema eq) ∙ e in inr (s, fully_qualified, rw (fits, same, e2), e)
      ]
]

-- `Relative` refuses more parts than the schema has, and nothing else; otherwise the result is the
-- schema of as many parts as before, whose last ones are those given.
pub relative-Relatives :
    (s : Schema) (parts : List Ident) → Relatives (schema_idents s) parts (relative s parts)
unfolding relative
relative-Relatives s parts =
    relative_parts-Relatives (schema_idents s) parts (schema_idents-length s)
