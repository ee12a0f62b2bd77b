-- ===== src/Ident/Ends.antt =====
-- internal/util/ident/parse.go: the parser of qualified names ends on every text.
use cdc_sink_redshift.Common.{
  ℕ, zero, suc, ◌+◌, ◌-◌, ◌≤◌, ◌<◌, ◌≡◌, refl, false, Option, none, some, List, [], ◌∷◌, arith,
  ◌==◌, inl, inr, length, take, drop, length-drop, Bool-cases,
}
use cdc_sink_redshift.Ident.{Text, quote, separator, Ident, Result, ok, err, ◌>>=◌, IdentError}
use cdc_sink_redshift.Ident.Parse.{
  rune_error, scan, unescape, parse_quoted_ident, parse_unquoted_ident, until_separator,
  parse_ident, parse_dotted, parse_dotted_ident,
}

-- The two parts of a split text are as long as the text.
abbrev Measures : ℕ → Result (Text × Text) → Type 0
Measures n (err e) = Unit
Measures n (ok (a, rest)) = length a + length rest ≡ n

-- A parsed part leaves at most the given number of characters.
abbrev Fits : ℕ → Result (Ident × Text) → Type 0
Fits n (err e) = Unit
Fits n (ok (p, rest)) = length rest ≤ n

Measures-cons :
    (n c : ℕ) (r : Result (Text × Text))
    → Measures n r
    → Measures (suc n) (r >>= (λ p. ok (c ∷ p.0, p.1)))
Measures-cons n c (err e) h = tt
Measures-cons n c (ok (a, rest)) h = omega arith

until_separator-Measures : (s : Text) → Measures (length s) (until_separator s)
unfolding until_separator
until_separator-Measures [] = omega arith
until_separator-Measures (c ∷ s) = elim (Bool-cases (c == separator)) [
  | inl hit ↦ rw (hit, until_separator) (omega arith)
  | inr miss ↦ elim (Bool-cases (c == rune_error)) [
    | inl bad ↦ rw (miss, until_separator) (rw (bad, until_separator) tt)
    | inr good ↦
        rw (miss, until_separator)
          (rw (good, until_separator)
            (Measures-cons (length s) c (until_separator s) (until_separator-Measures s)))
  ]
]

Fits-unquoted :
    (n c : ℕ) (r : Result (Text × Text))
    → Measures n r
    → let q : Result (Text × Text) = r >>= (λ p. ok (c ∷ p.0, p.1)) in
      Fits n (q >>= (λ p. ok (some p.0, p.1)))
Fits-unquoted n c (err e) h = tt
Fits-unquoted n c (ok (a, rest)) h = omega arith

unquoted-Fits :
    (c : ℕ) (s : Text) → (c == separator) ≡ false → Fits (length s) (parse_unquoted_ident (c ∷ s))
unfolding parse_unquoted_ident until_separator
unquoted-Fits c s miss = elim (Bool-cases (c == rune_error)) [
  | inl bad ↦ rw (miss, until_separator) (rw (bad, until_separator) tt)
  | inr good ↦
      rw (miss, until_separator)
        (rw (good, until_separator)
          (Fits-unquoted (length s) c (until_separator s) (until_separator-Measures s)))
]

quoted-Fits : (c : ℕ) (s : Text) → Fits (length s) (parse_quoted_ident (c ∷ s))
unfolding parse_quoted_ident
quoted-Fits c s = go (scan s 1 none 0)
  where
    go :
        (r : Result (Option ℕ))
        → Fits (length s) (
            r >>= (λ last. elim last [
              | none ↦ err IdentError.no_trailing_quote
              | some i ↦ ok (some (unescape (take (i - 1) s)), drop (suc i) (c ∷ s))
            ]))
    go (err e) = tt
    go (ok none) = tt
    go (ok (some i)) = omega (arith, length-drop i s)

parse_ident-Fits : (c : ℕ) (s : Text) → Fits (length s) (parse_ident (c ∷ s))
unfolding parse_ident
parse_ident-Fits c s = elim (Bool-cases (c == separator)) [
  | inl hit ↦ rw hit tt
  | inr miss ↦ elim (Bool-cases (c == quote)) [
    | inl q ↦ rw (miss, q) (quoted-Fits c s)
    | inr u ↦ rw (miss, u) (unquoted-Fits c s miss)
  ]
]

-- The parser has ended.
abbrev Ended : Option (Result (List Ident)) → Type 0
Ended none = ⊥
Ended (some r) = Unit

dotted_next :
    (fuel d : ℕ) (p : Ident) (c : ℕ) (s rest : Text)
    → parse_ident (c ∷ s) ≡ ok (p, d ∷ rest)
    → Ended (parse_dotted fuel rest)
    → Ended (parse_dotted (suc fuel) (c ∷ s))
unfolding parse_dotted
dotted_next fuel d p c s rest e h = elim (Bool-cases (d == separator)) [
  | inr other ↦ rw (e, parse_dotted) (rw other tt)
  | inl dot ↦ rw (e, parse_dotted) (rw dot (go (parse_dotted fuel rest) h))
]
  where
    go :
        (o : Option (Result (List Ident)))
        → Ended o
        → Ended (elim o [
          | none ↦ none
          | some (err e) ↦ some (err e)
          | some (ok parts) ↦ some (ok (p ∷ parts))
        ])
    go none h = h
    go (some (err e)) h = tt
    go (some (ok parts)) h = tt

dotted_any :
    (fuel c : ℕ) (s : Text) (r : Result (Ident × Text))
    → parse_ident (c ∷ s) ≡ r
    → Fits (length s) r
    → ((u : Text) → length u < length s → Ended (parse_dotted fuel u))
    → Ended (parse_dotted (suc fuel) (c ∷ s))
unfolding parse_dotted
dotted_any fuel c s (err x) e f h = rw (e, parse_dotted) tt
dotted_any fuel c s (ok (p, [])) e f h = rw (e, parse_dotted) tt
dotted_any fuel c s (ok (p, d ∷ rest)) e f h = dotted_next fuel d p c s rest e (h rest f)

-- With more fuel than characters the parser ends.
parse_dotted-Ended : (fuel : ℕ) (s : Text) → length s < fuel → Ended (parse_dotted fuel s)
unfolding parse_dotted
parse_dotted-Ended zero s h = elim h [ ]
parse_dotted-Ended (suc fuel) [] h = tt
parse_dotted-Ended (suc fuel) (c ∷ s) h =
    dotted_any fuel c s (parse_ident (c ∷ s)) refl (parse_ident-Fits c s)
      (λ u k. parse_dotted-Ended fuel u (omega arith))

Ended-some : (o : Option (Result (List Ident))) → Ended o → (r : Result (List Ident)) × (o ≡ some r)
Ended-some none h = elim h [ ]
Ended-some (some r) h = (r, refl)

-- `parseDottedIdent` ends on every text, with parts or with an error.
pub parse_dotted_ident_total :
    (s : Text) → (r : Result (List Ident)) × (parse_dotted_ident s ≡ some r)
unfolding parse_dotted_ident
parse_dotted_ident_total s =
    Ended-some (parse_dotted (suc (length s)) s)
      (parse_dotted-Ended (suc (length s)) s (omega arith))
