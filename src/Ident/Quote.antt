-- ===== src/Ident/Quote.antt =====
-- internal/util/ident/parse.go and atom.go: a quoted identifier is read back.
use native.Mathlib.Nat.{add-zero}
use cdc_sink_redshift.Common.{
  ℕ, suc, ◌+◌, ◌-◌, ◌≡◌, refl, sym, ap, ◌∙◌, true, false, Option, none, some, [], ◌∷◌, ◌++◌, arith,
  ◌==◌, inl, inr, length, take, drop, append_assoc, Bool-cases, All,
}
use cdc_sink_redshift.Ident.{Text, quote, new, escape, quoted, ok}
use cdc_sink_redshift.Ident.Parse.{rune_error, scan, unescape, parse_quoted_ident, parse_ident}

-- A text of valid UTF-8 without U+FFFD.
abbrev pub IsClean : Text → Type 0
IsClean t = All (λ c. (c == rune_error) ≡ false) t

-- What may follow a closing quote: nothing, or a character that is no quote and no error.
abbrev pub Follows : Text → Type 0
Follows [] = Unit
Follows (c ∷ t) = ((c == quote) ≡ false) × ((c == rune_error) ≡ false)

scan-escape :
    (t rest : Text) (idx : ℕ) (last : Option ℕ) (prev : ℕ)
    → IsClean t
    → Follows rest
    → (prev == quote) ≡ false
    → scan (escape t ++ quote ∷ rest) idx last prev ≡ ok (some (idx + length (escape t)))
unfolding scan escape
scan-escape [] [] idx last prev k f p = rw (p, scan) (ap (λ n. ok (some n)) (sym (add-zero idx)))
scan-escape [] (c ∷ rest) idx last prev k f p =
    rw (p, scan) (rw (f.1, scan) (rw (f.0, scan) (ap (λ n. ok (some n)) (sym (add-zero idx)))))
scan-escape (c ∷ t) rest idx last prev k f p = elim (Bool-cases (c == quote)) [
  | inl hit ↦
      rw (hit, p, scan)
        (scan-escape t rest (suc (suc idx)) none 0 k.1 f refl ∙ ap (λ n. ok (some n)) (omega arith))
  | inr miss ↦
      rw (miss, k.0, miss, p, scan)
        (scan-escape t rest (suc idx) last c k.1 f miss ∙ ap (λ n. ok (some n)) (omega arith))
]

unescape-cons : (c : ℕ) (t : Text) → (c == quote) ≡ false → unescape (c ∷ t) ≡ c ∷ unescape t
unfolding unescape
unescape-cons c [] h = refl
unescape-cons c (d ∷ t) h = rw (h, unescape)

unescape-escape : (t : Text) → unescape (escape t) ≡ t
unfolding unescape escape
unescape-escape [] = refl
unescape-escape (c ∷ t) = elim (Bool-cases (c == quote)) [
  | inl hit ↦
      rw hit
        (ap (λ q. q ∷ unescape (escape t)) (sym (is_quote hit)) ∙ ap (◌∷◌ c) (unescape-escape t))
  | inr miss ↦ rw miss (unescape-cons c (escape t) miss ∙ ap (◌∷◌ c) (unescape-escape t))
]
  where
    is_quote : (c == quote) ≡ true → c ≡ quote
    is_quote h = ground arith

take_front : (t u : Text) → take (length t) (t ++ u) ≡ t
take_front [] u = refl
take_front (c ∷ t) u = ap (◌∷◌ c) (take_front t u)

drop_rest : (t : Text) (c : ℕ) (u : Text) → drop (suc (length t)) (t ++ c ∷ u) ≡ u
drop_rest [] c u = refl
drop_rest (d ∷ t) c u = drop_rest t c u

parse_quoted_lem :
    (t rest : Text)
    → IsClean t
    → Follows rest
    → parse_quoted_ident (quote ∷ (escape t ++ quote ∷ rest)) ≡ ok (new t, rest)
unfolding parse_quoted_ident
parse_quoted_lem t rest k f =
    let e = escape t in
    let n : 1 + length e - 1 ≡ length e = omega arith in
    let m : 1 + length e ≡ suc (length e) = omega arith in
    rw (
      scan-escape t rest 1 none 0 k f refl,
      n,
      take_front e (quote ∷ rest),
      unescape-escape t,
      m,
      drop_rest e quote rest,
    )

-- The text of an identifier, which is quoted, parses to the identifier and leaves the rest, whatever
-- quotes and separators it holds, if it is valid UTF-8 without U+FFFD and no quote follows.
pub parse_ident-quoted :
    (t rest : Text)
    → IsClean t
    → Follows rest
    → parse_ident (quoted (some t) ++ rest) ≡ ok (new t, rest)
unfolding parse_ident quoted
parse_ident-quoted t rest k f =
    ap (λ u. parse_quoted_ident (quote ∷ u)) (append_assoc (escape t) (quote ∷ []) rest)
    ∙ parse_quoted_lem t rest k f
