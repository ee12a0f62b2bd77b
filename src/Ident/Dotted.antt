-- ===== src/Ident/Dotted.antt =====
-- internal/util/ident/parse.go: qualified names are read back, and the parser ends.
use cdc_sink_redshift.Common.{
  ℕ, zero, suc, ◌≤◌, ◌<◌, ◌≡◌, refl, sym, ap, ◌∙◌, none, some, List, [], ◌∷◌, ◌++◌, arith, length,
  length-append, append-nil, All,
}
use cdc_sink_redshift.Ident.{Text, quote, separator, Ident, escape, quoted, join, ok}
use cdc_sink_redshift.Ident.Parse.{parse_ident, parse_dotted, parse_dotted_ident}
use cdc_sink_redshift.Ident.Quote.{IsClean, parse_ident-quoted}

-- A part of a name that can be read back.
abbrev pub IsPart : Ident → Type 0
IsPart none = ⊥
IsPart (some t) = IsClean t

-- A quoted part begins with a quote, so it is not empty.
quoted-cons : (p : Ident) (rest : Text) → (u : Text) × (quoted p ++ rest ≡ quote ∷ u)
unfolding quoted
quoted-cons none rest = (quote ∷ rest, refl)
quoted-cons (some t) rest = ((escape t ++ quote ∷ []) ++ rest, refl)

dotted_last :
    (fuel : ℕ) (t : Text)
    → IsClean t
    → parse_dotted (suc fuel) (quoted (some t)) ≡ some (ok (some t ∷ []))
unfolding parse_dotted
dotted_last fuel t k =
    let (u, e) = quoted-cons (some t) [] in
    let shape : quoted (some t) ≡ quote ∷ u = sym (append-nil (quoted (some t))) ∙ e in
    let parsed : parse_ident (quote ∷ u) ≡ ok (some t, []) =
      ap parse_ident (sym e) ∙ parse_ident-quoted t [] k tt in
    rw (shape, parsed, parse_dotted)

dotted_step :
    (fuel : ℕ) (t : Text) (rest : Text) (parts : List Ident)
    → IsClean t
    → parse_dotted fuel rest ≡ some (ok parts)
    → parse_dotted (suc fuel) (quoted (some t) ++ separator ∷ rest) ≡ some (ok (some t ∷ parts))
unfolding parse_dotted
dotted_step fuel t rest parts k h =
    let (u, e) = quoted-cons (some t) (separator ∷ rest) in
    let parsed : parse_ident (quote ∷ u) ≡ ok (some t, separator ∷ rest) =
      ap parse_ident (sym e) ∙ parse_ident-quoted t (separator ∷ rest) k (refl, refl) in
    rw (e, parsed, h, parse_dotted)

dotted-join :
    (fuel : ℕ) (p : Ident) (ps : List Ident)
    → All IsPart (p ∷ ps)
    → length ps < fuel
    → parse_dotted fuel (join quoted separator (p ∷ ps)) ≡ some (ok (p ∷ ps))
unfolding join
dotted-join zero p ps k h = elim h [ ]
dotted-join (suc fuel) none ps k h = elim k.0 [ ]
dotted-join (suc fuel) (some t) [] k h = dotted_last fuel t k.0
dotted-join (suc fuel) (some t) (q ∷ ps) k h =
    dotted_step fuel t (join quoted separator (q ∷ ps)) (q ∷ ps) k.0
      (dotted-join fuel q ps k.1 (omega arith))

length-quoted : (p : Ident) → 2 ≤ length (quoted p)
unfolding quoted
length-quoted none = omega arith
length-quoted (some t) = omega (arith, length-append (escape t) (quote ∷ []))

length-join : (p : Ident) (ps : List Ident) → length ps ≤ length (join quoted separator (p ∷ ps))
unfolding join
length-join p [] = omega arith
length-join p (q ∷ ps) =
    omega (
      arith,
      length-append (quoted p) (separator ∷ join quoted separator (q ∷ ps)),
      length-join q ps,
    )

-- When no part of a name is nil, and none holds the code point that stands for an invalid byte, the
-- quoted parts, joined by the separator, parse to the parts.
pub parse_dotted_ident-join :
    (p : Ident) (ps : List Ident)
    → All IsPart (p ∷ ps)
    → parse_dotted_ident (join quoted separator (p ∷ ps)) ≡ some (ok (p ∷ ps))
unfolding parse_dotted_ident
parse_dotted_ident-join p ps k =
    dotted-join (suc (length (join quoted separator (p ∷ ps)))) p ps k
      (omega (arith, length-join p ps))
