-- ===== src/Apply/Numbers.antt =====
-- internal/target/apply/exponent_fix.go: numbers without an exponent. The decimal package is the
-- parameter `plain`: the text of a number without an exponent, or nothing if it does not parse.
use cdc_sink_redshift.Common.{
  Bool, true, false, ◌&&◌, ◌||◌, ◌==◌, leb, Option, none, some, [], ◌∷◌, if◌then◌else◌, Bytes, Run,
  returned, panicked,
}

-- `\d+$`.
unfoldable pub all_digits : Bytes → Bool
all_digits [] = true
all_digits (c ∷ s) = leb b'0' c && leb c b'9' && all_digits s

unfoldable pub digits_end : Bytes → Bool
digits_end [] = false
digits_end (c ∷ s) = all_digits (c ∷ s)

-- `[+-]?\d+$`.
unfoldable pub signed_digits_end : Bytes → Bool
signed_digits_end [] = false
signed_digits_end (c ∷ s) = digits_end (c ∷ s) || ((c == b'+') || (c == b'-')) && digits_end s

-- `exponentSuffix`, anywhere in a text.
unfoldable pub exponent_suffix : Bytes → Bool
exponent_suffix [] = false
exponent_suffix (c ∷ s) = ((c == b'E') || (c == b'e')) && signed_digits_end s || exponent_suffix s

unfoldable pub parsed : {E : Type 0} → Option Bytes → Run E Bytes
parsed none = panicked
parsed (some s) = returned s

-- `removeExponent`; it ends the program when the number does not parse.
unfoldable pub remove_exponent : {E : Type 0} → (Bytes → Option Bytes) → Bytes → Run E Bytes
remove_exponent plain val = if exponent_suffix val then parsed (plain val) else returned val
