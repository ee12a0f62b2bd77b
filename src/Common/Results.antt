-- ===== src/Common/Results.antt =====
-- Calls that can fail.
use mathlib.Core.Option.{Option, none, some}
use mathlib.Core.Path.{◌≡◌, refl}
use native.Mathlib.Omega.{arith}

-- The result of a call that can fail.
pub data Outcome {ℓ} (E A : Type ℓ) : Type ℓ where
  done : A → Outcome E A
  failed : E → Outcome E A

-- A call that changes the state and may return an error, then what follows it unless it failed.
abbrev pub after {ℓ κ} :
    {S : Type ℓ} {E : Type κ} → S × Option E → (S → S × Option E) → S × Option E
after (s, none) k = k s
after (s, some e) k = (s, some e)

-- What a call comes to that can return an error or panic.
pub data Run {ℓ} (E A : Type ℓ) : Type ℓ where
  returned : A → Run E A
  raised : E → Run E A
  panicked : Run E A

infixl 5 ◌>>=◌
abbrev pub ◌>>=◌ {ℓ} : {E A B : Type ℓ} → Run E A → (A → Run E B) → Run E B
returned a >>= f = f a
raised e >>= f = raised e
panicked >>= f = panicked

-- A call that does not panic, and what it returns, if it returns.
abbrev pub Safe {ℓ} : {E A : Type ℓ} → (A → Type 0) → Run E A → Type 0
Safe P (returned a) = P a
Safe P (raised e) = Unit
Safe P panicked = ⊥

pub bind-Safe {ℓ} :
    {E A B : Type ℓ} (P : A → Type 0) (Q : B → Type 0) (r : Run E A) (f : A → Run E B)
    → Safe P r
    → ((a : A) → P a → Safe Q (f a))
    → Safe Q (r >>= f)
bind-Safe P Q (returned a) f h g = g a h
bind-Safe P Q (raised e) f h g = tt
bind-Safe P Q panicked f h g = absurd h

pub map-Safe {ℓ} :
    {E A : Type ℓ} (P Q : A → Type 0) (r : Run E A) → ((a : A) → P a → Q a) → Safe P r → Safe Q r
map-Safe P Q (returned a) g h = g a h
map-Safe P Q (raised e) g h = tt
map-Safe P Q panicked g h = h

-- A chain of calls that returned: what its first call returned.
pub bind-returned {ℓ} :
    {E A B : Type ℓ} (r : Run E A) (f : A → Run E B) (b : B)
    → r >>= f ≡ returned b
    → (a : A) × (r ≡ returned a) × (f a ≡ returned b)
bind-returned (returned a) f b h = (a, refl, h)
bind-returned (raised e) f b h = absurd (ground (arith, h))
bind-returned panicked f b h = absurd (ground (arith, h))
