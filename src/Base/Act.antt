-- ===== src/Base/Act.antt =====
-- Actions: code that changes a state and returns a result, with `?` as the bind.
use mathlib.Core.Path.{◌≡◌, refl}
use async_h.Base.Results.{Result, ok, err, panic}

abbrev pub Act : Type 0 → Type 0 → Type 0
Act S A = S → S × Result A

module _ {S A B : Type 0} where
  abbrev pub and_then : (A → Act S B) → S × Result A → S × Result B
  and_then next (s, ok a) = next a s
  and_then next (s, err e) = (s, err e)
  and_then next (s, panic) = (s, panic)

  infixl 5 ◌>>=◌
  abbrev pub ◌>>=◌ : Act S A → (A → Act S B) → Act S B
  (first >>= next) s = and_then next (first s)

  -- A run that returns a value has run its first action to a value.
  pub and_then-eq-ok :
      (next : A → Act S B) (o : S × Result A) {s' : S} {b : B}
      → and_then next o ≡ (s', ok b)
      → (s : S) × (a : A) × (o ≡ (s, ok a)) × (next a s ≡ (s', ok b))
  and_then-eq-ok next (s, ok a) h = (s, a, refl, h)
  and_then-eq-ok next (s, err e) h = cc
  and_then-eq-ok next (s, panic) h = cc
