-- ===== src/Base/Bytes/Trim.antt =====
-- What `str::trim` leaves of a string.
use Prim.Native.Nat.{◌≤◌}
use mathlib.Core.Path.{◌≡◌, refl, sym, ap, ◌∙◌}
use mathlib.Core.Logic.{inl, inr}
use mathlib.Core.Bool.{true, false}
use mathlib.Core.List.{[], ◌∷◌, ◌++◌, append_assoc}
use native.Mathlib.Omega.{arith}
use async_h.Base.Tests.{Bool-cases, if◌then◌else◌}
use async_h.Base.Bytes.{Bytes, is_whitespace, trim_start, trim_end, trim}

abbrev pub AllSpace : Bytes → Type 0
AllSpace [] = Unit
AllSpace (c ∷ s) = (is_whitespace c ≡ true) × AllSpace s

-- Every byte is at least `A`, so none is white space.
abbrev pub AllAbove : Bytes → Type 0
AllAbove [] = Unit
AllAbove (c ∷ s) = (65 ≤ c) × AllAbove s

trim_start-cut : (s : Bytes) → (left : Bytes) × (s ≡ left ++ trim_start s) × AllSpace left
unfolding trim_start
trim_start-cut [] = ([], refl, tt)
trim_start-cut (c ∷ s) =
    let (left, whole, spaces) = trim_start-cut s in
    elim (Bool-cases (is_whitespace c)) [
      | inl space ↦ rw space (c ∷ left, ap (◌∷◌ c) whole, (space, spaces))
      | inr other ↦ rw other ([], refl, tt)
    ]

trim_end-cut : (s : Bytes) → (right : Bytes) × (s ≡ trim_end s ++ right) × AllSpace right
unfolding trim_end
trim_end-cut [] = ([], refl, tt)
trim_end-cut (c ∷ s) =
    let (right, whole, spaces) = trim_end-cut s in go (trim_end s) right whole spaces
  where
    go :
        (rest right : Bytes)
        → s ≡ rest ++ right
        → AllSpace right
        → (right' : Bytes) × (c ∷ s
            ≡ (elim rest [ [] ↦ if is_whitespace c then [] else c ∷ [] | d ∷ r ↦ c ∷ d ∷ r ])
              ++ right')
          × AllSpace right'
    go [] right whole spaces = elim (Bool-cases (is_whitespace c)) [
      | inl space ↦ rw space (c ∷ right, ap (◌∷◌ c) whole, (space, spaces))
      | inr other ↦ rw other (right, ap (◌∷◌ c) whole, spaces)
    ]
    go (d ∷ r) right whole spaces = (right, ap (◌∷◌ c) whole, spaces)

-- It takes away white space on both sides.
pub trim-cut :
    (s : Bytes)
    → (left right : Bytes) × (s ≡ left ++ trim s ++ right) × AllSpace left × AllSpace right
unfolding trim
trim-cut s =
    let (left, front, spaces) = trim_start-cut s in
    let (right, back, spaces') = trim_end-cut (trim_start s) in
    (
      left,
      right,
      front
          ∙ ap (λ (t : Bytes). left ++ t) back
          ∙ sym (append_assoc left (trim_end (trim_start s)) right),
      spaces,
      spaces',
    )

trim_end-AllSpace : (right : Bytes) → AllSpace right → trim_end right ≡ []
unfolding trim_end
trim_end-AllSpace [] h = refl
trim_end-AllSpace (c ∷ s) h = rw (trim_end-AllSpace s h.1, h.0) refl

trim_end-word :
    (word right : Bytes) → AllAbove word → AllSpace right → trim_end (word ++ right) ≡ word
unfolding trim_end
trim_end-word [] right above spaces = trim_end-AllSpace right spaces
trim_end-word (c ∷ word) right above spaces = rw (trim_end-word word right above.1 spaces) (go word)
  where
    go :
        (rest : Bytes)
        → (elim rest [ [] ↦ if is_whitespace c then [] else c ∷ [] | d ∷ r ↦ c ∷ d ∷ r ]) ≡ c ∷ rest
    go [] = ground arith
    go (d ∷ r) = refl

trim_start-word :
    (left word right : Bytes)
    → AllSpace left
    → AllAbove word
    → AllSpace right
    → trim_end (trim_start (left ++ word ++ right)) ≡ word
unfolding trim_start
trim_start-word [] [] [] l above r = trim_end-AllSpace [] tt
trim_start-word [] [] (c ∷ right) l above r = rw r.0 (trim_start-word [] [] right tt tt r.1)
trim_start-word [] (c ∷ word) right l above r =
    let other : is_whitespace c ≡ false = ground arith in
    rw other (trim_end-word (c ∷ word) right above r)
trim_start-word (c ∷ left) word right l above r =
    rw l.0 (trim_start-word left word right l.1 above r)

-- It leaves a word that has no white space around it.
pub trim-word :
    (left word right : Bytes)
    → AllSpace left
    → AllAbove word
    → AllSpace right
    → trim (left ++ word ++ right) ≡ word
unfolding trim
trim-word left word right l above r = trim_start-word left word right l above r
