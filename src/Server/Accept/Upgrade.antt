-- ===== src/Server/Accept/Upgrade.antt =====
-- `accept_one` of src/server/mod.rs looks for the option `upgrade` in the Connection header: the
-- test holds for the comma-separated lists that name it.
use async_h.Base.{
  ◌≤◌, ◌≡◌, ◌≢◌, ◌↔◌, ◌⊎◌, inl, inr, refl, sym, ap, ◌∙◌, subst, true, false, Bool-cases, arith,
  List, [], ◌∷◌, ◌++◌, map, append-nil, ◌==◌,
}
use async_h.Base.Bytes.{Bytes, codes, equal, to_ascii_lowercase, eq_ignore_ascii_case, trim}
use async_h.Base.Bytes.Trim.{AllSpace, AllAbove, trim-cut, trim-word}
use async_h.Server.Accept.{split_comma, is_upgrade, any_upgrade, connection_header_is_upgrade}

abbrev pub NoComma : Bytes → Type 0
NoComma [] = Unit
NoComma (c ∷ s) = (c ≢ b',') × NoComma s

-- Nothing, or a comma and more options.
abbrev pub IsRest : Bytes → Type 0
IsRest rest = (rest ≡ []) ⊎ ((others : Bytes) × (rest ≡ b',' ∷ others))

-- A comma-separated list in which one option is the word `upgrade`, in letters of either case, with
-- white space around it or not.
pub data ListsUpgrade : Bytes → Type 0 where
  here :
      {value : Bytes} (left word right rest : Bytes)
      → AllSpace left
      → eq_ignore_ascii_case word (codes "upgrade") ≡ true
      → AllSpace right
      → IsRest rest
      → value ≡ left ++ word ++ right ++ rest
      → ListsUpgrade value
  later :
      {value : Bytes} (part others : Bytes)
      → NoComma part
      → value ≡ part ++ b',' ∷ others
      → ListsUpgrade others
      → ListsUpgrade value

-- What is cut at the first comma.
data IsCut (value part : Bytes) : List Bytes → Type 0 where
  whole : value ≡ part → IsCut value part []
  more :
      (others : Bytes) {parts : List Bytes}
      → value ≡ part ++ b',' ∷ others
      → parts ≡ (split_comma others).0 ∷ (split_comma others).1
      → IsCut value part parts

split_comma-IsCut :
    (value : Bytes)
    → IsCut value (split_comma value).0 (split_comma value).1 × NoComma (split_comma value).0
unfolding split_comma
split_comma-IsCut [] = (whole refl, tt)
split_comma-IsCut (c ∷ s) =
    let (cut, no_comma) = split_comma-IsCut s in
    elim (Bool-cases (c == b',')) [
      | inl comma ↦ rw comma (more s (ap (λ x. x ∷ s) (ground arith)) refl, tt)
      | inr other ↦ rw other (go cut, ((λ e. ground arith), no_comma))
    ]
  where
    go : {part : Bytes} {parts : List Bytes} → IsCut s part parts → IsCut (c ∷ s) (c ∷ part) parts
    go (whole e) = whole (ap (◌∷◌ c) e)
    go (more others e t) = more others (ap (◌∷◌ c) e) t

split_comma-part : (part : Bytes) → NoComma part → split_comma part ≡ (part, [])
unfolding split_comma
split_comma-part [] h = refl
split_comma-part (c ∷ part) h =
    let other : (c == b',') ≡ false = ground arith in rw (split_comma-part part h.1, other) refl

split_comma-append :
    (part others : Bytes)
    → NoComma part
    → split_comma (part ++ b',' ∷ others) ≡ (part, (split_comma others).0 ∷ (split_comma others).1)
unfolding split_comma
split_comma-append [] others h = refl
split_comma-append (c ∷ part) others h =
    let other : (c == b',') ≡ false = ground arith in
    rw (split_comma-append part others h.1, other) refl

abbrev AllLower : Bytes → Type 0
AllLower [] = Unit
AllLower (c ∷ s) = (97 ≤ c) × AllLower s

word-AllAbove :
    (word letters : Bytes)
    → equal (map to_ascii_lowercase word) letters ≡ true
    → AllLower letters
    → AllAbove word
unfolding equal to_ascii_lowercase
word-AllAbove [] letters e h = tt
word-AllAbove (c ∷ word) [] e h = absurd (cc)
word-AllAbove (c ∷ word) (l ∷ letters) e h =
    (ground (arith, h.0), word-AllAbove word letters (ground arith) h.1)

upgrade-AllAbove :
    (word : Bytes) → eq_ignore_ascii_case word (codes "upgrade") ≡ true → AllAbove word
unfolding eq_ignore_ascii_case to_ascii_lowercase
upgrade-AllAbove word e = word-AllAbove word (codes "upgrade") e (
  omega arith,
  (omega arith, (omega arith, (omega arith, (omega arith, (omega arith, (omega arith, tt)))))),
)

NoComma-space : (right : Bytes) → AllSpace right → NoComma right
NoComma-space [] r = tt
NoComma-space (c ∷ right) r = ((λ e. ground arith), NoComma-space right r.1)

NoComma-append : (a b : Bytes) → NoComma a → NoComma b → NoComma (a ++ b)
NoComma-append [] b n m = m
NoComma-append (c ∷ a) b n m = (n.0, NoComma-append a b n.1 m)

NoComma-word : (word : Bytes) → AllAbove word → NoComma word
NoComma-word [] h = tt
NoComma-word (c ∷ word) h = ((λ e. omega arith), NoComma-word word h.1)

option_here :
    (value part rest : Bytes)
    → value ≡ part ++ rest
    → IsRest rest
    → is_upgrade part ≡ true
    → ListsUpgrade value
unfolding is_upgrade
option_here value part rest e r h =
    let (left, right, pieces, l, r') = trim-cut part in
    here left (trim part) right rest l h r' r (e ∙ ap (λ (s : Bytes). s ++ rest) pieces)

abbrev CutOf : Bytes → List Bytes → Type 0
CutOf value [] = Unit
CutOf value (part ∷ parts) = IsCut value part parts × NoComma part

any_upgrade-ListsUpgrade :
    (parts : List Bytes) (value part : Bytes)
    → IsCut value part parts
    → NoComma part
    → any_upgrade (part ∷ parts) ≡ true
    → ListsUpgrade value
unfolding any_upgrade
any_upgrade-ListsUpgrade [] value part (whole e) n h =
    option_here value part [] (e ∙ sym (append-nil part)) (inl refl) (ground arith)
any_upgrade-ListsUpgrade [] value part (more others e t) n h = cc
any_upgrade-ListsUpgrade (p ∷ parts) value part (more others e t) n h =
    elim (Bool-cases (is_upgrade part)) [
      | inl option ↦ option_here value part (b',' ∷ others) e (inr (others, refl)) option
      | inr other ↦
          let (cut, n') = subst (CutOf others) (sym t) (split_comma-IsCut others) in
          later part others n e (any_upgrade-ListsUpgrade parts others p cut n' (rw other at h))
    ]

option_found :
    {value : Bytes} (rest : Bytes)
    → IsRest rest
    → (part : Bytes) → NoComma part
    → value ≡ part ++ rest
    → is_upgrade part ≡ true
    → connection_header_is_upgrade value ≡ true
unfolding connection_header_is_upgrade any_upgrade
option_found {value} rest (inl nil) part n e option =
    let all : value ≡ part = e ∙ ap (λ (s : Bytes). part ++ s) nil ∙ append-nil part in
    rw (ap split_comma all ∙ split_comma-part part n, option) refl
option_found {value} rest (inr (others, comma)) part n e option =
    rw
      (
        ap split_comma (e ∙ ap (λ (s : Bytes). part ++ s) comma) ∙ split_comma-append part others n,
        option,
      )
      refl

ListsUpgrade-any_upgrade :
    {value : Bytes} → ListsUpgrade value → connection_header_is_upgrade value ≡ true
unfolding connection_header_is_upgrade any_upgrade is_upgrade
ListsUpgrade-any_upgrade (here left word right rest l option r is_rest e) =
    let above = upgrade-AllAbove word option in
    let part : Bytes = left ++ word ++ right in
    let no_comma =
      NoComma-append (left ++ word) right
        (NoComma-append left word (NoComma-space left l) (NoComma-word word above))
        (NoComma-space right r) in
    let trimmed = trim-word left word right l above r in
    option_found rest is_rest part no_comma e
      (ap (λ w. eq_ignore_ascii_case w (codes "upgrade")) trimmed ∙ option)
ListsUpgrade-any_upgrade (later part others n e lists) =
    rw (ap split_comma e ∙ split_comma-append part others n)
      (ground (arith, ListsUpgrade-any_upgrade lists))

-- The test of the Connection header holds exactly for the comma-separated lists in which an option
-- is `upgrade`, in letters of either case and with white space around it or not.
pub connection_header_is_upgrade_iff :
    (value : Bytes) → (connection_header_is_upgrade value ≡ true) ↔ ListsUpgrade value
unfolding connection_header_is_upgrade
connection_header_is_upgrade_iff value = (
  λ h.
      any_upgrade-ListsUpgrade (split_comma value).1 value (split_comma value).0
        (split_comma-IsCut value).0 (split_comma-IsCut value).1 h,
  ListsUpgrade-any_upgrade,
)
