-- ===== src/Base/Results.antt =====
-- `Result`: a value, an error, or a panic of the thread. The errors of `http_types` that the code
-- raises, one constructor for each message; those that foreign code raises carry a number.
use mathlib.Core.Path.{◌≡◌, refl}
use mathlib.Core.Logic.{◌≢◌}
use mathlib.Core.Bool.{Bool, true, false}
use mathlib.Core.Option.{Option, none, some}
use Prim.Native.Nat.{ℕ}
use async_h.Base.Tests.{if◌then◌else◌}

pub data Error : Type 0 where
  not_imf_fixdate not_rfc850 not_rfc950 not_asctime invalid_month invalid_day : Error
  not_ascii invalid_date_time parse_int utf8 : Error
  head_too_long malformed_head no_method no_version unsupported_version : Error
  no_uri host_missing unexpected_uri content_length_conflict : Error
  connection_closed empty_response no_status_code : Error
  foreign : ℕ → Error

pub data Result {ℓ} (A : Type ℓ) : Type ℓ where
  ok : A → Result A
  err : Error → Result A
  panic : Result A

infixl 5 ◌>>=◌ ◌>>◌
abbrev pub ◌>>=◌ {ℓ κ} : {V : Type ℓ} {W : Type κ} → Result V → (V → Result W) → Result W
panic >>= next = panic
err why >>= next = err why
ok value >>= next = next value

abbrev pub ◌>>◌ {κ} : {W : Type κ} → Result (Unit {0}) → Result W → Result W
first >> second = first >>= λ _. second

-- `ensure!(b, e)`
abbrev pub ensure : Bool → Error → Result (Unit {0})
ensure false why = err why
ensure true why = ok tt

-- `r.or_else(|_| other)`
abbrev pub or_else {ℓ} : {A : Type ℓ} → Result A → Result A → Result A
or_else (ok a) other = ok a
or_else (err e) other = other
or_else panic other = panic

-- `o.ok_or_else(|| e)?`
abbrev pub ok_or {ℓ} : {A : Type ℓ} → Option A → Error → Result A
ok_or none e = err e
ok_or (some a) e = ok a

pub >>=-eq-ok {ℓ κ} :
    {V : Type ℓ} {W : Type κ} (m : Result V) (next : V → Result W) {w : W}
    → (m >>= next) ≡ ok w
    → (value : V) × (m ≡ ok value) × (next value ≡ ok w)
>>=-eq-ok panic next h = cc
>>=-eq-ok (err why) next h = cc
>>=-eq-ok (ok value) next h = (value, refl, h)

pub >>-eq-ok {ℓ} :
    {B : Type ℓ} (m : Result (Unit {0})) (k : Result B) {b : B}
    → (m >> k) ≡ ok b
    → (m ≡ ok tt) × (k ≡ ok b)
>>-eq-ok (ok tt) k h = (refl, h)
>>-eq-ok (err e) k h = cc
>>-eq-ok panic k h = cc

pub ensure-eq-ok : (b : Bool) (e : Error) → ensure b e ≡ ok tt → b ≡ true
ensure-eq-ok true e h = refl
ensure-eq-ok false e h = cc

pub ok_or-eq-ok : {A : Type 0} (o : Option A) (e : Error) {a : A} → ok_or o e ≡ ok a → o ≡ some a
ok_or-eq-ok none e h = cc
ok_or-eq-ok (some a) e h = cc

-- The run does not panic.
pub record IsSafe {ℓ} {A : Type ℓ} (r : Result A) : Type ℓ where
  pub no_panic : r ≢ panic

module _ {ℓ} {A : Type ℓ} where
  pub IsSafe-ok : (a : A) → IsSafe (ok a)
  IsSafe-ok a = record { no_panic = λ h. cc }

  pub IsSafe-err : (e : Error) → IsSafe {A = A} (err e)
  IsSafe-err e = record { no_panic = λ h. cc }

  pub IsSafe-or_else : (m k : Result A) → IsSafe m → IsSafe k → IsSafe (or_else m k)
  IsSafe-or_else (ok a) k h g = h
  IsSafe-or_else (err e) k h g = g
  IsSafe-or_else panic k h g = h

  pub IsSafe-ok_or : (o : Option A) (e : Error) → IsSafe (ok_or o e)
  IsSafe-ok_or none e = IsSafe-err e
  IsSafe-ok_or (some a) e = IsSafe-ok a

pub IsSafe-bind {ℓ κ} :
    {A : Type ℓ} {B : Type κ} (m : Result A) (f : A → Result B)
    → IsSafe m
    → ((a : A) → m ≡ ok a → IsSafe (f a))
    → IsSafe (m >>= f)
IsSafe-bind (ok a) f h k = k a refl
IsSafe-bind (err e) f h k = IsSafe-err e
IsSafe-bind panic f h k = absurd (h.no_panic refl)

pub IsSafe-ensure {ℓ} :
    {B : Type ℓ} (b : Bool) (e : Error) (k : Result B)
    → (b ≡ true → IsSafe k)
    → IsSafe (ensure b e >> k)
IsSafe-ensure true e k h = h refl
IsSafe-ensure false e k h = IsSafe-err e

pub IsSafe-if {ℓ} :
    {A : Type ℓ} (b : Bool) (x y : Result A) → IsSafe x → IsSafe y → IsSafe (if b then x else y)
IsSafe-if true x y p q = p
IsSafe-if false x y p q = q

pub ruleset safe_rules =
    (IsSafe-ok, IsSafe-err, IsSafe-or_else, IsSafe-ok_or, IsSafe-bind, IsSafe-ensure)
