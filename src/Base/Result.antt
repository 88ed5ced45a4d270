-- ===== src/Base/Result.antt =====
-- The outcome of code that may raise: a value, or the class of the exception.
use mathlib.Core.Path.{◌≡◌, refl}
use mathlib.Core.Bool.{Bool, true, false}

pub data Error : Type 0 where
  assertion_error attribute_error index_error value_error key_error type_error : Error
  ks_type_error not_implemented parse_error : Error

pub data Result {ℓ} (A : Type ℓ) : Type ℓ where
  err : Error → Result A
  ok : A → Result A

-- `if not test: raise e`, and `assert test`.
abbrev pub require : Bool → Error → Result (Unit {0})
require false e = err e
require true e = ok tt

infixl 5 ◌>>=◌ ◌>>◌
abbrev pub ◌>>=◌ {ℓ κ} :
    {A : Type ℓ} {B : Type κ} (first : Result A) (next : A → Result B) → Result B
err e >>= next = err e
ok a >>= next = next a

-- A chain that succeeds is a success followed by a success.
pub >>=-eq-ok {ℓ κ} :
    {A : Type ℓ} {B : Type κ} (first : Result A) (next : A → Result B) {b : B}
    → (first >>= next) ≡ ok b
    → (a : A) × (first ≡ ok a) × (next a ≡ ok b)
>>=-eq-ok (err e) next h = cc
>>=-eq-ok (ok a) next h = (a, refl, h)

abbrev pub map_ok {ℓ κ} : {A : Type ℓ} {B : Type κ} → (A → B) → Result A → Result B
map_ok f (err e) = err e
map_ok f (ok a) = ok (f a)

abbrev pub ◌>>◌ {ℓ} : {B : Type ℓ} (check : Result (Unit {0})) (rest : Result B) → Result B
check >> rest = check >>= λ _. rest

-- `a and b` on tests that may raise: the second is not run when the first is false.
abbrev pub and_then : Result Bool → Result Bool → Result Bool
and_then (ok true) r = r
and_then (ok false) r = ok false
and_then (err e) r = err e

pub require-eq-ok : (b : Bool) (e : Error) {u : Unit {0}} → require b e ≡ ok u → b ≡ true
require-eq-ok true e h = refl
require-eq-ok false e h = cc
