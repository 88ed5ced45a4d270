-- ===== src/Base/Decimal.antt =====
-- Decimal numerals: `str(n)` and `int(s)` on natural numbers.
use Prim.Native.Nat.{ℕ, zero, suc, ◌+◌, ◌-◌, ◌*◌, ◌/◌, ◌%◌, ◌<◌}
use mathlib.Core.Path.{◌≡◌, refl, ◌∙◌, ap}
use mathlib.Core.Logic.{inl, inr}
use mathlib.Core.Bool.{Bool, true, ◌&&◌}
use mathlib.Core.List.{[], ◌∷◌}
use native.Mathlib.Omega.{arith}
use knossos_ksc.Base.Tests.{leb, ltb, if◌then◌else◌, Bool-cases}
use knossos_ksc.Base.Lists.{all}
use knossos_ksc.Base.Text.{Text}

-- The digits of `n` in front of `rest`, in `f` rounds at most.
print_onto : ℕ → ℕ → Text → Text
print_onto zero n rest = rest
print_onto (suc f) n rest =
    let digit = (48 + n % 10) ∷ rest in
    let more = print_onto f (n / 10) digit in if ltb n 10 then digit else more

-- `str(n)`.
unfoldable pub print : ℕ → Text
unfolding print_onto
print n = print_onto (suc n) n []

abbrev pub is_digit : ℕ → Bool
is_digit c = leb b'0' c && leb c b'9'

-- `int(s)` on a text of digits, from the value of the digits already read.
unfoldable pub value_from : ℕ → Text → ℕ
value_from acc [] = acc
value_from acc (c ∷ s) = value_from (10 * acc + (c - 48)) s

unfoldable pub value : Text → ℕ
unfolding value_from
value s = value_from 0 s

value_from-print_onto :
    (f n : ℕ) (rest : Text) → n < f → value_from 0 (print_onto f n rest) ≡ value_from n rest
unfolding print_onto value_from
value_from-print_onto zero n rest h = elim h [ ]
value_from-print_onto (suc f) n rest h = elim (Bool-cases (ltb n 10)) [
  | inl small ↦ rw small (ap (λ k. value_from k rest) (ground arith))
  | inr big ↦ rw big (
      value_from-print_onto f (n / 10) _ (ground arith) ∙ ap (λ k. value_from k rest) (omega arith))
]

-- Reading a printed number gives the number.
pub value-print : (n : ℕ) → value (print n) ≡ n
unfolding value print value_from
value-print n = value_from-print_onto (suc n) n [] (omega arith)

pub print-injective : (m n : ℕ) → print m ≡ print n → m ≡ n
print-injective m n h = cc (value-print m, value-print n, h)

all-print_onto :
    (f n : ℕ) (rest : Text) → all is_digit rest ≡ true → all is_digit (print_onto f n rest) ≡ true
unfolding print_onto
all-print_onto zero n rest h = h
all-print_onto (suc f) n rest h = ground (arith, all-print_onto f (n / 10) ((48 + n % 10) ∷ rest))

pub all-print : (n : ℕ) → all is_digit (print n) ≡ true
unfolding print
all-print n = all-print_onto (suc n) n [] refl

print_onto-cons :
    (f n c : ℕ) (rest : Text) → (d : ℕ) × (ds : Text) × (print_onto f n (c ∷ rest) ≡ d ∷ ds)
unfolding print_onto
print_onto-cons zero n c rest = (c, rest, refl)
print_onto-cons (suc f) n c rest = elim (Bool-cases (ltb n 10)) [
  | inl small ↦ (48 + n % 10, c ∷ rest, rw small refl)
  | inr big ↦ rw big (print_onto-cons f (n / 10) (48 + n % 10) (c ∷ rest))
]

-- A numeral has a digit.
pub print-cons : (n : ℕ) → (d : ℕ) × (ds : Text) × (print n ≡ d ∷ ds)
unfolding print print_onto
print-cons n = elim (Bool-cases (ltb n 10)) [
  | inl small ↦ (48 + n % 10, [], rw small refl)
  | inr big ↦ rw big (print_onto-cons n (n / 10) (48 + n % 10) [])
]

test_print : print 1204 ≡ 49 ∷ 50 ∷ 48 ∷ 52 ∷ []
unfolding print
test_print = refl
