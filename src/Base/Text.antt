-- ===== src/Base/Text.antt =====
-- Python strings as lists of code points, and sets of them as lists of which only membership is
-- read.
use Prim.Native.Nat.{ℕ}
use Prim.Native.Char.{code}
use Prim.Native.String.{String}
use mathlib.Core.Path.{◌≡◌, refl, ap₂}
use mathlib.Core.Logic.{◌↔◌, inl, inr, ◌≢◌}
use mathlib.Core.Bool.{Bool, true, false, ◌&&◌, ◌||◌, not}
use mathlib.Core.List.{List, [], ◌∷◌, ◌++◌}
use native.Mathlib.Omega.{arith}
use knossos_ksc.Base.Tests.{◌==◌, ==_iff, Bool-cases, &&-left, &&-right, if◌then◌else◌}
use knossos_ksc.Base.Lists.{all, any, any-append}

abbrev pub Text : Type 0
Text = List ℕ

-- The code points of a literal.
abbrev pub text : String → Text
text String.[] = []
text (String.◌∷◌ c s) = code c ∷ text s

unfoldable pub text_eq : Text → Text → Bool
text_eq [] [] = true
text_eq [] (d ∷ t) = false
text_eq (c ∷ s) [] = false
text_eq (c ∷ s) (d ∷ t) = (c == d) && text_eq s t

pub text_eq_refl : (s : Text) → text_eq s s ≡ true
unfolding text_eq
text_eq_refl [] = refl
text_eq_refl (c ∷ s) = ground (arith, text_eq_refl s)

pub text_eq→eq : (s t : Text) → text_eq s t ≡ true → s ≡ t
unfolding text_eq
text_eq→eq [] [] h = refl
text_eq→eq [] (d ∷ t) h = cc
text_eq→eq (c ∷ s) [] h = cc
text_eq→eq (c ∷ s) (d ∷ t) h =
    ap₂ ◌∷◌ ((==_iff c d).0 (&&-left _ _ h)) (text_eq→eq s t (&&-right (c == d) _ h))

pub text_eq_iff : (s t : Text) → (text_eq s t ≡ true) ↔ (s ≡ t)
text_eq_iff s t = (text_eq→eq s t, λ e. cc (e, text_eq_refl t))

pub text_eq_ne : (s t : Text) → s ≢ t → text_eq s t ≡ false
text_eq_ne s t h = elim (Bool-cases (text_eq s t)) [
  | inl e ↦ absurd (h (text_eq→eq s t e))
  | inr e ↦ e
]

pub text_eq→ne : (s t : Text) → text_eq s t ≡ false → s ≢ t
text_eq→ne s t h e = cc (h, (text_eq_iff s t).1 e)

pub text_eq_comm : (s t : Text) → text_eq s t ≡ text_eq t s
unfolding text_eq
text_eq_comm [] [] = refl
text_eq_comm [] (d ∷ t) = refl
text_eq_comm (c ∷ s) [] = refl
text_eq_comm (c ∷ s) (d ∷ t) = ground (arith, text_eq_comm s t)

-- `name in names`.
abbrev pub elem : Text → List Text → Bool
elem x xs = any (text_eq x) xs

-- `names - {name}`.
unfoldable pub remove : Text → List Text → List Text
remove x [] = []
remove x (y ∷ ys) = let rest = remove x ys in if text_eq x y then rest else y ∷ rest

pub elem-append : (x : Text) (xs ys : List Text) → elem x (xs ++ ys) ≡ (elem x xs || elem x ys)
elem-append x xs ys = any-append (text_eq x) xs ys

pub elem-remove :
    (x y : Text) (ys : List Text) → elem x (remove y ys) ≡ (elem x ys && not (text_eq x y))
unfolding remove
elem-remove x y [] = refl
elem-remove x y (z ∷ ys) = elim (Bool-cases (text_eq y z)) [
  | inl e ↦ rw (e, ← text_eq→eq y z e) (ground (arith, elem-remove x y ys))
  | inr e ↦ elim (Bool-cases (text_eq x z)) [
    | inl f ↦ rw (e, f, text_eq→eq x z f, text_eq_comm z y, e) refl
    | inr f ↦ rw (e, f) (elem-remove x y ys)
  ]
]

-- What holds of every name of a list holds of one that is in it.
pub all_at :
    (p : Text → Bool) (xs : List Text) (y : Text) → all p xs ≡ true → elem y xs ≡ true → p y ≡ true
all_at p [] y h at = cc
all_at p (x ∷ xs) y h at = elim (Bool-cases (text_eq y x)) [
  | inl e ↦ rw (text_eq→eq y x e) (&&-left _ _ h)
  | inr e ↦ all_at p xs y (&&-right (p x) _ h) (rw e at at)
]
