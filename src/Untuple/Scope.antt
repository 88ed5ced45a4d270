-- ===== src/Untuple/Scope.antt =====
-- Names that an expression does not use, and the environments that agree on the rest: the lemmas
-- behind the meaning of src/python/ksc/untuple_lets.py.
use knossos_ksc.Base.{
  ◌≡◌, ◌∙◌, sym, true, false, List, [], ◌∷◌, ◌++◌, &&-left, Bool-cases, inl, inr, ||-left_false,
  ||-right_false,
}
use knossos_ksc.Base.Text.{Text, text_eq, text_eq_refl, text_eq→eq, elem, elem-append, elem-remove}
use knossos_ksc.Expr.{remove_all}
use knossos_ksc.Expr.Meaning.{Env, update, Agree}

pub in_rest : (y : Text) (xs ys : List Text) → elem y (xs ++ ys) ≡ false → elem y ys ≡ false
in_rest y xs ys h = ||-right_false (elem y xs) _ (sym (elem-append y xs ys) ∙ h)

-- A binding of a name that is not among those in use changes nothing.
pub Agree-unused :
    {V : Type 0} (x : Text) (v : V) (xs : List Text) (env env' : Env V)
    → elem x xs ≡ false
    → Agree xs env env'
    → Agree xs env (update env' x v)
Agree-unused x v xs env env' unused h y used = elim (Bool-cases (text_eq x y)) [
  | inl e ↦ absurd (cc (used, unused, text_eq→eq x y e))
  | inr e ↦ rw e (h y used)
]

pub not_bound :
    (z : Text) (ns : List Text)
    → ((y : Text) → elem y ns ≡ true → elem y (z ∷ []) ≡ false)
    → elem z ns ≡ false
not_bound z ns apart = elim (Bool-cases (elem z ns)) [
  | inl h ↦ absurd (cc (||-left_false (text_eq z z) _ (apart z h), text_eq_refl z))
  | inr h ↦ h
]

elem-remove_all :
    (y : Text) (ns xs : List Text) → elem y (remove_all ns xs) ≡ true → elem y xs ≡ true
elem-remove_all y [] xs h = h
elem-remove_all y (n ∷ ns) xs h =
    elem-remove_all y ns xs (&&-left _ _ (sym (elem-remove y n (remove_all ns xs)) ∙ h))

pub Agree-within :
    {V : Type 0} (ns xs : List Text) {env env' : Env V}
    → Agree xs env env'
    → Agree (remove_all ns xs) env env'
Agree-within ns xs h y used = h y (elem-remove_all y ns xs used)
