-- ===== src/Alpha/Order.antt =====
-- src/python/ksc/alpha_equiv.py: comparing a function with an expression of another class.
use knossos_ksc.Base.{◌≡◌, refl, Bool, true, false, Option, Bool-cases, inl, inr}
use knossos_ksc.Base.Result.{ok, err, attribute_error}
use knossos_ksc.Types.Defs.{KsType}
use knossos_ksc.Expr.{Var, one, many, Expr, lam, let_in}
use knossos_ksc.Alpha.{are_alpha_equivalent, alpha_helper, filter_eq, get_filter_term, no_vars}
use knossos_ksc.Alpha.Same.{Python}

unfoldable pub is_lam : Expr → Bool
is_lam (lam x body t) = true
is_lam _ = false

helper_lam :
    (py : Python) (x : Var) (body r : Expr) (t : Option KsType)
    → is_lam r ≡ false
    → (alpha_helper py.same py.equal (lam x body t) r no_vars ≡ err attribute_error)
      × (alpha_helper py.same py.equal r (lam x body t) no_vars ≡ ok false)
unfolding alpha_helper filter_eq get_filter_term is_lam
helper_lam py x body (lam y b u) t h = cc
helper_lam py x body (let_in (one y) e b u) t h = (refl, refl)
helper_lam py x body (let_in (many y ys) e b u) t h = (refl, refl)
helper_lam py x body _ t h = (refl, refl)

not_same : (py : Python) (a b : Expr) → is_lam a ≡ true → is_lam b ≡ false → py.same a b ≡ false
not_same py a b h k = elim (Bool-cases (py.same a b)) [
  | inl e ↦ cc (py.same_sound a b e)
  | inr e ↦ e
]

not_same' : (py : Python) (a b : Expr) → is_lam a ≡ true → is_lam b ≡ false → py.same b a ≡ false
not_same' py a b h k = elim (Bool-cases (py.same b a)) [
  | inl e ↦ cc (py.same_sound b a e)
  | inr e ↦ e
]

-- A lambda on the left and anything else on the right raises AttributeError, where the same two
-- the other way round are found not to be equivalent.
pub are_alpha_equivalent-lam :
    (py : Python) (x : Var) (body r : Expr) (t : Option KsType)
    → is_lam r ≡ false
    → (are_alpha_equivalent py.same py.equal (lam x body t) r ≡ err attribute_error)
      × (are_alpha_equivalent py.same py.equal r (lam x body t) ≡ ok false)
unfolding are_alpha_equivalent is_lam
are_alpha_equivalent-lam py x body r t h =
    let (left, right) = helper_lam py x body r t h in
    (rw (not_same py (lam x body t) r refl h) left, rw (not_same' py (lam x body t) r refl h) right)
