-- ===== src/Alpha.antt =====
-- src/python/ksc/alpha_equiv.py and filter_term.py: equality of expressions up to the names of
-- bound variables, and the hash that is to respect it. Python's `is`, its `==` on constants and
-- its hashes are parameters.
pub mod Same
pub mod Sound
pub mod Order
pub mod Hash
use knossos_ksc.Base.{
  ℕ, ◌≡◌, Bool, true, false, ◌&&◌, Option, none, some, List, [], ◌∷◌, if◌then◌else◌, all, ◌==◌,
  length,
}
use knossos_ksc.Base.Text.{Text, text_eq}
use knossos_ksc.Base.Result.{Result, ok, err, assertion_error, attribute_error, ◌>>=◌, and_then}
use knossos_ksc.Base.Assoc.{Dict, text_key, lookup, insert}
use knossos_ksc.Names.{StructuredName, sname_eq}
use knossos_ksc.Expr.{
  Constant, Var, Binder, one, many, Expr, Exprs, const, var, call, lam, let_in, if_else, assert,
  no_args, arg, args_list, free_vars,
}

-- `FilterTerm`: a subclass of Expr, the value of a constant, or the name of a call.
pub data FilterTerm : Type 0 where
  var_class lam_class let_class if_class assert_class : FilterTerm
  value : Constant → FilterTerm
  call_name : StructuredName → FilterTerm

unfoldable pub get_filter_term : Expr → FilterTerm
get_filter_term (const c) = value c
get_filter_term (var x) = var_class
get_filter_term (call f args t) = call_name f
get_filter_term (lam x body t) = lam_class
get_filter_term (let_in b rhs body t) = let_class
get_filter_term (if_else c t f ty) = if_class
get_filter_term (assert c b ty) = assert_class

-- `BoundVarBijection`.
pub record BoundVarBijection : Type 0 where
  pub left_to_right : Dict Text Text
  pub right_to_left : Dict Text Text

abbrev pub no_vars : BoundVarBijection
no_vars = record { left_to_right = []; right_to_left = [] }

abbrev get : Option Text → Text → Text
get none x = x
get (some y) x = y

unfoldable pub vars_equal : BoundVarBijection → Text → Text → Bool
vars_equal vm left right =
    text_eq (get (lookup left vm.left_to_right) left) right
    && text_eq (get (lookup right vm.right_to_left) right) left

unfoldable pub add_var : BoundVarBijection → Text → Text → BoundVarBijection
add_var vm left right = record {
  left_to_right = insert left right vm.left_to_right;
  right_to_left = insert right left vm.right_to_left;
}

-- `py_eq` is `==` on constants.
module _ (py_eq : Constant → Constant → Bool) where
  -- `==` on filter terms.
  unfoldable pub filter_eq : FilterTerm → FilterTerm → Result Bool
  filter_eq var_class var_class = ok true
  filter_eq lam_class lam_class = ok true
  filter_eq let_class let_class = ok true
  filter_eq if_class if_class = ok true
  filter_eq assert_class assert_class = ok true
  filter_eq (value c) (value d) = ok (py_eq c d)
  filter_eq (call_name f) (call_name g) = sname_eq f g
  filter_eq _ _ = ok false

  -- The default case, on the filter terms and then on the comparison of the children.
  abbrev pub same_head : Expr → Expr → Result Bool → Result Bool
  same_head left right children =
      filter_eq (get_filter_term left) (get_filter_term right) >>= λ same.
      if same then children else ok false

-- `py_is` is the identity of objects.
module _ (py_is : Expr → Expr → Bool) (py_eq : Constant → Constant → Bool) where
  -- `left is right`: the answer without a traversal. Otherwise `_alpha_equivalence_helper`.
  abbrev pub fast_path : Expr → Expr → BoundVarBijection → Result Bool → Result Bool
  fast_path left right vm slow =
      if py_is left right then ok (all (λ v. vars_equal vm v v) (free_vars left)) else slow

  -- `_alpha_equivalence_helper`, on a left side of each class.
  unfoldable mutual
    pub alpha_helper : Expr → Expr → BoundVarBijection → Result Bool
    alpha_helper (var x) (var y) vm = ok (vars_equal vm x.name y.name)
    alpha_helper (var x) right vm = ok false
    alpha_helper (let_in (one x) r e t) (let_in (one y) r' e' t') vm =
        let vm' = add_var vm x.name y.name in
        and_then (fast_path r r' vm (alpha_helper r r' vm))
          (fast_path e e' vm' (alpha_helper e e' vm'))
    alpha_helper (let_in (one x) r e t) (let_in (many y ys) r' e' t') vm = err assertion_error
    alpha_helper (let_in (many x xs) r e t) (let_in b' r' e' t') vm = err assertion_error
    alpha_helper (let_in b r e t) right vm = ok false
    alpha_helper (lam x e t) (lam y e' t') vm =
        let vm' = add_var vm x.name y.name in fast_path e e' vm' (alpha_helper e e' vm')
    alpha_helper (lam x e t) right vm = err attribute_error
    alpha_helper (const c) right vm = same_head py_eq (const c) right (ok true)
    alpha_helper (call f args t) (call g args' t') vm =
        same_head py_eq (call f args t) (call g args' t') (
          if length (args_list args) == length (args_list args')
          then all_alpha args args' vm
          else ok false)
    alpha_helper (call f args t) right vm = same_head py_eq (call f args t) right (ok false)
    alpha_helper (if_else c t f ty) (if_else c' t' f' ty') vm =
        and_then (fast_path c c' vm (alpha_helper c c' vm)) (
          and_then (fast_path t t' vm (alpha_helper t t' vm))
            (fast_path f f' vm (alpha_helper f f' vm)))
    alpha_helper (if_else c t f ty) right vm = ok false
    alpha_helper (assert c b ty) (assert c' b' ty') vm =
        and_then (fast_path c c' vm (alpha_helper c c' vm))
          (fast_path b b' vm (alpha_helper b b' vm))
    alpha_helper (assert c b ty) right vm = ok false

    -- `all(…)` on the arguments of two calls.
    pub all_alpha : Exprs → Exprs → BoundVarBijection → Result Bool
    all_alpha no_args args' vm = ok true
    all_alpha (arg e es) no_args vm = ok true
    all_alpha (arg e es) (arg e' es') vm =
        and_then (fast_path e e' vm (alpha_helper e e' vm)) (all_alpha es es' vm)

  -- `_are_equiv_with_varmap`.
  unfoldable pub are_equiv : Expr → Expr → BoundVarBijection → Result Bool
  are_equiv left right vm = fast_path left right vm (alpha_helper left right vm)

  unfoldable pub are_alpha_equivalent : Expr → Expr → Result Bool
  unfolding are_equiv
  are_alpha_equivalent left right = are_equiv left right no_vars
