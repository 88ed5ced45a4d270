-- ===== src/Alpha/Same.antt =====
-- src/python/ksc/alpha_equiv.py: the fast path on identical objects, and an expression compared
-- with itself.
use knossos_ksc.Base.{
  ◌≡◌, refl, sym, ap, ap₂, ◌∙◌, Bool, true, false, ◌&&◌, List, [], ◌∷◌, ◌++◌, arith, if◌then◌else◌,
  all, all-append, ◌==◌, ==_refl, length, Bool-cases, inl, inr, &&-left, &&-right, &&-both,
}
use knossos_ksc.Base.Text.{Text, text_eq, text_eq_refl, remove}
use knossos_ksc.Base.Result.{Result, ok, and_then}
use knossos_ksc.Base.Assoc.{text_key, lookup, lookup-insert}
use knossos_ksc.Names.Laws.{sname_eq_refl}
use knossos_ksc.Expr.{
  Constant, one, many, Expr, Exprs, const, var, call, lam, let_in, if_else, assert, no_args, arg,
  args_list, free_vars, free_vars_args,
}
use knossos_ksc.Alpha.{
  BoundVarBijection, vars_equal, add_var, get_filter_term, filter_eq, fast_path, same_head,
  alpha_helper, all_alpha, are_equiv, are_alpha_equivalent, no_vars,
}

-- No two objects are the same: every comparison takes the traversal.
abbrev pub never : Expr → Expr → Bool
never a b = false

abbrev pub self_equal : BoundVarBijection → Text → Bool
self_equal vm v = vars_equal vm v v

self_equal-add_var :
    (vm : BoundVarBijection) (x v : Text)
    → self_equal (add_var vm x x) v ≡ (if text_eq x v then true else self_equal vm v)
unfolding vars_equal add_var
self_equal-add_var vm x v =
    rw (lookup-insert x v x vm.left_to_right, lookup-insert x v x vm.right_to_left)
      (elim (Bool-cases (text_eq x v)) [ inl e ↦ rw (e, e) refl | inr e ↦ rw e ])

all-add_var :
    (vm : BoundVarBijection) (x : Text) (xs : List Text)
    → all (self_equal (add_var vm x x)) xs ≡ all (self_equal vm) (remove x xs)
unfolding remove
all-add_var vm x [] = refl
all-add_var vm x (y ∷ ys) = elim (Bool-cases (text_eq x y)) [
  | inl e ↦ rw (self_equal-add_var vm x y, e) (all-add_var vm x ys)
  | inr e ↦ rw (self_equal-add_var vm x y, e) (ap (λ b. self_equal vm y && b) (all-add_var vm x ys))
]

and_true : (b : Bool) → b ≡ (b && true)
and_true b = ground arith

-- Every let binds a single variable, and every constant is `==` to itself, which a NaN is not.
module _ (py_eq : Constant → Constant → Bool) where
  unfoldable mutual
    pub is_regular : Expr → Bool
    is_regular (const c) = py_eq c c
    is_regular (var x) = true
    is_regular (call f args t) = are_regular args
    is_regular (lam x body t) = is_regular body
    is_regular (let_in (one x) rhs body t) = is_regular rhs && is_regular body
    is_regular (let_in (many x xs) rhs body t) = false
    is_regular (if_else c t f ty) = is_regular c && (is_regular t && is_regular f)
    is_regular (assert c b ty) = is_regular c && is_regular b

    pub are_regular : Exprs → Bool
    are_regular no_args = true
    are_regular (arg e es) = is_regular e && are_regular es

module _ (py_is : Expr → Expr → Bool) (py_eq : Constant → Constant → Bool) where
  fast_path_self :
      (e : Expr) (vm : BoundVarBijection)
      → alpha_helper py_is py_eq e e vm ≡ ok (all (self_equal vm) (free_vars e))
      → fast_path py_is py_eq e e vm (alpha_helper py_is py_eq e e vm)
        ≡ ok (all (self_equal vm) (free_vars e))
  fast_path_self e vm h = elim (Bool-cases (py_is e e)) [ inl p ↦ rw p | inr p ↦ rw p h ]

  and_then-append :
      (r s : Result Bool) (p : Text → Bool) (xs ys : List Text)
      → r ≡ ok (all p xs)
      → s ≡ ok (all p ys)
      → and_then r s ≡ ok (all p (xs ++ ys))
  and_then-append r s p xs ys h k = rw (h, k, all-append p xs ys) (join (all p xs) (all p ys))
    where
      join : (a b : Bool) → and_then (ok a) (ok b) ≡ ok (a && b)
      join true b = refl
      join false b = refl

  mutual
    unfolding alpha_helper filter_eq get_filter_term is_regular free_vars

    pub alpha_helper_self :
        (e : Expr) (vm : BoundVarBijection)
        → is_regular py_eq e ≡ true
        → alpha_helper py_is py_eq e e vm ≡ ok (all (self_equal vm) (free_vars e))
    alpha_helper_self (const c) vm h = rw h
    alpha_helper_self (var x) vm h = ap ok (and_true (vars_equal vm x.name x.name))
    alpha_helper_self (call f args t) vm h =
        rw (sname_eq_refl f, ==_refl (length (args_list args))) (all_alpha_self args vm h)
    alpha_helper_self (lam x body t) vm h =
        fast_path_self body (add_var vm x.name x.name)
          (alpha_helper_self body (add_var vm x.name x.name) h)
        ∙ ap ok (all-add_var vm x.name (free_vars body))
    alpha_helper_self (let_in (one x) rhs body t) vm h =
        and_then-append _ _ (self_equal vm) (free_vars rhs) (remove x.name (free_vars body))
          (fast_path_self rhs vm (alpha_helper_self rhs vm (&&-left _ _ h)))
          (fast_path_self body (add_var vm x.name x.name) (
              alpha_helper_self body (add_var vm x.name x.name)
                (&&-right (is_regular py_eq rhs) _ h))
            ∙ ap ok (all-add_var vm x.name (free_vars body)))
    alpha_helper_self (let_in (many x xs) rhs body t) vm h = cc
    alpha_helper_self (if_else c t f ty) vm h =
        let others = &&-right (is_regular py_eq c) _ h in
        and_then-append _ _ (self_equal vm) (free_vars c) (free_vars t ++ free_vars f)
          (fast_path_self c vm (alpha_helper_self c vm (&&-left _ _ h)))
          (and_then-append _ _ (self_equal vm) (free_vars t) (free_vars f)
            (fast_path_self t vm (alpha_helper_self t vm (&&-left _ _ others)))
            (fast_path_self f vm (alpha_helper_self f vm (&&-right (is_regular py_eq t) _ others))))
    alpha_helper_self (assert c b ty) vm h =
        and_then-append _ _ (self_equal vm) (free_vars c) (free_vars b)
          (fast_path_self c vm (alpha_helper_self c vm (&&-left _ _ h)))
          (fast_path_self b vm (alpha_helper_self b vm (&&-right (is_regular py_eq c) _ h)))

    all_alpha_self :
        (es : Exprs) (vm : BoundVarBijection)
        → are_regular py_eq es ≡ true
        → all_alpha py_is py_eq es es vm ≡ ok (all (self_equal vm) (free_vars_args es))
    all_alpha_self no_args vm h = refl
    all_alpha_self (arg e es) vm h =
        and_then-append _ _ (self_equal vm) (free_vars e) (free_vars_args es)
          (fast_path_self e vm (alpha_helper_self e vm (&&-left _ _ h)))
          (all_alpha_self es vm (&&-right (is_regular py_eq e) _ h))

module _ (py_is : Expr → Expr → Bool) (py_eq : Constant → Constant → Bool)
    (is_sound : (a b : Expr) → py_is a b ≡ true → a ≡ b) where
  fast_path-slow :
      (l r : Expr) (vm : BoundVarBijection)
      → is_regular py_eq l ≡ true
      → alpha_helper py_is py_eq l r vm ≡ alpha_helper never py_eq l r vm
      → fast_path py_is py_eq l r vm (alpha_helper py_is py_eq l r vm)
        ≡ alpha_helper never py_eq l r vm
  fast_path-slow l r vm h slow = elim (Bool-cases (py_is l r)) [
    | inl p ↦ rw (p, ← is_sound l r p) (sym (alpha_helper_self never py_eq l vm h))
    | inr p ↦ rw p slow
  ]

  mutual
    unfolding alpha_helper is_regular

    alpha_helper-slow :
        (l r : Expr) (vm : BoundVarBijection)
        → is_regular py_eq l ≡ true
        → alpha_helper py_is py_eq l r vm ≡ alpha_helper never py_eq l r vm
    alpha_helper-slow (let_in (one x) e b t) (let_in (one y) e' b' t') vm h =
        let vm' = add_var vm x.name y.name in
        ap₂ and_then
          (fast_path-slow e e' vm (&&-left _ _ h) (alpha_helper-slow e e' vm (&&-left _ _ h)))
          (fast_path-slow b b' vm' (&&-right (is_regular py_eq e) _ h)
            (alpha_helper-slow b b' vm' (&&-right (is_regular py_eq e) _ h)))
    alpha_helper-slow (let_in (many x xs) e b t) r vm h = cc
    alpha_helper-slow (lam x b t) (lam y b' t') vm h =
        let vm' = add_var vm x.name y.name in
        fast_path-slow b b' vm' h (alpha_helper-slow b b' vm' h)
    alpha_helper-slow (call f args t) (call g args' t') vm h =
        ap
          (λ z.
            same_head py_eq (call f args t) (call g args' t')
              (if length (args_list args) == length (args_list args') then z else ok false))
          (all_alpha-slow args args' vm h)
    alpha_helper-slow (if_else c t f ty) (if_else c' t' f' ty') vm h =
        let others = &&-right (is_regular py_eq c) _ h in
        ap₂ and_then
          (fast_path-slow c c' vm (&&-left _ _ h) (alpha_helper-slow c c' vm (&&-left _ _ h)))
          (ap₂ and_then
            (fast_path-slow t t' vm (&&-left _ _ others)
              (alpha_helper-slow t t' vm (&&-left _ _ others)))
            (fast_path-slow f f' vm (&&-right (is_regular py_eq t) _ others)
              (alpha_helper-slow f f' vm (&&-right (is_regular py_eq t) _ others))))
    alpha_helper-slow (assert c b ty) (assert c' b' ty') vm h =
        ap₂ and_then
          (fast_path-slow c c' vm (&&-left _ _ h) (alpha_helper-slow c c' vm (&&-left _ _ h)))
          (fast_path-slow b b' vm (&&-right (is_regular py_eq c) _ h)
            (alpha_helper-slow b b' vm (&&-right (is_regular py_eq c) _ h)))
    alpha_helper-slow (var x) (var y) vm h = refl
    alpha_helper-slow _ _ vm h = refl

    all_alpha-slow :
        (es es' : Exprs) (vm : BoundVarBijection)
        → are_regular py_eq es ≡ true
        → all_alpha py_is py_eq es es' vm ≡ all_alpha never py_eq es es' vm
    all_alpha-slow no_args es' vm h = refl
    all_alpha-slow (arg e es) no_args vm h = refl
    all_alpha-slow (arg e es) (arg e' es') vm h =
        ap₂ and_then
          (fast_path-slow e e' vm (&&-left _ _ h) (alpha_helper-slow e e' vm (&&-left _ _ h)))
          (all_alpha-slow es es' vm (&&-right (is_regular py_eq e) _ h))

  pub are_equiv-never :
      (l r : Expr) (vm : BoundVarBijection)
      → is_regular py_eq l ≡ true
      → are_equiv py_is py_eq l r vm ≡ are_equiv never py_eq l r vm
  unfolding are_equiv
  are_equiv-never l r vm h = fast_path-slow l r vm h (alpha_helper-slow l r vm h)

-- What the comparison uses of Python: identity of objects, which implies equality, and `==` on
-- constants, of which nothing is assumed: a NaN is not equal to itself, and 1 is equal to 1.0 and
-- to True.
pub record Python : Type 0 where
  pub same : Expr → Expr → Bool
  pub equal : Constant → Constant → Bool
  pub same_sound : (a b : Expr) → same a b ≡ true → a ≡ b

-- Which objects are shared makes no difference where the lets of the left side bind single
-- variables and each of its constants is `==` to itself: the answer with the fast path is the
-- answer of the full traversal, also in the middle of a comparison, under any bijection.
pub sharing_irrelevant :
    (py : Python) (l r : Expr) (vm : BoundVarBijection)
    → is_regular py.equal l ≡ true
    → are_equiv py.same py.equal l r vm ≡ are_equiv never py.equal l r vm
sharing_irrelevant py l r vm h = are_equiv-never py.same py.equal py.same_sound l r vm h

all-self_equal : (xs : List Text) → all (self_equal no_vars) xs ≡ true
unfolding vars_equal lookup
all-self_equal [] = refl
all-self_equal (x ∷ xs) = &&-both (&&-both (text_eq_refl x) (text_eq_refl x)) (all-self_equal xs)

-- An expression whose lets bind single variables and whose constants are `==` to themselves is
-- equivalent to itself.
pub are_alpha_equivalent_refl :
    (py : Python) (e : Expr)
    → is_regular py.equal e ≡ true
    → are_alpha_equivalent py.same py.equal e e ≡ ok true
unfolding are_alpha_equivalent
are_alpha_equivalent_refl py e h =
    sharing_irrelevant py e e no_vars h
    ∙ fast_path_self never py.equal e no_vars (alpha_helper_self never py.equal e no_vars h)
    ∙ ap ok (all-self_equal (free_vars e))
