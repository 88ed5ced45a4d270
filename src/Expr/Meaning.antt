-- ===== src/Expr/Meaning.antt =====
-- What an expression means, over any interpretation of its constants, calls and binders: the
-- specification that the passes on expressions of src/python/ksc are held to.
use knossos_ksc.Base.{
  ℕ, ◌+◌, ◌≡◌, refl, ap, ◌∙◌, fun_ext, Bool, true, ◌||◌, Option, List, [], ◌∷◌, ◌++◌, arith,
  if◌then◌else◌, length, Bool-cases, inl, inr,
}
use knossos_ksc.Base.Text.{
  Text, text_eq, text_eq_refl, elem, elem-append, elem-remove, remove, text_eq_comm,
}
use knossos_ksc.Types.Defs.{KsType}
use knossos_ksc.Names.{StructuredName}
use knossos_ksc.Expr.{
  Constant, Var, Binder, one, many, Expr, Exprs, const, var, call, lam, let_in, if_else, assert,
  no_args, arg, free_vars, free_vars_args, names, binder_vars, remove_all,
}

or_true : (b : Bool) → (b || true) ≡ true
or_true b = ground arith

-- An interpretation in a type of values. `part_of n i v` is component `i` of the `n` of `v`.
pub record Meaning (V : Type 0) : Type 0 where
  pub const_of : Constant → V
  pub call_of : StructuredName → List V → V
  pub lam_of : Option KsType → (V → V) → V
  pub part_of : ℕ → ℕ → V → V
  pub if_of : V → V → V → V
  pub assert_of : V → V → V

abbrev pub Env : Type 0 → Type 0
Env V = Text → V

abbrev pub update : {V : Type 0} → Env V → Text → V → Env V
update env x v y = if text_eq x y then v else env y

module _ {V : Type 0} (m : Meaning V) where
  -- The variables of a tuple-let from component `i` of `n` on; a later one shadows an earlier.
  unfoldable pub bind_parts : V → ℕ → ℕ → List Var → Env V → Env V
  bind_parts v n i [] env = env
  bind_parts v n i (x ∷ xs) env = bind_parts v n (i + 1) xs (update env x.name (m.part_of i n v))

  unfoldable pub bind : Binder → V → Env V → Env V
  unfolding bind_parts
  bind (one x) v env = update env x.name v
  bind (many x xs) v env = bind_parts v (length (x ∷ xs)) 1 (x ∷ xs) env

  unfoldable mutual
    pub eval : Expr → Env V → V
    eval (const c) env = m.const_of c
    eval (var x) env = env x.name
    eval (call f args t) env = m.call_of f (eval_args args env)
    eval (lam x body t) env = m.lam_of x.type_ (λ v. eval body (update env x.name v))
    eval (let_in vars rhs body t) env = eval body (bind vars (eval rhs env) env)
    eval (if_else cond t_body f_body t) env =
        m.if_of (eval cond env) (eval t_body env) (eval f_body env)
    eval (assert cond body t) env = m.assert_of (eval cond env) (eval body env)

    pub eval_args : Exprs → Env V → List V
    eval_args no_args env = []
    eval_args (arg e es) env = eval e env ∷ eval_args es env

-- The two environments agree on the names of the list.
abbrev pub Agree : {V : Type 0} → List Text → Env V → Env V → Type 0
Agree xs env env' = (y : Text) → elem y xs ≡ true → env y ≡ env' y

module _ {V : Type 0} where
  pub Agree-left :
      (xs ys : List Text) {env env' : Env V} → Agree (xs ++ ys) env env' → Agree xs env env'
  Agree-left xs ys h y p = h y (rw (elem-append y xs ys, p) refl)

  pub Agree-right :
      (xs ys : List Text) {env env' : Env V} → Agree (xs ++ ys) env env' → Agree ys env env'
  Agree-right xs ys h y p = h y (elem-append y xs ys ∙ rw p (or_true (elem y xs)))

  pub Agree-update :
      (x : Text) (v : V) (xs : List Text) {env env' : Env V}
      → Agree (remove x xs) env env'
      → Agree xs (update env x v) (update env' x v)
  Agree-update x v xs h y p = elim (Bool-cases (text_eq x y)) [
    | inl e ↦ rw e
    | inr e ↦ rw e (h y (elem-remove y x xs ∙ rw (p, text_eq_comm y x, e) refl))
  ]

module _ {V : Type 0} (m : Meaning V) where
  pub Agree-bind_parts :
      (v : V) (n i : ℕ) (vs : List Var) (xs : List Text) {env env' : Env V}
      → Agree (remove_all (names vs) xs) env env'
      → Agree xs (bind_parts m v n i vs env) (bind_parts m v n i vs env')
  unfolding bind_parts
  Agree-bind_parts v n i [] xs h = h
  Agree-bind_parts v n i (x ∷ vs) xs h =
      Agree-bind_parts v n (i + 1) vs xs
        (Agree-update x.name (m.part_of i n v) (remove_all (names vs) xs) h)

  pub Agree-bind :
      (b : Binder) (v : V) (xs : List Text) {env env' : Env V}
      → Agree (remove_all (names (binder_vars b)) xs) env env'
      → Agree xs (bind m b v env) (bind m b v env')
  unfolding bind
  Agree-bind (one x) v xs h = Agree-update x.name v xs h
  Agree-bind (many x vs) v xs h = Agree-bind_parts v (length (x ∷ vs)) 1 (x ∷ vs) xs h

  mutual
    unfolding eval free_vars

    eval-Agree_mutual :
        (e : Expr) (env env' : Env V) → Agree (free_vars e) env env' → eval m e env ≡ eval m e env'
    eval-Agree_mutual (const c) env env' h = refl
    eval-Agree_mutual (var x) env env' h = h x.name (rw (text_eq_refl x.name) refl)
    eval-Agree_mutual (call f args t) env env' h =
        ap (m.call_of f) (eval_args-Agree args env env' h)
    eval-Agree_mutual (lam x body t) env env' h = ap (m.lam_of x.type_) (
        fun_ext (λ v.
          eval-Agree_mutual body (update env x.name v) (update env' x.name v)
            (Agree-update x.name v (free_vars body) h)))
    eval-Agree_mutual (let_in b rhs body t) env env' h =
        let same = eval-Agree_mutual rhs env env' (Agree-left (free_vars rhs) _ h) in
        eval-Agree_mutual body (bind m b (eval m rhs env) env) (bind m b (eval m rhs env) env')
          (Agree-bind b (eval m rhs env) (free_vars body) (Agree-right (free_vars rhs) _ h))
        ∙ ap (λ v. eval m body (bind m b v env')) same
    eval-Agree_mutual (if_else c t f ty) env env' h =
        let others = Agree-right (free_vars c) _ h in
        cc (
          eval-Agree_mutual c env env' (Agree-left (free_vars c) _ h),
          eval-Agree_mutual t env env' (Agree-left (free_vars t) _ others),
          eval-Agree_mutual f env env' (Agree-right (free_vars t) _ others),
        )
    eval-Agree_mutual (assert c b ty) env env' h = cc (
      eval-Agree_mutual c env env' (Agree-left (free_vars c) _ h),
      eval-Agree_mutual b env env' (Agree-right (free_vars c) _ h),
    )

    eval_args-Agree :
        (es : Exprs) (env env' : Env V)
        → Agree (free_vars_args es) env env'
        → eval_args m es env ≡ eval_args m es env'
    eval_args-Agree no_args env env' h = refl
    eval_args-Agree (arg e es) env env' h = cc (
      eval-Agree_mutual e env env' (Agree-left (free_vars e) _ h),
      eval_args-Agree es env env' (Agree-right (free_vars e) _ h),
    )

  -- The meaning of an expression depends on the environment through its free variables only.
  pub eval-Agree :
      (e : Expr) (env env' : Env V) → Agree (free_vars e) env env' → eval m e env ≡ eval m e env'
  eval-Agree e env env' h = eval-Agree_mutual e env env' h
