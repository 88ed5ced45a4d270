-- ===== src/Rewrites/Hole.antt =====
-- The value of the sub-expression at a path (src/python/ksc/path.py), in the environment that the
-- binders on the way make.
use knossos_ksc.Base.{
  ℕ, zero, suc, ◌≡◌, refl, sym, ◌∙◌, subst, Bool, true, false, ◌||◌, [], ◌∷◌, get_elem?,
  ||-left_false, ||-right_false, &&-left, &&-right,
}
use knossos_ksc.Base.Text.{text_eq}
use knossos_ksc.Base.Result.{Result, ok, err, ◌>>=◌}
use knossos_ksc.Expr.{
  Var, one, many, Expr, Exprs, var, call, lam, let_in, if_else, assert, no_args, arg, args_list,
  free_vars, free_vars_args, is_untupled, are_untupled,
}
use knossos_ksc.Expr.Meaning.{
  Meaning, Env, update, bind, eval, eval-Agree, Agree, Agree-left, Agree-right, Agree-update,
  Agree-bind,
}
use knossos_ksc.Paths.{
  ExprPath, let_rhs, let_body, lam_body, if_cond, if_t_body, if_f_body, assert_cond, assert_body,
  call_arg, get, get_path, nth_arg,
}
use knossos_ksc.Rewrites.Reach.{binds_here, shadowed}

abbrev pub InChild : Result Expr → (Expr → Type 0) → Type 0
InChild (err k) P = Unit {0}
InChild (ok d) P = P d

module _ {V : Type 0} (m : Meaning V) where
  -- The sub-expression at the path has the value, whatever a lambda on the way is applied to.
  unfoldable pub HoleIs : ExprPath → Expr → Env V → V → Type 0
  unfolding get bind eval
  HoleIs [] e env c = eval m e env ≡ c
  HoleIs (let_body ∷ q) (let_in b r e t) env c = HoleIs q e (bind m b (eval m r env) env) c
  HoleIs (lam_body ∷ q) (lam x e t) env c = (v : V) → HoleIs q e (update env x.name v) c
  HoleIs (a ∷ q) e env c = InChild (get a e) (λ d. HoleIs q d env c)

  mutual
    unfolding HoleIs get free_vars

    HoleIs-Agree_mutual :
        (q : ExprPath) (e : Expr) (env env' : Env V) (c : V)
        → Agree (free_vars e) env env'
        → HoleIs q e env c
        → HoleIs q e env' c
    HoleIs-Agree_mutual [] e env env' c a h = sym (eval-Agree m e env env' a) ∙ h
    HoleIs-Agree_mutual (let_rhs ∷ q) (let_in b r e t) env env' c a h =
        HoleIs-Agree_mutual q r env env' c (Agree-left (free_vars r) _ a) h
    HoleIs-Agree_mutual (let_body ∷ q) (let_in b r e t) env env' c a h =
        subst (λ v. HoleIs q e (bind m b v env') c)
          (eval-Agree m r env env' (Agree-left (free_vars r) _ a))
          (HoleIs-Agree_mutual q e (bind m b (eval m r env) env) (bind m b (eval m r env) env') c
            (Agree-bind m b (eval m r env) (free_vars e) (Agree-right (free_vars r) _ a)) h)
    HoleIs-Agree_mutual (lam_body ∷ q) (lam x e t) env env' c a h = λ v.
        HoleIs-Agree_mutual q e (update env x.name v) (update env' x.name v) c
          (Agree-update x.name v (free_vars e) a) (h v)
    HoleIs-Agree_mutual (if_cond ∷ q) (if_else d e f t) env env' c a h =
        HoleIs-Agree_mutual q d env env' c (Agree-left (free_vars d) _ a) h
    HoleIs-Agree_mutual (if_t_body ∷ q) (if_else d e f t) env env' c a h =
        HoleIs-Agree_mutual q e env env' c
          (Agree-left (free_vars e) _ (Agree-right (free_vars d) _ a)) h
    HoleIs-Agree_mutual (if_f_body ∷ q) (if_else d e f t) env env' c a h =
        HoleIs-Agree_mutual q f env env' c
          (Agree-right (free_vars e) _ (Agree-right (free_vars d) _ a)) h
    HoleIs-Agree_mutual (assert_cond ∷ q) (assert d e t) env env' c a h =
        HoleIs-Agree_mutual q d env env' c (Agree-left (free_vars d) _ a) h
    HoleIs-Agree_mutual (assert_body ∷ q) (assert d e t) env env' c a h =
        HoleIs-Agree_mutual q e env env' c (Agree-right (free_vars d) _ a) h
    HoleIs-Agree_mutual (call_arg n ∷ q) (call f es t) env env' c a h =
        HoleIs-Agree_arg n q es env env' c a h
    HoleIs-Agree_mutual _ _ env env' c a h = tt

    HoleIs-Agree_arg :
        (n : ℕ) (q : ExprPath) (es : Exprs) (env env' : Env V) (c : V)
        → Agree (free_vars_args es) env env'
        → InChild (nth_arg (get_elem? (args_list es) n)) (λ d. HoleIs q d env c)
        → InChild (nth_arg (get_elem? (args_list es) n)) (λ d. HoleIs q d env' c)
    HoleIs-Agree_arg n q no_args env env' c a h = tt
    HoleIs-Agree_arg zero q (arg e es) env env' c a h =
        HoleIs-Agree_mutual q e env env' c (Agree-left (free_vars e) _ a) h
    HoleIs-Agree_arg (suc n) q (arg e es) env env' c a h =
        HoleIs-Agree_arg n q es env env' c (Agree-right (free_vars e) _ a) h

  pub HoleIs-Agree :
      (q : ExprPath) (e : Expr) (env env' : Env V) (c : V)
      → Agree (free_vars e) env env'
      → HoleIs q e env c
      → HoleIs q e env' c
  HoleIs-Agree q e env env' c a h = HoleIs-Agree_mutual q e env env' c a h

  -- A binder of another name keeps the value of the variable.
  apart :
      (x y : Var) (v : V) (env : Env V)
      → text_eq y.name x.name ≡ false
      → update env y.name v x.name ≡ env x.name
  apart x y v env ne = rw ne refl

  not_bound :
      (x y : Var) (q : ExprPath) (e : Expr)
      → ((text_eq y.name x.name || false) || shadowed x.name q e) ≡ false
      → (text_eq y.name x.name ≡ false) × (shadowed x.name q e ≡ false)
  not_bound x y q e h =
      (||-left_false _ _ (||-left_false _ _ h), ||-right_false (text_eq y.name x.name || false) _ h)

  mutual
    unfolding HoleIs get_path get eval bind shadowed binds_here is_untupled

    HoleIs-var_mutual :
        (q : ExprPath) (e : Expr) (x : Var) (env : Env V)
        → is_untupled e ≡ true
        → get_path q e ≡ ok (var x)
        → shadowed x.name q e ≡ false
        → HoleIs q e env (env x.name)
    HoleIs-var_mutual [] e x env u g h = let here : e ≡ var x = cc g in rw here refl
    HoleIs-var_mutual (let_rhs ∷ q) (let_in (one y) r e t) x env u g h =
        HoleIs-var_mutual q r x env (&&-left _ _ u) g h
    HoleIs-var_mutual (let_body ∷ q) (let_in (one y) r e t) x env u g h =
        let (ne, below) = not_bound x y q e h in
        subst (HoleIs q e (update env y.name (eval m r env))) (apart x y (eval m r env) env ne) (
          HoleIs-var_mutual q e x (update env y.name (eval m r env)) (&&-right (is_untupled r) _ u)
            g below)
    HoleIs-var_mutual (lam_body ∷ q) (lam y e t) x env u g h = λ v.
        subst (HoleIs q e (update env y.name v)) (apart x y v env (||-left_false _ _ h)) (
          HoleIs-var_mutual q e x (update env y.name v) u g
            (||-right_false (text_eq y.name x.name) _ h))
    HoleIs-var_mutual (if_cond ∷ q) (if_else c d e t) x env u g h =
        HoleIs-var_mutual q c x env (&&-left _ _ u) g h
    HoleIs-var_mutual (if_t_body ∷ q) (if_else c d e t) x env u g h =
        HoleIs-var_mutual q d x env (&&-left _ _ (&&-right (is_untupled c) _ u)) g h
    HoleIs-var_mutual (if_f_body ∷ q) (if_else c d e t) x env u g h =
        HoleIs-var_mutual q e x env (&&-right (is_untupled d) _ (&&-right (is_untupled c) _ u)) g h
    HoleIs-var_mutual (assert_cond ∷ q) (assert c e t) x env u g h =
        HoleIs-var_mutual q c x env (&&-left _ _ u) g h
    HoleIs-var_mutual (assert_body ∷ q) (assert c e t) x env u g h =
        HoleIs-var_mutual q e x env (&&-right (is_untupled c) _ u) g h
    HoleIs-var_mutual (call_arg n ∷ q) (call f es t) x env u g h = HoleIs-var_arg n q es x env u g h
    HoleIs-var_mutual (let_rhs ∷ q) (let_in (many y ys) r e t) x env u g h = cc u
    HoleIs-var_mutual (let_body ∷ q) (let_in (many y ys) r e t) x env u g h = cc u
    HoleIs-var_mutual _ _ x env u g h = tt

    HoleIs-var_arg :
        (n : ℕ) (q : ExprPath) (es : Exprs) (x : Var) (env : Env V)
        → are_untupled es ≡ true
        → (nth_arg (get_elem? (args_list es) n) >>= get_path q) ≡ ok (var x)
        → (elim (nth_arg (get_elem? (args_list es) n)) as (λ r. Bool) [
          | err k ↦ false
          | ok d ↦ false || shadowed x.name q d
        ])
          ≡ false
        → InChild (nth_arg (get_elem? (args_list es) n)) (λ d. HoleIs q d env (env x.name))
    HoleIs-var_arg n q no_args x env u g h = tt
    HoleIs-var_arg zero q (arg e es) x env u g h = HoleIs-var_mutual q e x env (&&-left _ _ u) g h
    HoleIs-var_arg (suc n) q (arg e es) x env u g h =
        HoleIs-var_arg n q es x env (&&-right (is_untupled e) _ u) g h

  -- A variable that nothing on the way binds has its value at the path.
  pub HoleIs-var :
      (q : ExprPath) (e : Expr) (x : Var) (env : Env V)
      → is_untupled e ≡ true
      → get_path q e ≡ ok (var x)
      → shadowed x.name q e ≡ false
      → HoleIs q e env (env x.name)
  HoleIs-var q e x env u g h = HoleIs-var_mutual q e x env u g h
