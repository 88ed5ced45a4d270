-- ===== src/Rewrites/PutPath.antt =====
-- What src/python/ksc/rewrites.py asks of src/python/ksc/cav_subst.py: an expression with another
-- sub-expression at a path, and its meaning.
use knossos_ksc.Base.{
  ℕ, zero, suc, ◌≡◌, refl, ap, ◌∙◌, fun_ext, true, some, [], ◌∷◌, get_elem?, &&-left, &&-right,
  &&-both,
}
use knossos_ksc.Base.Result.{Error, ok, err, >>=-eq-ok}
use knossos_ksc.Base.Assoc.{text_key}
use knossos_ksc.Expr.{
  one, many, Expr, Exprs, call, lam, let_in, if_else, assert, no_args, arg, args_list, is_untupled,
  are_untupled,
}
use knossos_ksc.Expr.Meaning.{Meaning, Env, update, bind, eval, eval_args}
use knossos_ksc.Paths.{
  ExprPath, PathElement, let_rhs, let_body, if_cond, if_t_body, if_f_body, assert_cond, assert_body,
  lam_body, call_arg, get, get_path, nth_arg-ok,
}

-- The expression with another sub-expression at the path.
unfoldable mutual
  pub put_path : ExprPath → Expr → Expr → Expr
  put_path [] new e = new
  put_path (let_rhs ∷ p) new (let_in b rhs body t) = let_in b (put_path p new rhs) body t
  put_path (let_body ∷ p) new (let_in b rhs body t) = let_in b rhs (put_path p new body) t
  put_path (lam_body ∷ p) new (lam x body t) = lam x (put_path p new body) t
  put_path (if_cond ∷ p) new (if_else c t f ty) = if_else (put_path p new c) t f ty
  put_path (if_t_body ∷ p) new (if_else c t f ty) = if_else c (put_path p new t) f ty
  put_path (if_f_body ∷ p) new (if_else c t f ty) = if_else c t (put_path p new f) ty
  put_path (assert_cond ∷ p) new (assert c b ty) = assert (put_path p new c) b ty
  put_path (assert_body ∷ p) new (assert c b ty) = assert c (put_path p new b) ty
  put_path (call_arg n ∷ p) new (call f args t) = call f (put_arg n p new args) t
  put_path (pe ∷ p) new e = e

  pub put_arg : ℕ → ExprPath → Expr → Exprs → Exprs
  put_arg n p new no_args = no_args
  put_arg zero p new (arg e es) = arg (put_path p new e) es
  put_arg (suc n) p new (arg e es) = arg e (put_arg n p new es)

pub not_ok : {x : Error} {y : Expr} {A : Type 0} → err x ≡ ok y → A
not_ok h = cc h

module _ {V : Type 0} (m : Meaning V) (sub new : Expr)
    (same : (env : Env V) → eval m new env ≡ eval m sub env) where
  mutual
    unfolding put_path put_arg get_path get eval bind

    eval-put_path_mutual :
        (p : ExprPath) (e : Expr) (env : Env V)
        → get_path p e ≡ ok sub
        → eval m (put_path p new e) env ≡ eval m e env
    eval-put_path_mutual [] e env g = let here : e ≡ sub = cc g in same env ∙ rw (← here)
    eval-put_path_mutual (let_rhs ∷ p) (let_in b r e t) env g =
        ap (λ v. eval m e (bind m b v env)) (eval-put_path_mutual p r env g)
    eval-put_path_mutual (let_body ∷ p) (let_in b r e t) env g =
        eval-put_path_mutual p e (bind m b (eval m r env) env) g
    eval-put_path_mutual (lam_body ∷ p) (lam x e t) env g =
        ap (m.lam_of x.type_) (fun_ext (λ v. eval-put_path_mutual p e (update env x.name v) g))
    eval-put_path_mutual (if_cond ∷ p) (if_else c d e t) env g =
        ap (λ v. m.if_of v (eval m d env) (eval m e env)) (eval-put_path_mutual p c env g)
    eval-put_path_mutual (if_t_body ∷ p) (if_else c d e t) env g =
        ap (λ v. m.if_of (eval m c env) v (eval m e env)) (eval-put_path_mutual p d env g)
    eval-put_path_mutual (if_f_body ∷ p) (if_else c d e t) env g =
        ap (λ v. m.if_of (eval m c env) (eval m d env) v) (eval-put_path_mutual p e env g)
    eval-put_path_mutual (assert_cond ∷ p) (assert c e t) env g =
        ap (λ v. m.assert_of v (eval m e env)) (eval-put_path_mutual p c env g)
    eval-put_path_mutual (assert_body ∷ p) (assert c e t) env g =
        ap (λ v. m.assert_of (eval m c env) v) (eval-put_path_mutual p e env g)
    eval-put_path_mutual (call_arg n ∷ p) (call f es t) env g =
        let (c, got, rest) = >>=-eq-ok (get (call_arg n) (call f es t)) (get_path p) g in
        ap (m.call_of f) (eval_args-put_arg es env n p c (nth_arg-ok _ c got) rest)
    eval-put_path_mutual _ _ env g = not_ok g

    eval_args-put_arg :
        (es : Exprs) (env : Env V) (n : ℕ) (p : ExprPath) (c : Expr)
        → get_elem? (args_list es) n ≡ some c
        → get_path p c ≡ ok sub
        → eval_args m (put_arg n p new es) env ≡ eval_args m es env
    eval_args-put_arg no_args env n p c got g = cc
    eval_args-put_arg (arg e es) env zero p c got g =
        let here : e ≡ c = cc got in
        ap (λ v. v ∷ eval_args m es env) (eval-put_path_mutual p e env (rw (← here) at g))
    eval_args-put_arg (arg e es) env (suc n) p c got g =
        ap (λ vs. eval m e env ∷ vs) (eval_args-put_arg es env n p c got g)

  -- A sub-expression may be exchanged for one of the same meaning.
  pub eval-put_path :
      (p : ExprPath) (e : Expr) (env : Env V)
      → get_path p e ≡ ok sub
      → eval m (put_path p new e) env ≡ eval m e env
  eval-put_path p e env g = eval-put_path_mutual p e env g

mutual
  unfolding put_path put_arg get_path get is_untupled

  is_untupled-put_path_mutual :
      (p : ExprPath) (new e : Expr)
      → is_untupled new ≡ true
      → is_untupled e ≡ true
      → is_untupled (put_path p new e) ≡ true
  is_untupled-put_path_mutual [] new e n u = n
  is_untupled-put_path_mutual (let_rhs ∷ p) new (let_in (one x) r e t) n u =
      &&-both (is_untupled-put_path_mutual p new r n (&&-left _ _ u)) (&&-right (is_untupled r) _ u)
  is_untupled-put_path_mutual (let_body ∷ p) new (let_in (one x) r e t) n u =
      &&-both (&&-left _ _ u) (is_untupled-put_path_mutual p new e n (&&-right (is_untupled r) _ u))
  is_untupled-put_path_mutual (lam_body ∷ p) new (lam x e t) n u =
      is_untupled-put_path_mutual p new e n u
  is_untupled-put_path_mutual (if_cond ∷ p) new (if_else c d e t) n u =
      &&-both (is_untupled-put_path_mutual p new c n (&&-left _ _ u)) (&&-right (is_untupled c) _ u)
  is_untupled-put_path_mutual (if_t_body ∷ p) new (if_else c d e t) n u =
      let rest = &&-right (is_untupled c) _ u in
      &&-both (&&-left _ _ u) (
        &&-both (is_untupled-put_path_mutual p new d n (&&-left _ _ rest))
          (&&-right (is_untupled d) _ rest))
  is_untupled-put_path_mutual (if_f_body ∷ p) new (if_else c d e t) n u =
      let rest = &&-right (is_untupled c) _ u in
      &&-both (&&-left _ _ u) (
        &&-both (&&-left _ _ rest)
          (is_untupled-put_path_mutual p new e n (&&-right (is_untupled d) _ rest)))
  is_untupled-put_path_mutual (assert_cond ∷ p) new (assert c e t) n u =
      &&-both (is_untupled-put_path_mutual p new c n (&&-left _ _ u)) (&&-right (is_untupled c) _ u)
  is_untupled-put_path_mutual (assert_body ∷ p) new (assert c e t) n u =
      &&-both (&&-left _ _ u) (is_untupled-put_path_mutual p new e n (&&-right (is_untupled c) _ u))
  is_untupled-put_path_mutual (call_arg k ∷ p) new (call f es t) n u =
      are_untupled-put_arg k p new es n u
  is_untupled-put_path_mutual (_ ∷ p) new (let_in (many x xs) r e t) n u = cc u
  is_untupled-put_path_mutual (_ ∷ p) new _ n u = u

  are_untupled-put_arg :
      (k : ℕ) (p : ExprPath) (new : Expr) (es : Exprs)
      → is_untupled new ≡ true
      → are_untupled es ≡ true
      → are_untupled (put_arg k p new es) ≡ true
  are_untupled-put_arg k p new no_args n u = refl
  are_untupled-put_arg zero p new (arg e es) n u =
      &&-both (is_untupled-put_path_mutual p new e n (&&-left _ _ u)) (&&-right (is_untupled e) _ u)
  are_untupled-put_arg (suc k) p new (arg e es) n u =
      &&-both (&&-left _ _ u) (are_untupled-put_arg k p new es n (&&-right (is_untupled e) _ u))

pub is_untupled-put_path :
    (p : ExprPath) (new e : Expr)
    → is_untupled new ≡ true
    → is_untupled e ≡ true
    → is_untupled (put_path p new e) ≡ true
is_untupled-put_path p new e n u = is_untupled-put_path_mutual p new e n u

get-is_untupled :
    (a : PathElement) (e c : Expr) → get a e ≡ ok c → is_untupled e ≡ true → is_untupled c ≡ true
unfolding get is_untupled
get-is_untupled let_rhs (let_in (one x) r e t) c g u =
    let same : r ≡ c = cc g in rw (← same) (&&-left _ _ u)
get-is_untupled let_body (let_in (one x) r e t) c g u =
    let same : e ≡ c = cc g in rw (← same) (&&-right (is_untupled r) _ u)
get-is_untupled lam_body (lam x e t) c g u = let same : e ≡ c = cc g in rw (← same) u
get-is_untupled if_cond (if_else b d e t) c g u =
    let same : b ≡ c = cc g in rw (← same) (&&-left _ _ u)
get-is_untupled if_t_body (if_else b d e t) c g u =
    let same : d ≡ c = cc g in rw (← same) (&&-left _ _ (&&-right (is_untupled b) _ u))
get-is_untupled if_f_body (if_else b d e t) c g u =
    let same : e ≡ c = cc g in
    rw (← same) (&&-right (is_untupled d) _ (&&-right (is_untupled b) _ u))
get-is_untupled assert_cond (assert b e t) c g u =
    let same : b ≡ c = cc g in rw (← same) (&&-left _ _ u)
get-is_untupled assert_body (assert b e t) c g u =
    let same : e ≡ c = cc g in rw (← same) (&&-right (is_untupled b) _ u)
get-is_untupled (call_arg n) (call f es t) c g u = nth n es (nth_arg-ok _ c g) u
  where
    nth :
        (n : ℕ) (es : Exprs)
        → get_elem? (args_list es) n ≡ some c
        → are_untupled es ≡ true
        → is_untupled c ≡ true
    nth n no_args at h = cc at
    nth zero (arg e es) at h = let same : e ≡ c = cc at in rw (← same) (&&-left _ _ h)
    nth (suc n) (arg e es) at h = nth n es at (&&-right (is_untupled e) _ h)
get-is_untupled let_rhs (let_in (many x xs) r e t) c g u = cc u
get-is_untupled let_body (let_in (many x xs) r e t) c g u = cc u
get-is_untupled _ _ c g u = not_ok g

pub get_path-is_untupled :
    (p : ExprPath) (e c : Expr) → get_path p e ≡ ok c → is_untupled e ≡ true → is_untupled c ≡ true
unfolding get_path
get_path-is_untupled [] e c g u = let same : e ≡ c = cc g in rw (← same) u
get_path-is_untupled (a ∷ p) e c g u =
    let (d, got, rest) = >>=-eq-ok (get a e) (get_path p) g in
    get_path-is_untupled p d c rest (get-is_untupled a e d got u)
