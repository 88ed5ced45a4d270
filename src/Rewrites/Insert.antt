-- ===== src/Rewrites/Insert.antt =====
-- src/python/ksc/cav_subst.py as inline_var calls it: an expression put at a path, with no
-- applicator. Binders on the way are renamed so that they capture none of its variables.
use knossos_ksc.Base.{
  ℕ, zero, suc, ◌+◌, ◌≡◌, refl, sym, ap, ap₂, subst, ◌∙◌, fun_ext, true, [], ◌∷◌, ◌++◌, arith,
  get_elem?, &&-left, &&-right,
}
use knossos_ksc.Base.Result.{ok, ◌>>=◌}
use knossos_ksc.Base.Assoc.{text_key, lookup}
use knossos_ksc.Expr.{
  one, many, Expr, Exprs, call, lam, let_in, if_else, assert, no_args, arg, args_list, free_vars,
  is_untupled, are_untupled,
}
use knossos_ksc.Expr.Meaning.{Meaning, Env, update, bind, eval, eval_args}
use knossos_ksc.Paths.{
  ExprPath, let_rhs, let_body, if_cond, if_t_body, if_f_body, assert_cond, assert_body, lam_body,
  call_arg, element_eq, get, get_path, nth_arg,
}
use knossos_ksc.Subst.{
  Substs, relevant, inside, rename_if_needed, rename_binder, visit, visit_args, dispatch,
  replace_subtree,
}
use knossos_ksc.Subst.Step.{over}
use knossos_ksc.Subst.Rename.{FreeIn-remove, FreeIn-remove_append, rename_if_needed-type}
use knossos_ksc.Rewrites.PutPath.{not_ok}
use knossos_ksc.Rewrites.Splice.{starts_with-append, path_eq-longer}
use knossos_ksc.Rewrites.Hole.{HoleIs, InChild}
use knossos_ksc.Rewrites.Below.{
  put, Inserts, off_path, finish, down, under, body_same, visit-put, rest_renamed,
}

module _ {V : Type 0} (m : Meaning V) (payload : Expr) where
  mutual
    unfolding visit visit_args inside dispatch rename_binder get_path get is_untupled element_eq
        HoleIs eval bind free_vars

    inserts :
        (q : ExprPath) (e : Expr) (p : ExprPath) (s : Substs) (sub : Expr)
        → is_untupled e ≡ true
        → get_path q e ≡ ok sub
        → Inserts m payload q e s (visit e p (put (p ++ q) payload ∷ []) s)
    inserts [] e p s sub u g = (payload, visit-put m payload e p s, λ env h. sym h)
    inserts (let_rhs ∷ q) (let_in (one x) r b ty) p s' sub u g =
        let s = relevant (let_in (one x) r b ty) s' in
        let new = rename_if_needed x (let_in (one x) r b ty) (payload ∷ []) s in
        let (r', run_r, same_r) =
          down m payload r p let_rhs q (s)
            (inserts q r (p ++ let_rhs ∷ []) (s) sub (&&-left _ _ u) g) in
        let (b', run_b, same_b) =
          off_path m payload b p let_body let_rhs q new.1 (&&-right (is_untupled r) _ u) refl in
        finish m payload (let_rhs ∷ q) (let_in (one x) r b ty) s' _ (
          let_in (one new.0) r' b' ty,
          rw (starts_with-append p (let_rhs ∷ q), path_eq-longer p let_rhs q, run_r, run_b) refl,
          λ env h.
              let v = eval m r' env in
              same_b (update env new.0.name v)
              ∙ (body_same m payload x (let_in (one x) r b ty) b s env v (
                    FreeIn-remove_append (let_in (one x) r b ty) x.name (free_vars r) (free_vars b)
                      refl)
                  ∙ ap (λ w. eval m b (update (over m s env) x.name w)) (same_r env h)),
        )
    inserts (let_body ∷ q) (let_in (one x) r b ty) p s' sub u g =
        let s = relevant (let_in (one x) r b ty) s' in
        let new = rename_if_needed x (let_in (one x) r b ty) (payload ∷ []) s in
        let (r', run_r, same_r) =
          off_path m payload r p let_rhs let_body q s (&&-left _ _ u) refl in
        let (b', run_b, same_b) =
          down m payload b p let_body q (new.1)
            (inserts q b (p ++ let_body ∷ []) (new.1) sub (&&-right (is_untupled r) _ u) g) in
        let free =
          FreeIn-remove_append (let_in (one x) r b ty) x.name (free_vars r) (free_vars b) refl in
        finish m payload (let_body ∷ q) (let_in (one x) r b ty) s' _ (
          let_in (one new.0) r' b' ty,
          rw (starts_with-append p (let_body ∷ q), path_eq-longer p let_body q, run_r, run_b) refl,
          λ env h.
              let v = eval m r' env in
              same_b (update env new.0.name v) (
                under m payload q x (let_in (one x) r b ty) b s env v free (
                  subst (λ w. HoleIs m q b (update (over m s env) x.name w) (eval m payload env))
                    (sym (same_r env)) h))
              ∙ (body_same m payload x (let_in (one x) r b ty) b s env v free
                  ∙ ap (λ w. eval m b (update (over m s env) x.name w)) (same_r env)),
        )
    inserts (lam_body ∷ q) (lam x b ty) p s' sub u g =
        let s = relevant (lam x b ty) s' in
        let new = rename_if_needed x (lam x b ty) (payload ∷ []) s in
        let free = FreeIn-remove (lam x b ty) x.name (free_vars b) refl in
        let (b', run_b, same_b) =
          down m payload b p lam_body q (new.1)
            (inserts q b (p ++ lam_body ∷ []) (new.1) sub (u) g) in
        finish m payload (lam_body ∷ q) (lam x b ty) s' _ (
          lam new.0 b' ty,
          rw (starts_with-append p (lam_body ∷ q), path_eq-longer p lam_body q, run_b) refl,
          λ env h. ap₂ m.lam_of (rename_if_needed-type x (lam x b ty) (payload ∷ []) s) (
              fun_ext (λ v.
                same_b (update env new.0.name v)
                  (under m payload q x (lam x b ty) b s env v free (h v))
                ∙ body_same m payload x (lam x b ty) b s env v free)),
        )
    inserts (if_cond ∷ q) (if_else c d e ty) p s' sub u g =
        let s = relevant (if_else c d e ty) s' in
        let (c', run_c, same_c) =
          down m payload c p if_cond q (s)
            (inserts q c (p ++ if_cond ∷ []) (s) sub (&&-left _ _ u) g) in
        let (d', run_d, same_d) =
          off_path m payload d p if_t_body if_cond q s (&&-left _ _ (&&-right (is_untupled c) _ u))
            refl in
        let (e', run_e, same_e) =
          off_path m payload e p if_f_body if_cond q s
            (&&-right (is_untupled d) _ (&&-right (is_untupled c) _ u)) refl in
        finish m payload (if_cond ∷ q) (if_else c d e ty) s' _ (
          if_else c' d' e' ty,
          rw (starts_with-append p (if_cond ∷ q), path_eq-longer p if_cond q, run_c, run_d, run_e)
              refl,
          λ env h. cc (same_c env h, same_d env, same_e env),
        )
    inserts (if_t_body ∷ q) (if_else c d e ty) p s' sub u g =
        let s = relevant (if_else c d e ty) s' in
        let (c', run_c, same_c) =
          off_path m payload c p if_cond if_t_body q s (&&-left _ _ u) refl in
        let (d', run_d, same_d) = down m payload d p if_t_body q (s) (
          inserts q d (p ++ if_t_body ∷ []) (s) sub (&&-left _ _ (&&-right (is_untupled c) _ u))
            g) in
        let (e', run_e, same_e) =
          off_path m payload e p if_f_body if_t_body q s
            (&&-right (is_untupled d) _ (&&-right (is_untupled c) _ u)) refl in
        finish m payload (if_t_body ∷ q) (if_else c d e ty) s' _ (
          if_else c' d' e' ty,
          rw
              (
                starts_with-append p (if_t_body ∷ q),
                path_eq-longer p if_t_body q,
                run_c,
                run_d,
                run_e,
              )
              refl,
          λ env h. cc (same_c env, same_d env h, same_e env),
        )
    inserts (if_f_body ∷ q) (if_else c d e ty) p s' sub u g =
        let s = relevant (if_else c d e ty) s' in
        let (c', run_c, same_c) =
          off_path m payload c p if_cond if_f_body q s (&&-left _ _ u) refl in
        let (d', run_d, same_d) =
          off_path m payload d p if_t_body if_f_body q s
            (&&-left _ _ (&&-right (is_untupled c) _ u)) refl in
        let (e', run_e, same_e) = down m payload e p if_f_body q (s) (
          inserts q e (p ++ if_f_body ∷ []) (s) sub
            (&&-right (is_untupled d) _ (&&-right (is_untupled c) _ u)) g) in
        finish m payload (if_f_body ∷ q) (if_else c d e ty) s' _ (
          if_else c' d' e' ty,
          rw
              (
                starts_with-append p (if_f_body ∷ q),
                path_eq-longer p if_f_body q,
                run_c,
                run_d,
                run_e,
              )
              refl,
          λ env h. cc (same_c env, same_d env, same_e env h),
        )
    inserts (assert_cond ∷ q) (assert c b ty) p s' sub u g =
        let s = relevant (assert c b ty) s' in
        let (c', run_c, same_c) =
          down m payload c p assert_cond q (s)
            (inserts q c (p ++ assert_cond ∷ []) (s) sub (&&-left _ _ u) g) in
        let (b', run_b, same_b) =
          off_path m payload b p assert_body assert_cond q s (&&-right (is_untupled c) _ u) refl in
        finish m payload (assert_cond ∷ q) (assert c b ty) s' _ (
          assert c' b' ty,
          rw (starts_with-append p (assert_cond ∷ q), path_eq-longer p assert_cond q, run_c, run_b)
              refl,
          λ env h. cc (same_c env h, same_b env),
        )
    inserts (assert_body ∷ q) (assert c b ty) p s' sub u g =
        let s = relevant (assert c b ty) s' in
        let (c', run_c, same_c) =
          off_path m payload c p assert_cond assert_body q s (&&-left _ _ u) refl in
        let (b', run_b, same_b) =
          down m payload b p assert_body q (s)
            (inserts q b (p ++ assert_body ∷ []) (s) sub (&&-right (is_untupled c) _ u) g) in
        finish m payload (assert_body ∷ q) (assert c b ty) s' _ (
          assert c' b' ty,
          rw (starts_with-append p (assert_body ∷ q), path_eq-longer p assert_body q, run_c, run_b)
              refl,
          λ env h. cc (same_c env, same_b env h),
        )
    inserts (call_arg n ∷ q) (call f es ty) p s' sub u g =
        let s = relevant (call f es ty) s' in
        let none_before : 0 + n ≡ n = omega arith in
        let (es', run, same) = inserts_arg n q es p 0 s sub u g in
        finish m payload (call_arg n ∷ q) (call f es ty) s' _ (
          call f es' ty,
          rw
              (
                starts_with-append p (call_arg n ∷ q),
                path_eq-longer p (call_arg n) q,
                rw none_before at run,
              )
              refl,
          λ env h. ap (m.call_of f) (same env h),
        )
    inserts (let_rhs ∷ q) (let_in (many x xs) r b ty) p s sub u g = cc u
    inserts (let_body ∷ q) (let_in (many x xs) r b ty) p s sub u g = cc u
    inserts _ _ p s sub u g = not_ok g

    inserts_arg :
        (n : ℕ) (q : ExprPath) (es : Exprs) (p : ExprPath) (k : ℕ) (s : Substs) (sub : Expr)
        → are_untupled es ≡ true
        → (nth_arg (get_elem? (args_list es) n) >>= get_path q) ≡ ok sub
        → (es' : Exprs) × (visit_args es p k (put (p ++ call_arg (k + n) ∷ q) payload ∷ []) s
            ≡ ok es')
          × ((env : Env V)
              → InChild
                  (nth_arg (get_elem? (args_list es) n))
                  (λ d. HoleIs m q d (over m s env) (eval m payload env))
              → eval_args m es' env ≡ eval_args m es (over m s env))
    inserts_arg n q no_args p k s sub u g = not_ok g
    inserts_arg zero q (arg e es) p k s sub u g =
        let (e', run_e, same_e) =
          down m payload e p (call_arg k) q s
            (inserts q e (p ++ call_arg k ∷ []) s sub (&&-left _ _ u) g) in
        let (es', run_s, same_s) =
          rest_renamed m payload es p (suc k) k q s 0 (&&-right (is_untupled e) _ u)
            (omega arith) in
        let at_k : k + 0 ≡ k = omega arith in
        (arg e' es', rw (at_k, run_e, run_s) refl, λ env h. ap₂ ◌∷◌ (same_e env h) (same_s env))
    inserts_arg (suc n) q (arg e es) p k s sub u g =
        let (e', run_e, same_e) =
          off_path m payload e p (call_arg k) (call_arg (k + suc n)) q s (&&-left _ _ u)
            (ground arith) in
        let (es', run_s, same_s) =
          inserts_arg n q es p (suc k) s sub (&&-right (is_untupled e) _ u) g in
        let shift : suc k + n ≡ k + suc n = omega arith in
        (
          arg e' es',
          rw (run_e, rw shift at run_s) refl,
          λ env h. ap₂ ◌∷◌ (same_e env) (same_s env h),
        )

  -- With a payload that has, in the environment outside, the value of the sub-expression at the
  -- path, `replace_subtree` without an applicator succeeds and keeps the meaning.
  pub replace_subtree-put :
      (e sub : Expr) (q : ExprPath)
      → is_untupled e ≡ true
      → get_path q e ≡ ok sub
      → (e' : Expr) × (replace_subtree e (put q payload) ≡ ok e')
        × ((env : Env V) → HoleIs m q e env (eval m payload env) → eval m e' env ≡ eval m e env)
  unfolding replace_subtree lookup
  replace_subtree-put e sub q u g = inserts q e [] [] sub u g
