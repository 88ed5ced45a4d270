-- ===== src/Subst/Visit.antt =====
-- src/python/ksc/cav_subst.py: a node with no request inside is renamed.
use knossos_ksc.Base.{ℕ, suc, ◌≡◌, refl, ap, ◌∙◌, fun_ext, List, [], ◌∷◌, ◌++◌}
use knossos_ksc.Base.Result.{ok, ◌>>=◌}
use knossos_ksc.Expr.{Expr, Exprs, const, var, call, lam, let_in, if_else, assert, no_args, arg}
use knossos_ksc.Paths.{
  ExprPath, let_rhs, let_body, lam_body, if_cond, if_t_body, if_f_body, assert_cond, assert_body,
  call_arg,
}
use knossos_ksc.Subst.{
  Request, Substs, relevant, inside, dispatch, rename, rename_args, rename_if_needed, rename_binder,
  visit, visit_args, unless_empty,
}

unless_empty_same : (s : Substs) (e : Expr) → unless_empty s e (ok e) ≡ ok e
unless_empty_same [] e = refl
unless_empty_same (x ∷ s) e = refl

mutual
  unfolding visit visit_args rename rename_args dispatch inside

  visit-none_mutual : (e : Expr) (p : ExprPath) (s : Substs) → visit e p [] s ≡ rename e s
  visit-none_mutual (const c) p s = unless_empty_same (relevant (const c) s) (const c)
  visit-none_mutual (var x) p s = refl
  visit-none_mutual (call f es t) p s = rw (visit_args-none es p 0 (relevant (call f es t) s)) refl
  visit-none_mutual (lam x b t) p s =
      rw
        (visit-none_mutual b (p ++ lam_body ∷ [])
          (rename_if_needed x (lam x b t) [] (relevant (lam x b t) s)).1)
        refl
  visit-none_mutual (let_in b r e t) p s =
      let t' = relevant (let_in b r e t) s in
      ap (λ k. unless_empty t' (let_in b r e t) (rename_binder b (let_in b r e t) [] t' >>= k))
        (fun_ext (λ (b', s').
          rw
            (
              visit-none_mutual r (p ++ let_rhs ∷ []) t',
              visit-none_mutual e (p ++ let_body ∷ []) s',
            )
            refl))
  visit-none_mutual (if_else c d e t) p s =
      rw
        (
          visit-none_mutual c (p ++ if_cond ∷ []) (relevant (if_else c d e t) s),
          visit-none_mutual d (p ++ if_t_body ∷ []) (relevant (if_else c d e t) s),
          visit-none_mutual e (p ++ if_f_body ∷ []) (relevant (if_else c d e t) s),
        )
        refl
  visit-none_mutual (assert c b t) p s =
      rw
        (
          visit-none_mutual c (p ++ assert_cond ∷ []) (relevant (assert c b t) s),
          visit-none_mutual b (p ++ assert_body ∷ []) (relevant (assert c b t) s),
        )
        refl

  visit_args-none :
      (es : Exprs) (p : ExprPath) (n : ℕ) (s : Substs) → visit_args es p n [] s ≡ rename_args es s
  visit_args-none no_args p n s = refl
  visit_args-none (arg e es) p n s =
      rw (visit-none_mutual e (p ++ call_arg n ∷ []) s, visit_args-none es p (suc n) s) refl

-- A node with no request inside is renamed.
pub visit-unrequested :
    (e : Expr) (p : ExprPath) (reqs : List Request) (s : Substs)
    → inside p reqs ≡ []
    → visit e p reqs s ≡ rename e s
unfolding visit inside
visit-unrequested e p reqs s h = same_requests e ∙ visit-none_mutual e p s
  where
    same_requests : (e : Expr) → visit e p reqs s ≡ visit e p [] s
    same_requests (const c) = rw h refl
    same_requests (var x) = rw h refl
    same_requests (call f es t) = rw h refl
    same_requests (lam x b t) = rw h refl
    same_requests (let_in b r d t) = rw h refl
    same_requests (if_else c d f t) = rw h refl
    same_requests (assert c b t) = rw h refl
