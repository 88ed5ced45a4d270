-- ===== src/Rewrites/Matches.antt =====
-- src/python/ksc/rewrites.py, `find_all_matches`: which matches it yields.
use knossos_ksc.Base.{
  ℕ, suc, ◌≡◌, refl, true, List, [], ◌∷◌, ◌++◌, Memᴰ, ◌⊎◌, inl, inr, &&-left, &&-right, ◌↔◌,
}
use mathlib.Core.List.Memᴰ
use knossos_ksc.Base.Result.{ok}
use knossos_ksc.Base.Assoc.{Dict}
use knossos_ksc.Names.{StructuredName}
use knossos_ksc.Expr.{
  Constant, Var, one, many, Expr, Exprs, const, var, call, lam, let_in, if_else, assert, no_args,
  arg, Def, is_untupled, are_untupled,
}
use knossos_ksc.Paths.{
  ExprPath, let_rhs, let_body, lam_body, if_cond, if_t_body, if_f_body, assert_cond, assert_body,
  call_arg, get, get_iff, all_subexprs, PathElement,
}
use knossos_ksc.Rewrites.{
  Environment, Match, Matcher, matches_with_env, matches_in_args, find_all_matches, initial_env,
  bind_location, discard,
}
use knossos_ksc.Rewrites.Traverse.{
  Runs, Found, Collected, Here, InArgs, Collected-here, Collected-also, stopped, split_let,
  split_lam, split_call, join_call, split_args, join_args, split_if, split_assert, split_leaf,
  join_let, join_lam, join_if, join_assert,
}

no_child-const : (c : Constant) (a : PathElement) (d : Expr) → get a (const c) ≡ ok d → ⊥
unfolding all_subexprs
no_child-const c a d got = (get_iff (const c) a d).0 got

no_child-var : (y : Var) (a : PathElement) (d : Expr) → get a (var y) ≡ ok d → ⊥
unfolding all_subexprs
no_child-var y a d got = (get_iff (var y) a d).0 got

module _ (m : Matcher) (root : Expr) where
  nothing_more : Collected m root (ok []) (λ x. ⊥)
  nothing_more = ([], refl, (λ x at. absurd (Memᴰ.not-nil at)), λ x f. absurd f)

  leaf :
      {e : Expr} {p : ExprPath} {u : Environment} (x : Match)
      → Here m root e p u x ⊎ ⊥
      → Found m root x e p u
  leaf x (inl h) = stopped m root h
  leaf x (inr f) = absurd f

  no_args_found :
      (p : ExprPath) (k : ℕ) (u : Environment) (x : Match)
      → InArgs m root x no_args p k u
      → Memᴰ x []
  no_args_found p k u x (n, c, at, f) = cc at

module _ (m : Matcher) (root : Expr) (runs : Runs m root) where
  mutual
    unfolding matches_with_env matches_in_args is_untupled

    collects :
        (e : Expr) (p : ExprPath) (u : Environment)
        → is_untupled e ≡ true
        → Collected m root (matches_with_env m root e p u) (λ x. Found m root x e p u)
    collects (let_in (one y) r e t) p u h =
        Collected-also m root (Collected-here m root runs (let_in (one y) r e t) p u h)
          (Collected-also m root (collects r (p ++ let_rhs ∷ []) u (&&-left _ _ h))
            (collects e (p ++ let_body ∷ []) (bind_location y.name p u)
              (&&-right (is_untupled r) _ h))
            (λ x f. f) (λ x f. f))
          (λ x. join_let m root x y r e t p u) (λ x. split_let m root)
    collects (let_in (many y ys) r e t) p u h = cc h
    collects (lam y e t) p u h =
        Collected-also m root (Collected-here m root runs (lam y e t) p u h)
          (collects e (p ++ lam_body ∷ []) (discard y.name u) h) (λ x. join_lam m root x y e t p u)
          (λ x. split_lam m root)
    collects (const c) p u h =
        Collected-also m root (Collected-here m root runs (const c) p u h) (nothing_more m root)
          (leaf m root) (λ x. split_leaf m root x (const c) p u refl (no_child-const c))
    collects (var y) p u h =
        Collected-also m root (Collected-here m root runs (var y) p u h) (nothing_more m root)
          (leaf m root) (λ x. split_leaf m root x (var y) p u refl (no_child-var y))
    collects (call f es t) p u h =
        Collected-also m root (Collected-here m root runs (call f es t) p u h)
          (collects_args es p 0 u h) (λ x. join_call m root x f es t p u)
          (λ x. split_call m root x f es t p u)
    collects (if_else c d e t) p u h =
        Collected-also m root (Collected-here m root runs (if_else c d e t) p u h)
          (Collected-also m root (collects c (p ++ if_cond ∷ []) u (&&-left _ _ h))
            (Collected-also m root
              (collects d (p ++ if_t_body ∷ []) u (&&-left _ _ (&&-right (is_untupled c) _ h)))
              (collects e (p ++ if_f_body ∷ []) u
                (&&-right (is_untupled d) _ (&&-right (is_untupled c) _ h)))
              (λ x f. f) (λ x f. f))
            (λ x f. f) (λ x f. f))
          (λ x. join_if m root x c d e t p u) (λ x. split_if m root x c d e t p u)
    collects (assert c d t) p u h =
        Collected-also m root (Collected-here m root runs (assert c d t) p u h)
          (Collected-also m root (collects c (p ++ assert_cond ∷ []) u (&&-left _ _ h))
            (collects d (p ++ assert_body ∷ []) u (&&-right (is_untupled c) _ h)) (λ x f. f)
            (λ x f. f))
          (λ x. join_assert m root x c d t p u) (λ x. split_assert m root x c d t p u)

    collects_args :
        (es : Exprs) (p : ExprPath) (k : ℕ) (u : Environment)
        → are_untupled es ≡ true
        → Collected m root (matches_in_args m root es p k u) (λ x. InArgs m root x es p k u)
    collects_args no_args p k u h =
        ([], refl, (λ x at. absurd (Memᴰ.not-nil at)), λ x f. no_args_found m root p k u x f)
    collects_args (arg e es) p k u h =
        Collected-also m root (collects e (p ++ call_arg k ∷ []) u (&&-left _ _ h))
          (collects_args es p (suc k) u (&&-right (is_untupled e) _ h))
          (λ x. join_args m root x e es p k u) (λ x. split_args m root x e es p k u)

-- Where the matcher succeeds at every place, `find_all_matches` succeeds on an expression whose
-- lets bind single variables, and yields a match when, and only when, the matcher yields it at a
-- place that the traversal reaches, in the environment of that place.
pub find_all_matches_lem :
    (m : Matcher) (root : Expr) (defs : Dict StructuredName Def)
    → Runs m root
    → is_untupled root ≡ true
    → (ms : List Match) × (find_all_matches m root defs ≡ ok ms)
      × ((x : Match) → Memᴰ x ms ↔ Found m root x root [] (initial_env defs))
unfolding find_all_matches
find_all_matches_lem m root defs runs h =
    let (ms, run, sound, full) = collects m root runs root [] (initial_env defs) h in
    (ms, run, λ x. (sound x, full x))
