-- ===== src/Rewrites/Below.antt =====
-- src/python/ksc/cav_subst.py: the steps of a visit that puts an expression at a path, with no
-- applicator.
use knossos_ksc.Base.{
  ℕ, suc, ◌+◌, ◌≡◌, refl, sym, ap₂, subst, ◌∙◌, true, false, none, [], ◌∷◌, ◌++◌, arith, Bool-cases,
  inl, inr, append_assoc, append-nil, &&-left, &&-right, ||-left_false, ||-right_false,
}
use knossos_ksc.Base.Text.{elem}
use knossos_ksc.Base.Result.{Result, ok}
use knossos_ksc.Base.Assoc.{text_key}
use knossos_ksc.Expr.{
  Var, Expr, Exprs, const, var, call, lam, let_in, if_else, assert, no_args, arg, free_vars,
  is_untupled, are_untupled,
}
use knossos_ksc.Expr.Meaning.{Meaning, Env, update, eval, eval_args, eval-Agree}
use knossos_ksc.Fresh.{make_nonfree_var, make_nonfree_var_lem, taken}
use knossos_ksc.Paths.{ExprPath, PathElement, call_arg, element_eq}
use knossos_ksc.Subst.{
  Request, Substs, values, relevant, inside, rename_if_needed, rename, visit, visit_args, dispatch,
  replace_free_vars,
}
use knossos_ksc.Subst.Step.{FreeIn, over, relevant-Agree, rename_if_needed-Agree}
use knossos_ksc.Subst.Rename.{eval-replace_free_vars}
use knossos_ksc.Subst.Visit.{visit-unrequested}
use knossos_ksc.Rewrites.Splice.{starts_with-append, starts_with-fork, path_eq_refl}
use knossos_ksc.Rewrites.Builtin.{eval-unused}
use knossos_ksc.Rewrites.Hole.{HoleIs, HoleIs-Agree}

abbrev pub put : ExprPath → Expr → Request
put target payload = record { target = target; payload = payload; applicator = none }

-- The new name of a binder is not free in the payload.
rename_if_needed-fresh :
    (x : Var) (e payload : Expr) (s : Substs)
    → elem (rename_if_needed x e (payload ∷ []) s).0.name (free_vars payload) ≡ false
unfolding rename_if_needed
rename_if_needed-fresh x e payload s = elim (Bool-cases (taken (payload ∷ values s) x.name)) [
  | inl used ↦
      let fresh = (make_nonfree_var_lem x.name (e ∷ payload ∷ values s) x.type_).0 in
      let nv = make_nonfree_var x.name (e ∷ payload ∷ values s) x.type_ in
      rw used (||-left_false _ _ (||-right_false (elem nv.name (free_vars e)) _ fresh))
  | inr unused ↦ rw unused (||-left_false _ _ unused)
]

module _ {V : Type 0} (m : Meaning V) (payload : Expr) where
  -- The visit gives an expression that means the same wherever the payload has the value of the
  -- sub-expression at the path.
  abbrev pub Inserts : ExprPath → Expr → Substs → Result Expr → Type 0
  Inserts q e s r =
      (e' : Expr) × (r ≡ ok e')
      × ((env : Env V)
          → HoleIs m q e (over m s env) (eval m payload env)
          → eval m e' env ≡ eval m e (over m s env))

  renamed :
      (e : Expr) (s : Substs)
      → is_untupled e ≡ true
      → (e' : Expr) × (rename e s ≡ ok e')
        × ((env : Env V) → eval m e' env ≡ eval m e (over m s env))
  unfolding replace_free_vars
  renamed e s u =
      let (e', run, same) = eval-replace_free_vars e s u in (e', run, λ env. same V m env)

  -- A child off the path is renamed.
  pub off_path :
      (e : Expr) (p : ExprPath) (a b : PathElement) (q : ExprPath) (s : Substs)
      → is_untupled e ≡ true
      → element_eq a b ≡ false
      → (e' : Expr) × (visit e (p ++ a ∷ []) (put (p ++ b ∷ q) payload ∷ []) s ≡ ok e')
        × ((env : Env V) → eval m e' env ≡ eval m e (over m s env))
  unfolding inside
  off_path e p a b q s u h =
      let (e', run, same) = renamed e s u in
      (
        e',
        visit-unrequested e (p ++ a ∷ []) (put (p ++ b ∷ q) payload ∷ []) s
              (rw (starts_with-fork p a b q, h) refl)
            ∙ run,
        same,
      )

  -- It is enough to look at the substitutions for the free variables.
  pub finish :
      (q : ExprPath) (e : Expr) (s : Substs) (r : Result Expr)
      → Inserts q e (relevant e s) r
      → Inserts q e s r
  finish q e s r (e', run, same) = (
    e',
    run,
    λ env h.
        same env (
          HoleIs-Agree m q e (over m s env) (over m (relevant e s) env) (eval m payload env)
            (λ y used. sym (relevant-Agree m e s env y used)) h)
        ∙ eval-Agree m e (over m (relevant e s) env) (over m s env) (relevant-Agree m e s env),
  )

  pub down :
      (e : Expr) (p : ExprPath) (a : PathElement) (q : ExprPath) (s : Substs)
      → Inserts q e s (visit e (p ++ a ∷ []) (put ((p ++ a ∷ []) ++ q) payload ∷ []) s)
      → Inserts q e s (visit e (p ++ a ∷ []) (put (p ++ a ∷ q) payload ∷ []) s)
  down e p a q s h = rw (append_assoc p (a ∷ []) q) at h

  -- The hole below a renamed binder.
  pub under :
      (q : ExprPath) (x : Var) (e b : Expr) (t : Substs) (env : Env V) (v : V)
      → FreeIn e x.name (free_vars b)
      → HoleIs m q b (update (over m t env) x.name v) (eval m payload env)
      → let new = rename_if_needed x e (payload ∷ []) t in
        HoleIs m q b
          (over m new.1 (update env new.0.name v))
          (eval m payload (update env new.0.name v))
  under q x e b t env v free h =
      let new = rename_if_needed x e (payload ∷ []) t in
      subst (HoleIs m q b (over m new.1 (update env new.0.name v)))
        (eval-unused m new.0 payload v env (rename_if_needed-fresh x e payload t))
        (HoleIs-Agree m q b (update (over m t env) x.name v)
          (over m new.1 (update env new.0.name v)) (eval m payload env)
          (λ y used.
            sym (rename_if_needed-Agree m x e (payload ∷ []) t (free_vars b) free env v y used))
          h)

  -- The body below a renamed binder.
  pub body_same :
      (x : Var) (e b : Expr) (t : Substs) (env : Env V) (v : V)
      → FreeIn e x.name (free_vars b)
      → let new = rename_if_needed x e (payload ∷ []) t in
        eval m b (over m new.1 (update env new.0.name v))
        ≡ eval m b (update (over m t env) x.name v)
  body_same x e b t env v free =
      let new = rename_if_needed x e (payload ∷ []) t in
      eval-Agree m b (over m new.1 (update env new.0.name v)) (update (over m t env) x.name v)
        (rename_if_needed-Agree m x e (payload ∷ []) t (free_vars b) free env v)

  -- The node at the path.
  pub visit-put :
      (e : Expr) (p : ExprPath) (s : Substs) → visit e p (put (p ++ []) payload ∷ []) s ≡ ok payload
  unfolding visit inside dispatch
  visit-put (const c) p s = rw (starts_with-append p [], append-nil p, path_eq_refl p) refl
  visit-put (var x) p s = rw (starts_with-append p [], append-nil p, path_eq_refl p) refl
  visit-put (call f es t) p s = rw (starts_with-append p [], append-nil p, path_eq_refl p) refl
  visit-put (lam x b t) p s = rw (starts_with-append p [], append-nil p, path_eq_refl p) refl
  visit-put (let_in x r b t) p s = rw (starts_with-append p [], append-nil p, path_eq_refl p) refl
  visit-put (if_else c d e t) p s = rw (starts_with-append p [], append-nil p, path_eq_refl p) refl
  visit-put (assert c b t) p s = rw (starts_with-append p [], append-nil p, path_eq_refl p) refl

  -- The arguments after the one with the request are renamed.
  pub rest_renamed :
      (es : Exprs) (p : ExprPath) (k n : ℕ) (q : ExprPath) (s : Substs) (i : ℕ)
      → are_untupled es ≡ true
      → n + suc i ≡ k
      → (es' : Exprs) × (visit_args es p k (put (p ++ call_arg n ∷ q) payload ∷ []) s ≡ ok es')
        × ((env : Env V) → eval_args m es' env ≡ eval_args m es (over m s env))
  unfolding visit_args is_untupled element_eq eval
  rest_renamed no_args p k n q s i u l = (no_args, refl, λ env. refl)
  rest_renamed (arg e es) p k n q s i u l =
      let (e', run_e, same_e) =
        off_path e p (call_arg k) (call_arg n) q s (&&-left _ _ u) (ground arith) in
      let (es', run_s, same_s) =
        rest_renamed es p (suc k) n q s (suc i) (&&-right (is_untupled e) _ u) (omega arith) in
      (arg e' es', rw (run_e, run_s) refl, λ env. ap₂ ◌∷◌ (same_e env) (same_s env))
