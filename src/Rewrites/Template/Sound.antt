-- ===== src/Rewrites/Template/Sound.antt =====
-- src/python/ksc/rewrites.py, `find_template_subst`: a match keeps the meaning, on templates
-- without binders.
use knossos_ksc.Base.{
  ◌≡◌, refl, sym, ap, ap₂, subst, ◌∙◌, Bool, true, false, ◌&&◌, Option, none, some, List, [], ◌∷◌,
  ◌++◌, inl, inr, if◌then◌else◌, length, Bool-cases, &&-left, &&-right, all, arith,
}
use knossos_ksc.Base.Text.{Text, text_eq, text_eq_refl, text_eq_comm, elem}
use knossos_ksc.Base.Result.{Result, ok, err, assertion_error, map_ok}
use knossos_ksc.Base.Assoc.{text_key, lookup}
use knossos_ksc.Types.Defs.{KsType}
use knossos_ksc.Names.Laws.{sname_eq-ok, sname_same_iff}
use knossos_ksc.Expr.{
  Constant, Var, Expr, Exprs, const, var, call, lam, let_in, if_else, assert, no_args, arg,
  args_list, free_vars, free_vars_args, is_untupled, are_untupled, type_of,
}
use knossos_ksc.Expr.Meaning.{Meaning, Env, eval, eval_args, eval-Agree}
use knossos_ksc.Paths.{subexps_no_binds, all_subexprs, subexps_no_binds-call}
use knossos_ksc.Alpha.{filter_eq, get_filter_term}
use knossos_ksc.Alpha.Same.{Python}
use knossos_ksc.Subst.{Substs}
use knossos_ksc.Subst.Step.{over}
use knossos_ksc.Rewrites.Template.{TemplateVars, find_template_subst, find_in_args, accepts}
use knossos_ksc.Rewrites.Template.Match.{AreUntupled}
use knossos_ksc.Rewrites.Template.Fits.{
  is_plain, are_plain, Covers, Extends, IsProper, Fits, Step, MatchesAll, evals, step, fits_var,
  Covers-append, and_match-ok, same_shape-ok, Extends-refl, Extends-trans, Covers-Extends,
  over-Extends,
}

not_some : {s : Substs} {A : Type 0} → ok none ≡ ok (some s) → A
not_some h = cc h

args-untupled : (es : Exprs) → all is_untupled (args_list es) ≡ are_untupled es
unfolding is_untupled
args-untupled no_args = refl
args-untupled (arg e es) = ap (λ b. is_untupled e && b) (args-untupled es)

module _ (py : Python) {V : Type 0} (m : Meaning V)
    (const_eq : (c d : Constant) → py.equal c d ≡ true → m.const_of c ≡ m.const_of d)
    (lam_untyped : (t u : Option KsType) (f : V → V) → m.lam_of t f ≡ m.lam_of u f) where
  evals-args :
      (es : Exprs) (env : Env V)
      → evals py m const_eq lam_untyped (args_list es) env ≡ eval_args m es env
  unfolding eval
  evals-args no_args env = refl
  evals-args (arg e es) env = ap (λ vs. eval m e env ∷ vs) (evals-args es env)

  match_var :
      (x : Var) (e : Expr) (vars : TemplateVars) (s : Substs)
      → is_untupled e ≡ true
      → find_template_subst py.same py.equal (var x) e vars ≡ ok (some s)
      → Fits py m const_eq lam_untyped (var x) e s
  unfolding find_template_subst free_vars eval lookup
  match_var x e vars s u h = accepted (lookup x.name vars) h
    where
      name : (y : Text) → elem y (x.name ∷ []) ≡ true → text_eq x.name y ≡ true
      name y used = elim (Bool-cases (text_eq x.name y)) [
        | inl k ↦ k
        | inr k ↦ cc (rw (text_eq_comm y x.name, k) at used)
      ]

      single : (x.name, e) ∷ [] ≡ s → Fits py m const_eq lam_untyped (var x) e s
      single g = subst (Fits py m const_eq lam_untyped (var x) e) g (
        fits_var py m const_eq lam_untyped x.name e u,
        λ y used. (e, rw (name y used) refl),
        λ env. rw (text_eq_refl x.name) refl,
      )

      accepted :
          (o : Option (Option KsType))
          → (elim o [
            | none ↦ err assertion_error
            | some t ↦
                map_ok (λ b. if b then some ((x.name, e) ∷ []) else none) (accepts t (type_of e))
          ])
            ≡ ok (some s)
          → Fits py m const_eq lam_untyped (var x) e s
      accepted none g = cc g
      accepted (some t) g = yes (accepts t (type_of e)) g
        where
          yes :
              (r : Result Bool)
              → map_ok (λ b. if b then some ((x.name, e) ∷ []) else none) r ≡ ok (some s)
              → Fits py m const_eq lam_untyped (var x) e s
          yes (err k) g = cc g
          yes (ok true) g = single (cc g)
          yes (ok false) g = cc g

  abbrev FitsIn : Expr → Expr → Substs → Type 0
  FitsIn t e s = Fits py m const_eq lam_untyped t e s

  abbrev StepIn : Expr → Expr → Substs → Substs → Type 0
  StepIn t e d d' = Step py m const_eq lam_untyped t e d d'

  no_values : IsProper py m const_eq lam_untyped []
  unfolding lookup
  no_values = (tt, λ y e at. cc at)

  fits_const :
      (c : Constant) (e : Expr) (vars : TemplateVars) (s : Substs)
      → find_template_subst py.same py.equal (const c) e vars ≡ ok (some s)
      → FitsIn (const c) e s
  unfolding find_template_subst filter_eq get_filter_term eval free_vars
  fits_const c (const d) vars s h =
      let (head, n, done) = same_shape-ok py m const_eq lam_untyped (const c) (const d) _ s h in
      let here : [] ≡ s = cc done in
      subst (FitsIn (const c) (const d)) here
        (no_values, λ y used. cc used, λ env. sym (const_eq c d (value head)))
    where
      value : {b : Bool} → ok b ≡ ok true → b ≡ true
      value g = cc g
  fits_const c e vars s h = not_some h

  -- What has been matched before keeps its meaning when more is matched.
  fits_later :
      (t e : Expr) (d d' : Substs)
      → FitsIn t e d
      → IsProper py m const_eq lam_untyped d'
      → Extends py m const_eq lam_untyped d d'
      → FitsIn t e d'
  fits_later t e d d' (p, c, same) p' x = (
    p',
    Covers-Extends py m const_eq lam_untyped d d' (free_vars t) c x,
    λ env.
        same env
        ∙ eval-Agree m t (over m d env) (over m d' env)
            (over-Extends py m const_eq lam_untyped d d' (free_vars t) env c x),
  )

  mutual
    unfolding find_template_subst find_in_args is_plain is_untupled filter_eq get_filter_term eval
        free_vars subexps_no_binds all_subexprs

    fits :
        (t e : Expr) (vars : TemplateVars) (s : Substs)
        → is_plain t ≡ true
        → is_untupled e ≡ true
        → find_template_subst py.same py.equal t e vars ≡ ok (some s)
        → FitsIn t e s
    fits (var x) e vars s plain u h = match_var x e vars s u h
    fits (const c) e vars s plain u h = fits_const c e vars s h
    fits (lam x t ty) e vars s plain u h = cc plain
    fits (let_in b r t ty) e vars s plain u h = cc plain
    fits (assert c b ty) (assert c' b' ty') vars s plain u h =
        let (head, n, chain) =
          same_shape-ok py m const_eq lam_untyped (assert c b ty) (assert c' b' ty') _ s h in
        let (d, first, second) = and_match-ok py m const_eq lam_untyped _ _ s chain in
        let (p, x, fc) =
          step py m const_eq lam_untyped c c' (find_template_subst py.same py.equal c c' vars) [] d
            no_values (λ s run. fits c c' vars s (&&-left _ _ plain) (&&-left _ _ u) run) first in
        let (p', x', fb) =
          step py m const_eq lam_untyped b b' (find_template_subst py.same py.equal b b' vars) d s p
            (λ s run.
              fits b b' vars s (&&-right (is_plain c) _ plain) (&&-right (is_untupled c') _ u) run)
            second in
        let later = fits_later c c' d s fc p' x' in
        (
          p',
          Covers-append py m const_eq lam_untyped s (free_vars c) (free_vars b) later.1 fb.1,
          λ env. ap₂ m.assert_of (later.2 env) (fb.2 env),
        )
    fits (if_else c t f ty) (if_else c' t' f' ty') vars s plain u h =
        let (head, n, chain) =
          same_shape-ok py m const_eq lam_untyped (if_else c t f ty) (if_else c' t' f' ty') _ s h in
        let (d, first, rest) = and_match-ok py m const_eq lam_untyped _ _ s chain in
        let (d', second, third) = and_match-ok py m const_eq lam_untyped _ _ s rest in
        let plain' = &&-right (is_plain c) _ plain in
        let u' = &&-right (is_untupled c') _ u in
        let (p, x, fc) =
          step py m const_eq lam_untyped c c' (find_template_subst py.same py.equal c c' vars) [] d
            no_values (λ s run. fits c c' vars s (&&-left _ _ plain) (&&-left _ _ u) run) first in
        let (p', x', ft) =
          step py m const_eq lam_untyped t t' (find_template_subst py.same py.equal t t' vars) d d'
            p (λ s run. fits t t' vars s (&&-left _ _ plain') (&&-left _ _ u') run) second in
        let (p'', x'', ff) =
          step py m const_eq lam_untyped f f' (find_template_subst py.same py.equal f f' vars) d' s
            p'
            (λ s run.
              fits f f' vars s (&&-right (is_plain t) _ plain') (&&-right (is_untupled t') _ u')
                run)
            third in
        let first_later =
          fits_later c c' d s fc p'' (Extends-trans py m const_eq lam_untyped d d' s x' x'') in
        let second_later = fits_later t t' d' s ft p'' x'' in
        (
          p'',
          Covers-append py m const_eq lam_untyped s (free_vars c) (free_vars t ++ free_vars f)
              first_later.1
              (Covers-append py m const_eq lam_untyped s (free_vars t) (free_vars f) second_later.1
                ff.1),
          λ env. cc (first_later.2 env, second_later.2 env, ff.2 env),
        )
    fits (call f ts ty) (call g es ty') vars s plain u h =
        let (head, n, chain) =
          same_shape-ok py m const_eq lam_untyped (call f ts ty) (call g es ty') _ s h in
        let same : f ≡ g = (sname_same_iff f g).0 (sname_eq-ok f g true head) in
        let children = subexps_no_binds-call g es ty' in
        let counted = ap length (sym (subexps_no_binds-call f ts ty)) ∙ n ∙ ap length children in
        let (p, x, (c, means)) =
          fits_args ts (args_list es) vars [] s plain (args-untupled es ∙ u) counted no_values
            (rw children at chain) in
        (p, c, λ env. ap₂ m.call_of (sym same) (sym (evals-args es env) ∙ means env))
    fits t e vars s plain u h = not_some h

    fits_args :
        (ts : Exprs) (es : List Expr) (vars : TemplateVars) (d d' : Substs)
        → are_plain ts ≡ true
        → all is_untupled es ≡ true
        → length (args_list ts) ≡ length es
        → IsProper py m const_eq lam_untyped d
        → find_in_args py.same py.equal ts es vars d ≡ ok (some d')
        → IsProper py m const_eq lam_untyped d'
          × Extends py m const_eq lam_untyped d d'
          × MatchesAll py m const_eq lam_untyped ts es d'
    fits_args no_args [] vars d d' plain u n p h =
        let same : d ≡ d' = cc h in
        subst
          (λ s.
            IsProper py m const_eq lam_untyped s
            × Extends py m const_eq lam_untyped d s
            × MatchesAll py m const_eq lam_untyped no_args [] s)
          same (p, Extends-refl py m const_eq lam_untyped d, (λ y used. cc used, λ env. refl))
    fits_args no_args (e ∷ es) vars d d' plain u n p h = cc n
    fits_args (arg t ts) [] vars d d' plain u n p h = cc n
    fits_args (arg t ts) (e ∷ es) vars d d' plain u n p h =
        let (d1, first, rest) = and_match-ok py m const_eq lam_untyped _ _ d' h in
        let (p1, x1, fe) =
          step py m const_eq lam_untyped t e (find_template_subst py.same py.equal t e vars) d d1 p
            (λ s run. fits t e vars s (&&-left _ _ plain) (&&-left _ _ u) run) first in
        let fewer : length (args_list ts) ≡ length es = omega (arith, n) in
        let (p2, x2, (c, means)) =
          fits_args ts es vars d1 d' (&&-right (is_plain t) _ plain) (&&-right (is_untupled e) _ u)
            fewer p1 rest in
        let later = fits_later t e d1 d' fe p2 x2 in
        (
          p2,
          Extends-trans py m const_eq lam_untyped d d1 d' x1 x2,
          (
            Covers-append py m const_eq lam_untyped d' (free_vars t) (free_vars_args ts) later.1 c,
            λ env. ap₂ ◌∷◌ (later.2 env) (means env),
          ),
        )

  -- Under an interpretation that gives constants which Python finds equal (1, 1.0 and True among
  -- them) one meaning, and functions a meaning that does not depend on the annotation of their
  -- argument: a substitution that is found for a template without binders and an expression whose lets
  -- bind single variables has a value for each variable of the template, each with single-variable
  -- lets, and the expression means what the template means with these values.
  pub find_template_subst_sound :
      (t e : Expr) (vars : TemplateVars) (s : Substs)
      → is_plain t ≡ true
      → is_untupled e ≡ true
      → find_template_subst py.same py.equal t e vars ≡ ok (some s)
      → Covers s (free_vars t)
        × AreUntupled s
        × ((env : Env V) → eval m e env ≡ eval m t (over m s env))
  find_template_subst_sound t e vars s plain u h =
      let ((d, values), c, same) = fits t e vars s plain u h in (c, values, same)
