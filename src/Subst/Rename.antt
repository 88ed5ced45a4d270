-- ===== src/Subst/Rename.antt =====
-- src/python/ksc/cav_subst.py: `replace_free_vars` keeps the meaning of an expression whose lets
-- bind single variables.
use knossos_ksc.Base.{
  ◌≡◌, refl, ap, ap₂, ◌∙◌, fun_ext, Bool, true, ◌||◌, Option, none, some, List, [], ◌∷◌, ◌++◌,
  arith, Bool-cases, inl, inr, &&-left, &&-right,
}
use knossos_ksc.Base.Text.{Text, text_eq_comm, elem, elem-append, elem-remove, remove}
use knossos_ksc.Base.Result.{Result, ok}
use knossos_ksc.Base.Assoc.{text_key, lookup}
use knossos_ksc.Expr.{
  Var, one, many, Expr, Exprs, const, var, call, lam, let_in, if_else, assert, no_args, arg,
  free_vars, is_untupled, are_untupled,
}
use knossos_ksc.Expr.Meaning.{Meaning, Env, update, bind, eval, eval_args, eval-Agree}
use knossos_ksc.Fresh.{make_nonfree_var_lem, taken}
use knossos_ksc.Subst.{
  Substs, values, relevant, rename_if_needed, rename_binder, unless_empty, or_var, rename,
  rename_args, replace_free_vars,
}
use knossos_ksc.Subst.Step.{FreeIn, over, relevant-Agree, rename_if_needed-Agree}

pub FreeIn-remove :
    (binder : Expr) (x : Text) (ys : List Text)
    → free_vars binder ≡ remove x ys
    → FreeIn binder x ys
FreeIn-remove binder x ys e y h ne = rw e (elem-remove y x ys ∙ rw (h, text_eq_comm y x, ne) refl)

pub FreeIn-remove_append :
    (binder : Expr) (x : Text) (zs ys : List Text)
    → free_vars binder ≡ zs ++ remove x ys
    → FreeIn binder x ys
FreeIn-remove_append binder x zs ys e y h ne = rw e (
    elem-append y zs (remove x ys)
    ∙ rw (elem-remove y x ys, h, text_eq_comm y x, ne) (or_true (elem y zs)))
  where
    or_true : (b : Bool) → (b || true) ≡ true
    or_true b = ground arith

pub rename_if_needed-type :
    (x : Var) (binder : Expr) (loads : List Expr) (s : Substs)
    → (rename_if_needed x binder loads s).0.type_ ≡ x.type_
unfolding rename_if_needed
rename_if_needed-type x binder loads s = elim (Bool-cases (taken (loads ++ values s) x.name)) [
  | inl used ↦ rw used ((make_nonfree_var_lem x.name (binder ∷ (loads ++ values s)) x.type_).1)
  | inr unused ↦ rw unused
]

-- An interpretation in which everything means the same.
nothing : Meaning (Unit {0})
nothing = record {
  const_of = λ c. tt;
  call_of = λ f args. tt;
  lam_of = λ t f. tt;
  part_of = λ i n v. tt;
  if_of = λ c t f. tt;
  assert_of = λ c b. tt;
}

module _ {V : Type 0} (m : Meaning V) where
  -- The renamed expression exists, and means what the old one means in the new environment.
  abbrev pub Renames : Expr → Substs → Result Expr → Type 0
  Renames e s r =
      (e' : Expr) × (r ≡ ok e') × ((env : Env V) → eval m e' env ≡ eval m e (over m s env))

  abbrev RenamesArgs : Exprs → Substs → Result Exprs → Type 0
  RenamesArgs es s r =
      (es' : Exprs) × (r ≡ ok es')
      × ((env : Env V) → eval_args m es' env ≡ eval_args m es (over m s env))

  unless_empty-Renames :
      (e : Expr) (s t : Substs) (r : Result Expr)
      → ((env : Env V) → eval m e (over m s env) ≡ eval m e (over m t env))
      → Renames e s r
      → Renames e t (unless_empty s e r)
  unfolding lookup
  unless_empty-Renames e [] t r same h = (e, refl, same)
  unless_empty-Renames e (x ∷ s) t r same h = let (e', p, q) = h in (e', p, λ env. q env ∙ same env)

  -- It is enough to look at the substitutions for the free variables.
  finish :
      (e : Expr) (t : Substs) (r : Result Expr)
      → Renames e (relevant e t) r
      → Renames e t (unless_empty (relevant e t) e r)
  finish e t r h =
      unless_empty-Renames e (relevant e t) t r
        (λ env.
          eval-Agree m e (over m (relevant e t) env) (over m t env) (relevant-Agree m e t env))
        h

  or_var-Renames : (x : Var) (s : Substs) → Renames (var x) s (ok (or_var (lookup x.name s) x))
  unfolding eval
  or_var-Renames x s = go (lookup x.name s) refl
    where
      go : (o : Option Expr) → lookup x.name s ≡ o → Renames (var x) s (ok (or_var o x))
      go none e = (var x, refl, λ env. rw e)
      go (some r) e = (r, refl, λ env. rw e)

  under_binder :
      (x : Var) (body binder : Expr) (s : Substs)
      → FreeIn binder x.name (free_vars body)
      → ((u : Substs) → Renames body u (rename body u))
      → let new = rename_if_needed x binder [] s in
        (body' : Expr) × (rename body new.1 ≡ ok body')
        × ((env : Env V) (v : V)
            → eval m body' (update env new.0.name v) ≡ eval m body (update (over m s env) x.name v))
  under_binder x body binder s free ih =
      let new = rename_if_needed x binder [] s in
      let (body', p, q) = ih new.1 in
      (
        body',
        p,
        λ env v.
            q (update env new.0.name v)
            ∙ eval-Agree m body (over m new.1 (update env new.0.name v))
                (update (over m s env) x.name v)
                (rename_if_needed-Agree m x binder [] s (free_vars body) free env v),
      )

  mutual
    unfolding rename rename_binder eval is_untupled free_vars bind

    rename-Renames : (e : Expr) → is_untupled e ≡ true → (s : Substs) → Renames e s (rename e s)
    rename-Renames (const c) h s = (const c, refl, λ env. refl)
    rename-Renames (var x) h s =
        finish (var x) s (ok (or_var (lookup x.name (relevant (var x) s)) x))
          (or_var-Renames x (relevant (var x) s))
    rename-Renames (call f args t) h s =
        let u = relevant (call f args t) s in
        let (args', p, q) = rename_args-Renames args h u in
        finish (call f args t) s _ (call f args' t, rw p, λ env. ap (m.call_of f) (q env))
    rename-Renames (lam x body t) h s =
        let u = relevant (lam x body t) s in
        let (body', p, q) =
          under_binder x body (lam x body t) u
            (FreeIn-remove (lam x body t) x.name (free_vars body) refl)
            (λ w. rename-Renames body h w) in
        finish (lam x body t) s _ (
          lam (rename_if_needed x (lam x body t) [] u).0 body' t,
          rw p,
          λ env. ap₂ m.lam_of (rename_if_needed-type x (lam x body t) [] u) (fun_ext (q env)),
        )
    rename-Renames (let_in (one x) rhs body t) h s =
        let e = let_in (one x) rhs body t in
        let u = relevant e s in
        let (rhs', pr, qr) = rename-Renames rhs (&&-left _ _ h) u in
        let (body', p, q) =
          under_binder x body e u
            (FreeIn-remove_append e x.name (free_vars rhs) (free_vars body) refl)
            (λ w. rename-Renames body (&&-right (is_untupled rhs) _ h) w) in
        finish e s _ (
          let_in (one (rename_if_needed x e [] u).0) rhs' body' t,
          rw (pr, p),
          λ env.
              q env (eval m rhs' env)
              ∙ ap (λ v. eval m body (update (over m u env) x.name v)) (qr env),
        )
    rename-Renames (let_in (many x xs) rhs body t) h s = cc
    rename-Renames (if_else c t f ty) h s =
        let e = if_else c t f ty in
        let u = relevant e s in
        let others = &&-right (is_untupled c) _ h in
        let (c', pc, qc) = rename-Renames c (&&-left _ _ h) u in
        let (t', pt, qt) = rename-Renames t (&&-left _ _ others) u in
        let (f', pf, qf) = rename-Renames f (&&-right (is_untupled t) _ others) u in
        finish e s _ (if_else c' t' f' ty, rw (pc, pt, pf), λ env. cc (qc env, qt env, qf env))
    rename-Renames (assert c b ty) h s =
        let e = assert c b ty in
        let u = relevant e s in
        let (c', pc, qc) = rename-Renames c (&&-left _ _ h) u in
        let (b', pb, qb) = rename-Renames b (&&-right (is_untupled c) _ h) u in
        finish e s _ (assert c' b' ty, rw (pc, pb), λ env. cc (qc env, qb env))

    rename_args-Renames :
        (es : Exprs) → are_untupled es ≡ true → (s : Substs) → RenamesArgs es s (rename_args es s)
    rename_args-Renames no_args h s = (no_args, refl, λ env. refl)
    rename_args-Renames (arg e es) h s =
        let (e', p, q) = rename-Renames e (&&-left _ _ h) s in
        let (es', ps, qs) = rename_args-Renames es (&&-right (is_untupled e) _ h) s in
        (arg e' es', rw (p, ps), λ env. cc (q env, qs env))

-- Substitution for free variables succeeds on every expression whose lets bind single variables,
-- and avoids capture: under every interpretation, and in every environment, the result means what
-- the expression means when each substituted variable has the value of its replacement.
pub eval-replace_free_vars :
    (e : Expr) (subst : Substs)
    → is_untupled e ≡ true
    → (e' : Expr) × (replace_free_vars e subst ≡ ok e')
      × ((V : Type 0) (m : Meaning V) (env : Env V) → eval m e' env ≡ eval m e (over m subst env))
unfolding replace_free_vars
eval-replace_free_vars e subst h =
    let (e', p, q) = rename-Renames nothing e h subst in
    (
      e',
      p,
      λ V m env.
          let (e'', p', q') = rename-Renames m e h subst in
          let same : e' ≡ e'' = cc (p, p') in rw same (q' env),
    )
