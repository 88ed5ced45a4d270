-- ===== src/Rewrites/Template/Subst.antt =====
-- src/python/ksc/rewrites.py, `SubstPattern`: on a pattern without binders the result means what
-- the pattern means with the substituted expressions.
use knossos_ksc.Base.{
  ◌≡◌, refl, ap, ap₂, ◌∙◌, subst, true, Option, none, some, [], ◌∷◌, inl, inr, &&-left, &&-right,
  &&-both, Bool-cases,
}
use knossos_ksc.Base.Result.{Result, ok, err, map_ok, >>=-eq-ok, key_error}
use knossos_ksc.Base.Assoc.{text_key, lookup}
use knossos_ksc.Types.Defs.{KsType, contains_any}
use knossos_ksc.Expr.{
  Var, one, many, Expr, Exprs, const, var, call, lam, let_in, if_else, assert, no_args, arg,
  type_of, is_untupled, are_untupled,
}
use knossos_ksc.Expr.Meaning.{Meaning, Env, eval, eval_args}
use knossos_ksc.Propagate.Keeps.{Kept, type_propagate-Kept}
use knossos_ksc.Subst.{Substs}
use knossos_ksc.Subst.Step.{over}
use knossos_ksc.Rewrites.Template.{without_type, retype, retyped, subst_pattern, subst_pattern_args}
use knossos_ksc.Rewrites.Template.Match.{AreUntupled}
use knossos_ksc.Rewrites.Template.Fits.{is_plain, are_plain}

map_ok-arg :
    (e : Expr) (r : Result Exprs) {es' : Exprs}
    → map_ok (λ es. arg e es) r ≡ ok es'
    → (es : Exprs) × (r ≡ ok es) × (arg e es ≡ es')
map_ok-arg e (err k) h = cc h
map_ok-arg e (ok es) h = (es, refl, cc h)

module _ {V : Type 0} (m : Meaning V) where
  without_type-untupled : (e : Expr) → is_untupled e ≡ true → is_untupled (without_type e) ≡ true
  unfolding is_untupled
  without_type-untupled (const c) u = u
  without_type-untupled (var x) u = u
  without_type-untupled (call f es t) u = u
  without_type-untupled (lam x b t) u = u
  without_type-untupled (let_in (one x) r b t) u = u
  without_type-untupled (let_in (many x xs) r b t) u = u
  without_type-untupled (if_else c d f t) u = u
  without_type-untupled (assert c b t) u = u

  eval-without_type : (e : Expr) (env : Env V) → eval m (without_type e) env ≡ eval m e env
  unfolding eval
  eval-without_type (const c) env = refl
  eval-without_type (var x) env = refl
  eval-without_type (call f es t) env = refl
  eval-without_type (lam x b t) env = refl
  eval-without_type (let_in b r e t) env = refl
  eval-without_type (if_else c d f t) env = refl
  eval-without_type (assert c b t) env = refl

  -- Giving a type to a new node keeps its meaning.
  retype-Kept : (e e' : Expr) → is_untupled e ≡ true → retype e ≡ ok e' → Kept m e e'
  unfolding retype
  retype-Kept e e' u h = by_type (type_of e) h
    where
      by_type : (o : Option KsType) → retyped o e ≡ ok e' → Kept m e e'
      by_type none g = cc g
      by_type (some t) g = elim (Bool-cases (contains_any t)) [
        | inl some_any ↦
            let (u', same) =
              type_propagate-Kept m (without_type e) [] true e' (without_type-untupled e u)
                (rw some_any at g) in
            (u', λ env. same env ∙ eval-without_type e env)
        | inr no_any ↦
            let here : e ≡ e' = cc (rw no_any at g) in subst (Kept m e) here (u, λ env. refl)
      ]

  -- The new expression means what the pattern means where its names have the new values.
  abbrev Filled : Expr → Substs → Expr → Type 0
  Filled e s e' =
      (is_untupled e' ≡ true) × ((env : Env V) → eval m e' env ≡ eval m e (over m s env))

  abbrev FilledArgs : Exprs → Substs → Exprs → Type 0
  FilledArgs es s es' =
      (are_untupled es' ≡ true)
      × ((env : Env V) → eval_args m es' env ≡ eval_args m es (over m s env))

  then_retyped :
      (e e' : Expr) (s : Substs) (made : Expr)
      → Filled e s made
      → retype made ≡ ok e'
      → Filled e s e'
  then_retyped e e' s made (u, same) h =
      let (u', kept) = retype-Kept made e' u h in (u', λ env. kept env ∙ same env)

  fill_var :
      (x : Var) (s : Substs) (o : Option Expr) (e' : Expr)
      → AreUntupled s
      → lookup x.name s ≡ o
      → (elim o [ none ↦ err key_error | some e ↦ retype e ]) ≡ ok e'
      → Filled (var x) s e'
  unfolding eval
  fill_var x s none e' u at h = cc h
  fill_var x s (some e) e' u at h = then_retyped (var x) e' s e (u x.name e at, λ env. rw at refl) h

  mutual
    unfolding subst_pattern subst_pattern_args is_plain is_untupled eval

    filled :
        (e : Expr) (s : Substs) (e' : Expr)
        → is_plain e ≡ true
        → AreUntupled s
        → subst_pattern e s ≡ ok e'
        → Filled e s e'
    filled (const c) s e' plain u h = then_retyped (const c) e' s (const c) (refl, λ env. refl) h
    filled (var x) s e' plain u h = fill_var x s (lookup x.name s) e' u refl h
    filled (lam x b t) s e' plain u h = cc plain
    filled (let_in b r e t) s e' plain u h = cc plain
    filled (call f es t) s e' plain u h =
        let (es', run, rest) = >>=-eq-ok (subst_pattern_args es s) _ h in
        let (u', same) = filled_args es s es' plain u run in
        then_retyped (call f es t) e' s (call f es' t) (u', λ env. ap (m.call_of f) (same env)) rest
    filled (if_else c d f t) s e' plain u h =
        let (c', run, rest) = >>=-eq-ok (subst_pattern c s) _ h in
        let (d', run', rest') = >>=-eq-ok (subst_pattern d s) _ rest in
        let (f', run'', made) = >>=-eq-ok (subst_pattern f s) _ rest' in
        let plain' = &&-right (is_plain c) _ plain in
        let (uc, same_c) = filled c s c' (&&-left _ _ plain) u run in
        let (ud, same_d) = filled d s d' (&&-left _ _ plain') u run' in
        let (uf, same_f) = filled f s f' (&&-right (is_plain d) _ plain') u run'' in
        then_retyped (if_else c d f t) e' s (if_else c' d' f' t)
          (&&-both uc (&&-both ud uf), λ env. cc (same_c env, same_d env, same_f env)) made
    filled (assert c b t) s e' plain u h =
        let (c', run, rest) = >>=-eq-ok (subst_pattern c s) _ h in
        let (b', run', made) = >>=-eq-ok (subst_pattern b s) _ rest in
        let (uc, same_c) = filled c s c' (&&-left _ _ plain) u run in
        let (ub, same_b) = filled b s b' (&&-right (is_plain c) _ plain) u run' in
        then_retyped (assert c b t) e' s (assert c' b' t)
          (&&-both uc ub, λ env. ap₂ m.assert_of (same_c env) (same_b env)) made

    filled_args :
        (es : Exprs) (s : Substs) (es' : Exprs)
        → are_plain es ≡ true
        → AreUntupled s
        → subst_pattern_args es s ≡ ok es'
        → FilledArgs es s es'
    filled_args no_args s es' plain u h =
        let same : no_args ≡ es' = cc h in subst (FilledArgs no_args s) same (refl, λ env. refl)
    filled_args (arg e es) s es' plain u h =
        let (e1, run, rest) = >>=-eq-ok (subst_pattern e s) _ h in
        let (es1, run', made) = map_ok-arg e1 (subst_pattern_args es s) rest in
        let (ue, same_e) = filled e s e1 (&&-left _ _ plain) u run in
        let (us, same_s) = filled_args es s es1 (&&-right (is_plain e) _ plain) u run' in
        subst (FilledArgs (arg e es) s) made
          (&&-both ue us, λ env. ap₂ ◌∷◌ (same_e env) (same_s env))

  -- The names of a pattern without binders stand for expressions whose lets bind single variables:
  -- where the substitution succeeds, the result means what the pattern means with these values, and
  -- its lets bind single variables.
  pub subst_pattern_sound :
      (e : Expr) (s : Substs) (e' : Expr)
      → is_plain e ≡ true
      → AreUntupled s
      → subst_pattern e s ≡ ok e'
      → (is_untupled e' ≡ true) × ((env : Env V) → eval m e' env ≡ eval m e (over m s env))
  subst_pattern_sound e s e' plain u h = filled e s e' plain u h
