-- ===== src/Rewrites/Inline.antt =====
-- src/python/ksc/rewrites.py: the rule inline_var keeps the meaning.
use knossos_ksc.Rewrites.Rules.{
  inline_var_matches, inline_var_name, apply_inline_var, inline_at, drop, zero_const,
}
use knossos_ksc.Base.{
  ◌≡◌, refl, sym, ap, ◌∙◌, subst, true, false, Option, some, [], ◌∷◌, ◌++◌, &&-right,
}
use knossos_ksc.Base.Text.{text_eq_refl}
use knossos_ksc.Base.Result.{ok}
use knossos_ksc.Base.Assoc.{text_key, lookup}
use knossos_ksc.Types.Defs.{KsType}
use knossos_ksc.Expr.{Var, one, Expr, var, let_in, is_untupled}
use knossos_ksc.Expr.Meaning.{Meaning, Env, update, bind, eval}
use knossos_ksc.Paths.{ExprPath, let_body, get, get_path, get_path-append, starts_with}
use knossos_ksc.Rewrites.{Environment, ExprWithPath, Match}
use knossos_ksc.Rewrites.Reach.{IsSituated, shadowed}
use knossos_ksc.Rewrites.PutPath.{put_path, eval-put_path, get_path-is_untupled}
use knossos_ksc.Rewrites.Splice.{starts_with-append, replace_subtree_lem}
use knossos_ksc.Rewrites.Builtin.{zero_closed}
use knossos_ksc.Rewrites.Hole.{HoleIs, HoleIs-var}
use knossos_ksc.Rewrites.Insert.{replace_subtree-put}

drop-append : (p q : ExprPath) → drop p (p ++ q) ≡ q
drop-append [] q = refl
drop-append (a ∷ p) q = drop-append p q

module _ {V : Type 0} (m : Meaning V) where
  -- At the let: its value in the place of the variable means what the let means.
  inline_at-let :
      (rest : ExprPath) (y x : Var) (r e : Expr) (t : Option KsType)
      → is_untupled (let_in (one y) r e t) ≡ true
      → get_path rest e ≡ ok (var x)
      → y.name ≡ x.name
      → shadowed x.name rest e ≡ false
      → (new : Expr) × (inline_at (let_body ∷ rest) zero_const (let_in (one y) r e t) ≡ ok new)
        × ((env : Env V) → eval m new env ≡ eval m (let_in (one y) r e t) env)
  unfolding inline_at get_path get HoleIs is_untupled bind
  inline_at-let rest y x r e t u g name clear =
      let (new, run, same) =
        replace_subtree-put m r (let_in (one y) r e t) (var x) (let_body ∷ rest) u g in
      (new, run, λ env. same env (hole env))
    where
      bound : (env : Env V) → update env y.name (eval m r env) x.name ≡ eval m r env
      bound env = rw (name, text_eq_refl x.name) refl

      hole : (env : Env V) → HoleIs m rest e (update env y.name (eval m r env)) (eval m r env)
      hole env = subst (HoleIs m rest e (update env y.name (eval m r env))) (bound env) (
          HoleIs-var m rest e x (update env y.name (eval m r env)) (&&-right (is_untupled r) _ u) g
            clear)

  -- In a root whose lets bind single variables, at a variable that a let around it binds, in the
  -- environment with which the traversal comes to it, inline_var has one match. Its rewrite succeeds: the assertion on the paths holds, and the
  -- value of the let, with no variable captured, takes the place of this occurrence. The result
  -- means what the root means.
  pub inline_var_sound :
      (root : Expr) (x : Var) (path location : ExprPath) (env : Environment)
      → is_untupled root ≡ true
      → IsSituated root (var x) path env
      → lookup x.name env.let_vars ≡ some location
      → (found : Match) × (inline_var_matches
            (record { root = root; path = path; expr = var x })
            env
          ≡ ok (found ∷ []))
        × (e' : Expr) × (found.apply_rewrite ≡ ok e')
        × ((env : Env V) → eval m e' env ≡ eval m root env)
  unfolding inline_var_matches apply_inline_var get_path get
  inline_var_sound root x path location env u (g, lets) bound =
      let (rest, y, r, e, t, split, there, name, clear) = lets x.name location bound in
      let within : get_path rest e ≡ ok (var x) =
        sym (get_path-append location (let_body ∷ rest) root ∙ rw there refl) ∙ rw split at g in
      let v = get_path-is_untupled location root (let_in (one y) r e t) there u in
      let (new, run, same) = inline_at-let rest y x r e t v within name clear in
      let left : drop location path ≡ let_body ∷ rest =
        ap (drop location) split ∙ drop-append location (let_body ∷ rest) in
      let runs : inline_at (drop location path) zero_const (let_in (one y) r e t) ≡ ok new =
        rw left run in
      let within_path : starts_with location path ≡ true =
        ap (starts_with location) split ∙ starts_with-append location (let_body ∷ rest) in
      let ewp : ExprWithPath = record { root = root; path = path; expr = var x } in
      (
        record { rule = inline_var_name; apply_rewrite = apply_inline_var ewp location; ewp = ewp },
        rw (bound, inline_var_matches) refl,
        put_path location new root,
        rw within_path (
            replace_subtree_lem zero_const (inline_at (drop location path)) zero_closed root
              location (let_in (one y) r e t) new u there runs),
        λ env. eval-put_path m (let_in (one y) r e t) new same location root env there,
      )
