-- ===== src/Rewrites/Template/Fits.antt =====
-- src/python/ksc/rewrites.py, `find_template_subst`: what a match without binders says of the
-- meanings.
use knossos_ksc.Base.{
  ◌≡◌, refl, sym, ap, subst, ◌∙◌, Bool, true, false, ◌&&◌, ◌||◌, Option, none, some, List, [], ◌∷◌,
  ◌++◌, inl, inr, ◌==◌, ==_iff, length, Bool-cases, Option-cases, arith,
}
use knossos_ksc.Base.Text.{Text, text_eq, elem, elem-append}
use knossos_ksc.Base.Result.{ok, err, ◌>>=◌, >>=-eq-ok}
use knossos_ksc.Base.Assoc.{text_key, lookup}
use knossos_ksc.Types.Defs.{KsType}
use knossos_ksc.Expr.{
  Constant, Expr, Exprs, const, var, call, lam, let_in, if_else, assert, no_args, arg, free_vars,
  free_vars_args, is_untupled,
}
use knossos_ksc.Expr.Meaning.{Meaning, Env, eval, eval_args, eval-Agree, Agree}
use knossos_ksc.Paths.{subexps_no_binds}
use knossos_ksc.Alpha.{filter_eq, get_filter_term}
use knossos_ksc.Alpha.Same.{Python}
use knossos_ksc.Alpha.Sound.{eval-are_alpha_equivalent}
use knossos_ksc.Subst.{Substs}
use knossos_ksc.Subst.Step.{over}
use knossos_ksc.Rewrites.Template.{
  Found, and_match, update_all, combine_substs, common_equivalent, same_shape,
}
use knossos_ksc.Rewrites.Template.Match.{
  Distinct, or_else, lookup-update_all, Distinct-update_all, AreUntupled, common_equivalent-at,
  combine_substs-ok,
}

-- No let and no lambda.
unfoldable mutual
  pub is_plain : Expr → Bool
  is_plain (const c) = true
  is_plain (var x) = true
  is_plain (call f args t) = are_plain args
  is_plain (lam x body t) = false
  is_plain (let_in b rhs body t) = false
  is_plain (if_else c t f ty) = is_plain c && (is_plain t && is_plain f)
  is_plain (assert c b ty) = is_plain c && is_plain b

  pub are_plain : Exprs → Bool
  are_plain no_args = true
  are_plain (arg e es) = is_plain e && are_plain es

-- Every name of the list has a value.
abbrev pub Covers : Substs → List Text → Type 0
Covers d xs = (y : Text) → elem y xs ≡ true → (e : Expr) × (lookup y d ≡ some e)

module _ (py : Python) {V : Type 0} (m : Meaning V)
    (const_eq : (c d : Constant) → py.equal c d ≡ true → m.const_of c ≡ m.const_of d)
    (lam_untyped : (t u : Option KsType) (f : V → V) → m.lam_of t f ≡ m.lam_of u f) where
  abbrev pub evals : List Expr → Env V → List V
  evals [] env = []
  evals (e ∷ es) env = eval m e env ∷ evals es env

  -- The second has a value of the same meaning for each value of the first.
  abbrev pub Extends : Substs → Substs → Type 0
  Extends d d' =
      (y : Text) (e : Expr)
      → lookup y d ≡ some e
      → (e' : Expr) × (lookup y d' ≡ some e') × ((env : Env V) → eval m e' env ≡ eval m e env)

  pub Extends-refl : (d : Substs) → Extends d d
  Extends-refl d y e at = (e, at, λ env. refl)

  pub Extends-trans : (a b c : Substs) → Extends a b → Extends b c → Extends a c
  Extends-trans a b c p q y e at =
      let (f, at', same) = p y e at in
      let (g, at'', same') = q y f at' in (g, at'', λ env. same' env ∙ same env)

  pub Covers-Extends : (d d' : Substs) (xs : List Text) → Covers d xs → Extends d d' → Covers d' xs
  Covers-Extends d d' xs c p y h = let (e, at) = c y h in let (f, at', same) = p y e at in (f, at')

  -- Names that have a value keep their meaning.
  pub over-Extends :
      (d d' : Substs) (xs : List Text) (env : Env V)
      → Covers d xs
      → Extends d d'
      → Agree xs (over m d env) (over m d' env)
  over-Extends d d' xs env c p y h =
      let (e, at) = c y h in let (f, at', same) = p y e at in rw (at, at') (sym (same env))

  -- The dictionary is one of distinct names and usable values.
  abbrev pub IsProper : Substs → Type 0
  IsProper d = Distinct d × AreUntupled d

  -- The expression means what the template means under the substitution, which covers it.
  abbrev pub Fits : Expr → Expr → Substs → Type 0
  Fits template exp d =
      IsProper d
      × Covers d (free_vars template)
      × ((env : Env V) → eval m exp env ≡ eval m template (over m d env))

  Fits-Extends :
      (t e : Expr) (d d' : Substs)
      → Fits t e d
      → Extends d d'
      → (env : Env V) → eval m e env ≡ eval m t (over m d' env)
  Fits-Extends t e d d' (p, c, same) x env =
      same env
      ∙ eval-Agree m t (over m d env) (over m d' env) (over-Extends d d' (free_vars t) env c x)

  -- A combination that succeeds extends both sides.
  update_all-Extends :
      (d s : Substs)
      → IsProper d
      → IsProper s
      → common_equivalent py.same py.equal d s ≡ ok true
      → IsProper (update_all d s) × Extends d (update_all d s) × Extends s (update_all d s)
  update_all-Extends d s (dist, unt) (dist', unt') h = (
    (
      Distinct-update_all d s dist,
      λ y e at. elim (Option-cases (lookup y s)) [
        | inl gone ↦ unt y e (rw (found y, gone) at at)
        | inr (f, there) ↦ unt' y e (there ∙ rw (found y, there) at at)
      ],
    ),
    λ y e at. elim (Option-cases (lookup y s)) [
      | inl gone ↦ (e, rw (found y, gone) at, λ env. refl)
      | inr (f, there) ↦ (
        f,
        rw (found y, there) refl,
        λ env. sym (
            eval-are_alpha_equivalent py m e f env const_eq lam_untyped
              (common_equivalent-at py d s y e f h at there)),
      )
    ],
    λ y e at. (e, rw (found y, at) refl, λ env. refl),
  )
    where
      found : (y : Text) → lookup y (update_all d s) ≡ or_else (lookup y s) (lookup y d)
      found y = lookup-update_all y d s dist'

  combined :
      (d s d' : Substs)
      → IsProper d
      → IsProper s
      → combine_substs py.same py.equal d (some s) ≡ ok (some d')
      → IsProper d' × Extends d d' × Extends s d'
  combined d s d' p p' h =
      let (s', found, whole, same) = combine_substs-ok py d d' (some s) h in
      let here : s' ≡ s = cc found in
      subst (λ u. IsProper u × Extends d u × Extends s u) (rw here at whole)
        (update_all-Extends d s p p' (rw here at same))

  -- A child is matched and its substitution combined.
  abbrev pub Step : Expr → Expr → Substs → Substs → Type 0
  Step t e d d' = IsProper d' × Extends d d' × Fits t e d'

  pub step :
      (t e : Expr) (found : Found) (d d' : Substs)
      → IsProper d
      → ((s : Substs) → found ≡ ok (some s) → Fits t e s)
      → (found >>= combine_substs py.same py.equal d) ≡ ok (some d')
      → Step t e d d'
  step t e found d d' p fits h =
      let (o, run, rest) = >>=-eq-ok found (combine_substs py.same py.equal d) h in
      let (s, some_s, whole, same) = combine_substs-ok py d d' o rest in
      let (p', c, means) = fits s (rw some_s at run) in
      let (proper, old, new) = combined d s d' p p' (rw some_s at rest) in
      (
        proper,
        old,
        (proper, Covers-Extends s d' (free_vars t) c new, Fits-Extends t e s d' (p', c, means) new),
      )

  -- Expressions, each with the meaning of its template.
  abbrev pub MatchesAll : Exprs → List Expr → Substs → Type 0
  MatchesAll ts es d =
      Covers d (free_vars_args ts) × ((env : Env V) → evals es env ≡ eval_args m ts (over m d env))

  pub fits_var : (x : Text) (e : Expr) → is_untupled e ≡ true → IsProper ((x, e) ∷ [])
  unfolding lookup
  fits_var x e u = (
    (refl, tt),
    λ y f at. elim (Bool-cases (text_eq x y)) [
      | inl h ↦ let same : e ≡ f = cc (rw h at at) in rw (← same) u
      | inr h ↦ cc (rw h at at)
    ],
  )

  -- A template of nothing, in a substitution that is there.
  pub Covers-append :
      (d : Substs) (xs ys : List Text) → Covers d xs → Covers d ys → Covers d (xs ++ ys)
  Covers-append d xs ys c c' y h = elim (Bool-cases (elem y xs)) [
    | inl k ↦ c y k
    | inr k ↦ c' y (right (elem y xs) (elem y ys) k (sym (elem-append y xs ys) ∙ h))
  ]
    where
      right : (a b : Bool) → a ≡ false → (a || b) ≡ true → b ≡ true
      right a b p q = ground arith

  pub and_match-ok :
      (found : Found) (next : Substs → Found) (d' : Substs)
      → and_match found next ≡ ok (some d')
      → (d : Substs) × (found ≡ ok (some d)) × (next d ≡ ok (some d'))
  and_match-ok (err k) next d' h = cc h
  and_match-ok (ok none) next d' h = cc h
  and_match-ok (ok (some d)) next d' h = (d, refl, h)

  -- The template and the expression have one filter term and as many children.
  pub same_shape-ok :
      (t e : Expr) (children : Found) (d : Substs)
      → same_shape py.same py.equal t e children ≡ ok (some d)
      → (filter_eq py.equal (get_filter_term t) (get_filter_term e) ≡ ok true)
        × (length (subexps_no_binds t) ≡ length (subexps_no_binds e))
        × (children ≡ ok (some d))
  same_shape-ok t e children d h =
      let (same, run, rest) =
        >>=-eq-ok (filter_eq py.equal (get_filter_term t) (get_filter_term e)) _ h in
      elim (Bool-cases same) [
        | inl k ↦ elim (Bool-cases (length (subexps_no_binds t) == length (subexps_no_binds e))) [
          | inl n ↦ (run ∙ ap ok k, (==_iff _ _).0 n, rw (k, n) at rest)
          | inr n ↦ cc (rw (k, n) at rest)
        ]
        | inr k ↦ cc (rw k at rest)
      ]
