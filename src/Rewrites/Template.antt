-- ===== src/Rewrites/Template.antt =====
-- src/python/ksc/rewrites.py: rules that are parsed from text. A template is matched with an
-- expression, which gives a substitution for its variables; the replacement is then substituted
-- into. Python's `is` and its `==` on constants are parameters. The common variables of two
-- substitutions are a set, whose order Python leaves open: here it is that of the first. Where the
-- source sets the type of a node that it has made or found, a node with that type takes its place.
pub mod Match
pub mod Fits
pub mod Sound
pub mod Subst
pub mod Matcher
use knossos_ksc.Base.{
  ◌≡◌, Bool, true, false, not, Option, none, some, List, [], ◌∷◌, ◌++◌, if◌then◌else◌, ◌==◌, length,
  any,
}
use knossos_ksc.Base.Text.{Text, text, text_eq}
use knossos_ksc.Base.Result.{
  Result, ok, err, assertion_error, attribute_error, key_error, type_error, ◌>>=◌, ◌>>◌, require,
  map_ok, and_then,
}
use knossos_ksc.Base.Assoc.{Dict, text_key, lookup, insert}
use knossos_ksc.Types.Defs.{KsType, any_type, type_eq, can_accept_value_of_type, contains_any}
use knossos_ksc.Expr.{
  Constant, Var, Binder, one, many, Expr, Exprs, const, var, call, lam, let_in, if_else, assert,
  no_args, arg, args_list, type_of, free_vars, Rule,
}
use knossos_ksc.Paths.{subexps_no_binds}
use knossos_ksc.Fresh.{make_nonfree_var}
use knossos_ksc.Alpha.{get_filter_term, filter_eq, are_alpha_equivalent}
use knossos_ksc.Subst.{Substs, values}
use knossos_ksc.Propagate.{Symtab, type_propagate, same_type}

-- A substitution, or None.
abbrev pub Found : Type 0
Found = Result (Option Substs)

abbrev pub TemplateVars : Type 0
TemplateVars = Dict Text (Option KsType)

-- `a.can_accept_value_of_type(b)` on types that may be missing: Any accepts also a missing one.
unfoldable pub accepts : Option KsType → Option KsType → Result Bool
accepts none b = err attribute_error
accepts (some a) (some b) = ok (can_accept_value_of_type a b)
accepts (some a) none = if type_eq a any_type then ok true else err attribute_error

abbrev pub known_var : Text → TemplateVars → Bool
known_var x vars = elim (lookup x vars) [ none ↦ false | some t ↦ true ]

-- A failed match stays failed.
abbrev pub and_match : Found → (Substs → Found) → Found
and_match found next = found >>= λ s. elim s [ none ↦ ok none | some d ↦ next d ]

-- `s1.update(s2)`.
abbrev pub update_all : Substs → Substs → Substs
update_all s1 [] = s1
update_all s1 ((x, e) ∷ s2) = update_all (insert x e s1) s2

module _ (py_is : Expr → Expr → Bool) (py_eq : Constant → Constant → Bool) where
  abbrev pub same_value : Expr → Option Expr → Result Bool
  same_value e none = ok true
  same_value e (some e') = are_alpha_equivalent py_is py_eq e e'

  -- `all(…)` on the common variables.
  unfoldable pub common_equivalent : Substs → Substs → Result Bool
  common_equivalent [] s2 = ok true
  common_equivalent ((x, e) ∷ s1) s2 =
      and_then (same_value e (lookup x s2)) (common_equivalent s1 s2)

  unfoldable pub combine_substs : Substs → Option Substs → Found
  unfolding common_equivalent
  combine_substs s1 none = ok none
  combine_substs s1 (some s2) =
      common_equivalent s1 s2 >>= λ same. ok (if same then some (update_all s1 s2) else none)

  -- The tests of the default case: the filter terms, and then the number of children.
  abbrev pub same_shape : Expr → Expr → Found → Found
  same_shape template exp children =
      filter_eq py_eq (get_filter_term template) (get_filter_term exp) >>= λ same.
      if same
      then (if length (subexps_no_binds template) == length (subexps_no_binds exp)
          then children
          else ok none)
      else ok none

  -- `find_template_subst`, on a template of each class.
  unfoldable mutual
    pub find_template_subst : Expr → Expr → TemplateVars → Found
    find_template_subst (var x) exp vars = elim (lookup x.name vars) [
      | none ↦ err assertion_error
      | some t ↦
          map_ok (λ b. if b then some ((x.name, exp) ∷ []) else none) (accepts t (type_of exp))
    ]
    find_template_subst (let_in (one x) r e t) (let_in (one y) r' e' t') vars =
        require (not (known_var x.name vars)) assertion_error
        >> and_match (find_template_subst r r' vars >>= combine_substs ((x.name, var y) ∷ []))
            (λ d. find_template_subst e e' (insert x.name (type_of r) vars) >>= combine_substs d)
    find_template_subst (let_in b r e t) (let_in b' r' e' t') vars = err assertion_error
    find_template_subst (let_in b r e t) exp vars = ok none
    find_template_subst (lam x e t) (lam y e' t') vars =
        let body = find_template_subst e e' (insert x.name y.type_ vars) in
        require (not (known_var x.name vars)) assertion_error
        >> (accepts x.type_ y.type_ >>= λ b.
            if b then (body >>= combine_substs ((x.name, var y) ∷ [])) else ok none)
    find_template_subst (lam x e t) exp vars = ok none
    find_template_subst (const c) exp vars = same_shape (const c) exp (ok (some []))
    find_template_subst (call f args t) exp vars =
        same_shape (call f args t) exp (find_in_args args (subexps_no_binds exp) vars [])
    find_template_subst (if_else c t f ty) exp vars =
        same_shape (if_else c t f ty) exp (elim (subexps_no_binds exp) [
          | c' ∷ t' ∷ f' ∷ [] ↦
              and_match (find_template_subst c c' vars >>= combine_substs []) (λ d.
                and_match (find_template_subst t t' vars >>= combine_substs d)
                  (λ d'. find_template_subst f f' vars >>= combine_substs d'))
          | _ ↦ ok none
        ])
    find_template_subst (assert c b ty) exp vars =
        same_shape (assert c b ty) exp (elim (subexps_no_binds exp) [
          | c' ∷ b' ∷ [] ↦
              and_match (find_template_subst c c' vars >>= combine_substs [])
                (λ d. find_template_subst b b' vars >>= combine_substs d)
          | _ ↦ ok none
        ])

    -- The loop over the children of a call.
    pub find_in_args : Exprs → List Expr → TemplateVars → Substs → Found
    find_in_args no_args exps vars d = ok (some d)
    find_in_args (arg t ts) [] vars d = ok (some d)
    find_in_args (arg t ts) (e ∷ es) vars d =
        and_match (find_template_subst t e vars >>= combine_substs d) (find_in_args ts es vars)

-- `res.type_ = None`. A constant has the type of its value, which is never Any.
abbrev pub without_type : Expr → Expr
without_type (const c) = const c
without_type (var x) = var (record x { type_ = none })
without_type (call f args t) = call f args none
without_type (lam x body t) = lam x body none
without_type (let_in b rhs body t) = let_in b rhs body none
without_type (if_else c t f ty) = if_else c t f none
without_type (assert c b ty) = assert c b none

abbrev pub no_symbols : Symtab
no_symbols = record { var_types = []; fun_types = [] }

abbrev pub retyped : Option KsType → Expr → Result Expr
retyped none e = err attribute_error
retyped (some t) e =
    if contains_any t then type_propagate (without_type e) no_symbols true else ok e

-- The end of `SubstPattern.visit`: a type with Any in it is propagated again.
unfoldable pub retype : Expr → Result Expr
retype e = retyped (type_of e) e

-- `_maybe_add_binder_to_subst`.
unfoldable pub maybe_add_binder : Var → Substs → List Expr → Expr × Substs
maybe_add_binder bound substs dont_capture = elim (lookup bound.name substs) [
  | some target ↦ (target, substs)
  | none ↦
      let fresh = make_nonfree_var (text "t_") (values substs ++ dont_capture) bound.type_ in
      (var fresh, insert bound.name (var fresh) substs)
]

-- A binder of the template stands for a variable, since `find_template_subst` matches it with one.
-- For another expression the source would build a node that is no expression.
abbrev pub bound_var : Expr → Result Var
bound_var (var x) = ok x
bound_var _ = err type_error

-- A lambda needs the type of its variable.
abbrev pub make_lam : Var → Expr → Option KsType → Result Expr
make_lam x body t = elim x.type_ [ none ↦ err assertion_error | some s ↦ ok (lam x body t) ]

-- `if target_var.type_.contains_any(): target_var.type_ = rhs.type_`, of a variable.
abbrev pub settle_type : Var → Option KsType → Result Var
settle_type x rhs_type = elim x.type_ [
  | none ↦ err attribute_error
  | some t ↦ ok (if contains_any t then record x { type_ = rhs_type } else x)
]

-- `SubstPattern`.
unfoldable mutual
  pub subst_pattern : Expr → Substs → Result Expr
  subst_pattern (const c) substs = retype (const c)
  subst_pattern (var x) substs = elim (lookup x.name substs) [
    | none ↦ err key_error
    | some e ↦ retype e
  ]
  subst_pattern (call f args t) substs =
      subst_pattern_args args substs >>= λ es. retype (call f es t)
  subst_pattern (let_in (many x xs) r e t) substs = err assertion_error
  subst_pattern (let_in (one x) r e t) substs = subst_pattern r substs >>= λ r'.
      let (target, substs') = maybe_add_binder x substs (e ∷ []) in
      bound_var target >>= λ y. settle_type y (type_of r') >>= λ y'.
      subst_pattern e (insert x.name (var y') substs') >>= λ e'. retype (let_in (one y') r' e' t)
  subst_pattern (lam x e t) substs =
      let (target, substs') = maybe_add_binder x substs (e ∷ []) in
      bound_var target >>= λ y. subst_pattern e substs' >>= λ e'. make_lam y e' t >>= retype
  subst_pattern (if_else c t f ty) substs = subst_pattern c substs >>= λ c'.
      subst_pattern t substs >>= λ t'. subst_pattern f substs >>= λ f'. retype (if_else c' t' f' ty)
  subst_pattern (assert c b ty) substs =
      subst_pattern c substs >>= λ c'. subst_pattern b substs >>= λ b'. retype (assert c' b' ty)

  pub subst_pattern_args : Exprs → Substs → Result Exprs
  subst_pattern_args no_args substs = ok no_args
  subst_pattern_args (arg e es) substs =
      subst_pattern e substs >>= λ e'. map_ok (λ es'. arg e' es') (subst_pattern_args es substs)
