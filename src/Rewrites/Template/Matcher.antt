-- ===== src/Rewrites/Template/Matcher.antt =====
-- src/python/ksc/rewrites.py, class ParsedRuleMatcher: the rewrites of a parsed rule keep the
-- meaning where the rule itself does.
use knossos_ksc.Rewrites.Rules.{zero_const}
use knossos_ksc.Base.{
  ◌≡◌, refl, sym, ◌∙◌, subst, Bool, true, false, ◌&&◌, Option, none, some, List, [], ◌∷◌, Memᴰ, inl,
  inr, if◌then◌else◌, all, Bool-cases,
}
use mathlib.Core.List.Memᴰ
use knossos_ksc.Base.Text.{Text, elem}
use knossos_ksc.Base.Result.{Result, ok, assertion_error, ◌>>=◌, ◌>>◌, require, >>=-eq-ok}
use knossos_ksc.Base.Assoc.{text_key, insert}
use knossos_ksc.Types.Defs.{KsType}
use knossos_ksc.Expr.{Constant, Var, Expr, Rule, free_vars, names, type_of, is_untupled}
use knossos_ksc.Expr.Meaning.{Meaning, Env, eval}
use knossos_ksc.Paths.{ExprPath, get_path}
use knossos_ksc.Alpha.{are_alpha_equivalent, get_filter_term}
use knossos_ksc.Alpha.Same.{Python}
use knossos_ksc.Subst.{Substs, replace_subtree}
use knossos_ksc.Subst.Step.{over}
use knossos_ksc.Propagate.{same_type}
use knossos_ksc.Rewrites.{Environment, ExprWithPath, Match, RuleMatcher}
use knossos_ksc.Rewrites.PutPath.{get_path-is_untupled}
use knossos_ksc.Rewrites.Splice.{eval-replace_subtree}
use knossos_ksc.Rewrites.Sound.{Keeps}
use knossos_ksc.Rewrites.Template.{TemplateVars, find_template_subst, subst_pattern}
use knossos_ksc.Rewrites.Template.Fits.{is_plain}
use knossos_ksc.Rewrites.Template.Sound.{find_template_subst_sound}
use knossos_ksc.Rewrites.Template.Subst.{subst_pattern_sound}

-- `pmap({v.name: v.type_ …})`.
abbrev pub arg_types : List Var → TemplateVars → TemplateVars
arg_types [] types = types
arg_types (x ∷ xs) types = arg_types xs (insert x.name x.type_ types)

-- `known_vars.issuperset`.
abbrev pub includes : List Text → List Text → Bool
includes known xs = all (λ x. elem x known) xs

module _ (py_is : Expr → Expr → Bool) (py_eq : Constant → Constant → Bool) where
  -- The applicator of `_apply_at`, with its assertions.
  unfoldable pub apply_here : Rule → Substs → Expr → Expr → Result Expr
  apply_here rule substs _zero target = subst_pattern rule.template substs >>= λ matched.
      are_alpha_equivalent py_is py_eq matched target >>= λ same.
      require same assertion_error
      >> (subst_pattern rule.replacement substs >>= λ result.
          require (same_type (type_of result) (type_of target)) assertion_error >> ok result)

  unfoldable pub apply_at : Rule → ExprWithPath → Substs → Result Expr
  unfolding apply_here
  apply_at rule ewp substs = replace_subtree ewp.root (record {
    target = ewp.path;
    payload = zero_const;
    applicator = some (apply_here rule substs);
  })

  -- A side condition may raise.
  abbrev pub SideCondition : Type 0
  SideCondition = Substs → Result Bool

  abbrev pub match_of : Rule → ExprWithPath → Substs → Match
  match_of rule ewp substs = record {
    rule = rule.name;
    apply_rewrite = apply_at rule ewp substs;
    ewp = ewp;
  }

  unfoldable pub parsed_matches :
      Rule → SideCondition → ExprWithPath → Environment → Result (List Match)
  unfolding apply_at
  parsed_matches rule side ewp env =
      find_template_subst py_is py_eq rule.template ewp.expr (arg_types rule.template_vars [])
      >>= λ found. elim found [
        | none ↦ ok []
        | some substs ↦ side substs >>= λ b. ok (if b then match_of rule ewp substs ∷ [] else [])
      ]

  -- The assertions of the constructor: the sides have one type, the template has the declared
  -- variables, and the replacement has no others.
  unfoldable pub parsed_rule_matcher : Rule → SideCondition → Result RuleMatcher
  unfolding parsed_matches
  parsed_rule_matcher rule side =
      let known = names rule.template_vars in
      let used = free_vars rule.template in
      require
        (same_type (type_of rule.template) (type_of rule.replacement)
          && elim (type_of rule.replacement) [ none ↦ false | some t ↦ true ])
        assertion_error
      >> (require (includes known used && includes used known) assertion_error
          >> (require (includes known (free_vars rule.replacement)) assertion_error
              >> ok (record {
                name = rule.name;
                possible_filter_terms = get_filter_term rule.template ∷ [];
                may_match_any_call = false;
                matches_for_possible_expr = parsed_matches rule side;
              })))

module _ (py : Python) {V : Type 0} (m : Meaning V)
    (const_eq : (c d : Constant) → py.equal c d ≡ true → m.const_of c ≡ m.const_of d)
    (lam_untyped : (t u : Option KsType) (f : V → V) → m.lam_of t f ≡ m.lam_of u f) where
  -- What the applicator puts in the place of the expression.
  apply_here_sound :
      (rule : Rule) (e new : Expr) (s : Substs)
      → is_plain rule.template ≡ true
      → is_plain rule.replacement ≡ true
      → ((env : Env V) → eval m rule.template env ≡ eval m rule.replacement env)
      → is_untupled e ≡ true
      → find_template_subst py.same py.equal rule.template e (arg_types rule.template_vars [])
        ≡ ok (some s)
      → apply_here py.same py.equal rule s zero_const e ≡ ok new
      → (is_untupled new ≡ true) × ((env : Env V) → eval m new env ≡ eval m e env)
  unfolding apply_here
  apply_here_sound rule e new s plain plain' valid u found h =
      let (c, values, same) =
        find_template_subst_sound py m const_eq lam_untyped rule.template e _ s plain u found in
      let (t, _, rest) = >>=-eq-ok (subst_pattern rule.template s) _ h in
      let (b, _, rest') = >>=-eq-ok (are_alpha_equivalent py.same py.equal t e) _ rest in
      let (_, _, rest'') = >>=-eq-ok (require b assertion_error) _ rest' in
      let (r, filled, rest3) = >>=-eq-ok (subst_pattern rule.replacement s) _ rest'' in
      let (_, _, made) =
        >>=-eq-ok (require (same_type (type_of r) (type_of e)) assertion_error) _ rest3 in
      let (ur, means) = subst_pattern_sound m rule.replacement s r plain' values filled in
      let here : r ≡ new = cc made in
      subst (λ f. (is_untupled f ≡ true) × ((env : Env V) → eval m f env ≡ eval m e env)) here
        (ur, λ env. means env ∙ (sym (valid (over m s env)) ∙ sym (same env)))

  -- Under an interpretation that gives constants which Python finds equal (1, 1.0 and True among
  -- them) one meaning, and functions a meaning that does not depend on the annotation of their
  -- argument: for a parsed rule with no binders whose sides mean the same, at a place of an expression
  -- whose lets bind single variables, each match comes from a substitution with which the template matches the
  -- expression there; and where the applicator succeeds on that expression, the rewrite of the
  -- whole succeeds and keeps its meaning.
  pub parsed_matches_sound :
      (rule : Rule) (side : Substs → Result Bool) (root e : Expr) (path : ExprPath)
      (env : Environment) (ms : List Match) (x : Match)
      → is_plain rule.template ≡ true
      → is_plain rule.replacement ≡ true
      → ((env : Env V) → eval m rule.template env ≡ eval m rule.replacement env)
      → is_untupled root ≡ true
      → get_path path root ≡ ok e
      → parsed_matches py.same py.equal rule side
          (record { root = root; path = path; expr = e })
          env
        ≡ ok ms
      → Memᴰ x ms
      → (s : Substs) × (find_template_subst py.same py.equal rule.template e
            (arg_types rule.template_vars [])
          ≡ ok (some s))
        × ((new : Expr) → apply_here py.same py.equal rule s zero_const e ≡ ok new → Keeps m root x)
  unfolding parsed_matches apply_at
  parsed_matches_sound rule side root e path env ms x plain plain' valid u g run at_x =
      let (found, matched, rest) =
        >>=-eq-ok
          (find_template_subst py.same py.equal rule.template e (arg_types rule.template_vars [])) _
          run in
      by_found found matched rest
    where
      ewp : ExprWithPath
      ewp = record { root = root; path = path; expr = e }

      Matched : Type 0
      Matched =
          (s : Substs) × (find_template_subst py.same py.equal rule.template e
              (arg_types rule.template_vars [])
            ≡ ok (some s))
          × ((new : Expr)
              → apply_here py.same py.equal rule s zero_const e ≡ ok new
              → Keeps m root x)

      none_left : [] ≡ ms → Matched
      none_left h = absurd (Memᴰ.not-nil (subst (Memᴰ x) (sym h) at_x))

      here :
          (s : Substs)
          → match_of py.same py.equal rule ewp s ∷ [] ≡ ms
          → x ≡ match_of py.same py.equal rule ewp s
      here s h = Memᴰ.eq_of_singleton (subst (Memᴰ x) (sym h) at_x)

      by_found :
          (found : Option Substs)
          → find_template_subst py.same py.equal rule.template e (arg_types rule.template_vars [])
            ≡ ok found
          → (elim found [
            | none ↦ ok []
            | some s ↦
                side s >>= λ b. ok (if b then match_of py.same py.equal rule ewp s ∷ [] else [])
          ])
            ≡ ok ms
          → Matched
      by_found none matched h = none_left (cc h)
      by_found (some s) matched h =
          let (b, go, made) = >>=-eq-ok (side s) _ h in
          elim (Bool-cases b) [
            | inr off ↦ none_left (cc (rw off at made))
            | inl on ↦ (
              s,
              matched,
              λ new made_new.
                  let v = get_path-is_untupled path root e g u in
                  let (un, same) =
                    apply_here_sound rule e new s plain plain' valid v matched made_new in
                  subst (Keeps m root) (sym (here s (cc (rw on at made)))) (
                    eval-replace_subtree m zero_const (apply_here py.same py.equal rule s) root path
                      e new (unfold free_vars in refl) u g made_new un same),
            )
          ]
