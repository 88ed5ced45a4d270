-- ===== src/Rewrites.antt =====
-- src/python/ksc/rewrites.py: the places of an expression where a rule applies. A generator is the
-- list of what it yields: its readers turn it into a list. A rule is known by its name, under which
-- the source registers it once. The call of `apply_rewrite` is a value, computed when it is read.
-- Python's `==` on constants is a parameter.
pub mod Reach
pub mod Traverse
pub mod Matches
pub mod Table
pub mod Sets
pub mod PutPath
pub mod Splice
pub mod Rules
pub mod Sound
pub mod Sequence
pub mod Builtin
pub mod Hole
pub mod Below
pub mod Insert
pub mod Inline
pub mod Template
use knossos_ksc.Base.{
  ℕ, suc, Bool, true, false, ◌&&◌, ◌||◌, not, Option, none, some, List, [], ◌∷◌, ◌++◌,
  if◌then◌else◌, any, all,
}
use knossos_ksc.Base.Text.{Text, text, elem, text_eq}
use knossos_ksc.Base.Result.{
  Result, ok, err, assertion_error, attribute_error, type_error, ◌>>=◌, ◌>>◌, require, map_ok,
}
use knossos_ksc.Base.Assoc.{Dict, text_key, lookup, insert, keep}
use knossos_ksc.Names.{StructuredName, plain, sname_same}
use knossos_ksc.Names.Laws.{sname_key}
use knossos_ksc.Expr.{
  Constant, float_value, Var, Binder, one, many, Expr, Exprs, const, var, call, lam, let_in,
  if_else, assert, no_args, arg, free_vars, names, Def,
}
use knossos_ksc.Paths.{
  ExprPath, PathElement, let_rhs, let_body, if_cond, if_t_body, if_f_body, assert_cond, assert_body,
  lam_body, call_arg, starts_with,
}
use knossos_ksc.Alpha.{
  FilterTerm, var_class, lam_class, let_class, if_class, assert_class, value, call_name,
  get_filter_term,
}
use knossos_ksc.Subst.{Request, replace_subtree}
use knossos_ksc.Primitives.{make_prim_call}
use knossos_ksc.Untuple.{untuple_one_let}

pub record ExprWithPath : Type 0 where
  pub root : Expr
  pub path : ExprPath
  pub expr : Expr

pub record Environment : Type 0 where
  pub let_vars : Dict Text ExprPath
  pub defs : Dict StructuredName Def

pub record Match : Type 0 where
  pub rule : Text
  pub apply_rewrite : Result Expr
  pub ewp : ExprWithPath

-- `matches_here`, the one method of a matcher.
abbrev pub Matcher : Type 0
Matcher = ExprWithPath → Environment → Result (List Match)

-- `yield from` one generator and then from another.
abbrev pub and_also : Result (List Match) → Result (List Match) → Result (List Match)
and_also first rest = first >>= λ ms. map_ok (λ ns. ms ++ ns) rest

abbrev pub bind_location : Text → ExprPath → Environment → Environment
bind_location x path env = record env { let_vars = insert x path env.let_vars }

abbrev pub discard : Text → Environment → Environment
discard x env = record env { let_vars = keep (λ k. not (text_eq k x)) env.let_vars }

-- The class of the name of a list of variables has no such attribute.
abbrev pub let_env : Binder → ExprPath → Environment → Result Environment
let_env (one x) path env = ok (bind_location x.name path env)
let_env (many x xs) path env = err attribute_error

module _ (matches_here : Matcher) (root : Expr) where
  abbrev pub here : ExprPath → Expr → Environment → Result (List Match)
  here path e env = matches_here (record { root = root; path = path; expr = e }) env

  -- `_matches_with_env`.
  unfoldable mutual
    pub matches_with_env : Expr → ExprPath → Environment → Result (List Match)
    matches_with_env (let_in b rhs body t) path env =
        and_also (here path (let_in b rhs body t) env) (
          and_also (matches_with_env rhs (path ++ let_rhs ∷ []) env)
            (let_env b path env >>= matches_with_env body (path ++ let_body ∷ [])))
    matches_with_env (lam x body t) path env =
        and_also (here path (lam x body t) env)
          (matches_with_env body (path ++ lam_body ∷ []) (discard x.name env))
    matches_with_env (const c) path env = and_also (here path (const c) env) (ok [])
    matches_with_env (var x) path env = and_also (here path (var x) env) (ok [])
    matches_with_env (call f args t) path env =
        and_also (here path (call f args t) env) (matches_in_args args path 0 env)
    matches_with_env (if_else c t f ty) path env = and_also (here path (if_else c t f ty) env) (
        and_also (matches_with_env c (path ++ if_cond ∷ []) env) (
          and_also (matches_with_env t (path ++ if_t_body ∷ []) env)
            (matches_with_env f (path ++ if_f_body ∷ []) env)))
    matches_with_env (assert c b ty) path env = and_also (here path (assert c b ty) env) (
        and_also (matches_with_env c (path ++ assert_cond ∷ []) env)
          (matches_with_env b (path ++ assert_body ∷ []) env))

    pub matches_in_args : Exprs → ExprPath → ℕ → Environment → Result (List Match)
    matches_in_args no_args path n env = ok []
    matches_in_args (arg e es) path n env =
        and_also (matches_with_env e (path ++ call_arg n ∷ []) env)
          (matches_in_args es path (suc n) env)

abbrev pub initial_env : Dict StructuredName Def → Environment
initial_env defs = record { let_vars = []; defs = defs }

unfoldable pub find_all_matches : Matcher → Expr → Dict StructuredName Def → Result (List Match)
unfolding matches_with_env
find_all_matches m e defs = matches_with_env m e e [] (initial_env defs)

-- A `RuleMatcher`.
pub record RuleMatcher : Type 0 where
  pub name : Text
  pub possible_filter_terms : List FilterTerm
  pub may_match_any_call : Bool
  pub matches_for_possible_expr : ExprWithPath → Environment → Result (List Match)

abbrev pub is_call : Expr → Bool
is_call (call f args t) = true
is_call _ = false

module _ (py_eq : Constant → Constant → Bool) where
  -- Equality of the elements of a set of filter terms.
  unfoldable pub term_same : FilterTerm → FilterTerm → Bool
  term_same var_class var_class = true
  term_same lam_class lam_class = true
  term_same let_class let_class = true
  term_same if_class if_class = true
  term_same assert_class assert_class = true
  term_same (value c) (value d) = py_eq c d
  term_same (call_name f) (call_name g) = sname_same f g
  term_same _ _ = false

  -- The test of `RuleMatcher.matches_here`.
  unfoldable pub is_possible : RuleMatcher → Expr → Bool
  unfolding term_same
  is_possible r e =
      any (term_same (get_filter_term e)) r.possible_filter_terms
      || (is_call e && r.may_match_any_call)

  unfoldable pub rule_matches_here : RuleMatcher → Matcher
  unfolding is_possible
  rule_matches_here r ewp env =
      if is_possible r ewp.expr then r.matches_for_possible_expr ewp env else ok []

  -- `RuleSet`.
  pub record RuleSet : Type 0 where
    pub rules_by_filter_term : List (FilterTerm × List RuleMatcher)
    pub any_call_rules : List RuleMatcher

  -- `setdefault(term, []).append(rule)`.
  unfoldable pub add_for_term :
      RuleMatcher
      → FilterTerm
      → List (FilterTerm × List RuleMatcher)
      → List (FilterTerm × List RuleMatcher)
  unfolding term_same
  add_for_term r term [] = (term, r ∷ []) ∷ []
  add_for_term r term ((t, rs) ∷ table) =
      let rest = add_for_term r term table in
      if term_same term t then (t, rs ++ r ∷ []) ∷ table else (t, rs) ∷ rest

  -- `get(term, [])`.
  unfoldable pub rules_for_term :
      FilterTerm → List (FilterTerm × List RuleMatcher) → List RuleMatcher
  unfolding term_same
  rules_for_term term [] = []
  rules_for_term term ((t, rs) ∷ table) =
      let rest = rules_for_term term table in if term_same term t then rs else rest

  abbrev pub add_for_terms :
      RuleMatcher
      → List FilterTerm
      → List (FilterTerm × List RuleMatcher)
      → List (FilterTerm × List RuleMatcher)
  add_for_terms r [] table = table
  add_for_terms r (term ∷ terms) table = add_for_terms r terms (add_for_term r term table)

  -- The body of the loop of the constructor.
  unfoldable pub add_rule : RuleMatcher → RuleSet → RuleSet
  unfolding add_for_term
  add_rule r set = record {
    rules_by_filter_term = add_for_terms r r.possible_filter_terms set.rules_by_filter_term;
    any_call_rules =
        if r.may_match_any_call then set.any_call_rules ++ r ∷ [] else set.any_call_rules;
  }

  abbrev pub add_rules : List RuleMatcher → RuleSet → RuleSet
  add_rules [] set = set
  add_rules (r ∷ rs) set = add_rules rs (add_rule r set)

  unfoldable pub rule_set : List RuleMatcher → RuleSet
  unfolding add_rule
  rule_set rules = add_rules rules (record { rules_by_filter_term = []; any_call_rules = [] })

  -- The rules that `RuleSet.matches_here` runs.
  unfoldable pub possible_rules : RuleSet → Expr → List RuleMatcher
  unfolding rules_for_term
  possible_rules set e =
      let by_term = rules_for_term (get_filter_term e) set.rules_by_filter_term in
      if is_call e then by_term ++ set.any_call_rules else by_term

  abbrev pub run_rules : List RuleMatcher → Matcher
  run_rules [] ewp env = ok []
  run_rules (r ∷ rs) ewp env = and_also (r.matches_for_possible_expr ewp env) (run_rules rs ewp env)

  unfoldable pub set_matches_here : RuleSet → Matcher
  unfolding possible_rules
  set_matches_here set ewp env = run_rules (possible_rules set ewp.expr) ewp env
