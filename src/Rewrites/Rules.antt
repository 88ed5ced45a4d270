-- ===== src/Rewrites/Rules.antt =====
-- src/python/ksc/rewrites.py: the rules inline_var, inline_call and delete_let, and RuleFilter.
use knossos_ksc.Base.{Bool, true, false, not, none, some, List, [], ◌∷◌, if◌then◌else◌, all}
use knossos_ksc.Base.Text.{Text, text, elem}
use knossos_ksc.Base.Result.{
  Result, ok, err, assertion_error, attribute_error, type_error, ◌>>=◌, ◌>>◌, require, map_ok,
}
use knossos_ksc.Base.Assoc.{text_key, lookup}
use knossos_ksc.Names.{plain}
use knossos_ksc.Names.Laws.{sname_key}
use knossos_ksc.Expr.{
  float_value, one, many, Expr, Exprs, const, var, call, let_in, no_args, arg, free_vars, names,
  Def,
}
use knossos_ksc.Paths.{ExprPath, starts_with}
use knossos_ksc.Alpha.{var_class, let_class}
use knossos_ksc.Subst.{replace_subtree}
use knossos_ksc.Primitives.{make_prim_call}
use knossos_ksc.Untuple.{untuple_one_let}
use knossos_ksc.Rewrites.{ExprWithPath, Environment, Match, RuleMatcher}

-- The constant that has no variables to capture.
abbrev pub zero_const : Expr
zero_const = const (float_value 0)

-- `path[len(prefix):]`.
abbrev pub drop : ExprPath → ExprPath → ExprPath
drop [] path = path
drop (p ∷ prefix) [] = []
drop (p ∷ prefix) (q ∷ path) = drop prefix path

-- The applicator of the outer call: `rhs` of the let, in the place of the variable. A node of
-- another class has no such attribute.
unfoldable pub inline_at : ExprPath → Expr → Expr → Result Expr
inline_at path _zero (let_in b rhs body t) =
    replace_subtree (let_in b rhs body t)
      (record { target = path; payload = rhs; applicator = none })
inline_at path _zero _ = err attribute_error

unfoldable pub apply_inline_var : ExprWithPath → ExprPath → Result Expr
unfolding inline_at
apply_inline_var ewp location =
    require (starts_with location ewp.path) assertion_error
    >> replace_subtree ewp.root (record {
      target = location;
      payload = zero_const;
      applicator = some (inline_at (drop location ewp.path));
    })

abbrev pub inline_var_name : Text
inline_var_name = text "inline_var"

unfoldable pub inline_var_matches : ExprWithPath → Environment → Result (List Match)
unfolding apply_inline_var
inline_var_matches ewp env = elim ewp.expr [
  | var x ↦ elim (lookup x.name env.let_vars) [
    | none ↦ ok []
    | some location ↦ ok (
        record { rule = inline_var_name; apply_rewrite = apply_inline_var ewp location; ewp = ewp }
        ∷ [])
  ]
  | _ ↦ err assertion_error
]

unfoldable pub inline_var : RuleMatcher
inline_var = record {
  name = inline_var_name;
  possible_filter_terms = var_class ∷ [];
  may_match_any_call = false;
  matches_for_possible_expr = inline_var_matches;
}

-- The argument of the new let: the one argument, or the tuple of all.
abbrev pub call_arg_of : Exprs → Result Expr
call_arg_of (arg e no_args) = ok e
call_arg_of args = make_prim_call (plain (text "tuple")) args

-- The let that binds the parameters. The constructor of a let with no variables raises: the union
-- of no sets is a TypeError.
abbrev pub bind_params : Def → Expr → Result Expr
bind_params def rhs = elim def.args [
  | [] ↦ err type_error
  | x ∷ [] ↦ ok (let_in (one x) rhs def.body none)
  | x ∷ y ∷ xs ↦ untuple_one_let (many x (y ∷ xs)) rhs def.body none
]

unfoldable pub inline_body : Def → Expr → Expr → Result Expr
inline_body def _zero (call f args t) = call_arg_of args >>= bind_params def
inline_body def _zero _ = err attribute_error

unfoldable pub apply_inline_call : ExprWithPath → Def → Result Expr
unfolding inline_body
apply_inline_call ewp def =
    require (all (λ x. elem x (names def.args)) (free_vars def.body)) assertion_error
    >> replace_subtree ewp.root
        (record { target = ewp.path; payload = zero_const; applicator = some (inline_body def) })

abbrev pub inline_call_name : Text
inline_call_name = text "inline_call"

unfoldable pub inline_call_matches : ExprWithPath → Environment → Result (List Match)
unfolding apply_inline_call
inline_call_matches ewp env = elim ewp.expr [
  | call f args t ↦ elim (lookup f env.defs) [
    | none ↦ ok []
    | some def ↦ ok (
        record { rule = inline_call_name; apply_rewrite = apply_inline_call ewp def; ewp = ewp }
        ∷ [])
  ]
  | _ ↦ err assertion_error
]

unfoldable pub inline_call : RuleMatcher
inline_call = record {
  name = inline_call_name;
  possible_filter_terms = [];
  may_match_any_call = true;
  matches_for_possible_expr = inline_call_matches;
}

abbrev pub delete_let_name : Text
delete_let_name = text "delete_let"

-- The assertions on the visited node; that on its identity is left out.
unfoldable pub drop_let : Expr → Expr → Result Expr
drop_let _zero (let_in (one x) rhs body t) =
    require (not (elem x.name (free_vars body))) assertion_error >> ok body
drop_let _zero (let_in (many x xs) rhs body t) = err attribute_error
drop_let _zero _ = err assertion_error

unfoldable pub delete_let_matches : ExprWithPath → Environment → Result (List Match)
unfolding drop_let
delete_let_matches ewp env = elim ewp.expr [
  | let_in (one x) rhs body t ↦
      if elem x.name (free_vars body)
      then ok []
      else ok (
          record {
            rule = delete_let_name;
            apply_rewrite =
                replace_subtree ewp.root
                  (record { target = ewp.path; payload = zero_const; applicator = some drop_let });
            ewp = ewp;
          }
          ∷ [])
  | let_in (many x xs) rhs body t ↦ err attribute_error
  | _ ↦ err assertion_error
]

unfoldable pub delete_let : RuleMatcher
delete_let = record {
  name = delete_let_name;
  possible_filter_terms = let_class ∷ [];
  may_match_any_call = false;
  matches_for_possible_expr = delete_let_matches;
}

abbrev pub renamed_matches : Text → (Match → Bool) → List Match → List Match
renamed_matches name filter [] = []
renamed_matches name filter (m ∷ ms) =
    let rest = renamed_matches name filter ms in
    if filter m then record m { rule = name } ∷ rest else rest

-- `RuleFilter`, by a filter that does not raise.
unfoldable pub rule_filter : Text → RuleMatcher → (Match → Bool) → RuleMatcher
rule_filter name base filter = record base {
  name = name;
  matches_for_possible_expr =
      λ ewp env. map_ok (renamed_matches name filter) (base.matches_for_possible_expr ewp env);
}
