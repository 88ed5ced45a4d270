-- ===== src/Parse/Terms.antt =====
-- src/python/ksc/parse_ks.py: parse_expr and parse_tld. A list is read by its reserved word, or
-- else as a call.
use knossos_ksc.Base.{Bool, true, false, Option, none, some, List, [], ◌∷◌, if◌then◌else◌}
use knossos_ksc.Base.Text.{Text, text, text_eq}
use knossos_ksc.Base.Result.{
  Result, ok, err, parse_error, value_error, type_error, index_error, not_implemented, ◌>>=◌,
  map_ok,
}
use knossos_ksc.Types.Defs.{KsType}
use knossos_ksc.Expr.{
  string_value, Var, Binder, one, many, Expr, Exprs, const, var, call, lam, let_in, if_else, assert,
  no_args, arg, Def, EDef, GDef, Rule, Decl, def_decl, edef_decl, gdef_decl, rule_decl,
}
use knossos_ksc.Parse.{
  SExp, SExps, symbol, atom, list, bracket, end, item, parse_name, parse_structured_name, parse_arg,
  parse_args, parse_type,
}

pub data Keyword : Type 0 where
  if_word assert_word let_word lam_word other_word : Keyword

unfoldable pub keyword : SExp → Keyword
keyword (symbol s) =
    if text_eq s (text "if")
    then if_word
    else if text_eq s (text "assert")
    then assert_word
    else if text_eq s (text "let")
    then let_word
    else if text_eq s (text "lam")
    then lam_word
    else other_word
keyword _ = other_word

abbrev pub untyped : Text → Var
untyped x = record { name = x; type_ = none }

unfoldable pub parse_names : SExps → Result (List Var)
parse_names end = ok []
parse_names (item e es) = parse_name e >>= λ x. parse_names es >>= λ xs. ok (untyped x ∷ xs)

-- The variables of a let. The constructor of `Let` raises on none, after the rest is parsed.
unfoldable pub parse_vars : SExp → Result (Option Binder)
unfolding parse_names
parse_vars (list es) = map_ok binder (parse_names es)
  where
    binder : List Var → Option Binder
    binder [] = none
    binder (x ∷ xs) = some (many x xs)
parse_vars e = map_ok (λ x. some (one (untyped x))) (parse_name e)

abbrev make_let : Option Binder → Expr → Expr → Result Expr
make_let none rhs body = err type_error
make_let (some b) rhs body = ok (let_in b rhs body none)

unfoldable mutual
  pub parse_expr : SExp → Bool → Result Expr
  parse_expr (symbol s) allow_any = ok (var (untyped s))
  parse_expr (atom c) allow_any = ok (const c)
  parse_expr (bracket es) allow_any = err not_implemented
  parse_expr (list end) allow_any = err parse_error
  parse_expr (list (item head es)) allow_any = elim (keyword head) [
    | if_word ↦ parse_if es allow_any
    | assert_word ↦ parse_assert es allow_any
    | let_word ↦ parse_let es allow_any
    | lam_word ↦ parse_lam es allow_any
    | other_word ↦
        parse_structured_name head >>= λ f. parse_exprs es allow_any >>= λ as'. ok (call f as' none)
  ]

  pub parse_exprs : SExps → Bool → Result Exprs
  parse_exprs end allow_any = ok no_args
  parse_exprs (item e es) allow_any =
      parse_expr e allow_any >>= λ a. parse_exprs es allow_any >>= λ as'. ok (arg a as')

  pub parse_if : SExps → Bool → Result Expr
  parse_if (item c (item t (item f end))) allow_any = parse_expr c allow_any >>= λ c'.
      parse_expr t allow_any >>= λ t'. parse_expr f allow_any >>= λ f'. ok (if_else c' t' f' none)
  parse_if _ allow_any = err parse_error

  pub parse_assert : SExps → Bool → Result Expr
  parse_assert (item c (item b end)) allow_any =
      parse_expr c allow_any >>= λ c'. parse_expr b allow_any >>= λ b'. ok (assert c' b' none)
  parse_assert _ allow_any = err parse_error

  pub parse_let : SExps → Bool → Result Expr
  parse_let (item (list (item lhs (item rhs end))) (item body end)) allow_any =
      parse_vars lhs >>= λ b.
      parse_expr rhs allow_any >>= λ r. parse_expr body allow_any >>= λ e. make_let b r e
  parse_let (item (list _) (item body end)) allow_any = err parse_error
  parse_let (item (atom (string_value s)) (item body end)) allow_any = err parse_error
  parse_let (item _ (item body end)) allow_any = err type_error
  parse_let _ allow_any = err parse_error

  -- What follows the body is passed over.
  pub parse_lam : SExps → Bool → Result Expr
  parse_lam end allow_any = err index_error
  parse_lam (item x end) allow_any = parse_arg x allow_any >>= λ v. err index_error
  parse_lam (item x (item body es)) allow_any =
      parse_arg x allow_any >>= λ v. parse_expr body allow_any >>= λ b. ok (lam v b none)

abbrev parse_string : SExp → Result Text
parse_string (atom (string_value s)) = ok s
parse_string _ = err parse_error

-- The type of an edef: None is outside the model.
abbrev declared : Option KsType → Result KsType
declared none = err value_error
declared (some t) = ok t

unfoldable pub parse_def : SExps → Result Def
unfolding parse_expr
parse_def (item f (item t (item xs (item e end)))) = parse_structured_name f >>= λ name.
    parse_type t false >>= λ ty. parse_args xs false >>= λ vs. parse_expr e false >>= λ body.
    ok (record { name = name; return_type = ty; args = vs; body = body })
parse_def _ = err parse_error

unfoldable pub parse_edef : SExps → Result EDef
parse_edef (item f (item t (item a end))) = parse_structured_name f >>= λ name.
    parse_type t false >>= λ ty. parse_type a false >>= λ s. declared ty >>= λ r.
    declared s >>= λ s'. ok (record { name = name; return_type = r; arg_type = s' })
parse_edef _ = err parse_error

unfoldable pub parse_gdef : SExps → Result GDef
parse_gdef (item d (item f end)) = parse_name d >>= λ s.
    parse_structured_name f >>= λ name. ok (record { derivation = s; function_name = name })
parse_gdef _ = err parse_error

unfoldable pub parse_rule : SExps → Result Rule
parse_rule (item s (item xs (item t (item r end)))) = parse_string s >>= λ name.
    parse_args xs true >>= λ vs. parse_expr t true >>= λ t'. parse_expr r true >>= λ r'.
    ok (record { name = name; template_vars = vs; template = t'; replacement = r' })
parse_rule _ = err parse_error

unfoldable pub parse_tld : SExp → Result Decl
unfolding parse_def parse_edef parse_gdef parse_rule
parse_tld (list (item (symbol s) es)) =
    if text_eq s (text "def")
    then map_ok def_decl (parse_def es)
    else if text_eq s (text "edef")
    then map_ok edef_decl (parse_edef es)
    else if text_eq s (text "gdef")
    then map_ok gdef_decl (parse_gdef es)
    else if text_eq s (text "rule")
    then map_ok rule_decl (parse_rule es)
    else err parse_error
parse_tld _ = err parse_error
