-- ===== src/Parse.antt =====
-- src/python/ksc/parse_ks.py: from s-expressions to types, names, expressions and definitions.
-- The s-expressions are those of the reader: symbols, constants, lists and [brackets]; only lists
-- and strings have a length. What the other modules have no value for (a negative rank, a name or
-- an edef with the type None) is reported as `value_error`, where the source goes on.
pub mod Terms
pub mod Types
use knossos_ksc.Base.{
  ℕ, zero, suc, ◌+◌, Bool, true, false, ◌&&◌, ◌||◌, Option, none, some, List, [], ◌∷◌,
  if◌then◌else◌, all,
}
use knossos_ksc.Base.Text.{Text, text, text_eq}
use knossos_ksc.Base.Int.{ℤ, pos, negsuc}
use knossos_ksc.Base.Decimal.{is_digit, value}
use knossos_ksc.Base.Result.{
  Result, ok, err, assertion_error, parse_error, value_error, type_error, index_error,
  ks_type_error, ◌>>=◌, map_ok,
}
use knossos_ksc.Types.Defs.{
  KsType, KsTypes, string, float, integer, bool, any_type, tensor, tuple, lam_type, lm_type, nil,
  all_known, known,
}
use knossos_ksc.Names.{StructuredName, plain, typed, derived}
use knossos_ksc.Expr.{
  Constant, int_value, float_value, bool_value, string_value, Var, Binder, one, many, Expr, Exprs,
  const, var, call, lam, let_in, if_else, assert, no_args, arg, Def, EDef, GDef, Rule, Decl,
  def_decl, edef_decl, gdef_decl, rule_decl,
}

mutual
  pub data SExp : Type 0 where
    symbol : Text → SExp
    atom : Constant → SExp
    list bracket : SExps → SExp

  pub data SExps : Type 0 where
    end : SExps
    item : SExp → SExps → SExps

-- A symbol on its own. `Type(sym)` raises on the kinds that need children.
unfoldable pub symbol_type : Text → Bool → Result (Option (Option KsType))
symbol_type s allow_any =
    if text_eq s (text "None")
    then ok (some none)
    else if text_eq s (text "Integer")
    then ok (some (some integer))
    else if text_eq s (text "Float")
    then ok (some (some float))
    else if text_eq s (text "Bool")
    then ok (some (some bool))
    else if text_eq s (text "String")
    then ok (some (some string))
    else if text_eq s (text "Tuple")
    then ok (some (some (tuple nil)))
    else if text_eq s (text "Any")
    then (if allow_any then ok (some (some any_type)) else ok none)
    else if text_eq s (text "Tensor") || (text_eq s (text "Lam") || text_eq s (text "LM"))
    then err ks_type_error
    else ok none

-- `int(s)` on digits; the text of no digits fails the assertion.
abbrev int_of : Text → Result ℕ
int_of [] = err assertion_error
int_of (c ∷ s) = if all is_digit (c ∷ s) then ok (value (c ∷ s)) else err assertion_error

abbrev pub parse_int : SExp → Result ℕ
parse_int (atom (int_value (pos n))) = ok n
parse_int (atom (int_value (negsuc n))) = err value_error
parse_int (atom (bool_value true)) = ok 1
parse_int (atom (bool_value false)) = ok 0
parse_int (atom (string_value s)) = int_of s
parse_int _ = err type_error

abbrev pub found : Result KsType → Result (Option (Option KsType))
found r = map_ok (λ t. some (some t)) r

abbrev pub sequence : List (Result (Option KsType)) → Result (List (Option KsType))
sequence [] = ok []
sequence (r ∷ rs) = r >>= λ t. sequence rs >>= λ ts. ok (t ∷ ts)

abbrev arrow :
    (KsType → KsType → KsType)
    → Result (Option KsType)
    → Result (Option KsType)
    → Result (Option (Option KsType))
arrow make a r =
    a >>= λ s. r >>= λ t. known s >>= λ s'. known t >>= λ t'. ok (some (some (make s' t')))

-- A list of at least two: its head, its children, and the types that these parse to.
unfoldable pub compound_type :
    SExp → SExps → List (Result (Option KsType)) → Result (Option (Option KsType))
compound_type (symbol s) (item n _) (a ∷ r ∷ []) =
    if text_eq s (text "Tuple")
    then found (sequence (a ∷ r ∷ []) >>= λ ts. map_ok tuple (all_known ts))
    else if text_eq s (text "Tensor")
    then found (parse_int n >>= λ rank. r >>= λ t. map_ok (tensor rank) (known t))
    else if text_eq s (text "Lam")
    then arrow lam_type a r
    else if text_eq s (text "LM")
    then arrow lm_type a r
    else ok none
compound_type (symbol s) es (a ∷ []) =
    if text_eq s (text "Tuple")
    then found (sequence (a ∷ []) >>= λ ts. map_ok tuple (all_known ts))
    else if text_eq s (text "Vec")
    then found (a >>= λ t. map_ok (tensor 1) (known t))
    else ok none
compound_type (symbol s) es rs =
    if text_eq s (text "Tuple")
    then found (sequence rs >>= λ ts. map_ok tuple (all_known ts))
    else ok none
compound_type _ es rs = ok none

abbrev pub required : Result (Option (Option KsType)) → Result (Option KsType)
required r = r >>= λ o. elim o [ none ↦ err parse_error | some t ↦ ok t ]

unfoldable mutual
  pub parse_type_maybe : SExp → Bool → Result (Option (Option KsType))
  parse_type_maybe (symbol s) allow_any = symbol_type s allow_any
  parse_type_maybe (atom c) allow_any = ok none
  parse_type_maybe (bracket es) allow_any = ok none
  parse_type_maybe (list end) allow_any = ok none
  parse_type_maybe (list (item e end)) allow_any = parse_type_maybe e allow_any
  parse_type_maybe (list (item e (item f es))) allow_any =
      compound_type e (item f es) (parse_each_type (item f es) allow_any)

  -- `parse_type` of each.
  pub parse_each_type : SExps → Bool → List (Result (Option KsType))
  parse_each_type end allow_any = []
  parse_each_type (item e es) allow_any =
      required (parse_type_maybe e allow_any) ∷ parse_each_type es allow_any

unfoldable pub parse_type : SExp → Bool → Result (Option KsType)
unfolding parse_type_maybe
parse_type e allow_any = required (parse_type_maybe e allow_any)

abbrev pub parse_name : SExp → Result Text
parse_name (symbol s) = ok s
parse_name _ = err parse_error

-- A type at the end of a name, or else the name that it is of.
abbrev pub name_of : Text → Option (Option KsType) → Result StructuredName → Result StructuredName
name_of s none deeper = map_ok (derived s) deeper
name_of s (some none) deeper = err value_error
name_of s (some (some t)) deeper = ok (typed s t)

unfoldable pub parse_structured_name : SExp → Result StructuredName
unfolding parse_type_maybe
parse_structured_name (symbol s) = ok (plain s)
parse_structured_name (bracket (item e (item f end))) =
    parse_name e >>= λ s. parse_type_maybe f false >>= λ t. name_of s t (parse_structured_name f)
parse_structured_name (bracket end) = err assertion_error
parse_structured_name (bracket (item e end)) = err assertion_error
parse_structured_name (bracket (item e (item f (item g es)))) = err assertion_error
parse_structured_name (atom c) = err parse_error
parse_structured_name (list es) = err parse_error

abbrev is_colon : SExp → Bool
is_colon (symbol s) = text_eq s (text ":")
is_colon _ = false

unfoldable pub parse_arg : SExp → Bool → Result Var
unfolding parse_type
parse_arg (list (item e (item c (item t es)))) allow_any =
    if is_colon c
    then (parse_name e >>= λ x.
        parse_type (list (item t es)) allow_any >>= λ ty. ok (record { name = x; type_ = ty }))
    else err parse_error
parse_arg (list _) allow_any = err parse_error
parse_arg (atom (string_value s)) allow_any = err parse_error
parse_arg _ allow_any = err type_error

unfoldable pub parse_each_arg : SExps → Bool → Result (List Var)
unfolding parse_arg
parse_each_arg end allow_any = ok []
parse_each_arg (item e es) allow_any =
    parse_arg e allow_any >>= λ x. parse_each_arg es allow_any >>= λ xs. ok (x ∷ xs)

-- `ensure_list_of_lists`.
unfoldable pub ensure_list_of_lists : SExp → Result SExps
ensure_list_of_lists (list end) = ok end
ensure_list_of_lists (list (item (list es) rest)) = ok (item (list es) rest)
ensure_list_of_lists (list (item e rest)) = ok (item (list (item e rest)) end)
ensure_list_of_lists _ = err value_error

unfoldable pub parse_args : SExp → Bool → Result (List Var)
unfolding ensure_list_of_lists parse_each_arg
parse_args e allow_any = ensure_list_of_lists e >>= λ es. parse_each_arg es allow_any
