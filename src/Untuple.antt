-- ===== src/Untuple.antt =====
-- src/python/ksc/untuple_lets.py and oneargify_defs.py: lets that bind several variables become
-- chains of lets that bind one, and definitions get one argument. A node that the source makes
-- anew has no type.
pub mod Total
pub mod Scope
pub mod Sound
pub mod Keeps
use knossos_ksc.Base.{
  ℕ, ◌+◌, Bool, false, ◌&&◌, Option, none, some, List, [], ◌∷◌, ◌++◌, if◌then◌else◌, leb, ◌==◌,
  length,
}
use knossos_ksc.Base.Text.{Text, text, text_eq}
use knossos_ksc.Base.Decimal.{print}
use knossos_ksc.Base.Result.{
  Result, ok, err, assertion_error, type_error, ◌>>=◌, ◌>>◌, require, map_ok,
}
use knossos_ksc.Types.Defs.{KsType, KsTypes, tuple, all_known}
use knossos_ksc.Names.{plain, mangle_without_type}
use knossos_ksc.Expr.{
  Var, Binder, one, many, Expr, Exprs, const, var, call, lam, let_in, if_else, assert, no_args, arg,
  args_list, Def, Decl, def_decl,
}
use knossos_ksc.Fresh.{make_nonfree_var}

unfoldable pub is_literal_tuple : Expr → Bool
is_literal_tuple (call f args t) = text_eq (mangle_without_type f) (text "tuple")
is_literal_tuple _ = false

abbrev pub get_name : ℕ → ℕ → Text
get_name idx size = text "get$" ++ (print idx ++ (text "$" ++ print size))

abbrev pub get_call : ℕ → ℕ → Expr → Expr
get_call idx size tuple_val = call (plain (get_name idx size)) (arg tuple_val no_args) none

unfoldable pub make_tuple_get : ℕ → ℕ → Expr → Result Expr
make_tuple_get idx size tuple_val =
    require (leb 1 idx && leb idx size) assertion_error >> ok (get_call idx size tuple_val)

-- The loop of the literal tuple, from its last round outwards.
unfoldable pub lets : List Var → Exprs → Expr → Expr
lets (x ∷ xs) (arg e es) body = let_in (one x) e (lets xs es body) none
lets [] es body = body
lets (x ∷ xs) no_args body = body

-- The loop of the other values, from position `posn` on.
unfoldable pub gets : ℕ → ℕ → List Var → Var → Expr → Result Expr
gets posn size [] temp body = ok body
gets posn size (x ∷ xs) temp body = make_tuple_get posn size (var temp) >>= λ g.
    map_ok (λ b. let_in (one x) g b none) (gets (posn + 1) size xs temp body)

abbrev pub temp_var : Expr → Expr → Var
temp_var rhs body = make_nonfree_var (text "temp") (rhs ∷ body ∷ []) none

-- A value that is no literal tuple: a variable is read as it is, another value is computed once.
unfoldable pub untuple_value : List Var → Expr → Expr → Result Expr
unfolding gets
untuple_value xs (var y) body = gets 1 (length xs) xs y body
untuple_value xs rhs body =
    let temp = temp_var rhs body in
    map_ok (λ b. let_in (one temp) rhs b none) (gets 1 (length xs) xs temp body)

abbrev pub call_args : Expr → Exprs
call_args (call f args t) = args
call_args _ = no_args

-- `untuple_one_let` on the let of these parts.
unfoldable pub untuple_one_let : Binder → Expr → Expr → Option KsType → Result Expr
unfolding is_literal_tuple lets untuple_value
untuple_one_let (one x) rhs body t = ok (let_in (one x) rhs body t)
untuple_one_let (many x xs) rhs body t =
    if is_literal_tuple rhs
    then (require (length (args_list (call_args rhs)) == length (x ∷ xs)) assertion_error
        >> ok (lets (x ∷ xs) (call_args rhs) body))
    else untuple_value (x ∷ xs) rhs body

unfoldable mutual
  pub untuple_lets : Expr → Result Expr
  untuple_lets (const c) = ok (const c)
  untuple_lets (var x) = ok (var x)
  untuple_lets (call f args t) = untuple_args args >>= λ es. ok (call f es t)
  untuple_lets (lam x body t) = untuple_lets body >>= λ b. ok (lam x b t)
  untuple_lets (let_in b rhs body t) =
      untuple_lets rhs >>= λ r. untuple_lets body >>= λ e. untuple_one_let b r e none
  untuple_lets (if_else c t f ty) = untuple_lets c >>= λ c'.
      untuple_lets t >>= λ t'. untuple_lets f >>= λ f'. ok (if_else c' t' f' ty)
  untuple_lets (assert c b ty) =
      untuple_lets c >>= λ c'. untuple_lets b >>= λ b'. ok (assert c' b' ty)

  pub untuple_args : Exprs → Result Exprs
  untuple_args no_args = ok no_args
  untuple_args (arg e es) = untuple_lets e >>= λ e'. untuple_args es >>= λ es'. ok (arg e' es')

abbrev vars_of : List Var → List Expr
vars_of [] = []
vars_of (x ∷ xs) = var x ∷ vars_of xs

abbrev types_of : List Var → List (Option KsType)
types_of [] = []
types_of (x ∷ xs) = x.type_ ∷ types_of xs

abbrev func_arg : List Var → Expr → KsTypes → Var
func_arg xs e ts = make_nonfree_var (text "func_arg") (e ∷ vars_of xs) (some (tuple ts))

-- The new argument and body. With no arguments the constructor of `Let` raises.
unfoldable pub oneargify : List Var → Expr → Result (List Var × Expr)
unfolding untuple_one_let
oneargify [] e = err type_error
oneargify (x ∷ []) e = ok (x ∷ [], e)
oneargify (x ∷ y ∷ ys) e = all_known (types_of (x ∷ y ∷ ys)) >>= λ ts.
    let tuple_arg = func_arg (x ∷ y ∷ ys) e ts in
    untuple_one_let (many x (y ∷ ys)) (var tuple_arg) e none >>= λ b. ok (tuple_arg ∷ [], b)

unfoldable pub oneargify_def : Def → Result Def
unfolding oneargify
oneargify_def d =
    oneargify d.args d.body >>= λ (args, body). ok (record d { args = args; body = body })

unfoldable pub oneargify_defs : List Decl → Result (List Decl)
unfolding oneargify_def
oneargify_defs [] = ok []
oneargify_defs (def_decl d ∷ ds) =
    oneargify_def d >>= λ d'. oneargify_defs ds >>= λ ds'. ok (def_decl d' ∷ ds')
oneargify_defs (decl ∷ ds) = oneargify_defs ds >>= λ ds'. ok (decl ∷ ds')
