-- ===== src/Expr.antt =====
-- src/python/ksc/expr.py: the expressions and top-level definitions of the Knossos IR, and their
-- free variables. A float constant is its 64-bit pattern; no theorem computes with it.
pub mod Meaning
use knossos_ksc.Base.{
  ℕ, ◌≡◌, refl, Bool, true, false, ◌&&◌, Option, none, some, List, [], ◌∷◌, ◌++◌, map,
}
use knossos_ksc.Base.Text.{Text, remove}
use knossos_ksc.Base.Int.{ℤ}
use knossos_ksc.Types.Defs.{KsType, integer, float, bool, string}
use knossos_ksc.Names.{StructuredName}

pub data Constant : Type 0 where
  int_value : ℤ → Constant
  float_value : ℕ → Constant
  bool_value : Bool → Constant
  string_value : Text → Constant

pub record Var : Type 0 where
  pub name : Text
  pub type_ : Option KsType

-- The field `vars` of a let: a variable, or a list of them. The list is not empty: the
-- constructor of `Let` raises on an empty one.
pub data Binder : Type 0 where
  one : Var → Binder
  many : Var → List Var → Binder

-- The last field of each node but the constant is its `type_`.
mutual
  pub data Expr : Type 0 where
    const : Constant → Expr
    var : Var → Expr
    call : StructuredName → Exprs → Option KsType → Expr
    lam : Var → Expr → Option KsType → Expr
    let_in : Binder → Expr → Expr → Option KsType → Expr
    if_else : Expr → Expr → Expr → Option KsType → Expr
    assert : Expr → Expr → Option KsType → Expr

  pub data Exprs : Type 0 where
    no_args : Exprs
    arg : Expr → Exprs → Exprs

-- `Type.fromValue` at a constant.
unfoldable pub constant_type : Constant → KsType
constant_type (int_value n) = integer
constant_type (float_value n) = float
constant_type (bool_value b) = bool
constant_type (string_value s) = string

-- The attribute `type_`.
unfoldable pub type_of : Expr → Option KsType
unfolding constant_type
type_of (const c) = some (constant_type c)
type_of (var v) = v.type_
type_of (call f args t) = t
type_of (lam v body t) = t
type_of (let_in vars rhs body t) = t
type_of (if_else cond t_body f_body t) = t
type_of (assert cond body t) = t

abbrev pub args_list : Exprs → List Expr
args_list no_args = []
args_list (arg e es) = e ∷ args_list es

abbrev pub binder_vars : Binder → List Var
binder_vars (one v) = v ∷ []
binder_vars (many v vs) = v ∷ vs

abbrev pub names : List Var → List Text
names [] = []
names (v ∷ vs) = v.name ∷ names vs

abbrev pub remove_all : List Text → List Text → List Text
remove_all [] fv = fv
remove_all (x ∷ xs) fv = remove x (remove_all xs fv)

-- `compute_free_vars`.
unfoldable mutual
  pub free_vars : Expr → List Text
  free_vars (const c) = []
  free_vars (var v) = v.name ∷ []
  free_vars (call f args t) = free_vars_args args
  free_vars (lam v body t) = remove v.name (free_vars body)
  free_vars (let_in vars rhs body t) =
      free_vars rhs ++ remove_all (names (binder_vars vars)) (free_vars body)
  free_vars (if_else cond t_body f_body t) =
      free_vars cond ++ (free_vars t_body ++ free_vars f_body)
  free_vars (assert cond body t) = free_vars cond ++ free_vars body

  pub free_vars_args : Exprs → List Text
  free_vars_args no_args = []
  free_vars_args (arg e es) = free_vars e ++ free_vars_args es

-- Every let binds a single variable, as `untuple_lets` leaves them.
unfoldable mutual
  pub is_untupled : Expr → Bool
  is_untupled (const c) = true
  is_untupled (var x) = true
  is_untupled (call f args t) = are_untupled args
  is_untupled (lam x body t) = is_untupled body
  is_untupled (let_in (one x) rhs body t) = is_untupled rhs && is_untupled body
  is_untupled (let_in (many x xs) rhs body t) = false
  is_untupled (if_else c t f ty) = is_untupled c && (is_untupled t && is_untupled f)
  is_untupled (assert c b ty) = is_untupled c && is_untupled b

  pub are_untupled : Exprs → Bool
  are_untupled no_args = true
  are_untupled (arg e es) = is_untupled e && are_untupled es

-- Top-level definitions. A return type may be missing, to be inferred.
pub record Def : Type 0 where
  pub name : StructuredName
  pub return_type : Option KsType
  pub args : List Var
  pub body : Expr

pub record EDef : Type 0 where
  pub name : StructuredName
  pub return_type : KsType
  pub arg_type : KsType

pub record GDef : Type 0 where
  pub derivation : Text
  pub function_name : StructuredName

pub record Rule : Type 0 where
  pub name : Text
  pub template_vars : List Var
  pub template : Expr
  pub replacement : Expr

-- What a program is a list of.
pub data Decl : Type 0 where
  def_decl : Def → Decl
  edef_decl : EDef → Decl
  gdef_decl : GDef → Decl
  rule_decl : Rule → Decl
